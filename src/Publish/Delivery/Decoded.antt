-- ===== src/Publish/Delivery/Decoded.antt =====
-- What JetStream acknowledges and what internal/publish/buffered.go takes to be published.
use device_handler.Prelude.{ℕ, ◌+◌, ◌≡◌, refl, ap, Option, List, arith}
use device_handler.Metrics.{AppMetrics}
use device_handler.Telemetry.{DeploymentSamples}
use device_handler.Telemetrypb
use device_handler.Publish.{PublishConfig, samples_of}
use device_handler.Publish.Jetstream.{Msg, Nats}
use device_handler.Publish.Steps.{envelopes}
use device_handler.Publish.Steps.Conserve.{total, start-IsConserved}
use device_handler.Publish.Delivery.{logged, System, Event, run}
use device_handler.Publish.Delivery.Carried.{
  launched, IsUnmarshal, carried, samples_sent, samples_of_items, total-sent,
}
use device_handler.Publish.Delivery.Kept.{IsKept, run-IsKept}

module _ {W X : Type 0} (nats : Nats W X) (cfg : PublishConfig)
    (unmarshal : List ℕ → Option Telemetrypb.Batch) where
  -- The samples that acknowledged messages carry are, in order, those of the envelopes that count
  -- as published; with those of the envelopes in the buffer, in flight, dropped and lost, they are
  -- the samples that were enqueued, each as often.
  pub record IsDelivered (s : System (W × List Msg)) : Type 0 where
    pub decoded : carried unmarshal s.world.1 ≡ samples_sent s.flow.published
    pub totals :
        (f : DeploymentSamples → ℕ)
        → total f (samples_sent s.flow.accepted)
          ≡ total f (carried unmarshal s.world.1)
            + total f (samples_of s.flow.publisher.buffer)
            + total f (samples_of s.flow.in_flight)
            + total f (samples_sent s.flow.dropped)
            + total f (samples_sent s.flow.lost)

  IsKept-IsDelivered : (s : System (W × List Msg)) → IsKept nats cfg unmarshal s → IsDelivered s
  IsKept-IsDelivered s k = record {
    decoded = k.decoded;
    totals = λ f. omega (
      arith,
      ap (total f) k.decoded,
      k.conserved.totals (λ e. f e.deployment_sample),
      total-sent f s.flow.accepted,
      total-sent f s.flow.published,
      total-sent f s.flow.dropped,
      total-sent f s.flow.lost,
      total-sent f (envelopes s.flow.publisher.buffer),
      total-sent f (envelopes s.flow.in_flight),
      ap (total f) (samples_of_items s.flow.publisher.buffer),
      ap (total f) (samples_of_items s.flow.in_flight),
    );
  }

  -- In any order of enqueues and flushes, and whatever JetStream answers: if proto.Unmarshal undoes
  -- proto.Marshal, the samples that the acknowledged messages carry are, in order, those of the
  -- envelopes that the buffered publisher takes to be published; with the samples of what is in the
  -- buffer, in flight, dropped after its retries, or lost for want of a transmission id, they are
  -- the samples enqueued, each as often.
  pub run-IsDelivered :
      (m : AppMetrics) (w : W) (es : List (Event (W × List Msg)))
      → IsUnmarshal nats unmarshal
      → IsDelivered (run (logged nats) cfg (launched m w) es)
  run-IsDelivered m w es u = IsKept-IsDelivered (run (logged nats) cfg (launched m w) es) (
      run-IsKept nats cfg unmarshal (launched m w) es u
        (record { conserved = start-IsConserved m; matches = refl; decoded = refl }))
