-- ===== src/Publish/Delivery/Kept.antt =====
-- The flush loop of internal/publish/buffered.go over JetStream, one step at a time.
use device_handler.Prelude.{
  ℕ, ◌<◌, ◌≡◌, refl, ap, ◌∙◌, Bool, Option, none, some, List, [], ◌∷◌, ◌++◌, Result, ok, err,
  length, arith,
}
use mathlib.Core.List.{map-append}
use device_handler.Time.{Time}
use device_handler.Telemetry.{Batch}
use device_handler.Telemetrypb
use device_handler.Publish.{
  PublishConfig, TelemetryEnvelope, BufferedItem, BufferedPublisher, Dequeue, Dequeued, samples_of,
}
use device_handler.Publish.Batches.{Dequeues, nothing, batch, gone, dequeue_ready_batch-Dequeues}
use device_handler.Publish.Protobuf.{to_proto_batch}
use device_handler.Publish.Protobuf.Faithful.{of_batch-to_proto_batch}
use device_handler.Publish.Jetstream.{
  Msg, Nats, message_of, timeout_of, acknowledged, send, publish,
}
use device_handler.Publish.Steps as Flow
use device_handler.Publish.Steps.{envelopes, after_dequeue, after_success, after_failure}
use device_handler.Publish.Steps.Conserve.{IsConserved, step-IsConserved}
use device_handler.Publish.Delivery.{
  acknowledges, logged, System, Event, enqueued, dequeued, published, held, after_publish,
  publish_pending, step, run,
}
use device_handler.Publish.Delivery.Carried.{
  IsUnmarshal, samples_in, carried, samples_sent, carried-append, samples_of_items,
}

-- The batch that flush holds is the one in flight.
abbrev Matches : Option Dequeued → List BufferedItem → Type 0
Matches none xs = xs ≡ []
Matches (some d) xs =
    (xs ≡ d.items) × (0 < length d.items) × (d.batch.deployment_samples ≡ samples_of d.items)

module _ {W X : Type 0} (nats : Nats W X) (cfg : PublishConfig)
    (unmarshal : List ℕ → Option Telemetrypb.Batch) where
  pub record IsKept (s : System (W × List Msg)) : Type 0 where
    pub conserved : IsConserved s.flow
    pub matches : Matches s.pending s.flow.in_flight
    pub decoded : carried unmarshal s.world.1 ≡ samples_sent s.flow.published

  dequeue-IsKept :
      (now : Time) (id : Option (List ℕ)) (s : System (W × List Msg))
      (r : BufferedPublisher × Dequeue)
      → Dequeues cfg now id s.flow.publisher r
      → IsConserved (after_dequeue s.flow r)
      → IsKept s
      → IsKept (record s { flow = after_dequeue s.flow r; pending = held s.pending r.1 })
  unfolding after_dequeue
  dequeue-IsKept now id s r (nothing why) c k = record {
    conserved = c;
    matches = k.matches;
    decoded = k.decoded;
  }
  dequeue-IsKept now id s r (batch e b) c k = record {
    conserved = c;
    matches = (refl, b.some_item, b.samples);
    decoded = k.decoded;
  }
  dequeue-IsKept now id s r (gone items e b) c k = record {
    conserved = c;
    matches = k.matches;
    decoded = k.decoded;
  }

  failure-IsKept :
      (now : Time) (s : System (W × List Msg)) (w : W) (xs : List BufferedItem)
      → s.flow.in_flight ≡ xs
      → IsConserved (after_failure cfg now s.flow xs)
      → IsKept s
      → IsKept (record {
        flow = after_failure cfg now s.flow xs;
        pending = none;
        world = (w, s.world.1);
      })
  unfolding after_failure
  failure-IsKept now s w [] e c k = record { conserved = c; matches = e; decoded = k.decoded }
  failure-IsKept now s w (x ∷ xs) e c k = record {
    conserved = c;
    matches = refl;
    decoded = k.decoded;
  }

  success-IsKept :
      (s : System (W × List Msg)) (w : W) (m : Msg) (xs : List BufferedItem)
      → 0 < length xs
      → samples_in (unmarshal m.payload) ≡ samples_of xs
      → IsConserved (after_success s.flow xs)
      → IsKept s
      → IsKept (record {
        flow = after_success s.flow xs;
        pending = none;
        world = (w, s.world.1 ++ (m ∷ []));
      })
  unfolding after_success
  success-IsKept s w m [] h e c k = absurd (omega arith)
  success-IsKept s w m (x ∷ xs) h e c k = record {
    conserved = c;
    matches = refl;
    decoded =
        carried-append unmarshal s.world.1 m
        ∙ rw
            (
              k.decoded,
              e,
              map-append (λ (v : TelemetryEnvelope). v.deployment_sample) s.flow.published
                  (envelopes (x ∷ xs)),
              samples_of_items xs,
            )
            refl;
  }

  failed-IsKept :
      (now : Time) (s : System (W × List Msg)) (w : W)
      → IsKept s
      → IsKept (record {
        flow = Flow.step cfg s.flow (Flow.failed now);
        pending = none;
        world = (w, s.world.1);
      })
  unfolding Flow.step
  failed-IsKept now s w k =
      failure-IsKept now s w s.flow.in_flight refl
        (step-IsConserved cfg s.flow (Flow.failed now) k.conserved) k

  -- The rest of flush, for the answer of the client to the message of the batch.
  answered-IsKept :
      (now : Time) (s : System (W × List Msg)) (d : Dequeued) (payload : List ℕ) (o : Option X × W)
      → s.flow.in_flight ≡ d.items
      → 0 < length d.items
      → samples_in (unmarshal payload) ≡ samples_of d.items
      → IsKept s
      → IsKept (
          after_publish (logged nats) cfg now s.flow (
            acknowledged d.subject
              (acknowledges (message_of d.subject payload d.batch.transmission_id) s.world.1 o)))
  answered-IsKept now s d payload (some x, w) f h e k = failed-IsKept now s w k
  answered-IsKept now s d payload (none, w) f h e k =
      unfold Flow.step in
      success-IsKept s w (message_of d.subject payload d.batch.transmission_id) s.flow.in_flight
        (rw f h) (unfold message_of in rw f e)
        (step-IsConserved cfg s.flow Flow.succeeded k.conserved) k

  send-IsKept :
      (has_deadline : Bool) (now : Time) (s : System (W × List Msg)) (d : Dequeued)
      (r : Result X (List ℕ))
      → IsUnmarshal nats unmarshal
      → nats.marshal (to_proto_batch d.batch) ≡ r
      → Matches (some d) s.flow.in_flight
      → IsKept s
      → IsKept (
          after_publish
            (logged nats)
            cfg
            now
            s.flow
            (send (logged nats) cfg has_deadline d.subject d.batch r s.world))
  send-IsKept has_deadline now s d (err x) u e m k = failed-IsKept now s s.world.0 k
  send-IsKept has_deadline now s d (ok payload) u e m k =
      answered-IsKept now s d payload
        (nats.publish_msg (message_of d.subject payload d.batch.transmission_id)
          (timeout_of has_deadline cfg.timeout) s.world.0)
        m.0 m.1
        (ap samples_in (u.reads (to_proto_batch d.batch) payload e)
          ∙ ap (λ (b : Batch). b.deployment_samples) (of_batch-to_proto_batch d.batch)
          ∙ m.2)
        k

  publish_pending-IsKept :
      (has_deadline : Bool) (now : Time) (s : System (W × List Msg)) (o : Option Dequeued)
      → IsUnmarshal nats unmarshal
      → Matches o s.flow.in_flight
      → IsKept s
      → IsKept (publish_pending (logged nats) cfg has_deadline now s o)
  unfolding publish
  publish_pending-IsKept has_deadline now s none u m k = k
  publish_pending-IsKept has_deadline now s (some d) u m k =
      send-IsKept has_deadline now s d (nats.marshal (to_proto_batch d.batch)) u refl m k

  step-IsKept :
      (s : System (W × List Msg)) (e : Event (W × List Msg))
      → IsUnmarshal nats unmarshal
      → IsKept s
      → IsKept (step (logged nats) cfg s e)
  unfolding step Flow.step
  step-IsKept s (enqueued e) u k = record {
    conserved = step-IsConserved cfg s.flow (Flow.enqueued e) k.conserved;
    matches = k.matches;
    decoded = k.decoded;
  }
  step-IsKept s (dequeued now id) u k =
      dequeue-IsKept now id s _ (dequeue_ready_batch-Dequeues cfg now id s.flow.publisher)
        (step-IsConserved cfg s.flow (Flow.dequeued now id) k.conserved) k
  step-IsKept s (published has_deadline now) u k =
      publish_pending-IsKept has_deadline now s s.pending u k.matches k

  pub run-IsKept :
      (s : System (W × List Msg)) (es : List (Event (W × List Msg)))
      → IsUnmarshal nats unmarshal
      → IsKept s
      → IsKept (run (logged nats) cfg s es)
  unfolding run
  run-IsKept s [] u k = k
  run-IsKept s (e ∷ es) u k = run-IsKept (step (logged nats) cfg s e) es u (step-IsKept s e u k)
