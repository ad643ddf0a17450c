-- ===== src/Tests/Delivery.antt =====
-- Examples for the way from the buffer to JetStream.
use device_handler.Prelude.{
  ℕ, ◌+◌, ◌^◌, ◌≡◌, refl, sym, ap, false, Option, none, some, length, List, [], ◌∷◌, Result, ok,
  err,
}
use device_handler.Text.{Text, codes}
use device_handler.Metrics.{new_app_metrics}
use device_handler.Telemetrypb.{
  Batch, DeploymentSamples, ChannelSeries, BatterySeries, SignalSeries,
}
use device_handler.Publish.{BufferedPublisher, dequeue_ready_batch, enqueue, new_buffered_publisher}
use device_handler.Publish.Jetstream.{Msg, Nats}
use device_handler.Publish.Start.{Turn, done, start, Undelivered, answer, start-Undelivered}
use device_handler.Publish.Delivery.{Event, enqueued, dequeued, published, logged, run}
use device_handler.Publish.Delivery.Carried.{IsUnmarshal, carried, launched}
use device_handler.Publish.Delivery.Decoded.{IsDelivered, run-IsDelivered}
use device_handler.Tests.{settings, sample, envelope}

-- A wire format for batches of one sample that has one time and no series: the ids, and the times.
abbrev sample_bytes :
    List ℕ
    → ℕ
    → Option ℕ
    → Option ℕ
    → ℕ
    → List ℕ
    → List ChannelSeries
    → List BatterySeries
    → List SignalSeries
    → Result Text (List ℕ)
sample_bytes id deployment none none t0 (t ∷ []) [] [] [] = ok (deployment ∷ t0 ∷ t ∷ id)
sample_bytes id deployment device gateway t0 ts cs bs ss = err []

abbrev batch_bytes : List ℕ → Option ℕ → List DeploymentSamples → Result Text (List ℕ)
batch_bytes id none (s ∷ []) =
    sample_bytes id s.deployment_id s.device_id s.gateway_deployment_id s.t0 s.dt s.channel_series
      s.battery_series s.signal_series
batch_bytes id source ss = err []

-- A connection that counts its messages and refuses none.
abbrev wire : Nats ℕ Text
wire = record {
  marshal = λ b. batch_bytes b.transmission_id b.source_deployment_id b.deployment_samples;
  publish_msg = λ m d w. (none, w + 1);
}

abbrev read_back : List ℕ → Option Batch
read_back (deployment ∷ t0 ∷ t ∷ id) = some (record {
  transmission_id = id;
  source_deployment_id = none;
  deployment_samples =
      (record {
        deployment_id = deployment;
        device_id = none;
        gateway_deployment_id = none;
        t0 = t0;
        dt = t ∷ [];
        channel_series = [];
        battery_series = [];
        signal_series = [];
      })
      ∷ [];
})
read_back _ = none

abbrev bytes_in : Result Text (List ℕ) → List ℕ
bytes_in (ok bytes) = bytes
bytes_in (err e) = []

sample_bytes-read_back :
    (id : List ℕ) (deployment : ℕ) (device gateway : Option ℕ) (t0 : ℕ) (ts : List ℕ)
    (cs : List ChannelSeries) (bs : List BatterySeries) (ss : List SignalSeries) (bytes : List ℕ)
    → sample_bytes id deployment device gateway t0 ts cs bs ss ≡ ok bytes
    → read_back bytes
      ≡ some (record {
        transmission_id = id;
        source_deployment_id = none;
        deployment_samples =
            (record {
              deployment_id = deployment;
              device_id = device;
              gateway_deployment_id = gateway;
              t0 = t0;
              dt = ts;
              channel_series = cs;
              battery_series = bs;
              signal_series = ss;
            })
            ∷ [];
      })
sample_bytes-read_back id deployment none none t0 (t ∷ []) [] [] [] bytes h =
    ap read_back (sym (ap bytes_in h))
sample_bytes-read_back id deployment device gateway t0 ts cs bs ss bytes h = cc

batch_bytes-read_back :
    (id : List ℕ) (source : Option ℕ) (ss : List DeploymentSamples) (bytes : List ℕ)
    → batch_bytes id source ss ≡ ok bytes
    → read_back bytes
      ≡ some
          (record { transmission_id = id; source_deployment_id = source; deployment_samples = ss })
batch_bytes-read_back id none (s ∷ []) bytes h =
    sample_bytes-read_back id s.deployment_id s.device_id s.gateway_deployment_id s.t0 s.dt
      s.channel_series s.battery_series s.signal_series bytes h
batch_bytes-read_back id source ss bytes h = cc

read_back-IsUnmarshal : IsUnmarshal wire read_back
read_back-IsUnmarshal = record {
  reads = λ b bytes.
      batch_bytes-read_back b.transmission_id b.source_deployment_id b.deployment_samples bytes;
}

-- Two envelopes, of which the first is published.
abbrev one_flush : List (Event (ℕ × List Msg))
one_flush =
    enqueued (envelope 7)
    ∷ dequeued (2 ^ 95) (some (4 ∷ []))
    ∷ enqueued (envelope 8)
    ∷ published false 9
    ∷ []

first_published :
    carried read_back (run (logged wire) settings (launched new_app_metrics 0) one_flush).world.1
    ≡ sample 7 ∷ []
unfolding run dequeue_ready_batch device_handler.Publish.enqueue
first_published = refl

run-IsDelivered_example :
    IsDelivered wire settings read_back
      (run (logged wire) settings (launched new_app_metrics 0) one_flush)
run-IsDelivered_example =
    run-IsDelivered wire settings read_back new_app_metrics 0 one_flush read_back-IsUnmarshal

-- A connection under a context that is done.
abbrev hung_up : Nats ℕ Text
hung_up = record {
  marshal = λ b. ok (1 ∷ []);
  publish_msg = λ m d w. (some (codes "context canceled"), w);
}

-- The publisher with three items, where FlushCount is two.
abbrev three : BufferedPublisher
three =
    (enqueue settings (envelope 3)
      (enqueue settings (envelope 2)
        (enqueue settings (envelope 1) (new_buffered_publisher new_app_metrics)).0).0).0

abbrev last_turn : Turn
last_turn = record { now = 2 ^ 95; id = some (4 ∷ []); publish = answer hung_up settings 0 9 }

-- All three are still there.
three_left : length (start settings (done last_turn ∷ []) three).buffer ≡ 3
unfolding start dequeue_ready_batch enqueue device_handler.Publish.Jetstream.publish
three_left = refl

start-Undelivered_example :
    Undelivered settings (2 ^ 95) 9 three (start settings (done last_turn ∷ []) three)
start-Undelivered_example =
    start-Undelivered hung_up settings 0 (2 ^ 95) 9 (4 ∷ []) [] three (λ m timeout w e. cc)
