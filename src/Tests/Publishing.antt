-- ===== src/Tests/Publishing.antt =====
-- Examples for the buffered publisher.
use device_handler.Prelude.{ℕ, ◌+◌, ◌≡◌, ◌++◌, ◌^◌, map, refl, Option, some, List, [], ◌∷◌, arith}
use device_handler.Time.{Time, pos}
use device_handler.Telemetry.{Batch}
use device_handler.Text.{Text}
use device_handler.Metrics.{new_app_metrics}
use device_handler.Publish.{
  BufferedPublisher, TelemetryEnvelope, new_buffered_publisher, enqueue, dequeue_ready_batch,
  backoff_delay, flush,
}
use device_handler.Publish.Backoff.{backoff_delay_lem}
use device_handler.Publish.Drain.{Tick, ticks, ticks-empty}
use device_handler.Publish.Batches.{Dequeues, dequeue_ready_batch-Dequeues}
use device_handler.Publish.Steps.{
  Event, enqueued, dequeued, succeeded, failed, start, envelopes, run,
}
use device_handler.Publish.Steps.Conserve.{run_conserves, total, load}
use device_handler.Publish.Steps.Limits.{IsLimited, run-IsLimited}
use device_handler.Publish.Steps.Order.{run-InOrder}
use device_handler.Tests.{settings, envelope}

-- Three envelopes; the first two fail once, are sent again, and then fail for good.
abbrev pub failures : List Event
failures =
    enqueued (envelope 1)
    ∷ enqueued (envelope 2)
    ∷ enqueued (envelope 3)
    ∷ dequeued (2 ^ 95) (some (4 ∷ []))
    ∷ failed 20
    ∷ dequeued (2 ^ 95) (some (5 ∷ []))
    ∷ failed (2 ^ 95)
    ∷ []

-- Three envelopes; the first two fail once, and are published at the second attempt.
abbrev pub retry : List Event
retry =
    enqueued (envelope 1)
    ∷ enqueued (envelope 2)
    ∷ enqueued (envelope 3)
    ∷ dequeued (2 ^ 95) (some (4 ∷ []))
    ∷ failed 20
    ∷ dequeued (2 ^ 95) (some (5 ∷ []))
    ∷ succeeded
    ∷ []

abbrev ids : TelemetryEnvelope → ℕ
ids e = e.deployment_sample.deployment_id

run_conserves_example :
    total ids (run settings (start (new_buffered_publisher new_app_metrics)) failures).accepted
    ≡ load ids
        (run settings (start (new_buffered_publisher new_app_metrics)) failures).publisher.buffer
      + load ids (run settings (start (new_buffered_publisher new_app_metrics)) failures).in_flight
      + total ids (run settings (start (new_buffered_publisher new_app_metrics)) failures).published
      + total ids (run settings (start (new_buffered_publisher new_app_metrics)) failures).dropped
run_conserves_example =
    run_conserves settings new_app_metrics failures ids (tt, (tt, (tt, (tt, (tt, (tt, (tt, tt)))))))

run-InOrder_example :
    (run settings (start (new_buffered_publisher new_app_metrics)) retry).published
      ++ (envelopes (run settings (start (new_buffered_publisher new_app_metrics)) retry).in_flight
          ++ envelopes
              (run settings
                (start (new_buffered_publisher new_app_metrics))
                retry).publisher.buffer)
    ≡ (run settings (start (new_buffered_publisher new_app_metrics)) retry).accepted
unfolding run device_handler.Publish.Steps.step dequeue_ready_batch enqueue
    device_handler.Publish.publish_failed backoff_delay device_handler.Publish.Steps.given_up
run-InOrder_example = run-InOrder settings new_app_metrics retry refl refl

run-IsLimited_example :
    IsLimited settings (run settings (start (new_buffered_publisher new_app_metrics)) failures)
run-IsLimited_example = run-IsLimited settings new_app_metrics failures

-- A buffer of two envelopes.
abbrev waiting : BufferedPublisher
waiting =
    (enqueue settings (envelope 2)
      (enqueue settings (envelope 1) (new_buffered_publisher new_app_metrics)).0).0

dequeue_ready_batch-Dequeues_example :
    Dequeues settings
      (2 ^ 95)
      (some (4 ∷ []))
      waiting
      (dequeue_ready_batch settings (2 ^ 95) (some (4 ∷ [])) waiting)
dequeue_ready_batch-Dequeues_example =
    dequeue_ready_batch-Dequeues settings (2 ^ 95) (some (4 ∷ [])) waiting

abbrev refuse : Text → Batch → Option Time
refuse subject batch = some 20

backoff_delay_lem_example : backoff_delay (pos 1000000000) 9 ≡ pos 64000000000
backoff_delay_lem_example = backoff_delay_lem 1000000000 8 (omega arith) (omega arith)

-- Both envelopes are given up at the second failure.
dropped_twice :
    map ids (run settings (start (new_buffered_publisher new_app_metrics)) failures).dropped
    ≡ 1 ∷ 2 ∷ []
unfolding run device_handler.Publish.Steps.step dequeue_ready_batch enqueue
    device_handler.Publish.publish_failed backoff_delay device_handler.Publish.Steps.given_up
dropped_twice = refl

-- Ticks at which Publish fails every time.
abbrev failing : Tick
failing = record { now = 2 ^ 95; id = 4 ∷ []; publish = refuse }

abbrev four : List Tick
four = failing ∷ failing ∷ failing ∷ failing ∷ []

ticks-empty_example : (ticks settings four waiting).buffer ≡ []
unfolding flush dequeue_ready_batch enqueue backoff_delay
ticks-empty_example =
    ticks-empty settings four waiting refl (omega arith)
      (omega arith, (omega arith, (tt, (tt, tt)))) (omega arith)
