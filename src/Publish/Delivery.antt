-- ===== src/Publish/Delivery.antt =====
-- internal/publish/buffered.go over internal/publish/jetstream_publisher.go, as main joins them:
-- flush hands the batch that dequeueReadyBatch has cut off to the JetStream publisher, and what its
-- Publish returns decides about the end of the flush. Between the sections other goroutines go on.

pub mod Carried
pub mod Decoded
pub mod Kept
use device_handler.Prelude.{ℕ, Bool, Option, none, some, List, [], ◌∷◌, ◌++◌}
use device_handler.Time.{Time, Duration}
use device_handler.Publish.{
  PublishConfig, TelemetryEnvelope, BufferedPublisher, Dequeue, nothing_ready, no_transmission_id,
  ready, Dequeued, dequeue_ready_batch,
}
use device_handler.Publish.Steps as Flow
use device_handler.Publish.Jetstream.{Msg, Nats, PublishError, publish}

-- The NATS client with a log of the messages that it has acknowledged.
abbrev pub acknowledges : {W X : Type 0} → Msg → List Msg → Option X × W → Option X × (W × List Msg)
acknowledges m log (none, w) = (none, (w, log ++ (m ∷ [])))
acknowledges m log (some x, w) = (some x, (w, log))

abbrev pub logged : {W X : Type 0} → Nats W X → Nats (W × List Msg) X
logged nats = record {
  marshal = nats.marshal;
  publish_msg = λ m timeout (w, log). acknowledges m log (nats.publish_msg m timeout w);
}

-- The buffered publisher among its goroutines, the batch that flush has in its local variables,
-- and the outside world.
pub record System (W : Type 0) : Type 0 where
  pub flow : Flow.System
  pub pending : Option Dequeued
  pub world : W

pub data Event (W : Type 0) : Type 0 where
  enqueued : TelemetryEnvelope → Event W
  dequeued : Time → Option (List ℕ) → Event W
  -- the call of Publish, and the end of flush, at this time if it fails
  published : (has_deadline : Bool) → Time → Event W

-- What flush holds after dequeueReadyBatch.
abbrev pub held : Option Dequeued → Dequeue → Option Dequeued
held pending (ready d) = some d
held pending nothing_ready = pending
held pending no_transmission_id = pending

module _ {W X : Type 0} (nats : Nats W X) (cfg : PublishConfig) where
  -- The rest of flush, given what Publish returns.
  abbrev pub after_publish : Time → Flow.System → Option (PublishError X) × W → System W
  after_publish failed_at flow (none, w) = record {
    flow = Flow.step cfg flow Flow.succeeded;
    pending = none;
    world = w;
  }
  after_publish failed_at flow (some x, w) = record {
    flow = Flow.step cfg flow (Flow.failed failed_at);
    pending = none;
    world = w;
  }

  abbrev pub publish_pending : Bool → Time → System W → Option Dequeued → System W
  publish_pending has_deadline failed_at s none = s
  publish_pending has_deadline failed_at s (some d) =
      after_publish failed_at s.flow (publish nats cfg has_deadline d.subject d.batch s.world)

  unfoldable pub step : System W → Event W → System W
  unfolding publish Flow.step
  step s (enqueued e) = record s { flow = Flow.step cfg s.flow (Flow.enqueued e) }
  step s (dequeued now id) = record s {
    flow = Flow.step cfg s.flow (Flow.dequeued now id);
    pending = held s.pending (dequeue_ready_batch cfg now id s.flow.publisher).1;
  }
  step s (published has_deadline failed_at) = publish_pending has_deadline failed_at s s.pending

  unfoldable pub run : System W → List (Event W) → System W
  unfolding step
  run s [] = s
  run s (e ∷ es) = run (step s e) es

abbrev pub begin : {W : Type 0} → BufferedPublisher → W → System W
begin p w = record { flow = Flow.start p; pending = none; world = w }
