-- ===== src/Publish/Steps/Flush.antt =====
-- The function flush of internal/publish/buffered.go as a run of the events.
use device_handler.Prelude.{
  ℕ, ◌≡◌, ◌<◌, refl, sym, Option, none, some, List, [], ◌∷◌, arith, length,
}
use device_handler.Time.{Time}
use device_handler.Telemetry.{Batch}
use device_handler.Text.{Text}
use device_handler.Publish.{
  PublishConfig, BufferedItem, BufferedPublisher, Dequeue, ready, dequeue_ready_batch,
  publish_batch, publish_failed, publish_succeeded, flush,
}
use device_handler.Publish.Batches.{Dequeues, nothing, batch, gone, dequeue_ready_batch-Dequeues}
use device_handler.Publish.Steps.{
  System, Event, dequeued, succeeded, failed, start, after_dequeue, after_success, after_failure,
  step, run,
}

-- How Publish ends.
abbrev pub outcome : Option Time → Event
outcome none = succeeded
outcome (some now) = failed now

-- The events behind the dequeue.
abbrev pub endings : (Text → Batch → Option Time) → Dequeue → List Event
endings publish (ready d) = outcome (publish d.subject d.batch) ∷ []
endings publish _ = []

end-publisher :
    (cfg : PublishConfig) (s : System) (o : Option Time) (xs : List BufferedItem)
    → s.in_flight ≡ xs
    → 0 < length xs
    → (step cfg s (outcome o)).publisher ≡ elim o [
      | none ↦ publish_succeeded s.publisher
      | some now ↦ publish_failed cfg now xs s.publisher
    ]
unfolding step after_success after_failure
end-publisher cfg s o [] e h = absurd (omega arith)
end-publisher cfg s none (x ∷ xs) e h = rw e refl
end-publisher cfg s (some now) (x ∷ xs) e h = rw e refl

batch-publisher :
    (cfg : PublishConfig) (now : Time) (id : Option (List ℕ)) (publish : Text → Batch → Option Time)
    (p : BufferedPublisher) (r : BufferedPublisher × Dequeue)
    → Dequeues cfg now id p r
    → publish_batch cfg publish r
      ≡ (run cfg (after_dequeue (start p) r) (endings publish r.1)).publisher
unfolding publish_batch run after_dequeue
batch-publisher cfg now id publish p r (nothing why) = refl
batch-publisher cfg now id publish p r (batch {p'} {d} e b) =
    sym (end-publisher cfg _ (publish d.subject d.batch) d.items refl b.some_item)
batch-publisher cfg now id publish p r (gone items e c) = refl

-- One flush is a run of the events: from a publisher with nothing in flight it leaves what the
-- dequeue leaves, followed by the success or the failure of Publish if there was a batch.
pub flush-run :
    (cfg : PublishConfig) (now : Time) (id : Option (List ℕ)) (publish : Text → Batch → Option Time)
    (p : BufferedPublisher)
    → flush cfg now id publish p
      ≡ (run cfg
          (start p)
          (dequeued now id ∷ endings publish (dequeue_ready_batch cfg now id p).1)).publisher
unfolding flush run step
flush-run cfg now id publish p =
    batch-publisher cfg now id publish p (dequeue_ready_batch cfg now id p)
      (dequeue_ready_batch-Dequeues cfg now id p)
