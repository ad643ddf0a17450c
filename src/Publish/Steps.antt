-- ===== src/Publish/Steps.antt =====
-- The buffered publisher among its goroutines: each mutex section is one event, in any order that
-- the scheduler may choose, and the batch between dequeueReadyBatch and the end of its flush is in
-- flight. The lists of envelopes record what became of each; the program keeps no such lists.
pub mod Conserve
pub mod Flush
pub mod Limits
pub mod Order
use device_handler.Prelude.{
  ℕ, ◌-◌, Option, none, some, List, [], ◌∷◌, ◌++◌, map, length, take, Bool, true, false,
  if◌then◌else◌, not,
}
use device_handler.Time.{Time}
use device_handler.Publish.{
  PublishConfig, TelemetryEnvelope, BufferedItem, BufferedPublisher, Dequeue, nothing_ready,
  no_transmission_id, ready, enqueue, dequeue_ready_batch, exhausted, publish_failed,
  publish_succeeded,
}

pub record System : Type 0 where
  pub publisher : BufferedPublisher
  pub in_flight : List BufferedItem
  pub accepted : List TelemetryEnvelope
  pub published : List TelemetryEnvelope
  pub dropped : List TelemetryEnvelope
  pub lost : List TelemetryEnvelope

pub data Event : Type 0 where
  enqueued : TelemetryEnvelope → Event
  dequeued : Time → Option (List ℕ) → Event
  succeeded : Event
  failed : Time → Event

abbrev pub start : BufferedPublisher → System
start p = record {
  publisher = p;
  in_flight = [];
  accepted = [];
  published = [];
  dropped = [];
  lost = [];
}

abbrev pub envelopes : List BufferedItem → List TelemetryEnvelope
envelopes = map λ x. x.envelope

-- The envelopes of the items that a failure drops.
unfoldable pub given_up : PublishConfig → List BufferedItem → List TelemetryEnvelope
given_up cfg [] = []
given_up cfg (x ∷ xs) =
    let rest = given_up cfg xs in if exhausted cfg x then x.envelope ∷ rest else rest

-- What stands in front of `rest` in `items`.
abbrev pub cut_off : List BufferedItem → List BufferedItem → List BufferedItem
cut_off items rest = take (length items - length rest) items

unfoldable pub after_dequeue : System → BufferedPublisher × Dequeue → System
after_dequeue s (p, nothing_ready) = record s { publisher = p }
after_dequeue s (p, no_transmission_id) = record s {
  publisher = p;
  lost = s.lost ++ envelopes (cut_off s.publisher.buffer p.buffer);
}
after_dequeue s (p, ready d) = record s { publisher = p; in_flight = d.items }

-- With nothing in flight no Publish can end.
unfoldable pub after_success : System → List BufferedItem → System
after_success s [] = s
after_success s (x ∷ xs) = record s {
  publisher = publish_succeeded s.publisher;
  in_flight = [];
  published = s.published ++ envelopes (x ∷ xs);
}

unfoldable pub after_failure : PublishConfig → Time → System → List BufferedItem → System
after_failure cfg now s [] = s
after_failure cfg now s (x ∷ xs) = record s {
  publisher = publish_failed cfg now (x ∷ xs) s.publisher;
  in_flight = [];
  dropped = s.dropped ++ given_up cfg (x ∷ xs);
}

unfoldable pub step : PublishConfig → System → Event → System
unfolding after_dequeue after_success after_failure
step cfg s (enqueued e) = record s {
  publisher = (enqueue cfg e s.publisher).0;
  accepted = s.accepted ++ (e ∷ []);
}
step cfg s (dequeued now id) = after_dequeue s (dequeue_ready_batch cfg now id s.publisher)
step cfg s succeeded = after_success s s.in_flight
step cfg s (failed now) = after_failure cfg now s s.in_flight

unfoldable pub run : PublishConfig → System → List Event → System
run cfg s [] = s
run cfg s (e ∷ es) = run cfg (step cfg s e) es
