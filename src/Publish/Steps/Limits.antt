-- ===== src/Publish/Steps/Limits.antt =====
-- Retries are bounded by MaxRetries and batches by FlushCount.
use device_handler.Prelude.{
  ℕ, suc, ◌≤◌, ◌≡◌, false, Option, List, [], ◌∷◌, ◌++◌, arith, length, All, All-append, Bool-cases,
  inl, inr,
}
use device_handler.Time.{Time, ℤ, pos, negsuc}
use device_handler.Metrics.{AppMetrics}
use device_handler.Publish.{
  PublishConfig, BufferedItem, BufferedPublisher, Dequeue, enqueue, requeued, exhausted,
  publish_failed, publish_succeeded, at_least, new_buffered_publisher,
}
use device_handler.Publish.Batches.{Dequeues, nothing, batch, gone, dequeue_ready_batch-Dequeues}
use device_handler.Publish.Steps.{
  System, Event, enqueued, dequeued, succeeded, failed, start, after_dequeue, after_success,
  after_failure, step, run,
}

-- MaxRetries, a negative one being as good as 0.
abbrev pub limit : ℤ → ℕ
limit (pos n) = n
limit (negsuc n) = 0

abbrev pub WithinRetries : PublishConfig → List BufferedItem → Type 0
WithinRetries cfg xs = All (λ x. x.retry_count ≤ limit cfg.max_retries) xs

-- No item has failed more often than MaxRetries, and the batch in flight fits FlushCount.
pub record IsLimited (cfg : PublishConfig) (s : System) : Type 0 where
  pub waiting : WithinRetries cfg s.publisher.buffer
  pub flying : WithinRetries cfg s.in_flight
  pub size : length s.in_flight ≤ cfg.flush_count

All-split {ℓ κ} :
    {A : Type ℓ} (P : A → Type κ) (xs ys : List A) → All P (xs ++ ys) → All P xs × All P ys
All-split P [] ys h = (tt, h)
All-split P (x ∷ xs) ys h = let r = All-split P xs ys h.1 in ((h.0, r.0), r.1)

pub not_exhausted : (n : ℕ) (l : ℤ) → at_least n l ≡ false → suc n ≤ limit l
not_exhausted n (pos m) h = ground arith
not_exhausted n (negsuc m) h = cc

requeued-WithinRetries :
    (cfg : PublishConfig) (now : Time) (xs : List BufferedItem)
    → WithinRetries cfg (requeued cfg now xs)
unfolding requeued
requeued-WithinRetries cfg now [] = tt
requeued-WithinRetries cfg now (x ∷ xs) = elim (Bool-cases (exhausted cfg x)) [
  | inl e ↦ rw e (requeued-WithinRetries cfg now xs)
  | inr e ↦ rw e (not_exhausted x.retry_count cfg.max_retries e, requeued-WithinRetries cfg now xs)
]

cut-WithinRetries :
    (cfg : PublishConfig) (xs ys zs : List BufferedItem)
    → xs ++ ys ≡ zs
    → WithinRetries cfg zs
    → WithinRetries cfg xs × WithinRetries cfg ys
cut-WithinRetries cfg xs ys zs e h = All-split _ xs ys (rw e h)

after_dequeue-IsLimited :
    {cfg : PublishConfig} {now : Time} {id : Option (List ℕ)} (s : System)
    {r : BufferedPublisher × Dequeue}
    → Dequeues cfg now id s.publisher r
    → IsLimited cfg s
    → IsLimited cfg (after_dequeue s r)
unfolding after_dequeue
after_dequeue-IsLimited s (nothing why) h = record {
  waiting = h.waiting;
  flying = h.flying;
  size = h.size;
}
after_dequeue-IsLimited {cfg} s (batch {p'} {d} e b) h =
    let w = cut-WithinRetries cfg d.items p'.buffer s.publisher.buffer b.cut h.waiting in
    record { waiting = w.1; flying = w.0; size = b.fits }
after_dequeue-IsLimited {cfg} s (gone {p'} items e c) h = record {
  waiting = (cut-WithinRetries cfg items p'.buffer s.publisher.buffer c.cut h.waiting).1;
  flying = h.flying;
  size = h.size;
}

after_success-IsLimited :
    (cfg : PublishConfig) (s : System) (xs : List BufferedItem)
    → IsLimited cfg s
    → IsLimited cfg (after_success s xs)
unfolding after_success publish_succeeded
after_success-IsLimited cfg s [] h = h
after_success-IsLimited cfg s (x ∷ xs) h = record {
  waiting = h.waiting;
  flying = tt;
  size = omega arith;
}

after_failure-IsLimited :
    (cfg : PublishConfig) (now : Time) (s : System) (xs : List BufferedItem)
    → IsLimited cfg s
    → IsLimited cfg (after_failure cfg now s xs)
unfolding after_failure publish_failed
after_failure-IsLimited cfg now s [] h = h
after_failure-IsLimited cfg now s (x ∷ xs) h = record {
  waiting = All-append _ _ s.publisher.buffer (requeued-WithinRetries cfg now (x ∷ xs)) h.waiting;
  flying = tt;
  size = omega arith;
}

step-IsLimited :
    (cfg : PublishConfig) (s : System) (e : Event) → IsLimited cfg s → IsLimited cfg (step cfg s e)
unfolding step enqueue
step-IsLimited cfg s (enqueued e) h = record {
  waiting = All-append _ s.publisher.buffer _ h.waiting (omega arith, tt);
  flying = h.flying;
  size = h.size;
}
step-IsLimited cfg s (dequeued now id) h =
    after_dequeue-IsLimited s (dequeue_ready_batch-Dequeues cfg now id s.publisher) h
step-IsLimited cfg s succeeded h = after_success-IsLimited cfg s s.in_flight h
step-IsLimited cfg s (failed now) h = after_failure-IsLimited cfg now s s.in_flight h

run-IsLimited_from :
    (cfg : PublishConfig) (s : System) (es : List Event)
    → IsLimited cfg s
    → IsLimited cfg (run cfg s es)
unfolding run
run-IsLimited_from cfg s [] h = h
run-IsLimited_from cfg s (e ∷ es) h =
    run-IsLimited_from cfg (step cfg s e) es (step-IsLimited cfg s e h)

-- After any events no item in the buffer or in flight has failed more often than MaxRetries (0 if
-- that is negative), and the batch in flight has at most FlushCount items.
pub run-IsLimited :
    (cfg : PublishConfig) (m : AppMetrics) (es : List Event)
    → IsLimited cfg (run cfg (start (new_buffered_publisher m)) es)
run-IsLimited cfg m es =
    run-IsLimited_from cfg (start (new_buffered_publisher m)) es
      (record { waiting = tt; flying = tt; size = omega arith })
