-- ===== src/Publish/Drain.antt =====
-- The ticks of Start, internal/publish/buffered.go: that the retries of what is in the buffer end.
use device_handler.Prelude.{
  ℕ, suc, ◌+◌, ◌-◌, ◌*◌, ◌≤◌, ◌<◌, ◌≡◌, refl, sym, ap, ◌∙◌, false, Option, none, some, List, [],
  ◌∷◌, ◌++◌, ◌⊎◌, inl, inr, arith, length, Bool-cases, subst,
}
use device_handler.Time.{Time}
use device_handler.Text.{Text}
use device_handler.Telemetry.{Batch}
use device_handler.Publish.{
  PublishConfig, BufferedItem, BufferedPublisher, Dequeue, ready, Dequeued, exhausted, requeued,
  publish_batch, publish_failed, publish_succeeded, flush,
}
use device_handler.Publish.Batches.{
  IsReady, Stops, IsBatch, Dequeues, nothing, batch, gone, dequeue_ready_batch-Dequeues,
}
use device_handler.Publish.Steps.Conserve.{total, total-append}
use device_handler.Publish.Steps.Limits.{limit, not_exhausted}

-- A tick of Start: its time, the transmission id, and what Publish would answer.
pub record Tick : Type 0 where
  pub now : Time
  pub id : List ℕ
  pub publish : Text → Batch → Option Time

-- The ticks of Start, one after the other.
unfoldable pub ticks : PublishConfig → List Tick → BufferedPublisher → BufferedPublisher
unfolding flush
ticks cfg [] p = p
ticks cfg (t ∷ ts) p = ticks cfg ts (flush cfg t.now (some t.id) t.publish p)

-- The first item, if there is one, may be published.
abbrev pub IsDue : Time → List BufferedItem → Type 0
IsDue now [] = Unit
IsDue now (x ∷ xs) = IsReady now x

abbrev pub AllDue : PublishConfig → List Tick → BufferedPublisher → Type 0
AllDue cfg [] p = Unit
AllDue cfg (t ∷ ts) p =
    IsDue t.now p.buffer × AllDue cfg ts (flush cfg t.now (some t.id) t.publish p)

-- How often an item may still be attempted, at most.
abbrev attempts : PublishConfig → BufferedItem → ℕ
attempts cfg x = suc (limit cfg.max_retries - x.retry_count)

abbrev work : PublishConfig → List BufferedItem → ℕ
work cfg xs = total (attempts cfg) xs

work_ge : (cfg : PublishConfig) (xs : List BufferedItem) → length xs ≤ work cfg xs
work_ge cfg [] = omega arith
work_ge cfg (x ∷ xs) = omega (arith, work_ge cfg xs)

none_left : (xs : List BufferedItem) → length xs ≤ 0 → xs ≡ []
none_left [] h = refl
none_left (x ∷ xs) h = ground arith

work_le :
    (cfg : PublishConfig) (xs : List BufferedItem)
    → work cfg xs ≤ length xs * suc (limit cfg.max_retries)
work_le cfg [] = omega arith
work_le cfg (x ∷ xs) = ground (arith, work_le cfg xs)

work-requeued :
    (cfg : PublishConfig) (now : Time) (xs : List BufferedItem)
    → work cfg (requeued cfg now xs) + length xs ≤ work cfg xs
unfolding requeued
work-requeued cfg now [] = omega arith
work-requeued cfg now (x ∷ xs) = elim (Bool-cases (exhausted cfg x)) [
  | inl e ↦ rw e (omega (arith, work-requeued cfg now xs))
  | inr e ↦
      rw e (omega (arith, work-requeued cfg now xs, not_exhausted x.retry_count cfg.max_retries e))
]

-- What a flush that takes a batch leaves: less work, and no flush under way.
abbrev IsLess : PublishConfig → BufferedPublisher → BufferedPublisher → Type 0
IsLess cfg p p' = (p'.flushing ≡ false) × (suc (work cfg p'.buffer) ≤ work cfg p.buffer)

work-cut :
    (cfg : PublishConfig) (items rest all : List BufferedItem)
    → items ++ rest ≡ all
    → work cfg items + work cfg rest ≡ work cfg all
work-cut cfg items rest all e = sym (total-append (attempts cfg) items rest) ∙ ap (work cfg) e

batch-IsLess :
    (cfg : PublishConfig) (now : Time) (p p' : BufferedPublisher) (d : Dequeued)
    (answer : Option Time)
    → IsBatch cfg now p p' d
    → IsLess cfg p (elim answer [
      | none ↦ publish_succeeded p'
      | some failed_at ↦ publish_failed cfg failed_at d.items p'
    ])
unfolding publish_succeeded publish_failed
batch-IsLess cfg now p p' d none b = (
  refl,
  omega (arith, b.some_item, work_ge cfg d.items, work-cut cfg d.items p'.buffer p.buffer b.cut),
)
batch-IsLess cfg now p p' d (some failed_at) b = (
  refl,
  omega (
    arith,
    b.some_item,
    work-requeued cfg failed_at d.items,
    total-append (attempts cfg) (requeued cfg failed_at d.items) p'.buffer,
    work-cut cfg d.items p'.buffer p.buffer b.cut,
  ),
)

Stops-due :
    (now room : ℕ) (xs : List BufferedItem)
    → 0 < room
    → IsDue now xs
    → Stops now room 0 xs
    → xs ≡ []
Stops-due now room [] h due stops = refl
Stops-due now room (x ∷ xs) h due (inl full) = ground arith
Stops-due now room (x ∷ xs) h due (inr late) = ground arith

-- The buffer is empty and nothing changes, or there is less work.
abbrev Progress : PublishConfig → BufferedPublisher → BufferedPublisher → Type 0
Progress cfg p p' = (p.buffer ≡ []) × (p' ≡ p) ⊎ IsLess cfg p p'

publish_batch-Progress :
    (cfg : PublishConfig) (t : Tick) (p : BufferedPublisher) (r : BufferedPublisher × Dequeue)
    → p.flushing ≡ false
    → 0 < cfg.flush_count
    → IsDue t.now p.buffer
    → Dequeues cfg t.now (some t.id) p r
    → Progress cfg p (publish_batch cfg t.publish r)
unfolding publish_batch
publish_batch-Progress cfg t p r idle room due (nothing (inl busy)) = cc
publish_batch-Progress cfg t p r idle room due (nothing (inr stops)) =
    inl (Stops-due t.now cfg.flush_count p.buffer room due stops, refl)
publish_batch-Progress cfg t p (p', ready d) idle room due (batch e b) =
    inr (batch-IsLess cfg t.now p p' d (t.publish d.subject d.batch) b)
publish_batch-Progress cfg t p r idle room due (gone items e c) = cc

ticks-done :
    (cfg : PublishConfig) (ts : List Tick) (p : BufferedPublisher)
    → p.flushing ≡ false
    → 0 < cfg.flush_count
    → AllDue cfg ts p
    → work cfg p.buffer ≤ length ts
    → (ticks cfg ts p).buffer ≡ []
unfolding ticks flush
ticks-done cfg [] p idle room due enough = none_left p.buffer (omega (arith, work_ge cfg p.buffer))
ticks-done cfg (t ∷ ts) p idle room due enough =
    elim (publish_batch-Progress cfg t p _ idle room due.0
      (dequeue_ready_batch-Dequeues cfg t.now (some t.id) p)) [
        | inl (empty, same) ↦
            ticks-done cfg ts _ (subst (λ q. q.flushing ≡ false) (sym same) idle) room due.1
              (subst (λ q. work cfg q.buffer ≤ length ts) (sym same) (rw empty (omega arith)))
        | inr (idle', less) ↦ ticks-done cfg ts _ idle' room due.1 (omega (arith, less))
      ]

-- Whatever Publish answers, the retries of what was accepted end: if FlushCount is positive,
-- nothing is being flushed, every transmission id can be made, and at each tick the wait of the
-- first item is over, then the buffer is empty after as many ticks as there are items in it, times
-- MaxRetries (0 if that is negative) plus one.
pub ticks-empty :
    (cfg : PublishConfig) (ts : List Tick) (p : BufferedPublisher)
    → p.flushing ≡ false
    → 0 < cfg.flush_count
    → AllDue cfg ts p
    → length p.buffer * suc (limit cfg.max_retries) ≤ length ts
    → (ticks cfg ts p).buffer ≡ []
ticks-empty cfg ts p idle room due enough =
    ticks-done cfg ts p idle room due (omega (arith, work_le cfg p.buffer))
