-- ===== src/Publish/Steps/Conserve.antt =====
-- No envelope is lost or made up, but for a missing transmission id.
use device_handler.Prelude.{
  ℕ, ◌+◌, ◌-◌, ◌<◌, ◌≡◌, refl, sym, ap, ◌∙◌, Bool, true, false, Option, none, some, List, [], ◌∷◌,
  ◌++◌, arith, length, length-append, take, All,
}
use mathlib.Core.List.{map-append}
use device_handler.Time.{Time}
use device_handler.Metrics.{AppMetrics}
use device_handler.Publish.{
  new_buffered_publisher, PublishConfig, TelemetryEnvelope, BufferedItem, BufferedPublisher,
  Dequeue, enqueue, requeued, publish_failed, publish_succeeded,
}
use device_handler.Publish.Batches.{Dequeues, nothing, batch, gone, dequeue_ready_batch-Dequeues}
use device_handler.Publish.Steps.{
  System, Event, enqueued, dequeued, succeeded, failed, start, envelopes, given_up, cut_off,
  after_dequeue, after_success, after_failure, step, run,
}

-- The total of a list under a weight of its elements. Two lists with equal totals under every
-- weight hold the same elements, as often.
abbrev pub total {ℓ} : {A : Type ℓ} → (A → ℕ) → List A → ℕ
total f [] = 0
total f (x ∷ xs) = f x + total f xs

pub total-append {ℓ} :
    {A : Type ℓ} (f : A → ℕ) (xs ys : List A) → total f (xs ++ ys) ≡ total f xs + total f ys
total-append f [] ys = omega arith
total-append f (x ∷ xs) ys = omega (arith, total-append f xs ys)

-- The weight of the items' envelopes.
abbrev pub load : (TelemetryEnvelope → ℕ) → List BufferedItem → ℕ
load f xs = total f (envelopes xs)

pub load-append :
    (f : TelemetryEnvelope → ℕ) (xs ys : List BufferedItem)
    → load f (xs ++ ys) ≡ load f xs + load f ys
load-append f xs ys =
    ap (total f) (map-append (λ (x : BufferedItem). x.envelope) xs ys)
    ∙ total-append f (envelopes xs) (envelopes ys)

-- A flush is under way exactly if a batch is in flight.
abbrev pub Flushing : Bool → List BufferedItem → Type 0
Flushing b [] = b ≡ false
Flushing b (x ∷ xs) = b ≡ true

Flushing-some : (b : Bool) (xs : List BufferedItem) → 0 < length xs → b ≡ true → Flushing b xs
Flushing-some b [] h e = absurd (omega arith)
Flushing-some b (x ∷ xs) h e = e

Flushing-idle : (b : Bool) (xs : List BufferedItem) → Flushing b xs → b ≡ false → xs ≡ []
Flushing-idle b [] h e = refl
Flushing-idle b (x ∷ xs) h e = cc

pub record IsConserved (s : System) : Type 0 where
  pub busy : Flushing s.publisher.flushing s.in_flight
  pub totals :
      (f : TelemetryEnvelope → ℕ)
      → total f s.accepted
        ≡ load f s.publisher.buffer
          + load f s.in_flight
          + total f s.published
          + total f s.dropped
          + total f s.lost

take_prefix : (xs ys : List BufferedItem) → take (length xs) (xs ++ ys) ≡ xs
take_prefix [] ys = refl
take_prefix (x ∷ xs) ys = ap (λ zs. x ∷ zs) (take_prefix xs ys)

pub cut_off-append : (xs ys : List BufferedItem) → cut_off (xs ++ ys) ys ≡ xs
cut_off-append xs ys =
    let e : length xs + length ys - length ys ≡ length xs = omega arith in
    rw (length-append xs ys, e) (take_prefix xs ys)

load-requeued :
    (f : TelemetryEnvelope → ℕ) (cfg : PublishConfig) (now : Time) (xs : List BufferedItem)
    → load f (requeued cfg now xs) + total f (given_up cfg xs) ≡ load f xs
unfolding requeued given_up
load-requeued f cfg now [] = refl
load-requeued f cfg now (x ∷ xs) = ground (arith, load-requeued f cfg now xs)

pub in_flight-none : (s : System) → IsConserved s → s.publisher.flushing ≡ false → s.in_flight ≡ []
in_flight-none s h e = Flushing-idle s.publisher.flushing s.in_flight h.busy e

after_dequeue-IsConserved :
    {cfg : PublishConfig} {now : Time} {id : Option (List ℕ)} (s : System)
    {r : BufferedPublisher × Dequeue}
    → Dequeues cfg now id s.publisher r
    → IsConserved s
    → IsConserved (after_dequeue s r)
unfolding after_dequeue
after_dequeue-IsConserved s (nothing why) h = record { busy = h.busy; totals = h.totals }
after_dequeue-IsConserved s (batch {p'} {d} e b) h = record {
  busy = Flushing-some p'.flushing d.items b.some_item b.busy_after;
  totals = λ f. omega (
    arith,
    h.totals f,
    ap (load f) b.cut,
    load-append f d.items p'.buffer,
    ap (load f) (in_flight-none s h b.idle_before),
  );
}
after_dequeue-IsConserved s (gone {p'} items e c) h = record {
  busy = rw (in_flight-none s h c.idle_before) c.idle_after;
  totals = λ f. omega (
    arith,
    h.totals f,
    ap (load f) c.cut,
    load-append f items p'.buffer,
    total-append f s.lost (envelopes (cut_off s.publisher.buffer p'.buffer)),
    ap (λ (xs : List BufferedItem). load f (cut_off xs p'.buffer)) (sym c.cut),
    ap (load f) (cut_off-append items p'.buffer),
  );
}

after_success-IsConserved :
    (s : System) (xs : List BufferedItem)
    → s.in_flight ≡ xs
    → IsConserved s
    → IsConserved (after_success s xs)
unfolding after_success publish_succeeded
after_success-IsConserved s [] e h = h
after_success-IsConserved s (x ∷ xs) e h = record {
  busy = refl;
  totals = λ f.
      omega (arith, h.totals f, ap (load f) e, total-append f s.published (envelopes (x ∷ xs)));
}

after_failure-IsConserved :
    (cfg : PublishConfig) (now : Time) (s : System) (xs : List BufferedItem)
    → s.in_flight ≡ xs
    → IsConserved s
    → IsConserved (after_failure cfg now s xs)
unfolding after_failure publish_failed
after_failure-IsConserved cfg now s [] e h = h
after_failure-IsConserved cfg now s (x ∷ xs) e h = record {
  busy = refl;
  totals = λ f. omega (
    arith,
    h.totals f,
    ap (load f) e,
    load-append f (requeued cfg now (x ∷ xs)) s.publisher.buffer,
    load-requeued f cfg now (x ∷ xs),
    total-append f s.dropped (given_up cfg (x ∷ xs)),
  );
}

pub step-IsConserved :
    (cfg : PublishConfig) (s : System) (e : Event) → IsConserved s → IsConserved (step cfg s e)
unfolding step enqueue
step-IsConserved cfg s (enqueued e) h = record {
  busy = h.busy;
  totals = λ f.
      omega
        (arith, h.totals f, total-append f s.accepted (e ∷ []), load-append f s.publisher.buffer);
}
step-IsConserved cfg s (dequeued now id) h =
    after_dequeue-IsConserved s (dequeue_ready_batch-Dequeues cfg now id s.publisher) h
step-IsConserved cfg s succeeded h = after_success-IsConserved s s.in_flight refl h
step-IsConserved cfg s (failed now) h = after_failure-IsConserved cfg now s s.in_flight refl h

run-IsConserved :
    (cfg : PublishConfig) (s : System) (es : List Event)
    → IsConserved s
    → IsConserved (run cfg s es)
unfolding run
run-IsConserved cfg s [] h = h
run-IsConserved cfg s (e ∷ es) h =
    run-IsConserved cfg (step cfg s e) es (step-IsConserved cfg s e h)

-- Every attempt to make a transmission id has succeeded.
abbrev pub HasId : Event → Type 0
HasId (dequeued now none) = ⊥
HasId _ = Unit

dequeue_lost :
    {cfg : PublishConfig} {now : Time} {id : List ℕ} (s : System) {r : BufferedPublisher × Dequeue}
    → Dequeues cfg now (some id) s.publisher r
    → (after_dequeue s r).lost ≡ s.lost
unfolding after_dequeue
dequeue_lost s (nothing why) = refl
dequeue_lost s (batch e b) = refl
dequeue_lost s (gone items e c) = cc

success_lost : (s : System) (xs : List BufferedItem) → (after_success s xs).lost ≡ s.lost
unfolding after_success
success_lost s [] = refl
success_lost s (x ∷ xs) = refl

failure_lost :
    (cfg : PublishConfig) (now : Time) (s : System) (xs : List BufferedItem)
    → (after_failure cfg now s xs).lost ≡ s.lost
unfolding after_failure
failure_lost cfg now s [] = refl
failure_lost cfg now s (x ∷ xs) = refl

step_lost : (cfg : PublishConfig) (s : System) (e : Event) → HasId e → (step cfg s e).lost ≡ s.lost
unfolding step after_dequeue after_success after_failure
step_lost cfg s (enqueued e) h = refl
step_lost cfg s (dequeued now none) h = absurd h
step_lost cfg s (dequeued now (some id)) h =
    dequeue_lost s (dequeue_ready_batch-Dequeues cfg now (some id) s.publisher)
step_lost cfg s succeeded h = success_lost s s.in_flight
step_lost cfg s (failed now) h = failure_lost cfg now s s.in_flight

pub run_lost :
    (cfg : PublishConfig) (s : System) (es : List Event)
    → All HasId es
    → (run cfg s es).lost ≡ s.lost
unfolding run
run_lost cfg s [] h = refl
run_lost cfg s (e ∷ es) h = run_lost cfg (step cfg s e) es h.1 ∙ step_lost cfg s e h.0

pub start-IsConserved : (m : AppMetrics) → IsConserved (start (new_buffered_publisher m))
start-IsConserved m = record { busy = refl; totals = λ f. refl }

-- Whatever the order of enqueues, flushes, successes and failures, if every attempt to make a
-- transmission id succeeds, each envelope that Enqueue accepted is, as often as it was accepted, in
-- the buffer, in the batch in flight, published, or dropped after its retries; nothing else is.
pub run_conserves :
    (cfg : PublishConfig) (m : AppMetrics) (es : List Event) (f : TelemetryEnvelope → ℕ)
    → All HasId es
    → total f (run cfg (start (new_buffered_publisher m)) es).accepted
      ≡ load f (run cfg (start (new_buffered_publisher m)) es).publisher.buffer
        + load f (run cfg (start (new_buffered_publisher m)) es).in_flight
        + total f (run cfg (start (new_buffered_publisher m)) es).published
        + total f (run cfg (start (new_buffered_publisher m)) es).dropped
run_conserves cfg m es f h = omega (
  arith,
  (run-IsConserved cfg (start (new_buffered_publisher m)) es (start-IsConserved m)).totals f,
  ap (total f) (run_lost cfg (start (new_buffered_publisher m)) es h),
)
