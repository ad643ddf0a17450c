-- ===== src/Publish/Steps/Order.antt =====
-- Envelopes are published in the order in which they were accepted.
use mathlib.Core.List.{map-append}
use device_handler.Prelude.{
  ℕ, ◌≡◌, refl, sym, ap, ◌∙◌, Option, List, [], ◌∷◌, ◌++◌, append_assoc, arith,
}
use device_handler.Time.{Time}
use device_handler.Metrics.{AppMetrics}
use device_handler.Publish.{
  PublishConfig, BufferedItem, BufferedPublisher, Dequeue, enqueue, requeued, publish_failed,
  publish_succeeded, new_buffered_publisher,
}
use device_handler.Publish.Batches.{Dequeues, nothing, batch, gone, dequeue_ready_batch-Dequeues}
use device_handler.Publish.Steps.{
  System, Event, enqueued, dequeued, succeeded, failed, start, envelopes, given_up, cut_off,
  after_dequeue, after_success, after_failure, step, run,
}
use device_handler.Publish.Steps.Conserve.{
  IsConserved, step-IsConserved, cut_off-append, in_flight-none, start-IsConserved,
}

-- If nothing was dropped or lost, the published, the flying and the waiting envelopes are, one
-- after the other, the accepted ones.
abbrev pub InOrder : System → Type 0
InOrder s =
    s.dropped ≡ []
    → s.lost ≡ []
    → s.published ++ (envelopes s.in_flight ++ envelopes s.publisher.buffer) ≡ s.accepted

append-eq-nil {ℓ} : {A : Type ℓ} (xs ys : List A) → xs ++ ys ≡ [] → (xs ≡ []) × (ys ≡ [])
append-eq-nil [] ys e = (refl, e)
append-eq-nil (x ∷ xs) ys e = cc

envelopes-append : (xs ys : List BufferedItem) → envelopes (xs ++ ys) ≡ envelopes xs ++ envelopes ys
envelopes-append xs ys = map-append (λ (x : BufferedItem). x.envelope) xs ys

envelopes-eq-nil : (xs : List BufferedItem) → envelopes xs ≡ [] → xs ≡ []
envelopes-eq-nil [] e = refl
envelopes-eq-nil (x ∷ xs) e = cc

envelopes-requeued :
    (cfg : PublishConfig) (now : Time) (xs : List BufferedItem)
    → given_up cfg xs ≡ []
    → envelopes (requeued cfg now xs) ≡ envelopes xs
unfolding requeued given_up
envelopes-requeued cfg now [] h = refl
envelopes-requeued cfg now (x ∷ xs) h = ground (arith, envelopes-requeued cfg now xs)

after_dequeue-InOrder :
    {cfg : PublishConfig} {now : Time} {id : Option (List ℕ)} (s : System)
    {r : BufferedPublisher × Dequeue}
    → Dequeues cfg now id s.publisher r
    → IsConserved s
    → InOrder s
    → InOrder (after_dequeue s r)
unfolding after_dequeue
after_dequeue-InOrder s (nothing why) c h = h
after_dequeue-InOrder s (batch {p'} {d} e b) c h = λ nd nl.
    ap (λ xs. s.published ++ xs)
      (sym (envelopes-append d.items p'.buffer)
        ∙ ap envelopes b.cut
        ∙ ap (λ (xs : List BufferedItem). envelopes xs ++ envelopes s.publisher.buffer)
            (sym (in_flight-none s c b.idle_before)))
    ∙ h nd nl
after_dequeue-InOrder s (gone {p'} items e b) c h = λ nd nl.
    let none_cut : items ≡ [] = envelopes-eq-nil items (
      ap envelopes (sym (cut_off-append items p'.buffer))
      ∙ ap (λ (xs : List BufferedItem). envelopes (cut_off xs p'.buffer)) b.cut
      ∙ (append-eq-nil s.lost _ nl).1) in
    ap (λ (xs : List BufferedItem). s.published ++ (envelopes s.in_flight ++ envelopes xs))
      (ap (λ (xs : List BufferedItem). xs ++ p'.buffer) (sym none_cut) ∙ b.cut)
    ∙ h nd (append-eq-nil s.lost _ nl).0

after_success-InOrder :
    (s : System) (xs : List BufferedItem)
    → s.in_flight ≡ xs
    → InOrder s
    → InOrder (after_success s xs)
unfolding after_success publish_succeeded
after_success-InOrder s [] e h = h
after_success-InOrder s (x ∷ xs) e h = λ nd nl.
    append_assoc s.published (envelopes (x ∷ xs)) (envelopes s.publisher.buffer)
    ∙ ap (λ (ys : List BufferedItem). s.published ++ (envelopes ys ++ envelopes s.publisher.buffer))
        (sym e)
    ∙ h nd nl

after_failure-InOrder :
    (cfg : PublishConfig) (now : Time) (s : System) (xs : List BufferedItem)
    → s.in_flight ≡ xs
    → InOrder s
    → InOrder (after_failure cfg now s xs)
unfolding after_failure publish_failed
after_failure-InOrder cfg now s [] e h = h
after_failure-InOrder cfg now s (x ∷ xs) e h = λ nd nl.
    let ends = append-eq-nil s.dropped (given_up cfg (x ∷ xs)) nd in
    ap (λ ys. s.published ++ ys)
      (envelopes-append (requeued cfg now (x ∷ xs)) s.publisher.buffer
        ∙ ap (λ ys. ys ++ envelopes s.publisher.buffer)
            (envelopes-requeued cfg now (x ∷ xs) ends.1 ∙ ap envelopes (sym e)))
    ∙ h ends.0 nl

step-InOrder :
    (cfg : PublishConfig) (s : System) (e : Event)
    → IsConserved s
    → InOrder s
    → InOrder (step cfg s e)
unfolding step enqueue
step-InOrder cfg s (enqueued e) c h = λ nd nl.
    ap (λ ys. s.published ++ (envelopes s.in_flight ++ ys)) (envelopes-append s.publisher.buffer _)
    ∙ ap (λ ys. s.published ++ ys) (sym (append_assoc (envelopes s.in_flight) _ _))
    ∙ sym (append_assoc s.published _ _)
    ∙ ap (λ ys. ys ++ (e ∷ [])) (h nd nl)
step-InOrder cfg s (dequeued now id) c h =
    after_dequeue-InOrder s (dequeue_ready_batch-Dequeues cfg now id s.publisher) c h
step-InOrder cfg s succeeded c h = after_success-InOrder s s.in_flight refl h
step-InOrder cfg s (failed now) c h = after_failure-InOrder cfg now s s.in_flight refl h

run-InOrder_from :
    (cfg : PublishConfig) (s : System) (es : List Event)
    → IsConserved s
    → InOrder s
    → InOrder (run cfg s es)
unfolding run
run-InOrder_from cfg s [] c h = h
run-InOrder_from cfg s (e ∷ es) c h =
    run-InOrder_from cfg (step cfg s e) es (step-IsConserved cfg s e c) (step-InOrder cfg s e c h)

-- After any events, failures and retries included: as long as no envelope was dropped or lost, the
-- published ones, those in flight and those in the buffer, in this order, are the accepted ones in
-- the order of their acceptance.
pub run-InOrder :
    (cfg : PublishConfig) (m : AppMetrics) (es : List Event)
    → (run cfg (start (new_buffered_publisher m)) es).dropped ≡ []
    → (run cfg (start (new_buffered_publisher m)) es).lost ≡ []
    → (run cfg (start (new_buffered_publisher m)) es).published
        ++ (envelopes (run cfg (start (new_buffered_publisher m)) es).in_flight
            ++ envelopes (run cfg (start (new_buffered_publisher m)) es).publisher.buffer)
      ≡ (run cfg (start (new_buffered_publisher m)) es).accepted
run-InOrder cfg m es =
    run-InOrder_from cfg (start (new_buffered_publisher m)) es (start-IsConserved m) (λ nd nl. refl)
