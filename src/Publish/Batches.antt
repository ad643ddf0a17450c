-- ===== src/Publish/Batches.antt =====
-- What dequeueReadyBatch takes from the buffer.
use device_handler.Prelude.{
  ℕ, zero, suc, ◌≤◌, ◌<◌, ◌≡◌, refl, ap, true, false, Option, none, some, List, [], ◌∷◌, ◌++◌, ◌⊎◌,
  inl, inr, arith, ◌==◌, length, take, drop, All, Bool-cases,
}
use device_handler.Time.{Time, after}
use device_handler.Publish.{
  PublishConfig, BufferedItem, BufferedPublisher, Dequeue, nothing_ready, no_transmission_id, ready,
  Dequeued, ready_count, is_nil, assemble, samples_of, dequeue_ready_batch, set_queue_depth,
}

pub take-append-drop {ℓ} : {A : Type ℓ} (n : ℕ) (xs : List A) → take n xs ++ drop n xs ≡ xs
take-append-drop zero xs = refl
take-append-drop (suc n) [] = refl
take-append-drop (suc n) (x ∷ xs) = ap (λ ys. x ∷ ys) (take-append-drop n xs)

-- The item may be published at `now`.
abbrev pub IsReady : Time → BufferedItem → Type 0
IsReady now x = x.not_before ≤ now

-- Why the batch ends where it does: it is full, or the next item is not ready.
abbrev pub Stops : Time → ℕ → ℕ → List BufferedItem → Type 0
Stops now room taken [] = Unit
Stops now room taken (x ∷ rest) = (taken ≡ room) ⊎ (now < x.not_before)

ready_count-le : (now room : ℕ) (xs : List BufferedItem) → ready_count now room xs ≤ room
unfolding ready_count
ready_count-le now zero xs = omega arith
ready_count-le now (suc room) [] = omega arith
ready_count-le now (suc room) (x ∷ xs) = ground (arith, ready_count-le now room xs)

take-ready_count :
    (now room : ℕ) (xs : List BufferedItem) → All (IsReady now) (take (ready_count now room xs) xs)
unfolding ready_count
take-ready_count now zero xs = tt
take-ready_count now (suc room) [] = tt
take-ready_count now (suc room) (x ∷ xs) = elim (Bool-cases (after x.not_before now)) [
  | inl e ↦ rw e tt
  | inr e ↦ rw e (ground arith, take-ready_count now room xs)
]

Stops-suc :
    (now room n : ℕ) (xs : List BufferedItem)
    → Stops now room n xs
    → Stops now (suc room) (suc n) xs
Stops-suc now room n [] h = tt
Stops-suc now room n (x ∷ xs) (inl h) = inl (omega arith)
Stops-suc now room n (x ∷ xs) (inr h) = inr h

drop-ready_count :
    (now room : ℕ) (xs : List BufferedItem)
    → Stops now room (ready_count now room xs) (drop (ready_count now room xs) xs)
unfolding ready_count
drop-ready_count now zero [] = tt
drop-ready_count now zero (x ∷ xs) = inl refl
drop-ready_count now (suc room) [] = tt
drop-ready_count now (suc room) (x ∷ xs) = elim (Bool-cases (after x.not_before now)) [
  | inl e ↦ rw e (inr (ground arith))
  | inr e ↦ rw e (Stops-suc now room _ _ (drop-ready_count now room xs))
]

length-take_ready :
    (now room : ℕ) (xs : List BufferedItem)
    → length (take (ready_count now room xs) xs) ≡ ready_count now room xs
unfolding ready_count
length-take_ready now zero xs = refl
length-take_ready now (suc room) [] = refl
length-take_ready now (suc room) (x ∷ xs) = ground (arith, length-take_ready now room xs)

-- The batch of `d`, cut off the buffer of `p`, which leaves `p'`.
pub record IsBatch (cfg : PublishConfig) (now : Time) (p p' : BufferedPublisher) (d : Dequeued)
    : Type 0 where
  pub cut : d.items ++ p'.buffer ≡ p.buffer
  pub ready : All (IsReady now) d.items
  pub fits : length d.items ≤ cfg.flush_count
  pub maximal : Stops now cfg.flush_count (length d.items) p'.buffer
  pub some_item : 0 < length d.items
  pub samples : d.batch.deployment_samples ≡ samples_of d.items
  pub idle_before : p.flushing ≡ false
  pub busy_after : p'.flushing ≡ true

-- The items were cut off the buffer of `p`, which leaves `p'`, and no flush is under way.
pub record IsCut (p p' : BufferedPublisher) (items : List BufferedItem) : Type 0 where
  pub cut : items ++ p'.buffer ≡ p.buffer
  pub some_item : 0 < length items
  pub idle_before : p.flushing ≡ false
  pub idle_after : p'.flushing ≡ false

-- The three results of dequeueReadyBatch: nothing, because a flush is under way or the head of the
-- buffer gives no batch; a batch, under a transmission id; or no id, and the items are gone.
pub data Dequeues (cfg : PublishConfig) (now : Time) (id : Option (List ℕ)) (p : BufferedPublisher)
    : BufferedPublisher × Dequeue → Type 0 where
  nothing :
      (p.flushing ≡ true) ⊎ Stops now cfg.flush_count 0 p.buffer
      → Dequeues cfg now id p (p, nothing_ready)
  batch :
      {p' : BufferedPublisher} {d : Dequeued}
      → id ≡ some d.batch.transmission_id
      → IsBatch cfg now p p' d
      → Dequeues cfg now id p (p', ready d)
  gone :
      {p' : BufferedPublisher} (items : List BufferedItem)
      → id ≡ none
      → IsCut p p' items
      → Dequeues cfg now id p (p', no_transmission_id)

-- The publisher once `n` items are cut off.
abbrev without : ℕ → BufferedPublisher → BufferedPublisher
without n p = record {
  buffer = drop n p.buffer;
  flushing = true;
  metrics = set_queue_depth (drop n p.buffer) p.metrics;
}

assemble-Dequeues :
    (cfg : PublishConfig) (now : Time) (id : Option (List ℕ)) (p : BufferedPublisher)
    → p.flushing ≡ false
    → 0 < ready_count now cfg.flush_count p.buffer
    → Dequeues cfg now id p (
        assemble cfg id
          (take (ready_count now cfg.flush_count p.buffer) p.buffer)
          (without (ready_count now cfg.flush_count p.buffer) p))
unfolding assemble
assemble-Dequeues cfg now none p idle h =
    gone (take (ready_count now cfg.flush_count p.buffer) p.buffer) refl (record {
      cut = take-append-drop (ready_count now cfg.flush_count p.buffer) p.buffer;
      some_item = rw length-take_ready h;
      idle_before = idle;
      idle_after = refl;
    })
assemble-Dequeues cfg now (some id) p idle h = batch refl (record {
  cut = take-append-drop (ready_count now cfg.flush_count p.buffer) p.buffer;
  ready = take-ready_count now cfg.flush_count p.buffer;
  fits = rw length-take_ready (ready_count-le now cfg.flush_count p.buffer);
  maximal = rw length-take_ready (drop-ready_count now cfg.flush_count p.buffer);
  some_item = rw length-take_ready h;
  samples = refl;
  idle_before = idle;
  busy_after = refl;
})

Stops-zero :
    (now room : ℕ) (xs : List BufferedItem) → ready_count now room xs ≡ 0 → Stops now room 0 xs
unfolding ready_count
Stops-zero now room [] h = tt
Stops-zero now zero (x ∷ xs) h = inl refl
Stops-zero now (suc room) (x ∷ xs) h = inr (ground arith)

Stops-nil : (now room : ℕ) (xs : List BufferedItem) → is_nil xs ≡ true → Stops now room 0 xs
Stops-nil now room [] h = tt
Stops-nil now room (x ∷ xs) h = cc

-- dequeueReadyBatch has one of three results. It changes nothing, because a flush is under way or
-- the head of the buffer is empty, not ready, or above FlushCount; or, with a transmission id, it
-- cuts off the longest ready prefix of at most FlushCount items, with their samples in order, and
-- sets flushing; or, with no id, it cuts items off too, and they are in neither buffer nor batch.
pub dequeue_ready_batch-Dequeues :
    (cfg : PublishConfig) (now : Time) (id : Option (List ℕ)) (p : BufferedPublisher)
    → Dequeues cfg now id p (dequeue_ready_batch cfg now id p)
unfolding dequeue_ready_batch
dequeue_ready_batch-Dequeues cfg now id p = elim (Bool-cases p.flushing) [
  | inl f ↦ simp f (nothing (inl f))
  | inr idle ↦ elim (Bool-cases (is_nil p.buffer)) [
    | inl e ↦ simp (idle, e) (nothing (inr (Stops-nil now cfg.flush_count p.buffer e)))
    | inr e ↦ elim (Bool-cases (ready_count now cfg.flush_count p.buffer == 0)) [
      | inl z ↦
          simp (idle, e, z) (nothing (inr (Stops-zero now cfg.flush_count p.buffer (ground arith))))
      | inr nz ↦ simp (idle, e, nz) (assemble-Dequeues cfg now id p idle (ground arith))
    ]
  ]
]
