-- ===== src/Publish/Start.antt =====
-- internal/publish/buffered.go: Start, the loop over the ticks of its ticker up to the end of its
-- context, and the flush that it ends with.
use device_handler.Prelude.{
  ℕ, suc, ◌⊎◌, All, true, sym, ◌<◌, ◌≤◌, ◌≡◌, ◌≢◌, refl, false, Option, none, some, List, [], ◌∷◌,
  ◌++◌, length, arith, Bool-cases, inl, inr, ◌||◌, ◌==◌, Result, ok, err,
}
use device_handler.Time.{Time, Duration, ℤ, pos, negsuc}
use device_handler.Time
use device_handler.Text.{Text}
use device_handler.Telemetry.{Batch}
use device_handler.Publish.{
  PublishConfig, BufferedPublisher, BufferedItem, Dequeue, Dequeued, dequeue_ready_batch,
  publish_failed, publish_succeeded, handle_publish_failure, publish_batch, requeued, flush,
  assemble, ready_count, is_nil, at_least, exhausted, dropped_count, backoff_delay,
}
use device_handler.Publish.Batches.{
  Dequeues, nothing, batch, gone, IsBatch, IsReady, Stops, dequeue_ready_batch-Dequeues,
}
use device_handler.Publish.Protobuf.{to_proto_batch}
use device_handler.Publish.Jetstream.{
  Msg, Nats, PublishError, message_of, timeout_of, acknowledged, send, publish,
}

-- A flush of the loop: its time, what rand.Read gives, and what Publish answers, with the time of
-- the failure.
pub record Turn : Type 0 where
  pub now : Time
  pub id : Option (List ℕ)
  pub publish : Text → Batch → Option Time

-- What the loop waits for.
pub data Signal : Type 0 where
  ticked done : Turn → Signal

unfoldable pub start : PublishConfig → List Signal → BufferedPublisher → BufferedPublisher
unfolding flush
start cfg [] p = p
start cfg (ticked t ∷ rest) p = start cfg rest (flush cfg t.now t.id t.publish p)
start cfg (done t ∷ rest) p = flush cfg t.now t.id t.publish p

-- The number of retries is below the limit.
abbrev IsBelow : ℕ → ℤ → Type 0
IsBelow n (pos m) = n < m
IsBelow n (negsuc m) = ⊥

-- An item that has gone back after a failure at time `t`: it has one retry more, and waits.
pub record IsRetry (cfg : PublishConfig) (t : Time) (x y : BufferedItem) : Type 0 where
  pub envelope : y.envelope ≡ x.envelope
  pub retries : y.retry_count ≡ suc x.retry_count
  pub waits : y.not_before ≡ Time.add t (backoff_delay cfg.retry_backoff (suc x.retry_count))

-- What goes back of the items that were attempted, in their order: those that have not yet been
-- retried as often as the limit allows. The number counts the others.
pub data Returns (cfg : PublishConfig) (t : Time)
    : List BufferedItem → List BufferedItem → ℕ → Type 0 where
  none_left : Returns cfg t [] [] 0
  returned :
      {x y : BufferedItem} {xs ys : List BufferedItem} {n : ℕ}
      → IsBelow x.retry_count cfg.max_retries
      → IsRetry cfg t x y
      → Returns cfg t xs ys n
      → Returns cfg t (x ∷ xs) (y ∷ ys) n
  given_up :
      {x : BufferedItem} {xs ys : List BufferedItem} {n : ℕ}
      → ¬ IsBelow x.retry_count cfg.max_retries
      → Returns cfg t xs ys n
      → Returns cfg t (x ∷ xs) ys (suc n)

-- A flush at time `now` whose publishing fails at `failed_at`: unless another flush is under way, the
-- items attempted are as many of the buffer's first as are ready and fit in a batch; of them those
-- below the limit of retries are back at the front of the buffer, and the others are untouched.
pub record Undelivered (cfg : PublishConfig) (now failed_at : Time) (p p' : BufferedPublisher)
    : Type 0 where
  pub attempted : List BufferedItem
  pub untouched : List BufferedItem
  pub cut : attempted ++ untouched ≡ p.buffer
  pub ready : All (IsReady now) attempted
  pub fits : length attempted ≤ cfg.flush_count
  pub maximal : (p.flushing ≡ true) ⊎ Stops now cfg.flush_count (length attempted) untouched
  pub back : List BufferedItem
  pub given_up_count : ℕ
  pub returns : Returns cfg failed_at attempted back given_up_count
  pub buffer : p'.buffer ≡ back ++ untouched
  pub batches : p'.metrics.publish_batches ≡ p.metrics.publish_batches

not_exhausted : (n : ℕ) (l : ℤ) → at_least n l ≡ false → IsBelow n l
not_exhausted n (pos m) h = ground arith
not_exhausted n (negsuc m) h = cc

is_exhausted : (n : ℕ) (l : ℤ) → at_least n l ≡ true → ¬ IsBelow n l
is_exhausted n (pos m) h b = ground arith
is_exhausted n (negsuc m) h b = b

requeued-Returns :
    (cfg : PublishConfig) (t : Time) (xs : List BufferedItem)
    → Returns cfg t xs (requeued cfg t xs) (dropped_count cfg xs)
unfolding requeued dropped_count
requeued-Returns cfg t [] = none_left
requeued-Returns cfg t (x ∷ xs) = elim (Bool-cases (exhausted cfg x)) [
  | inl e ↦
      rw e (given_up (is_exhausted x.retry_count cfg.max_retries e) (requeued-Returns cfg t xs))
  | inr e ↦ rw e (
      returned (not_exhausted x.retry_count cfg.max_retries e)
        (record { envelope = refl; retries = refl; waits = refl }) (requeued-Returns cfg t xs))
]

module _ (cfg : PublishConfig) (now : Time) (id : List ℕ) (publish : Text → Batch → Option Time)
    (failed_at : Time) (p : BufferedPublisher) where
  -- Publish fails, and at this time.
  abbrev Answers : Type 0
  Answers =
      (s : Text) (b : Batch)
      → (publish s b ≢ none) × ((t : Time) → publish s b ≡ some t → t ≡ failed_at)

  ended-Undelivered :
      (p' : BufferedPublisher) (d : Dequeued) (o : Option Time)
      → IsBatch cfg now p p' d
      → p'.metrics.publish_batches ≡ p.metrics.publish_batches
      → ((t : Time) → o ≡ some t → t ≡ failed_at)
      → o ≢ none
      → Undelivered cfg now failed_at p
          (elim o [ none ↦ publish_succeeded p' | some t ↦ publish_failed cfg t d.items p' ])
  unfolding publish_failed handle_publish_failure
  ended-Undelivered p' d none c b same n = absurd (n refl)
  ended-Undelivered p' d (some t) c b same n = record {
    attempted = d.items;
    untouched = p'.buffer;
    cut = c.cut;
    ready = c.ready;
    fits = c.fits;
    maximal = inr c.maximal;
    back = requeued cfg t d.items;
    given_up_count = dropped_count cfg d.items;
    returns = rw (sym (same t refl)) (requeued-Returns cfg t d.items);
    buffer = refl;
    batches = b;
  }

  batch-Undelivered :
      (r : BufferedPublisher × Dequeue)
      → Dequeues cfg now (some id) p r
      → r.0.metrics.publish_batches ≡ p.metrics.publish_batches
      → Answers
      → Undelivered cfg now failed_at p (publish_batch cfg publish r)
  unfolding publish_batch
  batch-Undelivered r (nothing why) m h = record {
    attempted = [];
    untouched = p.buffer;
    cut = refl;
    ready = tt;
    fits = omega arith;
    maximal = why;
    back = [];
    given_up_count = 0;
    returns = none_left;
    buffer = refl;
    batches = refl;
  }
  batch-Undelivered r (batch {p'} {d} e b) m h =
      let a = h d.subject d.batch in ended-Undelivered p' d (publish d.subject d.batch) b m a.1 a.0
  batch-Undelivered r (gone items e c) m h = cc

  dequeue_batches :
      (dequeue_ready_batch cfg now (some id) p).0.metrics.publish_batches
      ≡ p.metrics.publish_batches
  unfolding dequeue_ready_batch assemble
  dequeue_batches = elim (Bool-cases (p.flushing || is_nil p.buffer)) [
    | inl e ↦ simp e refl
    | inr f ↦ elim (Bool-cases (ready_count now cfg.flush_count p.buffer == 0)) [
      | inl e ↦ simp (f, e) refl
      | inr e ↦ simp (f, e) refl
    ]
  ]

  flush-Undelivered : Answers → Undelivered cfg now failed_at p (flush cfg now (some id) publish p)
  unfolding flush
  flush-Undelivered h =
      batch-Undelivered (dequeue_ready_batch cfg now (some id) p)
        (dequeue_ready_batch-Dequeues cfg now (some id) p) dequeue_batches h

module _ {W X : Type 0} (nats : Nats W X) where
  -- The client sends nothing: every call comes back with an error.
  abbrev pub RefusesAll : Type 0
  RefusesAll =
      (m : Msg) (timeout : Option Duration) (w : W) → (nats.publish_msg m timeout w).0 ≢ none

  abbrev failed_at_time : Time → Option (PublishError X) → Option Time
  failed_at_time t none = none
  failed_at_time t (some x) = some t

  -- What Publish of the JetStream publisher answers in the state `w`, with the time of a failure.
  abbrev pub answer : PublishConfig → W → Time → Text → Batch → Option Time
  answer cfg w t subject b = failed_at_time t (publish nats cfg false subject b w).0

  failed_at_time-eq :
      (t t' : Time) (o : Option (PublishError X)) → failed_at_time t o ≡ some t' → t' ≡ t
  failed_at_time-eq t t' none e = cc
  failed_at_time-eq t t' (some x) e = cc

  acknowledged-some :
      (t : Time) (subject : Text) (o : Option X × W)
      → o.0 ≢ none
      → failed_at_time t (acknowledged subject o).0 ≢ none
  acknowledged-some t subject (none, w) h = absurd (h refl)
  acknowledged-some t subject (some x, w) h = λ e. cc

  send-some :
      (cfg : PublishConfig) (w : W) (t : Time) (subject : Text) (b : Batch) (r : Result X (List ℕ))
      → RefusesAll
      → failed_at_time t (send nats cfg false subject b r w).0 ≢ none
  send-some cfg w t subject b (err x) h = λ e. cc
  send-some cfg w t subject b (ok payload) h =
      acknowledged-some t subject
        (nats.publish_msg (message_of subject payload b.transmission_id)
          (timeout_of false cfg.timeout) w)
        (h _ _ w)

  -- If the NATS client refuses every message, as it does under a context that is done, and there is a
  -- transmission id, the loop of Start ends with a flush that publishes nothing: unless another flush
  -- is under way, the items of the buffer up to the first that is not ready yet, and at most
  -- FlushCount, were attempted, and of these each that has been retried less than MaxRetries times is
  -- back at the front of the buffer, in the same order, with one retry more and the backoff of that
  -- retry, and the others were given up; the rest of the buffer is untouched.
  pub start-Undelivered :
      (cfg : PublishConfig) (w : W) (now failed_at : Time) (id : List ℕ) (rest : List Signal)
      (p : BufferedPublisher)
      → RefusesAll
      → Undelivered cfg now failed_at p (
          start cfg
            (done (record { now = now; id = some id; publish = answer cfg w failed_at }) ∷ rest)
            p)
  unfolding start publish
  start-Undelivered cfg w now failed_at id rest p h =
      flush-Undelivered cfg now id (answer cfg w failed_at) failed_at p λ subject b. (
        send-some cfg w failed_at subject b (nats.marshal (to_proto_batch b)) h,
        λ t.
            failed_at_time-eq failed_at t
              (send nats cfg false subject b (nats.marshal (to_proto_batch b)) w).0,
      )
