-- ===== src/Ingest/Threads/Accounts.antt =====
-- Every request accounts for what it has enqueued, in any order of the goroutines of the program.
use device_handler.Prelude.{
  ℕ, zero, suc, ◌+◌, ◌≡◌, refl, sym, List, [], ◌∷◌, ◌++◌, arith, All, All-append,
}
use device_handler.Text.{Unicode}
use device_handler.Metrics.{AppMetrics}
use device_handler.Cache.{DeviceCache}
use device_handler.Cache.Consistent.{IsConsistent, upsert_many-IsConsistent}
use device_handler.Device.Registry.{Registry}
use device_handler.Publish.{PublishConfig, TelemetryEnvelope, new_buffered_publisher}
use device_handler.Publish.Steps as Flow
use device_handler.Publish.Steps.{after_dequeue, after_success, after_failure}
use device_handler.Publish.Steps.Conserve.{
  total, total-append, load, step-IsConserved, start-IsConserved,
}
use device_handler.Ingest.State.{Remote}
use device_handler.Ingest.Threads.System.{
  Thread, Shared, System, Event, arrives, moves, polled, flushes, succeeds, fails, drifts,
  service_of, emitted, new_thread, advance, move, step, run,
}
use device_handler.Ingest.Threads.Stands.{Stands}
use device_handler.Ingest.Threads.Balance.{
  Balanced, after_dequeue_accepted, after_success_accepted, after_failure_accepted, Balanced-cong,
  share-Balanced, flow-Balanced,
}
use device_handler.Ingest.Threads.Kept.{step-Adds, step-Stands}

-- The program before its first request.
abbrev pub begin : {W E X : Type 0} → DeviceCache → AppMetrics → W → System W E X
begin c m w = record {
  threads = [];
  shared = record { cache = c; flow = Flow.start (new_buffered_publisher m); world = w };
}

-- What the threads have enqueued.
abbrev pub all_sent : {E X : Type 0} → List (Thread E X) → List TelemetryEnvelope
all_sent [] = []
all_sent (t ∷ ts) = t.sent ++ all_sent ts

module _ ⦃u : Unicode⦄ {E X : Type 0} (registry : Registry E) where
  abbrev pub StandsAt : Thread E X → Type 0
  StandsAt t = Stands registry t.request t.sent t.pc

module _ ⦃u : Unicode⦄ {W E X : Type 0} (registry : Registry E) where
  -- The cache is consistent; each thread has kept to what holds where it stands; and what the
  -- threads have enqueued is, under any weight, in the buffer, in the batch in flight, published,
  -- dropped after its retries, or lost with a batch that got no transmission id.
  pub record IsAccounted (st : System W E X) : Type 0 where
    pub consistent : IsConsistent st.shared.cache
    pub threads : All (StandsAt registry) st.threads
    pub totals :
        (f : TelemetryEnvelope → ℕ)
        → total f (all_sent st.threads)
          ≡ load f st.shared.flow.publisher.buffer
            + load f st.shared.flow.in_flight
            + total f st.shared.flow.published
            + total f st.shared.flow.dropped
            + total f st.shared.flow.lost

module _ ⦃u : Unicode⦄ {W E X : Type 0} (remote : Remote W X) (registry : Registry E)
    (cfg : PublishConfig) where
  -- The invariant.
  record IsSound (st : System W E X) : Type 0 where
    pub balanced : Balanced (λ f. total f (all_sent st.threads)) st.shared
    pub stands : All (StandsAt registry) st.threads

  move-Balanced :
      (i : ℕ) (base : (TelemetryEnvelope → ℕ) → ℕ) (ts : List (Thread E X)) (sh : Shared W)
      → Balanced (λ f. base f + total f (all_sent ts)) sh
      → Balanced
          (λ f. base f + total f (all_sent (move remote registry cfg i ts sh).0))
          (move remote registry cfg i ts sh).1
  unfolding move advance
  move-Balanced i base [] sh b = b
  move-Balanced zero base (t ∷ ts) sh b =
      Balanced-cong _ _ _
        (λ f. omega (
          arith,
          total-append f t.sent (all_sent ts),
          total-append f (emitted t.pc ++ t.sent) (all_sent ts),
          total-append f (emitted t.pc) t.sent,
        ))
        (share-Balanced _ (emitted t.pc) sh _ b
          (step-Adds remote registry cfg t.request t.pc (service_of sh) b.consistent))
  move-Balanced (suc i) base (t ∷ ts) sh b =
      Balanced-cong _ _ _
        (λ f. omega (arith, total-append f t.sent (all_sent (move remote registry cfg i ts sh).0)))
        (move-Balanced i (λ f. base f + total f t.sent) ts sh
          (Balanced-cong _ _ _ (λ f. omega (arith, total-append f t.sent (all_sent ts))) b))

  move-StandsAt :
      (i : ℕ) (ts : List (Thread E X)) (sh : Shared W)
      → IsConsistent sh.cache
      → All (StandsAt registry) ts
      → All (StandsAt registry) (move remote registry cfg i ts sh).0
  unfolding move advance
  move-StandsAt i [] sh c h = h
  move-StandsAt zero (t ∷ ts) sh c h =
      (step-Stands remote registry cfg t.request t.sent t.pc (service_of sh) c h.0, h.1)
  move-StandsAt (suc i) (t ∷ ts) sh c h = (h.0, move-StandsAt i ts sh c h.1)

  all_sent-new :
      (ts : List (Thread E X)) (t : Thread E X) (f : TelemetryEnvelope → ℕ)
      → t.sent ≡ []
      → total f (all_sent (ts ++ (t ∷ []))) ≡ total f (all_sent ts)
  all_sent-new [] t f e = rw e refl
  all_sent-new (x ∷ ts) t f e = omega (
    arith,
    total-append f x.sent (all_sent ts),
    total-append f x.sent (all_sent (ts ++ (t ∷ []))),
    all_sent-new ts t f e,
  )

  step-IsSound :
      (st : System W E X) (e : Event W) → IsSound st → IsSound (step remote registry cfg st e)
  unfolding step Flow.step
  step-IsSound st (arrives req) h = record {
    balanced =
        Balanced-cong _ _ _ (λ f. sym (all_sent-new st.threads (new_thread req) f refl)) h.balanced;
    stands = All-append (StandsAt registry) st.threads _ h.stands (unfold Stands in refl, tt);
  }
  step-IsSound st (moves i) h = record {
    balanced =
        Balanced-cong _ _ _ (λ f. omega arith)
          (move-Balanced i (λ f. 0) st.threads st.shared
            (Balanced-cong _ _ _ (λ f. omega arith) h.balanced));
    stands = move-StandsAt i st.threads st.shared h.balanced.consistent h.stands;
  }
  step-IsSound st (polled clock rs) h = record {
    balanced = record {
      consistent = upsert_many-IsConsistent clock rs st.shared.cache h.balanced.consistent;
      conserved = h.balanced.conserved;
      accepted = h.balanced.accepted;
    };
    stands = h.stands;
  }
  step-IsSound st (flushes now id) h = record {
    balanced =
        flow-Balanced _ st.shared _ h.balanced
          (step-IsConserved cfg st.shared.flow (Flow.dequeued now id) h.balanced.conserved)
          (after_dequeue_accepted st.shared.flow _);
    stands = h.stands;
  }
  step-IsSound st succeeds h = record {
    balanced =
        flow-Balanced _ st.shared _ h.balanced
          (step-IsConserved cfg st.shared.flow Flow.succeeded h.balanced.conserved)
          (after_success_accepted st.shared.flow _);
    stands = h.stands;
  }
  step-IsSound st (fails now) h = record {
    balanced =
        flow-Balanced _ st.shared _ h.balanced
          (step-IsConserved cfg st.shared.flow (Flow.failed now) h.balanced.conserved)
          (after_failure_accepted cfg now st.shared.flow _);
    stands = h.stands;
  }
  step-IsSound st (drifts w) h = record {
    balanced = record {
      consistent = h.balanced.consistent;
      conserved = h.balanced.conserved;
      accepted = h.balanced.accepted;
    };
    stands = h.stands;
  }

  run-IsSound :
      (st : System W E X) (es : List (Event W))
      → IsSound st
      → IsSound (run remote registry cfg st es)
  unfolding run
  run-IsSound st [] h = h
  run-IsSound st (e ∷ es) h = run-IsSound (step remote registry cfg st e) es (step-IsSound st e h)

  -- From a consistent cache, and whatever the order in which the goroutines of any number of
  -- requests, of the syncer and of the flushes get their turns: a request that has succeeded was
  -- answered with its own parser's response, and has enqueued exactly one envelope, with a sample
  -- of its own upload for a device that it has reached; one that has failed has enqueued none; the
  -- cache is consistent; and each envelope enqueued is, as often, in the buffer, in flight,
  -- published, dropped after its retries, or lost for want of a transmission id, and nothing else
  -- is there.
  pub run-IsAccounted :
      (c : DeviceCache) (m : AppMetrics) (w : W) (es : List (Event W))
      → IsConsistent c
      → IsAccounted registry (run remote registry cfg (begin c m w) es)
  run-IsAccounted c m w es h =
      let k = run-IsSound (begin c m w) es (record {
        balanced = record { consistent = h; conserved = start-IsConserved m; accepted = λ f. refl };
        stands = tt;
      }) in
      record {
        consistent = k.balanced.consistent;
        threads = k.stands;
        totals = λ f. omega (arith, k.balanced.accepted f, k.balanced.conserved.totals f);
      }
