-- ===== src/Ingest/Threads/Turns.antt =====
-- A request finishes, whatever the other goroutines do, once the scheduler has given its goroutine
-- enough turns.
use device_handler.Prelude.{
  ℕ, zero, suc, ◌+◌, ◌-◌, ◌≤◌, ◌==◌, ◌≡◌, refl, sym, subst, some, List, [], ◌∷◌, ◌++◌, get_elem?,
  arith, if◌then◌else◌,
}
use mathlib.Core.Option.{some-injective}
use device_handler.Text.{Unicode}
use device_handler.Device.{Request}
use device_handler.Device.Registry.{Registry}
use device_handler.Publish.{PublishConfig}
use device_handler.Ingest.State.{Remote}
use device_handler.Ingest.Threads
use device_handler.Ingest.Threads.{Pc, arrived, finished}
use device_handler.Ingest.Threads.Budget.{left, left-step, IsFinished, left-IsFinished}
use device_handler.Ingest.Threads.System.{
  Thread, Shared, System, service_of, Event, arrives, moves, polled, flushes, succeeds, fails,
  drifts, advance, move, step, run,
}

-- The turns of the thread at a place.
abbrev pub turn : {W : Type 0} → ℕ → Event W → ℕ
turn i (moves j) = if j == i then 1 else 0
turn i _ = 0

abbrev pub turns : {W : Type 0} → ℕ → List (Event W) → ℕ
turns i [] = 0
turns i (e ∷ es) = turn i e + turns i es

module _ ⦃u : Unicode⦄ {E X : Type 0} (registry : Registry E) where
  -- At the place stands a goroutine of the request that has at most `n` accesses left.
  abbrev Leaves : Request → ℕ → ℕ → List (Thread E X) → Type 0
  Leaves req i n [] = ⊥
  Leaves req zero n (t ∷ ts) = (t.request ≡ req) × (left registry req t.pc ≤ n)
  Leaves req (suc i) n (t ∷ ts) = Leaves req i n ts

  Leaves-there :
      (i n : ℕ) (ts : List (Thread E X)) {t : Thread E X}
      → get_elem? ts i ≡ some t
      → left registry t.request t.pc ≤ n
      → Leaves t.request i n ts
  Leaves-there i n [] {t} e h = cc e
  Leaves-there zero n (x ∷ ts) {t} e h =
      subst (λ o. (o.request ≡ t.request) × (left registry t.request o.pc ≤ n))
        (sym (some-injective x t e)) (refl, h)
  Leaves-there (suc i) n (x ∷ ts) {t} e h = Leaves-there i n ts {t = t} e h

  Leaves-mono :
      (req : Request) (i m n : ℕ) (ts : List (Thread E X))
      → m ≤ n
      → Leaves req i m ts
      → Leaves req i n ts
  Leaves-mono req i m n [] e h = absurd h
  Leaves-mono req zero m n (t ∷ ts) e h = (h.0, omega (arith, e, h.1))
  Leaves-mono req (suc i) m n (t ∷ ts) e h = Leaves-mono req i m n ts e h

  Leaves-append :
      (req : Request) (i n : ℕ) (ts us : List (Thread E X))
      → Leaves req i n ts
      → Leaves req i n (ts ++ us)
  Leaves-append req zero n (t ∷ ts) us h = h
  Leaves-append req (suc i) n (t ∷ ts) us h = Leaves-append req i n ts us h
  Leaves-append req i n [] us h = absurd h

  Leaves-IsFinished :
      (req : Request) (i : ℕ) (ts : List (Thread E X))
      → Leaves req i 0 ts
      → (t : Thread E X) × (get_elem? ts i ≡ some t) × (t.request ≡ req) × IsFinished t.pc
  Leaves-IsFinished req i [] h = absurd h
  Leaves-IsFinished req zero (t ∷ ts) h = (t, refl, h.0, left-IsFinished registry req t.pc h.1)
  Leaves-IsFinished req (suc i) (t ∷ ts) h = Leaves-IsFinished req i ts h

module _ ⦃u : Unicode⦄ {W E X : Type 0} (remote : Remote W X) (registry : Registry E)
    (cfg : PublishConfig) where
  Leaves-advance :
      (req : Request) (n : ℕ) (t : Thread E X) (sh : Shared W)
      → (t.request ≡ req) × (left registry req t.pc ≤ n)
      → ((advance remote registry cfg t sh).0.request ≡ req)
        × (left registry req (advance remote registry cfg t sh).0.pc ≤ n - 1)
  unfolding advance
  Leaves-advance req n t sh (e, h) = (
    e,
    subst
        (λ r.
          left registry r t.pc ≤ n
          → left registry r (Threads.step remote registry cfg t.request t.pc (service_of sh)).0
            ≤ n - 1)
        e (λ k. omega (arith, k, left-step remote registry cfg t.request t.pc (service_of sh))) h,
  )

  Leaves-move :
      (req : Request) (i j n : ℕ) (ts : List (Thread E X)) (sh : Shared W)
      → Leaves registry req i n ts
      → Leaves registry req i (n - (if j == i then 1 else 0)) (move remote registry cfg j ts sh).0
  unfolding move
  Leaves-move req i j n [] sh h = absurd h
  Leaves-move req zero zero n (t ∷ ts) sh h = Leaves-advance req n t sh h
  Leaves-move req (suc i) zero n (t ∷ ts) sh h = Leaves-mono registry req i n _ ts (ground arith) h
  Leaves-move req zero (suc j) n (t ∷ ts) sh h = (h.0, ground (arith, h.1))
  Leaves-move req (suc i) (suc j) n (t ∷ ts) sh h =
      Leaves-mono registry req i _ _ _ (ground arith) (Leaves-move req i j n ts sh h)

  Leaves-step :
      (req : Request) (i n : ℕ) (st : System W E X) (e : Event W)
      → Leaves registry req i n st.threads
      → Leaves registry req i (n - turn i e) (step remote registry cfg st e).threads
  unfolding step
  Leaves-step req i n st (arrives new) h =
      Leaves-mono registry req i n _ _ (omega arith) (Leaves-append registry req i n st.threads _ h)
  Leaves-step req i n st (moves j) h = Leaves-move req i j n st.threads st.shared h
  Leaves-step req i n st (polled clock rs) h =
      Leaves-mono registry req i n _ st.threads (omega arith) h
  Leaves-step req i n st (flushes now id) h =
      Leaves-mono registry req i n _ st.threads (omega arith) h
  Leaves-step req i n st succeeds h = Leaves-mono registry req i n _ st.threads (omega arith) h
  Leaves-step req i n st (fails now) h = Leaves-mono registry req i n _ st.threads (omega arith) h
  Leaves-step req i n st (drifts w) h = Leaves-mono registry req i n _ st.threads (omega arith) h

  Leaves-run :
      (req : Request) (i n : ℕ) (st : System W E X) (es : List (Event W))
      → Leaves registry req i n st.threads
      → n ≤ turns i es
      → Leaves registry req i 0 (run remote registry cfg st es).threads
  unfolding run
  Leaves-run req i n st [] h enough = Leaves-mono registry req i n 0 st.threads enough h
  Leaves-run req i n st (e ∷ es) h enough =
      Leaves-run req i (n - turn i e) (step remote registry cfg st e) es
        (Leaves-step req i n st e h) (omega (arith, enough))

  -- Whatever the other goroutines do, and whatever they leave in the cache: a request whose goroutine
  -- gets as many turns as it has accesses left, which are at first `budget`, is finished.
  pub run-IsFinished :
      (i : ℕ) (st : System W E X) (es : List (Event W)) {t : Thread E X}
      → get_elem? st.threads i ≡ some t
      → left registry t.request t.pc ≤ turns i es
      → (t' : Thread E X) × (get_elem? (run remote registry cfg st es).threads i ≡ some t')
        × (t'.request ≡ t.request)
        × IsFinished t'.pc
  run-IsFinished i st es {t} e h =
      Leaves-IsFinished registry t.request i (run remote registry cfg st es).threads (
        Leaves-run t.request i (left registry t.request t.pc) st es
          (Leaves-there registry i _ st.threads {t = t} e (omega arith)) h)
