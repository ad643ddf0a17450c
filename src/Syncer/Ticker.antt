-- ===== src/Syncer/Ticker.antt =====
-- internal/cache/syncer.go: Start, the loop over the ticks of its ticker up to the end of its context,
-- with what other goroutines write to the cache between two polls.
use device_handler.Prelude.{◌≡◌, true, List, [], ◌∷◌, arith}
use device_handler.Text.{Unicode}
use device_handler.Cache.Consistent.{IsConsistent}
use device_handler.Cache.Cells.{Write, writes, writes-IsConsistent}
use device_handler.Syncer.{SyncClient, Syncer, poll_once}
use device_handler.Syncer.Health.{IsFresh, here, next, Polls-IsFresh}

-- What the loop waits for, and what happens while it waits.
pub data Signal (W : Type 0) : Type 0 where
  ticked done : Signal W
  elsewhere : List Write → W → Signal W

module _ ⦃u : Unicode⦄ {W X : Type 0} (client : SyncClient W X) where
  unfoldable pub start : List (Signal W) → Syncer W → Syncer W
  unfolding poll_once writes
  start [] s = s
  start (ticked ∷ rest) s = start rest (poll_once client s)
  start (done ∷ rest) s = s
  start (elsewhere xs w ∷ rest) s =
      start rest (record s { device_cache = writes xs s.device_cache; world = w })

  -- From a consistent cache and a completed initial load: however many ticks there are before the
  -- context is done, and whatever other goroutines write to the cache in between, the cache stays
  -- consistent, its time never goes back, and the initial load stays done.
  pub start-IsFresh :
      (xs : List (Signal W)) (s : Syncer W)
      → IsConsistent s.device_cache
      → s.initial_load_done ≡ true
      → IsFresh client s.device_cache (start xs s).device_cache
        × ((start xs s).initial_load_done ≡ true)
  unfolding start
  start-IsFresh [] s h d = ((h, omega arith), d)
  start-IsFresh (ticked ∷ rest) s h d =
      let (now, d') = Polls-IsFresh client h d (next here) in
      let (later, d'') = start-IsFresh rest (poll_once client s) now.0 d' in
      ((later.0, omega (arith, now.1, later.1)), d'')
  start-IsFresh (done ∷ rest) s h d = ((h, omega arith), d)
  start-IsFresh (elsewhere xs w ∷ rest) s h d =
      let (c, l) = writes-IsConsistent xs s.device_cache h in
      let (later, d') =
        start-IsFresh rest (record s { device_cache = writes xs s.device_cache; world = w }) c d in
      ((later.0, omega (arith, l, later.1)), d')
