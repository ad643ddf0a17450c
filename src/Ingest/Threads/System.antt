-- ===== src/Ingest/Threads/System.antt =====
-- The goroutines of the program that share the cache of internal/cache/device_cache.go and the
-- buffer of internal/publish/buffered.go: one for each request of internal/ingest/service.go, the
-- syncer's polls, and the flushes, in any order that the scheduler may choose. Each thread records
-- what it has enqueued; the program keeps no such record.
use device_handler.Prelude.{ℕ, zero, suc, Option, List, [], ◌∷◌, ◌++◌}
use device_handler.Time.{Time}
use device_handler.Text.{Unicode}
use device_handler.Cache.{DeviceCache, DeviceRecord, upsert_many}
use device_handler.Device.{Request}
use device_handler.Device.Registry.{Registry}
use device_handler.Publish.{PublishConfig, TelemetryEnvelope}
use device_handler.Publish.Steps as Flow
use device_handler.Ingest.State.{Remote, Service}
use device_handler.Ingest.Threads.{Pc, arrived, enqueueing, finished}
use device_handler.Ingest.Threads

-- A request of the server, where its goroutine stands, and what it has enqueued.
pub record Thread (E X : Type 0) : Type 0 where
  pub request : Request
  pub pc : Pc E X
  pub sent : List TelemetryEnvelope

-- The cache, the buffered publisher with the metrics, and the outside world.
pub record Shared (W : Type 0) : Type 0 where
  pub cache : DeviceCache
  pub flow : Flow.System
  pub world : W

pub record System (W E X : Type 0) : Type 0 where
  pub threads : List (Thread E X)
  pub shared : Shared W

pub data Event (W : Type 0) : Type 0 where
  -- the server starts the goroutine of a request
  arrives : Request → Event W
  -- the goroutine at this place makes its next access
  moves : ℕ → Event W
  -- UpsertMany of the syncer
  polled : (clock : ℕ → Time) (records : List DeviceRecord) → Event W
  -- the sections of a flush
  flushes : Time → Option (List ℕ) → Event W
  succeeds : Event W
  fails : Time → Event W
  -- anything that changes outside
  drifts : W → Event W

-- The shared state as Handle sees it, and what its access leaves.
module _ {W : Type 0} where
  abbrev pub service_of : Shared W → Service W
  service_of sh = record { cache = sh.cache; publisher = sh.flow.publisher; world = sh.world }

  abbrev pub share : Shared W → List TelemetryEnvelope → Service W → Shared W
  share sh es s = record {
    cache = s.cache;
    flow = record (sh.flow) { publisher = s.publisher; accepted = sh.flow.accepted ++ es };
    world = s.world;
  }

  abbrev pub with_flow : Shared W → Flow.System → Shared W
  with_flow sh flow = record sh { flow = flow }

module _ {E X : Type 0} where
  -- What Enqueue is about to accept.
  abbrev pub emitted : Pc E X → List TelemetryEnvelope
  emitted (enqueueing parsed envelope) = envelope ∷ []
  emitted _ = []

  abbrev pub new_thread : Request → Thread E X
  new_thread req = record { request = req; pc = arrived; sent = [] }

module _ ⦃u : Unicode⦄ {W E X : Type 0} (remote : Remote W X) (registry : Registry E)
    (cfg : PublishConfig) where
  unfoldable pub advance : Thread E X → Shared W → Thread E X × Shared W
  unfolding Threads.step
  advance t sh =
      let (pc, s) = Threads.step remote registry cfg t.request t.pc (service_of sh) in
      (record t { pc = pc; sent = emitted t.pc ++ t.sent }, share sh (emitted t.pc) s)

  -- The thread at a place makes its next access; past the end, nothing happens.
  unfoldable pub move : ℕ → List (Thread E X) → Shared W → List (Thread E X) × Shared W
  unfolding advance
  move i [] sh = ([], sh)
  move zero (t ∷ ts) sh = let (t', sh') = advance t sh in (t' ∷ ts, sh')
  move (suc i) (t ∷ ts) sh = let (ts', sh') = move i ts sh in (t ∷ ts', sh')

  unfoldable pub step : System W E X → Event W → System W E X
  unfolding move
  step st (arrives req) = record st { threads = st.threads ++ (new_thread req ∷ []) }
  step st (moves i) =
      let (ts, sh) = move i st.threads st.shared in record { threads = ts; shared = sh }
  step st (polled clock rs) = record st {
    shared = record (st.shared) { cache = upsert_many clock rs st.shared.cache };
  }
  step st (flushes now id) = record st {
    shared = with_flow st.shared (Flow.step cfg st.shared.flow (Flow.dequeued now id));
  }
  step st succeeds = record st {
    shared = with_flow st.shared (Flow.step cfg st.shared.flow Flow.succeeded);
  }
  step st (fails now) = record st {
    shared = with_flow st.shared (Flow.step cfg st.shared.flow (Flow.failed now));
  }
  step st (drifts w) = record st { shared = record (st.shared) { world = w } }

  unfoldable pub run : System W E X → List (Event W) → System W E X
  unfolding step
  run st [] = st
  run st (e ∷ es) = run (step st e) es
