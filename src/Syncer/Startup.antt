-- ===== src/Syncer/Startup.antt =====
-- InitialLoad of internal/cache/syncer.go.
use device_handler.Prelude.{◌≡◌, refl, List, Result, ok, err, arith}
use device_handler.Time.{Time}
use device_handler.Text.{Unicode}
use device_handler.Cache.{DeviceRecord}
use device_handler.Cache.Consistent.{IsConsistent, upsert_many-IsConsistent, updated_at-upsert_many}
use device_handler.Cache.Wire.{DeviceUpdate}
use device_handler.Syncer.{SyncClient, Syncer, load_updates, load_devices, initial_load}
use device_handler.Syncer.Health.{IsHealthy, IsFresh}

module _ ⦃u : Unicode⦄ {W X : Type 0} (client : SyncClient W X) where
  -- What the load leaves: a consistent cache, no older than before, and after a success a healthy
  -- service, after an error the readiness it had.
  abbrev pub Loads : Syncer W → Result X (Unit {0}) × Syncer W → Type 0
  Loads s (ok x, s') =
      IsFresh client s.device_cache s'.device_cache × ((now : Time) × IsHealthy now s')
  Loads s (err x, s') =
      IsFresh client s.device_cache s'.device_cache
      × (s'.initial_load_done ≡ s.initial_load_done)
      × (s'.last_successful_sync ≡ s.last_successful_sync)

  load_updates-Loads :
      (s t : Syncer W) (r : Result X (List DeviceUpdate) × W)
      → IsFresh client s.device_cache t.device_cache
      → t.initial_load_done ≡ s.initial_load_done
      → t.last_successful_sync ≡ s.last_successful_sync
      → Loads s (load_updates client r t)
  unfolding load_updates
  load_updates-Loads s t (ok xs, w) f d l =
      (f, (_, record { done = refl; last = refl; error = refl }))
  load_updates-Loads s t (err x, w) f d l = (f, d, l)

  load_devices-Loads :
      (s : Syncer W) (r : Result X (List DeviceRecord) × W)
      → IsConsistent s.device_cache
      → Loads s (load_devices client r s)
  unfolding load_devices
  load_devices-Loads s (ok rs, w) h =
      load_updates-Loads s _ _
        (
          upsert_many-IsConsistent (client.readings w).0 rs s.device_cache h,
          updated_at-upsert_many (client.readings w).0 rs s.device_cache,
        )
        refl refl
  load_devices-Loads s (err x, w) h = ((h, omega arith), refl, refl)

  -- From a consistent cache InitialLoad leaves a consistent cache, no older than before; if it
  -- succeeds, the initial load counts as done and the error is cleared; if it fails, the readiness
  -- stays as it was.
  pub initial_load-Loads :
      (s : Syncer W) → IsConsistent s.device_cache → Loads s (initial_load client s)
  unfolding initial_load
  initial_load-Loads s h = load_devices-Loads s _ h
