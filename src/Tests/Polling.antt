-- ===== src/Tests/Polling.antt =====
-- Examples for the syncer.
use device_handler.Prelude.{
  List, ℕ, ltb, if◌then◌else◌, ◌+◌, ◌*◌, ◌≡◌, ◌≤◌, ◌↔◌, ◌^◌, refl, true, [], ◌∷◌, Result, ok, err,
  arith,
}
use device_handler.Text.{Text, codes}
use device_handler.Metrics.{new_app_metrics}
use device_handler.Cache.{new_device_cache}
use device_handler.Cache.Wire.{new_device_update_store}
use device_handler.Syncer.{SyncClient, Syncer, new_syncer, ready_status, poll_once}
use device_handler.Cache.Cells.{upserted}
use device_handler.Syncer.Ticker.{Signal, ticked, done, elsewhere, start, start-IsFresh}
use device_handler.Syncer.Health.{Refused, no_devices, IsFresh, here, next, ready_status-Outage}
use device_handler.Tests.{ascii, thermometer}

-- A REST API that answers until its request number 3, and refuses from then on.
abbrev answer : {A : Type 0} → ℕ → A → Result Text A × ℕ
answer w a = (if ltb w 3 then ok a else err (codes "refused"), w + 1)

abbrev client : SyncClient ℕ Text
client = record {
  readings = λ w. (λ i. 2 ^ 95 + w, w);
  fetch_devices = λ w. answer w (thermometer ∷ []);
  fetch_updated_devices = λ t w. answer w (thermometer ∷ []);
  fetch_device_updates = λ w. answer w [];
}

abbrev syncer : Syncer ℕ
syncer = new_syncer new_device_cache new_device_update_store new_app_metrics 1

abbrev loaded : Syncer ℕ
loaded = record syncer { initial_load_done = true; last_successful_sync = 2 ^ 95 }

-- Two ticks, of which the second one fails, with a write by a request between them.
abbrev signals : List (Signal ℕ)
signals = ticked ∷ elsewhere (upserted (λ i. 2 ^ 95) (thermometer ∷ []) ∷ []) 2 ∷ ticked ∷ done ∷ []

start-IsFresh_example :
    IsFresh client loaded.device_cache (start client signals loaded).device_cache
    × ((start client signals loaded).initial_load_done ≡ true)
start-IsFresh_example =
    start-IsFresh client signals loaded (record { keyed = tt; newest = tt }) refl

abbrev stale : Syncer ℕ
stale = record loaded { world = 5 }

refused : Refused client stale
refused = no_devices refl

ready_status-Outage_example :
    ((ready_status 10 (2 ^ 95 + 7) (poll_once client stale)).0 ≡ true)
    ↔ (2 ^ 95 + 7 ≤ 2 ^ 95 + 2 * 10)
ready_status-Outage_example =
    ready_status-Outage client {s = stale} {t = poll_once client stale} (2 ^ 95) (2 ^ 95 + 7) 10
      (λ e. ground arith) (record { done = refl; last = refl; error = refl }) (next here refused)
