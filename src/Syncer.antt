-- ===== src/Syncer.antt =====
-- internal/cache/syncer.go: the initial load of the cache, the polls that keep it fresh, and the
-- readiness that they report. The REST client and the clock are the record `SyncClient` over a
-- state `W` of the outside world. Twice the poll interval is within an int64.
pub mod Health
pub mod Startup
pub mod Ticker
use device_handler.Prelude.{
  ℕ, ◌+◌, ◌-◌, ◌*◌, Bool, true, false, ◌&&◌, not, List, [], ◌∷◌, Result, ok, err, ltb,
  if◌then◌else◌,
}
use device_handler.Time.{Time, ℤ, zero_time, is_zero, unix, to_signed}
use device_handler.Text.{Text, Unicode, codes, equal}
use device_handler.Metrics.{AppMetrics, inc}
use device_handler.Cache.{DeviceRecord, DeviceCache, upsert_many}
use device_handler.Cache.Wire.{DeviceUpdate, DeviceUpdateStore, add_many}

-- `X` is the type of the client's errors. `readings` are those of time.Now() in one step.
pub record SyncClient (W X : Type 0) : Type 0 where
  pub readings : W → (ℕ → Time) × W
  pub fetch_devices : W → Result X (List DeviceRecord) × W
  pub fetch_updated_devices : Time → W → Result X (List DeviceRecord) × W
  pub fetch_device_updates : W → Result X (List DeviceUpdate) × W

pub record Syncer (W : Type 0) : Type 0 where
  pub device_cache : DeviceCache
  pub update_store : DeviceUpdateStore
  pub initial_load_done : Bool
  pub last_successful_sync : Time
  pub last_sync_error : Text
  pub metrics : AppMetrics
  pub world : W

abbrev pub new_syncer : {W : Type 0} → DeviceCache → DeviceUpdateStore → AppMetrics → W → Syncer W
new_syncer cache store metrics w = record {
  device_cache = cache;
  update_store = store;
  initial_load_done = false;
  last_successful_sync = zero_time;
  last_sync_error = [];
  metrics = metrics;
  world = w;
}

abbrev pub poll_failed : Text
poll_failed = codes "one or more cache poll requests failed"

module _ {W : Type 0} where
  unfoldable pub mark_sync_error : Text → Syncer W → Syncer W
  mark_sync_error message s = record s {
    last_sync_error = message;
    metrics = record (s.metrics) { cache_sync_failures = inc s.metrics.cache_sync_failures };
  }

  -- markSyncSuccess at time `now`.
  unfoldable pub mark_success_at : Time → Syncer W → Syncer W
  mark_success_at now s = record s {
    initial_load_done = true;
    last_successful_sync = now;
    last_sync_error = [];
    metrics = record (s.metrics) {
      cache_sync_success = inc s.metrics.cache_sync_success;
      cache_last_success_timestamp = to_signed (unix now);
    };
  }

  -- The failure counted by InitialLoad.
  unfoldable pub count_failure : Syncer W → Syncer W
  count_failure s = record s {
    metrics = record (s.metrics) { cache_sync_failures = inc s.metrics.cache_sync_failures };
  }

  -- ReadyStatus at time `now`: time.Since stops at 0 here, which no test below tells apart.
  unfoldable pub ready_status : ℕ → Time → Syncer W → Bool × Text
  ready_status poll_interval now s =
      if not s.initial_load_done
      then (false, codes "initial cache sync not completed")
      else if not (is_zero s.last_successful_sync)
          && ltb (2 * poll_interval) (now - s.last_successful_sync)
      then (if not (equal s.last_sync_error [])
          then (false, s.last_sync_error)
          else (false, codes "cache sync stale"))
      else (true, [])

module _ {W X : Type 0} (client : SyncClient W X) where
  unfoldable pub mark_sync_success : Syncer W → Syncer W
  unfolding mark_success_at
  mark_sync_success s =
      let (clock, w) = client.readings s.world in mark_success_at (clock 0) (record s { world = w })

  -- The end of pollOnce: `poll_err` tells whether a request has failed.
  unfoldable pub finish_poll : Bool → Syncer W → Syncer W
  unfolding mark_sync_error mark_sync_success
  finish_poll true s = mark_sync_error poll_failed s
  finish_poll false s = mark_sync_success s

  abbrev pub store_updates : List DeviceUpdate → Syncer W → Syncer W
  store_updates [] s = s
  store_updates (x ∷ xs) s = record s { update_store = add_many (x ∷ xs) s.update_store }

  -- pollOnce behind the first request, with the result of the second.
  unfoldable pub poll_updates : Bool → Result X (List DeviceUpdate) × W → Syncer W → Syncer W
  unfolding finish_poll
  poll_updates poll_err (ok xs, w) s =
      finish_poll poll_err (store_updates xs (record s { world = w }))
  poll_updates poll_err (err x, w) s = finish_poll true (record s { world = w })

  -- InitialLoad behind the devices, with the result of the request for the updates.
  unfoldable pub load_updates :
      Result X (List DeviceUpdate) × W → Syncer W → Result X (Unit {0}) × Syncer W
  unfolding count_failure mark_sync_success
  load_updates (ok xs, w) s =
      (ok tt, mark_sync_success (record s { world = w; update_store = add_many xs s.update_store }))
  load_updates (err x, w) s = (err x, count_failure (record s { world = w }))

module _ ⦃u : Unicode⦄ {W X : Type 0} (client : SyncClient W X) where
  unfoldable pub upsert_devices : List DeviceRecord → Syncer W → Syncer W
  upsert_devices rs s =
      let (clock, w) = client.readings s.world in
      record s { device_cache = upsert_many clock rs s.device_cache; world = w }

  abbrev pub upsert_some : List DeviceRecord → Syncer W → Syncer W
  upsert_some [] s = s
  upsert_some (r ∷ rs) s = upsert_devices (r ∷ rs) s

  unfoldable pub load_devices :
      Result X (List DeviceRecord) × W → Syncer W → Result X (Unit {0}) × Syncer W
  unfolding load_updates count_failure upsert_devices
  load_devices (ok rs, w) s =
      let s' = upsert_devices rs (record s { world = w }) in
      load_updates client (client.fetch_device_updates s'.world) s'
  load_devices (err x, w) s = (err x, count_failure (record s { world = w }))

  unfoldable pub initial_load : Syncer W → Result X (Unit {0}) × Syncer W
  unfolding load_devices
  initial_load s = load_devices (client.fetch_devices s.world) s

  unfoldable pub poll_devices : Result X (List DeviceRecord) × W → Syncer W → Syncer W
  unfolding poll_updates upsert_devices
  poll_devices (ok rs, w) s =
      let s' = upsert_some rs (record s { world = w }) in
      poll_updates client false (client.fetch_device_updates s'.world) s'
  poll_devices (err x, w) s =
      poll_updates client true (client.fetch_device_updates w) (record s { world = w })

  unfoldable pub poll_once : Syncer W → Syncer W
  unfolding poll_devices
  poll_once s = poll_devices (client.fetch_updated_devices s.device_cache.updated_at s.world) s
