-- ===== src/Ingest/Lookup.antt =====
-- internal/ingest/service.go: finding the device of a request in the cache, with the refreshes.
use device_handler.Prelude.{Option, none, some, List, [], ◌∷◌, Result, ok, err}
use device_handler.Text.{Text, Unicode}
use device_handler.Action.{Action, pure, modify, ◌>>=◌, ◌>>◌}
use device_handler.Metrics.{inc}
use device_handler.Cache
use device_handler.Cache.{
  DeviceCache, DeviceRecord, ChannelMapping, upsert_many, upsert_channel_mapping,
  find_by_manufacturer_and_serial, resolve_channel_id_by_tag,
}
use device_handler.Ingest.State.{
  Remote, HandleError, refresh_updated_failed, refresh_full_failed, device_not_found, Service,
  count,
}

-- The record of a list of matches that is the only one.
abbrev pub only : List DeviceRecord → Option DeviceRecord
only [] = none
only (r ∷ []) = some r
only (r ∷ q ∷ rs) = none

module _ ⦃u : Unicode⦄ where
  unfoldable pub lookup_by_manufacturer_and_serial_fallback :
      DeviceCache → Text → Text → Option DeviceRecord
  lookup_by_manufacturer_and_serial_fallback c manufacturer serial =
      only (find_by_manufacturer_and_serial c manufacturer serial)

  abbrev pub or_fallback : DeviceCache → Text → Text → Option DeviceRecord → Option DeviceRecord
  or_fallback c manufacturer serial (some r) = some r
  or_fallback c manufacturer serial none =
      lookup_by_manufacturer_and_serial_fallback c manufacturer serial

  -- Lookup by key and, failing that, the fallback.
  unfoldable pub search_cache : DeviceCache → Text → Text → Text → Option DeviceRecord
  search_cache c manufacturer model serial =
      or_fallback c manufacturer serial (Cache.lookup c manufacturer model serial)

module _ ⦃u : Unicode⦄ {W X : Type 0} (remote : Remote W X) where
  -- UpsertMany on the service's cache.
  unfoldable pub upsert_cache : List DeviceRecord → Service W → Service W
  upsert_cache rs s =
      let (clock, w) = remote.readings s.world in
      record s { cache = upsert_many clock rs s.cache; world = w }

  -- `if len(updatedDevices) > 0 { UpsertMany }`
  abbrev pub upsert_some : List DeviceRecord → Service W → Service W
  upsert_some [] s = s
  upsert_some (r ∷ rs) s = upsert_cache (r ∷ rs) s

-- What a fetch returns, with the message that its error is wrapped in.
module _ {W E X : Type 0} where
  abbrev pub fetched :
      (X → HandleError E X)
      → Result X (List DeviceRecord) × W
      → Service W
      → Result (HandleError E X) (List DeviceRecord) × Service W
  fetched wrap (ok rs, w) s = (ok rs, record s { world = w })
  fetched wrap (err x, w) s = (err (wrap x), record s { world = w })

  abbrev pub require_device :
      Text → Option DeviceRecord → Action (Service W) (HandleError E X) DeviceRecord
  require_device serial (some r) s = (ok r, s)
  require_device serial none s = (
    err (device_not_found serial),
    count (λ m. record m { ingest_device_not_found = inc m.ingest_device_not_found }) s,
  )

module _ ⦃u : Unicode⦄ {W E X : Type 0} (remote : Remote W X) where
  unfoldable pub fetch_updated : Action (Service W) (HandleError E X) (List DeviceRecord)
  fetch_updated s =
      fetched refresh_updated_failed (remote.fetch_updated_devices s.cache.updated_at s.world) s

  unfoldable pub fetch_full : Action (Service W) (HandleError E X) (List DeviceRecord)
  fetch_full s = fetched refresh_full_failed (remote.fetch_devices s.world) s

  -- The part of refreshAndLookupDevice behind the first refresh, given what the cache then has.
  unfoldable pub refresh_full :
      Text
      → Text
      → Text
      → Option DeviceRecord
      → Action (Service W) (HandleError E X) (Option DeviceRecord)
  unfolding fetch_full upsert_cache search_cache
  refresh_full manufacturer model serial (some r) = pure (some r)
  refresh_full manufacturer model serial none = do
    all_devices ← fetch_full
    modify (upsert_cache remote all_devices)
    λ s. (ok (search_cache s.cache manufacturer model serial), s)

  unfoldable pub refresh_and_lookup_device :
      Text → Text → Text → Action (Service W) (HandleError E X) (Option DeviceRecord)
  unfolding fetch_updated refresh_full upsert_cache search_cache
  refresh_and_lookup_device manufacturer model serial = do
    updated_devices ← fetch_updated
    modify (upsert_some remote updated_devices)
    λ s. refresh_full manufacturer model serial (search_cache s.cache manufacturer model serial) s

  -- The device of a request, given what the cache has under its key.
  unfoldable pub resolve_device :
      Text → Text → Text → Option DeviceRecord → Action (Service W) (HandleError E X) DeviceRecord
  unfolding refresh_and_lookup_device
  resolve_device manufacturer model serial (some r) = pure r
  resolve_device manufacturer model serial none = do
    modify (count (λ m. record m { ingest_cache_misses = inc m.ingest_cache_misses }))
    found ← refresh_and_lookup_device manufacturer model serial
    require_device serial found
