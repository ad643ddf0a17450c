-- ===== src/Ingest/Channels.antt =====
-- internal/ingest/service.go: ensureChannels and normalizeUnit.
use device_handler.Prelude.{
  ℕ, ◌||◌, Option, none, some, List, [], ◌∷◌, Result, ok, err, if◌then◌else◌,
}
use device_handler.Text.{Text, Unicode, codes, equal, trim_space}
use device_handler.Action.{Action, pure, ◌>>=◌}
use device_handler.Metrics.{inc}
use device_handler.Cache.{
  DeviceCache, DeviceRecord, ChannelMapping, upsert_channel_mapping, resolve_channel_id_by_tag,
}
use device_handler.Device.{ChannelMeasurement}
use device_handler.Ingest.State.{
  Remote, HandleError, create_channel_failed, cache_update_failed, Service, count,
}

unfoldable pub normalize_unit : Text → Text
normalize_unit raw =
    let unit = trim_space raw in
    if equal unit (codes "C") || equal unit (codes "°C") || equal unit (65533 ∷ codes "C")
    then codes "°C"
    else if equal unit (codes "F") || equal unit (codes "°F")
    then codes "°F"
    else if equal unit (codes "%")
    then codes "%"
    else if equal unit (codes "%RH")
    then codes "%RH"
    else unit

module _ ⦃u : Unicode⦄ {W E X : Type 0} where
  -- The end of the body of the loop of ensureChannels: the record with the new mapping.
  abbrev pub stored :
      Text → DeviceCache × Option DeviceRecord → Action (Service W) (HandleError E X) DeviceRecord
  stored serial (c, some r) s = (ok r, record s { cache = c })
  stored serial (c, none) s = (err (cache_update_failed serial), record s { cache = c })

  abbrev pub created :
      Text
      → DeviceRecord
      → Text
      → Result X ChannelMapping × W
      → Action (Service W) (HandleError E X) DeviceRecord
  created serial r tag (err x, w) s = (
    err (create_channel_failed r.deployment_id tag x),
    count (λ m. record m { channel_create_failures = inc m.channel_create_failures })
        (record s { world = w }),
  )
  created serial r tag (ok mapping, w) s =
      stored serial (upsert_channel_mapping r.manufacturer r.model serial mapping s.cache) (
        count (λ m. record m { channel_create_success = inc m.channel_create_success })
          (record s { world = w }))

module _ ⦃u : Unicode⦄ {W E X : Type 0} (remote : Remote W X) where
  unfoldable pub create_channel :
      Text → DeviceRecord → ChannelMeasurement → Action (Service W) (HandleError E X) DeviceRecord
  create_channel serial r m s =
      let tag = trim_space m.name in
      created serial r tag
        (remote.create_deployment_channel r.deployment_id
          (record { tag = tag; name = tag; unit = normalize_unit m.unit }) s.world)
        s

  -- The body of the loop of ensureChannels, given what the name of the measurement resolves to.
  unfoldable pub ensure_channel :
      Text
      → DeviceRecord
      → ChannelMeasurement
      → Option ℕ
      → Action (Service W) (HandleError E X) DeviceRecord
  unfolding create_channel
  ensure_channel serial r m (some id) = pure r
  ensure_channel serial r m none =
      if equal (trim_space m.name) [] then pure r else create_channel serial r m

  unfoldable pub ensure_channels :
      Text
      → DeviceRecord
      → List ChannelMeasurement
      → Action (Service W) (HandleError E X) DeviceRecord
  unfolding ensure_channel
  ensure_channels serial r [] = pure r
  ensure_channels serial r (m ∷ ms) =
      ensure_channel serial r m (resolve_channel_id_by_tag r m.name) >>= λ r'.
      ensure_channels serial r' ms
