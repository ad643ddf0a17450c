-- ===== src/Ingest/Threads.antt =====
-- internal/ingest/service.go: Handle as the goroutine of a request runs it beside others. Where the
-- goroutine stands is a `Pc`, with its local variables; between two of them it makes one access to
-- what the goroutines share: one section under the mutex of the cache or of the buffer, one call of
-- the REST API, one reading of the clock, or one increment of a counter.
pub mod Budget
pub mod Rest
pub mod Alone
pub mod System
pub mod Turns
pub mod Stands
pub mod Kept
pub mod Balance
pub mod Accounts
use device_handler.Prelude.{ℕ, Option, none, some, List, [], ◌∷◌, Result, ok, err, if◌then◌else◌}
use device_handler.Time.{Time}
use device_handler.Text.{Text, Unicode, equal, trim_space}
use device_handler.Metrics.{inc}
use device_handler.Cache
use device_handler.Cache.{
  DeviceCache, DeviceRecord, ChannelMapping, resolve_channel_id_by_tag, upsert_channel_mapping,
}
use device_handler.Telemetry.{DeploymentSamples}
use device_handler.Device.{
  Request, ParseResult, Response, ChannelMeasurement, UnresolvedChannel, build_telemetry,
}
use device_handler.Device.Registry
use device_handler.Device.Registry.{Parser, Registry}
use device_handler.Publish.{PublishConfig, TelemetryEnvelope, enqueue}
use device_handler.Ingest.State.{
  Remote, HandleError, unsupported_device, parse_failed, refresh_updated_failed,
  refresh_full_failed, device_not_found, create_channel_failed, cache_update_failed, build_failed,
  Service, count,
}
use device_handler.Ingest.Lookup.{lookup_by_manufacturer_and_serial_fallback, upsert_cache}
use device_handler.Ingest.Channels.{normalize_unit}

-- Before each access to what is shared, in the order of the code.
pub data Pc (E X : Type 0) : Type 0 where
  arrived unsupported : Pc E X
  unparsed : E → Pc E X
  -- Lookup, and CacheMisses.Inc
  looking_up missed : ParseResult → Pc E X
  -- UpdatedAt, FetchUpdatedDevices, UpsertMany, Lookup, and the fallback
  refreshing : ParseResult → Pc E X
  fetching_updated : (since : Time) → ParseResult → Pc E X
  storing_updated : List DeviceRecord → ParseResult → Pc E X
  looking_up_updated falling_back_updated : ParseResult → Pc E X
  -- FetchDevices, UpsertMany, Lookup, and the fallback
  fetching_all : ParseResult → Pc E X
  storing_all : List DeviceRecord → ParseResult → Pc E X
  looking_up_all falling_back_all absent : ParseResult → Pc E X
  -- CreateDeploymentChannel for a measurement, with those behind it, and what follows
  creating : ParseResult → DeviceRecord → ChannelMeasurement → List ChannelMeasurement → Pc E X
  not_created : DeviceRecord → Text → X → Pc E X
  counting_channel storing_channel :
      ParseResult → DeviceRecord → ChannelMapping → List ChannelMeasurement → Pc E X
  -- time.Now, Enqueue, and IngestSuccess.Inc
  stamping : ParseResult → DeploymentSamples → Pc E X
  enqueueing : ParseResult → TelemetryEnvelope → Pc E X
  counting : ParseResult → Pc E X
  finished : Result (HandleError E X) Response → Pc E X

-- What runs between two accesses: it touches nothing shared.
module _ {E X : Type 0} where
  abbrev pub after_parse : Result E ParseResult → Pc E X
  after_parse (ok parsed) = looking_up parsed
  after_parse (err e) = unparsed e

  abbrev pub after_registry : Request → Option (Parser E) → Pc E X
  after_registry req none = unsupported
  after_registry req (some p) = after_parse (p.parse req)

  abbrev pub after_build : ParseResult → Result UnresolvedChannel DeploymentSamples → Pc E X
  after_build parsed (ok sample) = stamping parsed sample
  after_build parsed (err x) = finished (err (build_failed x))

module _ ⦃u : Unicode⦄ {E X : Type 0} where
  -- The body of the loop of ensureChannels up to the call, given what the name resolves to;
  -- `rest` is where the loop gets to if there is nothing to create.
  unfoldable pub next_channel :
      ParseResult
      → DeviceRecord
      → ChannelMeasurement
      → List ChannelMeasurement
      → Pc E X
      → Option ℕ
      → Pc E X
  next_channel parsed r m ms rest (some id) = rest
  next_channel parsed r m ms rest none =
      if equal (trim_space m.name) [] then rest else creating parsed r m ms

  unfoldable pub ensuring : ParseResult → DeviceRecord → List ChannelMeasurement → Pc E X
  unfolding next_channel
  ensuring parsed r [] = after_build parsed (build_telemetry r parsed)
  ensuring parsed r (m ∷ ms) =
      next_channel parsed r m ms (ensuring parsed r ms) (resolve_channel_id_by_tag r m.name)

  -- From a search of the cache: on with the record, or to `missing`.
  abbrev pub after_search : ParseResult → Pc E X → Option DeviceRecord → Pc E X
  after_search parsed missing (some r) = ensuring parsed r parsed.channel_measurements
  after_search parsed missing none = missing

  abbrev pub after_updated :
      {W : Type 0} → ParseResult → Result X (List DeviceRecord) × W → Service W → Pc E X × Service W
  after_updated parsed (ok [], w) s = (looking_up_updated parsed, record s { world = w })
  after_updated parsed (ok (r ∷ rs), w) s =
      (storing_updated (r ∷ rs) parsed, record s { world = w })
  after_updated parsed (err x, w) s =
      (finished (err (refresh_updated_failed x)), record s { world = w })

  abbrev pub after_all :
      {W : Type 0} → ParseResult → Result X (List DeviceRecord) × W → Service W → Pc E X × Service W
  after_all parsed (ok rs, w) s = (storing_all rs parsed, record s { world = w })
  after_all parsed (err x, w) s = (finished (err (refresh_full_failed x)), record s { world = w })

  abbrev pub after_create :
      {W : Type 0}
      → ParseResult
      → DeviceRecord
      → Text
      → List ChannelMeasurement
      → Result X ChannelMapping × W
      → Service W
      → Pc E X × Service W
  after_create parsed r tag ms (ok mapping, w) s =
      (counting_channel parsed r mapping ms, record s { world = w })
  after_create parsed r tag ms (err x, w) s = (not_created r tag x, record s { world = w })

  abbrev pub after_store :
      {W : Type 0}
      → ParseResult
      → List ChannelMeasurement
      → DeviceCache × Option DeviceRecord
      → Service W
      → Pc E X × Service W
  after_store parsed ms (c, some r) s = (ensuring parsed r ms, record s { cache = c })
  after_store parsed ms (c, none) s =
      (finished (err (cache_update_failed parsed.serial)), record s { cache = c })

module _ ⦃u : Unicode⦄ {W E X : Type 0} (remote : Remote W X) (registry : Registry E)
    (cfg : PublishConfig) where
  -- The next access of the goroutine of a request, with what it computes up to the one after.
  unfoldable pub step : Request → Pc E X → Service W → Pc E X × Service W
  unfolding ensuring upsert_cache
  step req arrived s = (
    after_registry req (Registry.lookup registry req.manufacturer req.model),
    count (λ m. record m { ingest_requests = inc m.ingest_requests }) s,
  )
  step req unsupported s = (
    finished (err unsupported_device),
    count (λ m. record m { ingest_unsupported_devices = inc m.ingest_unsupported_devices }) s,
  )
  step req (unparsed e) s = (
    finished (err (parse_failed e)),
    count (λ m. record m { ingest_parse_failures = inc m.ingest_parse_failures }) s,
  )
  step req (looking_up parsed) s = (
    after_search parsed (missed parsed)
        (Cache.lookup s.cache req.manufacturer req.model parsed.serial),
    s,
  )
  step req (missed parsed) s = (
    refreshing parsed,
    count (λ m. record m { ingest_cache_misses = inc m.ingest_cache_misses }) s,
  )
  step req (refreshing parsed) s = (fetching_updated s.cache.updated_at parsed, s)
  step req (fetching_updated since parsed) s =
      after_updated parsed (remote.fetch_updated_devices since s.world) s
  step req (storing_updated rs parsed) s = (looking_up_updated parsed, upsert_cache remote rs s)
  step req (looking_up_updated parsed) s = (
    after_search parsed (falling_back_updated parsed)
        (Cache.lookup s.cache req.manufacturer req.model parsed.serial),
    s,
  )
  step req (falling_back_updated parsed) s = (
    after_search parsed (fetching_all parsed)
        (lookup_by_manufacturer_and_serial_fallback s.cache req.manufacturer parsed.serial),
    s,
  )
  step req (fetching_all parsed) s = after_all parsed (remote.fetch_devices s.world) s
  step req (storing_all rs parsed) s = (looking_up_all parsed, upsert_cache remote rs s)
  step req (looking_up_all parsed) s = (
    after_search parsed (falling_back_all parsed)
        (Cache.lookup s.cache req.manufacturer req.model parsed.serial),
    s,
  )
  step req (falling_back_all parsed) s = (
    after_search parsed (absent parsed)
        (lookup_by_manufacturer_and_serial_fallback s.cache req.manufacturer parsed.serial),
    s,
  )
  step req (absent parsed) s = (
    finished (err (device_not_found parsed.serial)),
    count (λ m. record m { ingest_device_not_found = inc m.ingest_device_not_found }) s,
  )
  step req (creating parsed r m ms) s =
      let tag = trim_space m.name in
      after_create parsed r tag ms
        (remote.create_deployment_channel r.deployment_id
          (record { tag = tag; name = tag; unit = normalize_unit m.unit }) s.world)
        s
  step req (not_created r tag x) s = (
    finished (err (create_channel_failed r.deployment_id tag x)),
    count (λ m. record m { channel_create_failures = inc m.channel_create_failures }) s,
  )
  step req (counting_channel parsed r mapping ms) s = (
    storing_channel parsed r mapping ms,
    count (λ m. record m { channel_create_success = inc m.channel_create_success }) s,
  )
  step req (storing_channel parsed r mapping ms) s =
      after_store parsed ms
        (upsert_channel_mapping r.manufacturer r.model parsed.serial mapping s.cache) s
  step req (stamping parsed sample) s =
      let (clock, w) = remote.readings s.world in
      (
        enqueueing parsed
            (record { subject = []; deployment_sample = sample; received_at = clock 0 }),
        record s { world = w },
      )
  step req (enqueueing parsed envelope) s =
      (counting parsed, record s { publisher = (enqueue cfg envelope s.publisher).0 })
  step req (counting parsed) s = (
    finished (ok parsed.response),
    count (λ m. record m { ingest_success = inc m.ingest_success }) s,
  )
  step req (finished result) s = (finished result, s)
