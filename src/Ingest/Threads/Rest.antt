-- ===== src/Ingest/Threads/Rest.antt =====
-- What Handle of internal/ingest/service.go has still to do from each of its accesses on, if nothing
-- else happens in between.
pub mod Cases
use device_handler.Prelude.{
  ℕ, ◌≡◌, refl, ◌∙◌, inl, inr, Bool-cases, Option, none, some, List, [], ◌∷◌, Result, ok, err,
}
use device_handler.Text.{Text, Unicode, equal, trim_space}
use device_handler.Metrics.{inc}
use device_handler.Action.{lift, pure, continue}
use device_handler.Cache.{
  DeviceCache, DeviceRecord, ChannelMapping, resolve_channel_id_by_tag, upsert_channel_mapping,
}
use device_handler.Telemetry.{DeploymentSamples}
use device_handler.Device.{
  Request, ParseResult, Response, ChannelMeasurement, UnresolvedChannel, build_telemetry,
}
use device_handler.Device.Registry
use device_handler.Device.Registry.{Parser, Registry}
use device_handler.Publish.{PublishConfig, enqueue}
use device_handler.Ingest.State.{
  Remote, HandleError, unsupported_device, parse_failed, refresh_updated_failed,
  refresh_full_failed, device_not_found, create_channel_failed, Service, count,
}
use device_handler.Ingest.Lookup.{
  lookup_by_manufacturer_and_serial_fallback, search_cache, upsert_cache, upsert_some, fetched,
  require_device, refresh_full, refresh_and_lookup_device, resolve_device,
}
use device_handler.Ingest.Channels.{
  stored, created, create_channel, ensure_channel, ensure_channels,
}
use device_handler.Ingest.Handle.{parsed_as, built, identify, prepare, deliver, handle}
use device_handler.Ingest.Threads.{
  Pc, arrived, unsupported, unparsed, looking_up, missed, refreshing, fetching_updated,
  storing_updated, looking_up_updated, falling_back_updated, fetching_all, storing_all,
  looking_up_all, falling_back_all, absent, creating, not_created, counting_channel,
  storing_channel, stamping, enqueueing, counting, finished, after_parse, after_registry,
  after_build, next_channel, ensuring, after_search, after_updated, after_all, after_create,
  after_store,
}

-- The result of Handle, and what it leaves.
abbrev pub Answers : Type 0 → Type 0 → Type 0 → Type 0
Answers W E X = Result (HandleError E X) Response × Service W

module _ ⦃u : Unicode⦄ {W E X : Type 0} (remote : Remote W X) (registry : Registry E)
    (cfg : PublishConfig) where
  -- What follows ensureChannels, Lookup and the refreshes.
  abbrev pub completed :
      ParseResult → Result (HandleError E X) DeviceRecord × Service W → Answers W E X
  completed parsed o = continue (deliver remote registry cfg) (
      continue
        (λ r s.
          continue (λ sample. pure (parsed, sample)) (lift (built (build_telemetry r parsed)) s))
        o)

  abbrev pub located :
      ParseResult → Result (HandleError E X) DeviceRecord × Service W → Answers W E X
  located parsed o =
      completed parsed
        (continue (λ r. ensure_channels remote parsed.serial r parsed.channel_measurements) o)

  abbrev pub searched :
      ParseResult → Result (HandleError E X) (Option DeviceRecord) × Service W → Answers W E X
  searched parsed o = located parsed (continue (require_device parsed.serial) o)

  abbrev pub full : Request → ParseResult → Option DeviceRecord → Service W → Answers W E X
  full req parsed o s =
      searched parsed (refresh_full remote req.manufacturer req.model parsed.serial o s)

  abbrev pub ensured :
      ParseResult
      → List ChannelMeasurement
      → Result (HandleError E X) DeviceRecord × Service W
      → Answers W E X
  ensured parsed ms o =
      completed parsed (continue (λ r. ensure_channels remote parsed.serial r ms) o)

  -- What Handle still does from a point on, with nothing in between.
  unfoldable pub rest : Request → Pc E X → Service W → Answers W E X
  rest req arrived s = handle remote registry cfg req s
  rest req unsupported s = (
    err unsupported_device,
    count (λ m. record m { ingest_unsupported_devices = inc m.ingest_unsupported_devices }) s,
  )
  rest req (unparsed e) s = (
    err (parse_failed e),
    count (λ m. record m { ingest_parse_failures = inc m.ingest_parse_failures }) s,
  )
  rest req (looking_up parsed) s = completed parsed (identify remote registry req parsed s)
  rest req (missed parsed) s =
      located parsed (resolve_device remote req.manufacturer req.model parsed.serial none s)
  rest req (refreshing parsed) s =
      searched parsed (refresh_and_lookup_device remote req.manufacturer req.model parsed.serial s)
  rest req (fetching_updated since parsed) s = searched parsed (
      continue
        (λ rs s'.
          refresh_full remote req.manufacturer req.model parsed.serial
            (search_cache (upsert_some remote rs s').cache req.manufacturer req.model parsed.serial)
            (upsert_some remote rs s'))
        (fetched refresh_updated_failed (remote.fetch_updated_devices since s.world) s))
  rest req (storing_updated rs parsed) s =
      let s' = upsert_cache remote rs s in
      full req parsed (search_cache s'.cache req.manufacturer req.model parsed.serial) s'
  rest req (looking_up_updated parsed) s =
      full req parsed (search_cache s.cache req.manufacturer req.model parsed.serial) s
  rest req (falling_back_updated parsed) s =
      full req parsed
        (lookup_by_manufacturer_and_serial_fallback s.cache req.manufacturer parsed.serial) s
  rest req (fetching_all parsed) s = full req parsed none s
  rest req (storing_all rs parsed) s =
      let s' = upsert_cache remote rs s in
      searched parsed (ok (search_cache s'.cache req.manufacturer req.model parsed.serial), s')
  rest req (looking_up_all parsed) s =
      searched parsed (ok (search_cache s.cache req.manufacturer req.model parsed.serial), s)
  rest req (falling_back_all parsed) s =
      searched parsed
        (ok (lookup_by_manufacturer_and_serial_fallback s.cache req.manufacturer parsed.serial), s)
  rest req (absent parsed) s = (
    err (device_not_found parsed.serial),
    count (λ m. record m { ingest_device_not_found = inc m.ingest_device_not_found }) s,
  )
  rest req (creating parsed r m ms) s =
      ensured parsed ms (create_channel remote parsed.serial r m s)
  rest req (not_created r tag x) s = (
    err (create_channel_failed r.deployment_id tag x),
    count (λ m. record m { channel_create_failures = inc m.channel_create_failures }) s,
  )
  rest req (counting_channel parsed r mapping ms) s = ensured parsed ms (
      stored parsed.serial
        (upsert_channel_mapping r.manufacturer r.model parsed.serial mapping s.cache)
        (count (λ m. record m { channel_create_success = inc m.channel_create_success }) s))
  rest req (storing_channel parsed r mapping ms) s = ensured parsed ms (
      stored parsed.serial
        (upsert_channel_mapping r.manufacturer r.model parsed.serial mapping s.cache) s)
  rest req (stamping parsed sample) s = deliver remote registry cfg (parsed, sample) s
  rest req (enqueueing parsed envelope) s = (
    ok parsed.response,
    count (λ m. record m { ingest_success = inc m.ingest_success })
        (record s { publisher = (enqueue cfg envelope s.publisher).0 }),
  )
  rest req (counting parsed) s =
      (ok parsed.response, count (λ m. record m { ingest_success = inc m.ingest_success }) s)
  rest req (finished result) s = (result, s)

  abbrev pub rest_at : Request → Pc E X × Service W → Answers W E X
  rest_at req (pc, s) = rest req pc s
