-- ===== src/Ingest/Handle.antt =====
-- internal/ingest/service.go: Handle.
use device_handler.Prelude.{Option, none, some, [], Result, ok, err}
use device_handler.Text.{Unicode}
use device_handler.Action.{Action, pure, lift, modify, ◌>>=◌, ◌>>◌}
use device_handler.Metrics.{inc}
use device_handler.Cache
use device_handler.Cache.{
  DeviceCache, DeviceRecord, ChannelMapping, upsert_many, upsert_channel_mapping,
  find_by_manufacturer_and_serial, resolve_channel_id_by_tag,
}
use device_handler.Telemetry.{DeploymentSamples}
use device_handler.Device.{Request, ParseResult, Response, UnresolvedChannel, build_telemetry}
use device_handler.Device.Registry
use device_handler.Device.Registry.{Parser, Registry}
use device_handler.Publish.{PublishConfig, TelemetryEnvelope, enqueue}
use device_handler.Ingest.State.{
  Remote, HandleError, unsupported_device, parse_failed, build_failed, Service, count,
}
use device_handler.Ingest.Lookup.{resolve_device}
use device_handler.Ingest.Channels.{ensure_channels}

module _ {W E X : Type 0} where
  abbrev pub select_parser : Option (Parser E) → Action (Service W) (HandleError E X) (Parser E)
  select_parser (some p) s = (ok p, s)
  select_parser none s = (
    err unsupported_device,
    count (λ m. record m { ingest_unsupported_devices = inc m.ingest_unsupported_devices }) s,
  )

  abbrev pub parsed_as : Result E ParseResult → Action (Service W) (HandleError E X) ParseResult
  parsed_as (ok parsed) s = (ok parsed, s)
  parsed_as (err e) s = (
    err (parse_failed e),
    count (λ m. record m { ingest_parse_failures = inc m.ingest_parse_failures }) s,
  )

module _ {E X : Type 0} where
  abbrev pub built :
      Result UnresolvedChannel DeploymentSamples → Result (HandleError E X) DeploymentSamples
  built (ok sample) = ok sample
  built (err x) = err (build_failed x)

module _ ⦃u : Unicode⦄ {W E X : Type 0} (remote : Remote W X) (registry : Registry E) where
  -- Handle up to the device record with all channels.
  unfoldable pub identify :
      Request → ParseResult → Action (Service W) (HandleError E X) DeviceRecord
  unfolding resolve_device ensure_channels
  identify req parsed s =
      (resolve_device remote req.manufacturer req.model parsed.serial
            (Cache.lookup s.cache req.manufacturer req.model parsed.serial)
          >>= λ r. ensure_channels remote parsed.serial r parsed.channel_measurements)
        s

  -- Handle up to BuildTelemetry: the parse result, and the sample.
  unfoldable pub prepare :
      Request → Action (Service W) (HandleError E X) (ParseResult × DeploymentSamples)
  unfolding identify
  prepare req = do
    modify (count (λ m. record m { ingest_requests = inc m.ingest_requests }))
    parser ← select_parser (Registry.lookup registry req.manufacturer req.model)
    parsed ← parsed_as (parser.parse req)
    r ← identify req parsed
    sample ← lift (built (build_telemetry r parsed))
    pure (parsed, sample)

  -- The rest of Handle: the envelope goes to the publisher, whose Enqueue returns no error.
  unfoldable pub deliver :
      PublishConfig
      → ParseResult × DeploymentSamples
      → Action (Service W) (HandleError E X) Response
  unfolding enqueue
  deliver cfg (parsed, sample) s =
      let (clock, w) = remote.readings s.world in
      let envelope : TelemetryEnvelope = record {
        subject = [];
        deployment_sample = sample;
        received_at = clock 0;
      } in
      (
        ok parsed.response,
        count (λ m. record m { ingest_success = inc m.ingest_success })
            (record s { publisher = (enqueue cfg envelope s.publisher).0; world = w }),
      )

  unfoldable pub handle : PublishConfig → Request → Action (Service W) (HandleError E X) Response
  unfolding prepare deliver
  handle cfg req = prepare req >>= deliver cfg
