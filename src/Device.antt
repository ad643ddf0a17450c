-- ===== src/Device.antt =====
-- internal/device/types.go: requests, parse results, responses, and BuildTelemetry.
pub mod Build
pub mod Registry
use device_handler.Prelude.{
  ℕ, Option, none, some, List, [], ◌∷◌, ◌++◌, Result, ok, err, ◌>>=◌, if◌then◌else◌,
}
use device_handler.Time.{Time, ℤ, unix}
use device_handler.Text.{Text, Unicode, codes, trim_space, to_lower}
use device_handler.Dict.{Dict}
use device_handler.Cache.{DeviceRecord, resolve_channel_id_by_tag}
use device_handler.Telemetry.{
  Float32, DeploymentSamples, ChannelSeries, BatterySeries, SignalSeries, battery_type_percent,
  signal_type_comet4_g,
}

pub record Request : Type 0 where
  pub manufacturer : Text
  pub model : Text
  pub secret : Text
  pub body : List ℕ
  pub content_type : Text
  pub received_at : Time

pub record ChannelMeasurement : Type 0 where
  pub number : ℤ
  pub name : Text
  pub unit : Text
  pub value : Float32

pub record Response : Type 0 where
  pub status_code : ℕ
  pub content_type : Text
  pub body : List ℕ

-- What the parsers put into the map of metadata.
pub data MetaValue : Type 0 where
  text : Text → MetaValue
  number : ℤ → MetaValue

pub record ParseResult : Type 0 where
  pub serial : Text
  pub occurred_at : Time
  pub channel_measurements : List ChannelMeasurement
  pub battery_percent : Option Float32
  pub signal_strength : Option Float32
  pub response : Response
  pub metadata : Dict MetaValue

unfoldable pub default_success_response : Response
default_success_response = record {
  status_code = 200;
  content_type = codes "text/plain; charset=utf-8";
  body = codes "OK";
}

-- "resolve channel %d (%s)", the one error of BuildTelemetry.
pub record UnresolvedChannel : Type 0 where
  pub number : ℤ
  pub name : Text

abbrev pub battery_of : Option Float32 → List BatterySeries
battery_of none = []
battery_of (some v) = record { battery_type = battery_type_percent; values = v ∷ [] } ∷ []

abbrev pub signal_of : Option Float32 → List SignalSeries
signal_of none = []
signal_of (some v) = record { signal_type = signal_type_comet4_g; values = v ∷ [] } ∷ []

-- The sample of BuildTelemetry, with the series of the measurements.
abbrev pub sample_with : DeviceRecord → ParseResult → List ChannelSeries → DeploymentSamples
sample_with r parsed series = record {
  deployment_id = r.deployment_id;
  device_id = some r.device_id;
  gateway_deployment_id = r.gateway_deployment_id;
  t0 = unix parsed.occurred_at;
  dt = 0 ∷ [];
  channel_series = series;
  battery_series = battery_of parsed.battery_percent;
  signal_series = signal_of parsed.signal_strength;
}

module _ ⦃u : Unicode⦄ where
  -- The series of one measurement.
  unfoldable pub series_of : Option ℕ → ChannelMeasurement → Result UnresolvedChannel ChannelSeries
  series_of none m = err (record { number = m.number; name = m.name })
  series_of (some id) m = ok (record { channel_id = id; values = m.value ∷ [] })

  -- The loop of BuildTelemetry over the measurements, with the series appended so far.
  unfoldable pub collect_series :
      DeviceRecord
      → List ChannelMeasurement
      → List ChannelSeries
      → Result UnresolvedChannel (List ChannelSeries)
  unfolding series_of
  collect_series r [] done = ok done
  collect_series r (m ∷ ms) done = series_of (resolve_channel_id_by_tag r m.name) m >>= λ series.
      collect_series r ms (done ++ (series ∷ []))

  unfoldable pub build_telemetry :
      DeviceRecord → ParseResult → Result UnresolvedChannel DeploymentSamples
  build_telemetry r parsed =
      collect_series r parsed.channel_measurements [] >>= λ series. ok (sample_with r parsed series)

  unfoldable pub parser_key : Text → Text → Text
  parser_key manufacturer model =
      to_lower (trim_space manufacturer) ++ (124 ∷ to_lower (trim_space model))
