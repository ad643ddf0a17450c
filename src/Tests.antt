-- ===== src/Tests.antt =====
-- The examples: a text table, a device, a REST API and a parser to run the program on.
pub mod Publishing
pub mod Requests
pub mod Records
pub mod Polling
pub mod Parsers
pub mod Clients
pub mod Sessions
pub mod Threads
pub mod Delivery
pub mod Wiring
use device_handler.Prelude.{
  ℕ, ◌+◌, ◌≡◌, ◌≤◌, refl, Option, none, some, List, [], ◌∷◌, Result, ok, err, arith,
}
use device_handler.Time.{Time, ℤ, pos, negsuc}
use device_handler.Text.{Text, Unicode, codes, rune_lower}
use device_handler.Metrics.{new_app_metrics}
use device_handler.Cache.{ChannelMapping, DeviceRecord, DeviceCache, new_device_cache, upsert_many}
use device_handler.Telemetry.{DeploymentSamples}
use device_handler.Device.{Request, ParseResult, ChannelMeasurement, Response}
use device_handler.Device.Registry.{Parser, Registry, new_registry, register}
use device_handler.Publish.{PublishConfig, TelemetryEnvelope, new_buffered_publisher}
use device_handler.Ingest.State.{Remote, Service, CreateChannelRequest}

pub rune_lower-same : (c : ℕ) → 128 ≤ c → rune_lower (λ d. d) c ≡ c
unfolding rune_lower
rune_lower-same c h = ground arith

-- No letters but those of ASCII.
instance abbrev pub ascii : Unicode
ascii = record {
  lower = λ c. c;
  upper = λ c. c;
  lower_idem = rune_lower-same;
  is_space-lower = λ c h. refl;
}

abbrev pub settings : PublishConfig
settings = record {
  nats_url = codes "nats://localhost:4222";
  subject = codes "channel.data.device-handler";
  flush_after = pos 1000000000;
  flush_count = 2;
  flush_capacity = pos 2;
  timeout = pos 5000000000;
  retry_backoff = pos 1000000000;
  max_retries = pos 1;
}

abbrev pub sample : ℕ → DeploymentSamples
sample id = record {
  deployment_id = id;
  device_id = none;
  gateway_deployment_id = none;
  t0 = 0;
  dt = 0 ∷ [];
  channel_series = [];
  battery_series = [];
  signal_series = [];
}

abbrev pub envelope : ℕ → TelemetryEnvelope
envelope id = record { subject = []; deployment_sample = sample id; received_at = 0 }

abbrev pub temperature : ChannelMapping
temperature = record { channel_id = 31; tag = codes "Temperature" }

abbrev pub thermometer : DeviceRecord
thermometer = record {
  device_id = 11;
  deployment_id = 21;
  gateway_deployment_id = none;
  serial = codes "A1";
  manufacturer = codes "Comet";
  model = codes "T1";
  channel_mappings = temperature ∷ [];
  updated_at = 5;
}

abbrev pub measured : ChannelMeasurement
measured = record { number = pos 1; name = codes "temperature "; unit = codes "C"; value = 7 }

abbrev pub humidity : ChannelMeasurement
humidity = record { number = pos 2; name = codes "Humidity"; unit = []; value = 9 }

abbrev pub accepted : Response
accepted = record { status_code = 200; content_type = []; body = codes "OK" }

abbrev pub upload : List ChannelMeasurement → ParseResult
upload ms = record {
  serial = codes "A1";
  occurred_at = 5;
  channel_measurements = ms;
  battery_percent = none;
  signal_strength = none;
  response = accepted;
  metadata = [];
}

-- A parser that reads every body as the same upload.
abbrev pub reader : List ChannelMeasurement → Parser Text
reader ms = record {
  manufacturer = codes "comet";
  model = codes "T1";
  parse = λ req. ok (upload ms);
}

abbrev pub registry : List ChannelMeasurement → Registry Text
registry ms = register (reader ms) new_registry

-- A REST API that knows no devices, and creates channels as it is asked to. The outside world is
-- the next channel id.
abbrev pub api : Remote ℕ Text
api = record {
  readings = λ w. (λ i. 1000 + w, w);
  fetch_devices = λ w. (ok [], w);
  fetch_updated_devices = λ t w. (ok [], w);
  create_deployment_channel = λ d q w. (ok (record { channel_id = w; tag = q.tag }), w + 1);
}

abbrev pub stocked : DeviceCache
stocked = upsert_many (λ i. 0) (thermometer ∷ []) new_device_cache

abbrev pub service : DeviceCache → Service ℕ
service c = record { cache = c; publisher = new_buffered_publisher new_app_metrics; world = 32 }

abbrev pub request : Request
request = record {
  manufacturer = codes "comet";
  model = codes "t1";
  secret = [];
  body = [];
  content_type = [];
  received_at = 6;
}
