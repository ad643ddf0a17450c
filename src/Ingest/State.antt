-- ===== src/Ingest/State.antt =====
-- internal/ingest/service.go: what the service works on, its collaborators, and its errors.
use device_handler.Prelude.{ℕ, List, Result}
use device_handler.Time.{Time}
use device_handler.Text.{Text}
use device_handler.Metrics.{AppMetrics}
use device_handler.Cache.{DeviceCache, DeviceRecord, ChannelMapping}
use device_handler.Device.{UnresolvedChannel}
use device_handler.Publish.{BufferedPublisher}

-- api.CreateChannelRequest
pub record CreateChannelRequest : Type 0 where
  pub tag : Text
  pub name : Text
  pub unit : Text

-- `X` is the type of the client's errors. `readings` are those of time.Now() in one step.
pub record Remote (W X : Type 0) : Type 0 where
  pub readings : W → (ℕ → Time) × W
  pub fetch_devices : W → Result X (List DeviceRecord) × W
  pub fetch_updated_devices : Time → W → Result X (List DeviceRecord) × W
  pub create_deployment_channel : ℕ → CreateChannelRequest → W → Result X ChannelMapping × W

-- The errors of Handle, by their messages, with what each one wraps or quotes.
pub data HandleError (E X : Type 0) : Type 0 where
  unsupported_device : HandleError E X
  parse_failed : E → HandleError E X
  refresh_updated_failed : X → HandleError E X
  refresh_full_failed : X → HandleError E X
  device_not_found : Text → HandleError E X
  create_channel_failed : ℕ → Text → X → HandleError E X
  cache_update_failed : Text → HandleError E X
  build_failed : UnresolvedChannel → HandleError E X

-- What the service works on. The shared metrics are those of the publisher.
pub record Service (W : Type 0) : Type 0 where
  pub cache : DeviceCache
  pub publisher : BufferedPublisher
  pub world : W

module _ {W : Type 0} where
  -- An increment of the shared metrics.
  abbrev pub count : (AppMetrics → AppMetrics) → Service W → Service W
  count f s = record s { publisher = record (s.publisher) { metrics = f s.publisher.metrics } }
