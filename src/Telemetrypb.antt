-- ===== src/Telemetrypb.antt =====
-- The messages of internal/telemetrypb/telemetry.pb.go, their data fields only. A pointer is an
-- option where the field is optional; the messages in a repeated field are not nil.
use device_handler.Prelude.{ℕ, Option, List}
use device_handler.Telemetry.{Float32}

-- The two enumerations are numbers of an int32.
pub record BatterySeries : Type 0 where
  pub battery_type : ℕ
  pub values : List Float32

pub record SignalSeries : Type 0 where
  pub signal_type : ℕ
  pub values : List Float32

pub record ChannelSeries : Type 0 where
  pub channel_id : ℕ
  pub values : List Float32

pub record DeploymentSamples : Type 0 where
  pub deployment_id : ℕ
  pub device_id : Option ℕ
  pub gateway_deployment_id : Option ℕ
  pub t0 : ℕ
  pub dt : List ℕ
  pub channel_series : List ChannelSeries
  pub battery_series : List BatterySeries
  pub signal_series : List SignalSeries

pub record Batch : Type 0 where
  pub transmission_id : List ℕ
  pub source_deployment_id : Option ℕ
  pub deployment_samples : List DeploymentSamples
