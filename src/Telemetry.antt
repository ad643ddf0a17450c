-- ===== src/Telemetry.antt =====
-- internal/telemetry/model.go. A float32 is its bit pattern; the two enumerations are the numbers
-- of an int32, with the source's constants.
use device_handler.Prelude.{ℕ, Option, List}

abbrev pub Float32 : Type 0
Float32 = ℕ

abbrev pub BatteryType : Type 0
BatteryType = ℕ

abbrev pub battery_type_percent : BatteryType
battery_type_percent = 2

abbrev pub SignalType : Type 0
SignalType = ℕ

abbrev pub signal_type_comet4_g : SignalType
signal_type_comet4_g = 5

pub record BatterySeries : Type 0 where
  pub battery_type : BatteryType
  pub values : List Float32

pub record SignalSeries : Type 0 where
  pub signal_type : SignalType
  pub values : List Float32

pub record ChannelSeries : Type 0 where
  pub channel_id : ℕ
  pub values : List Float32

pub record DeploymentSamples : Type 0 where
  pub deployment_id : ℕ
  pub device_id : Option ℕ
  pub gateway_deployment_id : Option ℕ
  pub t0 : ℕ
  pub dt : List ℕ
  pub channel_series : List ChannelSeries
  pub battery_series : List BatterySeries
  pub signal_series : List SignalSeries

pub record Batch : Type 0 where
  pub transmission_id : List ℕ
  pub source_deployment_id : Option ℕ
  pub deployment_samples : List DeploymentSamples
