-- ===== src/Publish/Protobuf.antt =====
-- internal/publish/protobuf.go: from the telemetry of internal/telemetry/model.go to the messages.
pub mod Faithful
use device_handler.Prelude.{Option, none, some, List, [], ◌∷◌, map}
use device_handler.Telemetry.{BatterySeries, SignalSeries, ChannelSeries, DeploymentSamples, Batch}
use device_handler.Telemetrypb

-- The bodies of the three loops over series.
abbrev pub to_proto_channel_series : ChannelSeries → Telemetrypb.ChannelSeries
to_proto_channel_series s = record { channel_id = s.channel_id; values = s.values }

abbrev pub to_proto_battery_series : BatterySeries → Telemetrypb.BatterySeries
to_proto_battery_series s = record { battery_type = s.battery_type; values = s.values }

abbrev pub to_proto_signal_series : SignalSeries → Telemetrypb.SignalSeries
to_proto_signal_series s = record { signal_type = s.signal_type; values = s.values }

unfoldable pub to_proto_deployment_samples : DeploymentSamples → Telemetrypb.DeploymentSamples
to_proto_deployment_samples s = record {
  deployment_id = s.deployment_id;
  device_id = s.device_id;
  gateway_deployment_id = s.gateway_deployment_id;
  t0 = s.t0;
  dt = s.dt;
  channel_series = map to_proto_channel_series s.channel_series;
  battery_series = map to_proto_battery_series s.battery_series;
  signal_series = map to_proto_signal_series s.signal_series;
}

unfoldable pub to_proto_batch : Batch → Telemetrypb.Batch
unfolding to_proto_deployment_samples
to_proto_batch b = record {
  transmission_id = b.transmission_id;
  source_deployment_id = b.source_deployment_id;
  deployment_samples = map to_proto_deployment_samples b.deployment_samples;
}
