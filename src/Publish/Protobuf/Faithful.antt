-- ===== src/Publish/Protobuf/Faithful.antt =====
-- The conversion of internal/publish/protobuf.go loses nothing.
use device_handler.Prelude.{◌≡◌, refl, List, [], ◌∷◌, map}
use device_handler.Telemetry.{BatterySeries, SignalSeries, ChannelSeries, DeploymentSamples, Batch}
use device_handler.Telemetrypb
use device_handler.Publish.Protobuf.{
  to_proto_channel_series, to_proto_battery_series, to_proto_signal_series,
  to_proto_deployment_samples, to_proto_batch,
}

-- What a reader of the message makes of it.
abbrev pub of_channel_series : Telemetrypb.ChannelSeries → ChannelSeries
of_channel_series s = record { channel_id = s.channel_id; values = s.values }

abbrev pub of_battery_series : Telemetrypb.BatterySeries → BatterySeries
of_battery_series s = record { battery_type = s.battery_type; values = s.values }

abbrev pub of_signal_series : Telemetrypb.SignalSeries → SignalSeries
of_signal_series s = record { signal_type = s.signal_type; values = s.values }

abbrev pub of_deployment_samples : Telemetrypb.DeploymentSamples → DeploymentSamples
of_deployment_samples s = record {
  deployment_id = s.deployment_id;
  device_id = s.device_id;
  gateway_deployment_id = s.gateway_deployment_id;
  t0 = s.t0;
  dt = s.dt;
  channel_series = map of_channel_series s.channel_series;
  battery_series = map of_battery_series s.battery_series;
  signal_series = map of_signal_series s.signal_series;
}

abbrev pub of_batch : Telemetrypb.Batch → Batch
of_batch b = record {
  transmission_id = b.transmission_id;
  source_deployment_id = b.source_deployment_id;
  deployment_samples = map of_deployment_samples b.deployment_samples;
}

map_inverse :
    {A B : Type 0} (f : A → B) (g : B → A)
    → ((a : A) → g (f a) ≡ a)
    → (xs : List A) → map g (map f xs) ≡ xs
map_inverse f g h [] = refl
map_inverse f g h (x ∷ xs) = rw (h x, map_inverse f g h xs) refl

of_deployment_samples-to :
    (s : DeploymentSamples) → of_deployment_samples (to_proto_deployment_samples s) ≡ s
unfolding to_proto_deployment_samples
of_deployment_samples-to s =
    rw
      (
        map_inverse to_proto_channel_series of_channel_series (λ c. refl) s.channel_series,
        map_inverse to_proto_battery_series of_battery_series (λ c. refl) s.battery_series,
        map_inverse to_proto_signal_series of_signal_series (λ c. refl) s.signal_series,
      )
      refl

-- The batch can be read off its message: the transmission id, every deployment, time and value, in
-- their order, and which of the optional ids are absent.
pub of_batch-to_proto_batch : (b : Batch) → of_batch (to_proto_batch b) ≡ b
unfolding to_proto_batch
of_batch-to_proto_batch b =
    rw
      (map_inverse to_proto_deployment_samples of_deployment_samples of_deployment_samples-to
        b.deployment_samples)
      refl
