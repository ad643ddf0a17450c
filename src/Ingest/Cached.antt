-- ===== src/Ingest/Cached.antt =====
-- Handle for a cached device all of whose channels exist.
use device_handler.Prelude.{◌≡◌, refl, some, List, [], ◌∷◌, ok, All}
use device_handler.Text.{Text, Unicode}
use device_handler.Metrics.{inc}
use device_handler.Cache
use device_handler.Cache.{
  DeviceCache, DeviceRecord, key, record_key, matches_owner, resolve_channel_id_by_tag,
  upsert_channel_mapping,
}
use device_handler.Telemetry.{DeploymentSamples}
use device_handler.Device.{Request, ParseResult, ChannelMeasurement, build_telemetry}
use device_handler.Device.Build.{Resolves, IsSampleOf, build_telemetry-IsSampleOf}
use device_handler.Device.Registry
use device_handler.Device.Registry.{Parser, Registry}
use device_handler.Publish.{PublishConfig, enqueue}
use device_handler.Ingest.State.{Remote, Service, count}
use device_handler.Ingest.Channels.{ensure_channels}
use device_handler.Ingest.Handle.{identify, prepare, deliver, handle}
use device_handler.Ingest.Untouched.{begun}

module _ ⦃u : Unicode⦄ {W X : Type 0} (E : Type 0) (remote : Remote W X) where
  ensure_channels-Resolves :
      (t : Text) (r : DeviceRecord) (ms : List ChannelMeasurement) (s : Service W)
      → All (Resolves r) ms
      → ensure_channels {E = E} remote t r ms s ≡ (ok r, s)
  unfolding ensure_channels
  ensure_channels-Resolves t r [] s h = refl
  ensure_channels-Resolves t r (m ∷ ms) s ((id, e), h) = rw e (ensure_channels-Resolves t r ms s h)

module _ ⦃u : Unicode⦄ {W E X : Type 0} (remote : Remote W X) (registry : Registry E) where
  identify-cached :
      (req : Request) (parsed : ParseResult) (r : DeviceRecord) (s : Service W)
      → Cache.lookup s.cache req.manufacturer req.model parsed.serial ≡ some r
      → All (Resolves r) parsed.channel_measurements
      → identify {X = X} remote registry req parsed s ≡ (ok r, s)
  unfolding identify
  identify-cached req parsed r s e h =
      rw e (ensure_channels-Resolves E remote parsed.serial r parsed.channel_measurements s h)

  prepare-cached :
      (req : Request) (p : Parser E) (parsed : ParseResult) (r : DeviceRecord) (s : Service W)
      (sample : DeploymentSamples)
      → Registry.lookup registry req.manufacturer req.model ≡ some p
      → p.parse req ≡ ok parsed
      → Cache.lookup s.cache req.manufacturer req.model parsed.serial ≡ some r
      → All (Resolves r) parsed.channel_measurements
      → build_telemetry r parsed ≡ ok sample
      → prepare remote registry req s ≡ (ok (parsed, sample), begun s)
  unfolding prepare
  prepare-cached req p parsed r s sample l pe e h b =
      simp (l, pe, identify-cached req parsed r (begun s) e h, b)

  -- For a device that the cache has under the request's own key, and whose channels all exist, the
  -- response is the parser's, the cache stays as it is, the REST API is not called, and the sample
  -- of the cached record is enqueued.
  pub handle-cached :
      (cfg : PublishConfig) (req : Request) (p : Parser E) (parsed : ParseResult) (r : DeviceRecord)
      (s : Service W)
      → Registry.lookup registry req.manufacturer req.model ≡ some p
      → p.parse req ≡ ok parsed
      → Cache.lookup s.cache req.manufacturer req.model parsed.serial ≡ some r
      → All (Resolves r) parsed.channel_measurements
      → (sample : DeploymentSamples) × IsSampleOf r parsed sample
        × (handle {X = X} remote registry cfg req s ≡ (
          ok parsed.response,
          count
              (λ m. record m { ingest_success = inc m.ingest_success })
              (record {
                cache = s.cache;
                publisher =
                    (enqueue cfg
                      (record {
                        subject = [];
                        deployment_sample = sample;
                        received_at = (remote.readings s.world).0 0;
                      })
                      (begun s).publisher).0;
                world = (remote.readings s.world).1;
              }),
        ))
  unfolding handle deliver
  handle-cached cfg req p parsed r s l pe e h =
      let (sample, b, is) = build_telemetry-IsSampleOf r parsed h in
      (sample, is, rw (prepare-cached req p parsed r s sample l pe e h b) refl)
