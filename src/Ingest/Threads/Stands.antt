-- ===== src/Ingest/Threads/Stands.antt =====
-- What holds of the goroutine of a request of internal/ingest/service.go wherever it stands, and
-- whatever the others have done since to the cache.
use device_handler.Prelude.{
  ◌≡◌, refl, inl, inr, Option, none, some, List, [], ◌∷◌, Result, ok, err, Bool-cases, ℕ,
}
use device_handler.Text.{Text, Unicode, equal, trim_space}
use device_handler.Cache.{
  DeviceCache, DeviceRecord, ChannelMapping, key, record_key, resolve_channel_id_by_tag,
}
use device_handler.Telemetry.{DeploymentSamples}
use device_handler.Device.{
  Request, ParseResult, Response, ChannelMeasurement, UnresolvedChannel, build_telemetry,
}
use device_handler.Device.Build.{IsSampleOf, build_telemetry-ok}
use device_handler.Device.Registry
use device_handler.Device.Registry.{Parser, Registry}
use device_handler.Publish.{TelemetryEnvelope}
use device_handler.Ingest.State.{Service}
use device_handler.Ingest.Found.{Belongs}
use device_handler.Ingest.Complete.{ParsesTo}
use device_handler.Ingest.Threads.{
  Pc, looking_up, missed, refreshing, fetching_updated, storing_updated, looking_up_updated,
  falling_back_updated, fetching_all, storing_all, looking_up_all, falling_back_all, creating,
  counting_channel, storing_channel, stamping, enqueueing, counting, finished, after_parse,
  after_registry, after_build, next_channel, ensuring, after_search, after_updated, after_all,
  after_create, after_store,
}

module _ ⦃u : Unicode⦄ where
  -- The record was found for the request, or it is the one that the cache had under the key by
  -- which the mapping of a channel created for such a record was stored.
  pub data Reached (m mo t : Text) : DeviceRecord → Type 0 where
    searched : {r : DeviceRecord} → Belongs m mo t r → Reached m mo t r
    remapped :
        {q r : DeviceRecord}
        → Reached m mo t q
        → record_key r ≡ key q.manufacturer q.model t
        → Reached m mo t r

  module _ {E : Type 0} (registry : Registry E) where
    -- A sample of what the request's parser has read, for a device so reached.
    pub record IsFor (req : Request) (parsed : ParseResult) (sample : DeploymentSamples)
        : Type 0 where
      pub parses : ParsesTo registry req parsed
      pub device : DeviceRecord
      pub reached : Reached req.manufacturer req.model parsed.serial device
      pub is_sample : IsSampleOf device parsed sample

    -- The request has been answered with its parser's response, and its one envelope is enqueued.
    pub record Acknowledged (req : Request) (sent : List TelemetryEnvelope) (resp : Response)
        : Type 0 where
      pub parsed : ParseResult
      pub response : resp ≡ parsed.response
      pub envelope : TelemetryEnvelope
      pub only : sent ≡ envelope ∷ []
      pub is_for : IsFor req parsed envelope.deployment_sample

    module _ (req : Request) where
      abbrev pub Read : ParseResult → List TelemetryEnvelope → Type 0
      Read parsed sent = ParsesTo registry req parsed × (sent ≡ [])

      abbrev pub Works : ParseResult → DeviceRecord → List TelemetryEnvelope → Type 0
      Works parsed r sent = Read parsed sent × Reached req.manufacturer req.model parsed.serial r

      unfoldable pub Stands : {X : Type 0} → List TelemetryEnvelope → Pc E X → Type 0
      Stands sent (looking_up parsed) = Read parsed sent
      Stands sent (missed parsed) = Read parsed sent
      Stands sent (refreshing parsed) = Read parsed sent
      Stands sent (fetching_updated since parsed) = Read parsed sent
      Stands sent (storing_updated rs parsed) = Read parsed sent
      Stands sent (looking_up_updated parsed) = Read parsed sent
      Stands sent (falling_back_updated parsed) = Read parsed sent
      Stands sent (fetching_all parsed) = Read parsed sent
      Stands sent (storing_all rs parsed) = Read parsed sent
      Stands sent (looking_up_all parsed) = Read parsed sent
      Stands sent (falling_back_all parsed) = Read parsed sent
      Stands sent (creating parsed r m ms) = Works parsed r sent
      Stands sent (counting_channel parsed r mapping ms) = Works parsed r sent
      Stands sent (storing_channel parsed r mapping ms) = Works parsed r sent
      Stands sent (stamping parsed sample) = IsFor req parsed sample × (sent ≡ [])
      Stands sent (enqueueing parsed envelope) =
          IsFor req parsed envelope.deployment_sample × (sent ≡ [])
      Stands sent (counting parsed) = Acknowledged req sent parsed.response
      Stands sent (finished (ok resp)) = Acknowledged req sent resp
      -- arrived, absent, and the failures
      Stands sent _ = sent ≡ []

module _ ⦃u : Unicode⦄ {E : Type 0} (X : Type 0) (registry : Registry E) (req : Request)
    (sent : List TelemetryEnvelope) where
  abbrev StandsAt : {W : Type 0} → Pc E X × Service W → Type 0
  StandsAt (pc, s) = Stands registry req sent pc

  after_parse-Stands :
      (p : Parser E) (o : Result E ParseResult)
      → Registry.lookup registry req.manufacturer req.model ≡ some p
      → p.parse req ≡ o
      → sent ≡ []
      → Stands registry req {X = X} sent (after_parse o)
  unfolding Stands
  after_parse-Stands p (ok parsed) l e h = ((p, l, e), h)
  after_parse-Stands p (err x) l e h = h

  pub after_registry-Stands :
      (o : Option (Parser E))
      → Registry.lookup registry req.manufacturer req.model ≡ o
      → sent ≡ []
      → Stands registry req {X = X} sent (after_registry req o)
  after_registry-Stands none l h = unfold Stands in h
  after_registry-Stands (some p) l h = after_parse-Stands p (p.parse req) l refl h

  after_build-Stands :
      (parsed : ParseResult) (r : DeviceRecord) (o : Result UnresolvedChannel DeploymentSamples)
      → build_telemetry r parsed ≡ o
      → Works registry req parsed r sent
      → Stands registry req {X = X} sent (after_build parsed o)
  unfolding Stands
  after_build-Stands parsed r (ok sample) e h = (
    record { parses = h.0.0; device = r; reached = h.1; is_sample = build_telemetry-ok r parsed e },
    h.0.1,
  )
  after_build-Stands parsed r (err x) e h = h.0.1

  next_channel-Stands :
      (parsed : ParseResult) (r : DeviceRecord) (m : ChannelMeasurement)
      (ms : List ChannelMeasurement) (pc : Pc E X) (o : Option ℕ)
      → Works registry req parsed r sent
      → Stands registry req sent pc
      → Stands registry req sent (next_channel parsed r m ms pc o)
  unfolding next_channel
  next_channel-Stands parsed r m ms pc (some id) w h = h
  next_channel-Stands parsed r m ms pc none w h = elim (Bool-cases (equal (trim_space m.name) [])) [
    | inl blank ↦ rw blank h
    | inr named ↦ rw named (unfold Stands in w)
  ]

  ensuring-Stands :
      (parsed : ParseResult) (r : DeviceRecord) (ms : List ChannelMeasurement)
      → Works registry req parsed r sent
      → Stands registry req {X = X} sent (ensuring parsed r ms)
  unfolding ensuring
  ensuring-Stands parsed r [] h = after_build-Stands parsed r (build_telemetry r parsed) refl h
  ensuring-Stands parsed r (m ∷ ms) h =
      next_channel-Stands parsed r m ms (ensuring parsed r ms) (resolve_channel_id_by_tag r m.name)
        h (ensuring-Stands parsed r ms h)

  pub after_search-Stands :
      (parsed : ParseResult) (missing : Pc E X) (o : Option DeviceRecord)
      → Read registry req parsed sent
      → Stands registry req sent missing
      → ((r : DeviceRecord) → o ≡ some r → Belongs req.manufacturer req.model parsed.serial r)
      → Stands registry req sent (after_search parsed missing o)
  after_search-Stands parsed missing none h k b = k
  after_search-Stands parsed missing (some r) h k b =
      ensuring-Stands parsed r parsed.channel_measurements (h, searched (b r refl))

  module _ {W : Type 0} where
    pub after_updated-Stands :
        (parsed : ParseResult) (o : Result X (List DeviceRecord) × W) (s : Service W)
        → Read registry req parsed sent
        → StandsAt (after_updated parsed o s)
    unfolding Stands
    after_updated-Stands parsed (ok [], w) s h = h
    after_updated-Stands parsed (ok (r ∷ rs), w) s h = h
    after_updated-Stands parsed (err x, w) s h = h.1

    pub after_all-Stands :
        (parsed : ParseResult) (o : Result X (List DeviceRecord) × W) (s : Service W)
        → Read registry req parsed sent
        → StandsAt (after_all parsed o s)
    unfolding Stands
    after_all-Stands parsed (ok rs, w) s h = h
    after_all-Stands parsed (err x, w) s h = h.1

    pub after_create-Stands :
        (parsed : ParseResult) (r : DeviceRecord) (tag : Text) (ms : List ChannelMeasurement)
        (o : Result X ChannelMapping × W) (s : Service W)
        → Works registry req parsed r sent
        → StandsAt (after_create parsed r tag ms o s)
    unfolding Stands
    after_create-Stands parsed r tag ms (ok mapping, w) s h = h
    after_create-Stands parsed r tag ms (err x, w) s h = h.0.1

    pub after_store-Stands :
        (parsed : ParseResult) (r : DeviceRecord) (ms : List ChannelMeasurement)
        (o : DeviceCache × Option DeviceRecord) (s : Service W)
        → Works registry req parsed r sent
        → ((r' : DeviceRecord)
            → o.1 ≡ some r'
            → record_key r' ≡ key r.manufacturer r.model parsed.serial)
        → StandsAt (after_store parsed ms o s)
    after_store-Stands parsed r ms (c, some r') s h k =
        ensuring-Stands parsed r' ms (h.0, remapped h.1 (k r' refl))
    after_store-Stands parsed r ms (c, none) s h k = unfold Stands in h.0.1
