-- ===== src/Ingest/Threads/Rest/Cases.antt =====
-- What Handle of internal/ingest/service.go has still to do behind each of its branches, compared
-- with what it had to do before.
use device_handler.Prelude.{
  ℕ, ◌≡◌, refl, ◌∙◌, inl, inr, Bool-cases, Option, none, some, List, [], ◌∷◌, Result, ok, err,
}
use device_handler.Text.{Text, Unicode, equal, trim_space}
use device_handler.Metrics.{inc}
use device_handler.Action.{lift, pure, continue}
use device_handler.Cache.{DeviceCache, DeviceRecord, ChannelMapping, resolve_channel_id_by_tag}
use device_handler.Telemetry.{DeploymentSamples}
use device_handler.Device.{
  Request, ParseResult, ChannelMeasurement, UnresolvedChannel, build_telemetry,
}
use device_handler.Device.Registry
use device_handler.Device.Registry.{Parser, Registry}
use device_handler.Publish.{PublishConfig}
use device_handler.Ingest.State.{
  Remote, refresh_updated_failed, refresh_full_failed, Service, count,
}
use device_handler.Ingest.Lookup.{search_cache, upsert_cache, upsert_some, fetched, refresh_full}
use device_handler.Ingest.Channels.{stored, created, ensure_channel, ensure_channels}
use device_handler.Ingest.Handle.{parsed_as, built, identify, prepare, deliver, handle}
use device_handler.Ingest.Threads.{
  Pc, after_parse, after_registry, after_build, next_channel, ensuring, after_search, after_updated,
  after_all, after_create, after_store,
}
use device_handler.Ingest.Threads.Rest.{
  Answers, completed, located, searched, ensured, rest, rest_at,
}

module _ ⦃u : Unicode⦄ {W E X : Type 0} (remote : Remote W X) (registry : Registry E)
    (cfg : PublishConfig) where
  pub rest-after_build :
      (req : Request) (parsed : ParseResult) (r : DeviceRecord)
      (o : Result UnresolvedChannel DeploymentSamples) (s : Service W)
      → build_telemetry r parsed ≡ o
      → rest remote registry cfg req (after_build parsed o) s
        ≡ completed remote registry cfg parsed (ok r, s)
  unfolding rest
  rest-after_build req parsed r (ok sample) s e = rw e refl
  rest-after_build req parsed r (err x) s e = rw e refl

  pub rest-next_channel :
      (req : Request) (parsed : ParseResult) (r : DeviceRecord) (m : ChannelMeasurement)
      (ms : List ChannelMeasurement) (pc : Pc E X) (o : Option ℕ) (s : Service W)
      → rest remote registry cfg req pc s ≡ ensured remote registry cfg parsed ms (ok r, s)
      → rest remote registry cfg req (next_channel parsed r m ms pc o) s
        ≡ ensured remote registry cfg parsed ms (ensure_channel remote parsed.serial r m o s)
  unfolding next_channel ensure_channel
  rest-next_channel req parsed r m ms pc (some id) s h = h
  rest-next_channel req parsed r m ms pc none s h =
      elim (Bool-cases (equal (trim_space m.name) [])) [
        | inl blank ↦ rw blank h
        | inr named ↦ rw named (unfold rest in refl)
      ]

  pub rest-ensuring :
      (req : Request) (parsed : ParseResult) (r : DeviceRecord) (ms : List ChannelMeasurement)
      (s : Service W)
      → rest remote registry cfg req (ensuring parsed r ms) s
        ≡ ensured remote registry cfg parsed ms (ok r, s)
  unfolding ensuring ensure_channels
  rest-ensuring req parsed r [] s = rest-after_build req parsed r _ s refl
  rest-ensuring req parsed r (m ∷ ms) s =
      rest-next_channel req parsed r m ms (ensuring parsed r ms)
        (resolve_channel_id_by_tag r m.name) s (rest-ensuring req parsed r ms s)

  pub rest-after_parse :
      (req : Request) (o : Result E ParseResult) (s : Service W)
      → rest remote registry cfg req (after_parse o) s
        ≡ continue (deliver remote registry cfg) (
            continue
              (λ parsed s'.
                continue
                  (λ r s.
                    continue
                      (λ sample. pure (parsed, sample))
                      (lift (built (build_telemetry r parsed)) s))
                  (identify remote registry req parsed s'))
              (parsed_as o s))
  unfolding rest
  rest-after_parse req (ok parsed) s = refl
  rest-after_parse req (err e) s = refl

  pub rest-after_registry :
      (req : Request) (o : Option (Parser E)) (s : Service W)
      → Registry.lookup registry req.manufacturer req.model ≡ o
      → rest remote registry cfg req
          (after_registry req o)
          (count (λ m. record m { ingest_requests = inc m.ingest_requests }) s)
        ≡ handle remote registry cfg req s
  unfolding handle prepare rest
  rest-after_registry req none s e = rw e refl
  rest-after_registry req (some p) s e = rw e (rest-after_parse req (p.parse req) _)

  pub rest-after_search :
      (req : Request) (parsed : ParseResult) (missing : Pc E X)
      (target : Option DeviceRecord → Answers W E X) (o : Option DeviceRecord) (s : Service W)
      → rest remote registry cfg req missing s ≡ target none
      → ((r : DeviceRecord) → located remote registry cfg parsed (ok r, s) ≡ target (some r))
      → rest remote registry cfg req (after_search parsed missing o) s ≡ target o
  rest-after_search req parsed missing target none s h k = h
  rest-after_search req parsed missing target (some r) s h k =
      rest-ensuring req parsed r parsed.channel_measurements s ∙ k r

  pub rest-after_updated :
      (req : Request) (parsed : ParseResult) (o : Result X (List DeviceRecord) × W) (s : Service W)
      → rest_at remote registry cfg req (after_updated parsed o s)
        ≡ searched remote registry cfg parsed (
            continue
              (λ rs s'.
                refresh_full remote req.manufacturer req.model parsed.serial
                  (search_cache
                    (upsert_some remote rs s').cache
                    req.manufacturer
                    req.model
                    parsed.serial)
                  (upsert_some remote rs s'))
              (fetched refresh_updated_failed o s))
  unfolding rest
  rest-after_updated req parsed (ok [], w) s = refl
  rest-after_updated req parsed (ok (r ∷ rs), w) s = refl
  rest-after_updated req parsed (err x, w) s = refl

  pub rest-after_all :
      (req : Request) (parsed : ParseResult) (o : Result X (List DeviceRecord) × W) (s : Service W)
      → rest_at remote registry cfg req (after_all parsed o s)
        ≡ searched remote registry cfg parsed (
            continue
              (λ rs s'. (
                ok (
                    search_cache
                      (upsert_cache remote rs s').cache
                      req.manufacturer
                      req.model
                      parsed.serial),
                upsert_cache remote rs s',
              ))
              (fetched refresh_full_failed o s))
  unfolding rest
  rest-after_all req parsed (ok rs, w) s = refl
  rest-after_all req parsed (err x, w) s = refl

  pub rest-after_create :
      (req : Request) (parsed : ParseResult) (r : DeviceRecord) (tag : Text)
      (ms : List ChannelMeasurement) (o : Result X ChannelMapping × W) (s : Service W)
      → rest_at remote registry cfg req (after_create parsed r tag ms o s)
        ≡ ensured remote registry cfg parsed ms (created parsed.serial r tag o s)
  unfolding rest
  rest-after_create req parsed r tag ms (ok mapping, w) s = refl
  rest-after_create req parsed r tag ms (err x, w) s = refl

  pub rest-after_store :
      (req : Request) (parsed : ParseResult) (ms : List ChannelMeasurement)
      (o : DeviceCache × Option DeviceRecord) (s : Service W)
      → rest_at remote registry cfg req (after_store parsed ms o s)
        ≡ ensured remote registry cfg parsed ms (stored parsed.serial o s)
  rest-after_store req parsed ms (c, some r) s = rest-ensuring req parsed r ms _
  rest-after_store req parsed ms (c, none) s = unfold rest in refl
