-- ===== src/Tests/Requests.antt =====
-- Examples for the service and the HTTP handlers.
use device_handler.Prelude.{
  ℕ, ◌≡◌, ◌≢◌, refl, sym, ◌∙◌, ap, true, Option, none, some, List, [], ◌∷◌, Result, ok, err, All,
}
use device_handler.Text.{Text, codes, equal, trim_space}
use device_handler.Metrics.{inc}
use device_handler.Cache
use device_handler.Cache.{ChannelMapping, DeviceCache, DeviceRecord, new_device_cache, same_tag}
use device_handler.Cache.Key.{has_bar}
use device_handler.Cache.Consistent.{IsConsistent, upsert_many-IsConsistent}
use device_handler.Text.Normal.{equal_refl}
use device_handler.Action.Outcome.{Outcome}
use device_handler.Telemetry.{DeploymentSamples}
use device_handler.Device.{Request, ParseResult, ChannelMeasurement}
use device_handler.Device.Build.{IsSampleOf, Resolves}
use device_handler.Device.Registry
use device_handler.Device.Registry.{Parser}
use device_handler.Publish.{enqueue}
use device_handler.Ingest.State.{HandleError, device_not_found, count}
use device_handler.Ingest.Channels.{ensure_channels}
use device_handler.Ingest.Summary.{summarize_device_records}
use device_handler.Ingest.Handle.{handle}
use device_handler.Ingest.Found.{IsPlain}
use device_handler.Ingest.Kept.{Kept, IsForeign}
use device_handler.Ingest.Ensured.{Echoes, HasName, Complete, ensure_channels-Complete}
use device_handler.Ingest.Untouched.{begun, handle-untouched}
use device_handler.Ingest.Complete.{
  ParsesTo, HasPlainKey, HasNames, IsServed, handle-IsServed, handle-IsForeign,
}
use device_handler.Ingest.Cached.{handle-cached}
use device_handler.Server.{HttpRequest, handle_devices}
use device_handler.Server.Replies.{Ends, handle_devices-Ends}
use device_handler.Tests.{
  ascii, settings, thermometer, measured, humidity, accepted, upload, reader, registry, api,
  stocked, service, request,
}

stocked-IsConsistent : IsConsistent stocked
stocked-IsConsistent =
    upsert_many-IsConsistent (λ i. 0) (thermometer ∷ []) new_device_cache
      (record { keyed = tt; newest = tt })

-- The measurements of an upload, one of which has no channel yet.
abbrev readings : List ChannelMeasurement
readings = measured ∷ humidity ∷ []

abbrev upload_of : Result Text ParseResult → ParseResult
upload_of (ok parsed) = parsed
upload_of (err e) = upload []

abbrev parser_of : Option (Parser Text) → Parser Text
parser_of (some p) = p
parser_of none = reader []

abbrev tag_of : Result Text ChannelMapping × ℕ → Text
tag_of (ok m, w) = m.tag
tag_of (err e, w) = []

found-reader :
    Registry.lookup (registry readings) (codes "comet") (codes "t1") ≡ some (reader readings)
unfolding Registry.lookup device_handler.Dict.lookup Registry.register device_handler.Dict.insert
    equal device_handler.Device.parser_key device_handler.Text.to_lower trim_space
    device_handler.Text.trim_right device_handler.Text.trim_left device_handler.Text.is_space
    device_handler.Text.rune_lower
found-reader = refl

parses-same :
    {parsed : ParseResult} → ParsesTo (registry readings) request parsed → upload readings ≡ parsed
parses-same (p, found, parses) =
    ap (λ (q : Parser Text). upload_of (q.parse request)) (ap parser_of (sym found-reader ∙ found))
    ∙ ap upload_of parses

plain : IsPlain (codes "comet") (codes "t1") (codes "A1")
unfolding has_bar device_handler.Text.to_lower trim_space device_handler.Text.trim_right
    device_handler.Text.trim_left device_handler.Text.is_space device_handler.Text.rune_lower
plain = record { manufacturer = refl; model = refl; serial = refl }

request-HasPlainKey : HasPlainKey (registry readings) request
request-HasPlainKey parsed h = rw (ap (λ (q : ParseResult). q.serial) (parses-same h)) at plain

named : All HasName readings
unfolding equal trim_space device_handler.Text.trim_right device_handler.Text.trim_left
    device_handler.Text.is_space
named = (refl, (refl, tt))

request-HasNames : HasNames (registry readings) request
request-HasNames parsed h =
    rw⁻¹ (ap (λ (q : ParseResult). q.channel_measurements) (parses-same h)) named

echoed : (s t : Text) → s ≡ t → same_tag t s ≡ true
unfolding same_tag
echoed s t e = rw e (equal_refl _)

api-Echoes : Echoes api
api-Echoes = record { echo = λ d q w w' m e. echoed q.tag m.tag (ap tag_of e) }

served : (handle api (registry readings) settings request (service stocked)).0 ≡ ok accepted
unfolding handle Registry.lookup device_handler.Dict.lookup Registry.register
    device_handler.Dict.insert equal device_handler.Device.parser_key device_handler.Text.to_lower
    trim_space device_handler.Text.trim_right device_handler.Text.trim_left
    device_handler.Text.is_space device_handler.Text.rune_lower Cache.lookup Cache.upsert_many
    Cache.upsert Cache.key Cache.stamp Cache.latest Cache.normalize_channel_tag Cache.put_mapping
    Cache.resolve_channel_id_by_tag Cache.resolve_in same_tag Cache.upsert_channel_mapping
    device_handler.Device.build_telemetry device_handler.Device.collect_series
    device_handler.Device.series_of device_handler.Ingest.Channels.create_channel
    device_handler.Ingest.Channels.ensure_channel ensure_channels
    device_handler.Ingest.Channels.normalize_unit device_handler.Text.ascii_lower
served = refl

unknown :
    (handle api (registry readings) settings request (service new_device_cache)).0
    ≡ err (device_not_found (codes "A1"))
unfolding handle Registry.lookup device_handler.Dict.lookup Registry.register
    device_handler.Dict.insert equal device_handler.Device.parser_key device_handler.Text.to_lower
    trim_space device_handler.Text.trim_right device_handler.Text.trim_left
    device_handler.Text.is_space device_handler.Text.rune_lower Cache.lookup
    device_handler.Ingest.Lookup.lookup_by_manufacturer_and_serial_fallback
    Cache.find_by_manufacturer_and_serial Cache.upsert_many
unknown = refl

found-thermometer :
    Cache.lookup stocked (codes "Comet") (codes "T1") (codes "A1") ≡ some thermometer
unfolding Cache.lookup device_handler.Dict.lookup Cache.upsert_many Cache.upsert
    device_handler.Dict.insert equal Cache.key device_handler.Text.to_lower trim_space
    device_handler.Text.trim_right device_handler.Text.trim_left Cache.stamp
    device_handler.Text.is_space device_handler.Text.rune_lower
found-thermometer = refl

handle-IsServed_example :
    IsServed api
      (registry readings)
      settings
      request
      (service stocked)
      (handle api (registry readings) settings request (service stocked)).1
      accepted
handle-IsServed_example =
    handle-IsServed api (registry readings) settings request (service stocked) {resp = accepted}
      stocked-IsConsistent request-HasPlainKey served

handle-IsForeign_example : IsForeign {E = Text} {X = Text} (device_not_found (codes "A1"))
handle-IsForeign_example =
    handle-IsForeign api (registry readings) settings request (service new_device_cache)
      {e = device_not_found (codes "A1")} (record { keyed = tt; newest = tt }) request-HasPlainKey
      api-Echoes request-HasNames unknown

handle-untouched_example :
    Kept
      (begun (service new_device_cache))
      (handle api (registry readings) settings request (service new_device_cache)).1
handle-untouched_example =
    handle-untouched api (registry readings) settings request (service new_device_cache)
      {e = device_not_found (codes "A1")} (record { keyed = tt; newest = tt }) unknown

ensure_channels-Complete_example :
    Outcome
      (Complete Text api (codes "A1") thermometer readings)
      (λ (e : HandleError Text Text) s'. IsForeign e)
      (ensure_channels api (codes "A1") thermometer readings (service stocked))
ensure_channels-Complete_example =
    ensure_channels-Complete Text api (codes "A1") thermometer readings (service stocked) api-Echoes
      named stocked-IsConsistent found-thermometer

resolved : All (Resolves thermometer) (measured ∷ [])
unfolding Cache.resolve_channel_id_by_tag same_tag equal device_handler.Text.to_lower trim_space
    device_handler.Text.trim_right device_handler.Text.trim_left device_handler.Text.is_space
    device_handler.Text.rune_lower
resolved = ((31, refl), tt)

found-one :
    Registry.lookup (registry (measured ∷ [])) (codes "comet") (codes "t1")
    ≡ some (reader (measured ∷ []))
unfolding Registry.lookup device_handler.Dict.lookup Registry.register device_handler.Dict.insert
    equal device_handler.Device.parser_key device_handler.Text.to_lower trim_space
    device_handler.Text.trim_right device_handler.Text.trim_left device_handler.Text.is_space
    device_handler.Text.rune_lower
found-one = refl

found-cached : Cache.lookup stocked (codes "comet") (codes "t1") (codes "A1") ≡ some thermometer
unfolding Cache.lookup device_handler.Dict.lookup Cache.upsert_many Cache.upsert
    device_handler.Dict.insert equal Cache.key device_handler.Text.to_lower trim_space
    device_handler.Text.trim_right device_handler.Text.trim_left Cache.stamp
    device_handler.Text.is_space device_handler.Text.rune_lower
found-cached = refl

handle-cached_example :
    (sample : DeploymentSamples) × IsSampleOf thermometer (upload (measured ∷ [])) sample
    × (handle api (registry (measured ∷ [])) settings request (service stocked) ≡ (
      ok accepted,
      count
          (λ m. record m { ingest_success = inc m.ingest_success })
          (record {
            cache = stocked;
            publisher =
                (enqueue settings
                  (record { subject = []; deployment_sample = sample; received_at = 1032 })
                  (begun (service stocked)).publisher).0;
            world = 32;
          }),
    ))
handle-cached_example =
    handle-cached api (registry (measured ∷ [])) settings request (reader (measured ∷ []))
      (upload (measured ∷ [])) thermometer (service stocked) found-one refl found-cached resolved

abbrev http : Text → Text → HttpRequest
http method model = record {
  method = method;
  manufacturer = codes " comet";
  model = model;
  secret = [];
  content_type = [];
  body = some [];
}

no_post : codes "GET" ≢ codes "POST"
no_post e = cc

given :
    (trim_space (codes " comet") ≢ [])
    × (trim_space (codes "t1") ≢ [])
    × (trim_space (codes "T9") ≢ [])
unfolding trim_space device_handler.Text.trim_right device_handler.Text.trim_left
    device_handler.Text.is_space
given = (λ e. cc, λ e. cc, λ e. cc)

handle_devices-Ends_example :
    Ends api
      (registry [])
      settings
      (http (codes "POST") (codes "t1"))
      (service stocked)
      (handle_devices api
        (registry [])
        settings
        (http (codes "POST") (codes "t1"))
        (service stocked)).0
      (handle_devices api
        (registry [])
        settings
        (http (codes "POST") (codes "t1"))
        (service stocked)).1
handle_devices-Ends_example =
    handle_devices-Ends api (registry []) settings (http (codes "POST") (codes "t1"))
      (service stocked) stocked-IsConsistent

summarized :
    summarize_device_records (thermometer ∷ [])
    ≡ codes "serial=A1 manufacturer=Comet model=T1 deployment_id=21 device_id=11 channels=1" ∷ []
unfolding summarize_device_records
summarized = refl
