-- ===== src/Tests/Sessions.antt =====
-- Examples for the HTTP server over several requests.
use device_handler.Prelude.{◌≡◌, refl, Option, none, some, List, [], ◌∷◌, Bool, ℕ, length}
use device_handler.Text.{Text, codes}
use device_handler.Metrics.App.{app_registry}
use device_handler.Cache.Consistent.{upsert_many-IsConsistent}
use device_handler.Cache.{new_device_cache}
use device_handler.Ingest.State.{Service}
use device_handler.Server.{HttpRequest}
use device_handler.Server.Routes.{serve_all}
use device_handler.Server.Sessions.{Adds, all_acknowledged, serve_all-Adds}
use device_handler.Tests.{ascii, settings, thermometer, measured, registry, api, stocked, service}

abbrev sent : Text → HttpRequest
sent model = record {
  method = codes "POST";
  manufacturer = codes " comet";
  model = model;
  secret = [];
  content_type = [];
  body = some [];
}

-- Two uploads, one of them of a device without a parser, and two other requests.
abbrev session : List (Text × HttpRequest)
session =
    (codes "/devices", sent (codes "t1"))
    ∷ (codes "/healthz", sent [])
    ∷ (codes "/devices", sent (codes "T9"))
    ∷ (codes "/nowhere", sent [])
    ∷ []

abbrev unready : Service ℕ → Option (Bool × List Text)
unready s = none

serve_all-Adds_example :
    (length
        (serve_all api
          (registry (measured ∷ []))
          settings
          unready
          (some app_registry)
          session
          (service stocked)).0
      ≡ 4)
    × Adds
        (all_acknowledged
          (serve_all api
            (registry (measured ∷ []))
            settings
            unready
            (some app_registry)
            session
            (service stocked)).0)
        (service stocked)
        (serve_all api
          (registry (measured ∷ []))
          settings
          unready
          (some app_registry)
          session
          (service stocked)).1
serve_all-Adds_example =
    serve_all-Adds api (registry (measured ∷ [])) settings unready (some app_registry) session
      (service stocked)
      (upsert_many-IsConsistent (λ i. 0) (thermometer ∷ []) new_device_cache
        (record { keyed = tt; newest = tt }))

-- One of the four is acknowledged with an item.
one_acknowledged :
    all_acknowledged
      (serve_all api
        (registry (measured ∷ []))
        settings
        unready
        (some app_registry)
        session
        (service stocked)).0
    ≡ 1
unfolding serve_all device_handler.Text.equal device_handler.Text.trim_space
    device_handler.Text.trim_right device_handler.Text.trim_left device_handler.Text.is_space
    device_handler.Text.to_lower device_handler.Text.rune_lower device_handler.Text.ascii_lower
    device_handler.Device.Registry.lookup device_handler.Device.Registry.register
    device_handler.Dict.insert device_handler.Dict.lookup device_handler.Device.parser_key
    device_handler.Cache.lookup device_handler.Cache.upsert_many device_handler.Cache.upsert
    device_handler.Cache.key device_handler.Cache.stamp
    device_handler.Cache.resolve_channel_id_by_tag device_handler.Cache.latest
    device_handler.Cache.normalize_channel_tag device_handler.Cache.resolve_in
    device_handler.Cache.same_tag device_handler.Device.build_telemetry
    device_handler.Device.collect_series device_handler.Device.series_of
one_acknowledged = refl
