-- ===== src/Tests/Threads.antt =====
-- Examples for requests that run beside each other.
use device_handler.Prelude.{
  ℕ, zero, suc, ◌≤◌, ◌≡◌, refl, Option, none, some, List, [], ◌∷◌, ok, arith, get_elem?,
}
use device_handler.Text.{Text, codes, equal, trim_space}
use device_handler.Metrics.{new_app_metrics}
use device_handler.Cache
use device_handler.Cache.{DeviceRecord, ChannelMapping, new_device_cache, same_tag}
use device_handler.Cache.Consistent.{IsConsistent, upsert_many-IsConsistent}
use device_handler.Device.{ChannelMeasurement}
use device_handler.Device.Registry
use device_handler.Ingest.Handle.{handle}
use device_handler.Ingest.Threads.{Pc, arrived, finished}
use device_handler.Ingest.Threads.Budget.{budget, left, IsFinished}
use device_handler.Ingest.Threads.Alone.{steps, steps-handle}
use device_handler.Ingest.Threads.System.{
  Thread, System, Event, arrives, moves, polled, drifts, run, new_thread,
}
use device_handler.Ingest.Threads.Turns.{turns, run-IsFinished}
use device_handler.Ingest.Threads.Accounts.{begin, IsAccounted, run-IsAccounted}
use device_handler.Tests.{
  ascii, settings, thermometer, measured, humidity, accepted, registry, api, stocked, service,
  request,
}

abbrev readings : List ChannelMeasurement
readings = measured ∷ humidity ∷ []

stocked-IsConsistent : IsConsistent stocked
stocked-IsConsistent =
    upsert_many-IsConsistent (λ i. 0) (thermometer ∷ []) new_device_cache
      (record { keyed = tt; newest = tt })

abbrev empty_handed : System ℕ Text Text
empty_handed = begin stocked new_app_metrics 32

-- Two requests for the same device, each with its first accesses before the other creates the
-- channel that is missing.
abbrev both : List (Event ℕ)
both =
    arrives request
    ∷ arrives request
    ∷ moves 0
    ∷ moves 1
    ∷ moves 0
    ∷ moves 1
    ∷ moves 0
    ∷ moves 1
    ∷ moves 0
    ∷ moves 1
    ∷ moves 0
    ∷ moves 1
    ∷ moves 0
    ∷ moves 1
    ∷ moves 0
    ∷ moves 1
    ∷ moves 0
    ∷ moves 1
    ∷ []

abbrev ends : Option (Thread Text Text) → Pc Text Text
ends none = arrived
ends (some t) = t.pc

-- Both create it: the first record that the second stores replaces.
created_twice : (run api (registry readings) settings empty_handed both).shared.world ≡ 34
unfolding run Registry.lookup device_handler.Dict.lookup Registry.register
    device_handler.Dict.insert equal device_handler.Device.parser_key device_handler.Text.to_lower
    trim_space device_handler.Text.trim_right device_handler.Text.trim_left
    device_handler.Text.is_space device_handler.Text.rune_lower Cache.lookup Cache.upsert_many
    Cache.upsert Cache.key Cache.stamp Cache.latest Cache.normalize_channel_tag Cache.put_mapping
    Cache.resolve_channel_id_by_tag Cache.resolve_in same_tag Cache.upsert_channel_mapping
    device_handler.Device.build_telemetry device_handler.Device.collect_series
    device_handler.Device.series_of device_handler.Ingest.Channels.normalize_unit
    device_handler.Text.ascii_lower
created_twice = refl

both_succeed :
    ends (get_elem? (run api (registry readings) settings empty_handed both).threads 1)
    ≡ finished (ok accepted)
unfolding run Registry.lookup device_handler.Dict.lookup Registry.register
    device_handler.Dict.insert equal device_handler.Device.parser_key device_handler.Text.to_lower
    trim_space device_handler.Text.trim_right device_handler.Text.trim_left
    device_handler.Text.is_space device_handler.Text.rune_lower Cache.lookup Cache.upsert_many
    Cache.upsert Cache.key Cache.stamp Cache.latest Cache.normalize_channel_tag Cache.put_mapping
    Cache.resolve_channel_id_by_tag Cache.resolve_in same_tag Cache.upsert_channel_mapping
    device_handler.Device.build_telemetry device_handler.Device.collect_series
    device_handler.Device.series_of device_handler.Ingest.Channels.normalize_unit
    device_handler.Text.ascii_lower
both_succeed = refl

-- A request that creates the channel, then a poll that stores an answer of the REST API from before,
-- then the next request for the device.
abbrev overwritten : List (Event ℕ)
overwritten =
    arrives request
    ∷ moves 0
    ∷ moves 0
    ∷ moves 0
    ∷ moves 0
    ∷ moves 0
    ∷ moves 0
    ∷ moves 0
    ∷ moves 0
    ∷ polled (λ i. 0) (thermometer ∷ [])
    ∷ arrives request
    ∷ moves 1
    ∷ moves 1
    ∷ moves 1
    ∷ []

-- It creates the channel again.
created_again : (run api (registry readings) settings empty_handed overwritten).shared.world ≡ 34
unfolding run Registry.lookup device_handler.Dict.lookup Registry.register
    device_handler.Dict.insert equal device_handler.Device.parser_key device_handler.Text.to_lower
    trim_space device_handler.Text.trim_right device_handler.Text.trim_left
    device_handler.Text.is_space device_handler.Text.rune_lower Cache.lookup Cache.upsert_many
    Cache.upsert Cache.key Cache.stamp Cache.latest Cache.normalize_channel_tag Cache.put_mapping
    Cache.resolve_channel_id_by_tag Cache.resolve_in same_tag Cache.upsert_channel_mapping
    device_handler.Device.build_telemetry device_handler.Device.collect_series
    device_handler.Device.series_of device_handler.Ingest.Channels.normalize_unit
    device_handler.Text.ascii_lower
created_again = refl

run-IsAccounted_example :
    IsAccounted (registry readings) (run api (registry readings) settings empty_handed both)
run-IsAccounted_example =
    run-IsAccounted api (registry readings) settings stocked new_app_metrics 32 both
      stocked-IsConsistent

enough : budget (registry readings) request ≤ 21
unfolding Registry.lookup device_handler.Dict.lookup Registry.register device_handler.Dict.insert
    equal device_handler.Device.parser_key device_handler.Text.to_lower trim_space
    device_handler.Text.trim_right device_handler.Text.trim_left device_handler.Text.is_space
    device_handler.Text.rune_lower
enough = omega arith

steps-handle_example :
    steps api (registry readings) settings 21 request arrived (service stocked) ≡ (
      finished (handle api (registry readings) settings request (service stocked)).0,
      (handle api (registry readings) settings request (service stocked)).1,
    )
steps-handle_example =
    steps-handle api (registry readings) settings 21 request (service stocked) enough

-- Turns of the request, between which the world goes on.
abbrev disturbed : ℕ → List (Event ℕ)
disturbed zero = []
disturbed (suc n) = drifts n ∷ moves 0 ∷ disturbed n

abbrev waiting : System ℕ Text Text
waiting = record { threads = new_thread request ∷ []; shared = empty_handed.shared }

enough_turns : left (registry readings) {X = Text} request arrived ≤ turns 0 (disturbed 21)
unfolding left Registry.lookup device_handler.Dict.lookup Registry.register
    device_handler.Dict.insert equal device_handler.Device.parser_key device_handler.Text.to_lower
    trim_space device_handler.Text.trim_right device_handler.Text.trim_left
    device_handler.Text.is_space device_handler.Text.rune_lower
enough_turns = omega arith

run-IsFinished_example :
    (t : Thread Text Text) × (get_elem?
        (run api (registry readings) settings waiting (disturbed 21)).threads
        0
      ≡ some t)
    × (t.request ≡ request)
    × IsFinished t.pc
run-IsFinished_example =
    run-IsFinished api (registry readings) settings 0 waiting (disturbed 21)
      {t = new_thread request} refl enough_turns
