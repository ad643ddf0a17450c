-- ===== src/Ingest/Threads/Budget.antt =====
-- How many accesses Handle of internal/ingest/service.go makes at most.
use device_handler.Prelude.{
  ℕ, suc, ◌+◌, ◌*◌, ◌-◌, ◌≤◌, ◌≡◌, refl, inl, inr, Bool-cases, Option, none, some, List, [], ◌∷◌,
  Result, ok, err, length, arith,
}
use device_handler.Text.{Text, Unicode, equal, trim_space}
use device_handler.Cache.{DeviceCache, DeviceRecord, ChannelMapping, resolve_channel_id_by_tag}
use device_handler.Telemetry.{DeploymentSamples}
use device_handler.Device.{
  Request, ParseResult, Response, ChannelMeasurement, UnresolvedChannel, build_telemetry,
}
use device_handler.Device.Registry
use device_handler.Device.Registry.{Parser, Registry}
use device_handler.Publish.{PublishConfig}
use device_handler.Ingest.State.{Remote, HandleError, Service}
use device_handler.Ingest.Threads.{
  Pc, arrived, unsupported, unparsed, looking_up, missed, refreshing, fetching_updated,
  storing_updated, looking_up_updated, falling_back_updated, fetching_all, storing_all,
  looking_up_all, falling_back_all, absent, creating, not_created, counting_channel,
  storing_channel, stamping, enqueueing, counting, finished, after_parse, after_registry,
  after_build, next_channel, ensuring, after_search, after_updated, after_all, after_create,
  after_store, step,
}

-- Three accesses for each channel that has to be created, and three from BuildTelemetry on.
abbrev pub ensuring_budget : List ChannelMeasurement → ℕ
ensuring_budget ms = 3 * length ms + 3

-- The accesses of an upload that the parser has read: at most eleven that look for its device.
abbrev pub upload_budget : ParseResult → ℕ
upload_budget parsed = ensuring_budget parsed.channel_measurements + 11

abbrev pub parse_budget : {E : Type 0} → Result E ParseResult → ℕ
parse_budget (ok parsed) = upload_budget parsed
parse_budget (err e) = 1

abbrev pub registry_budget : {E : Type 0} → Request → Option (Parser E) → ℕ
registry_budget req none = 1
registry_budget req (some p) = parse_budget (p.parse req)

module _ ⦃u : Unicode⦄ {E : Type 0} (registry : Registry E) where
  abbrev pub budget : Request → ℕ
  budget req = suc (registry_budget req (Registry.lookup registry req.manufacturer req.model))

  -- What is left of it.
  unfoldable pub left : {X : Type 0} → Request → Pc E X → ℕ
  left req arrived = budget req
  left req unsupported = 1
  left req (unparsed e) = 1
  left req (looking_up parsed) = upload_budget parsed
  left req (missed parsed) = ensuring_budget parsed.channel_measurements + 10
  left req (refreshing parsed) = ensuring_budget parsed.channel_measurements + 9
  left req (fetching_updated since parsed) = ensuring_budget parsed.channel_measurements + 8
  left req (storing_updated rs parsed) = ensuring_budget parsed.channel_measurements + 7
  left req (looking_up_updated parsed) = ensuring_budget parsed.channel_measurements + 6
  left req (falling_back_updated parsed) = ensuring_budget parsed.channel_measurements + 5
  left req (fetching_all parsed) = ensuring_budget parsed.channel_measurements + 4
  left req (storing_all rs parsed) = ensuring_budget parsed.channel_measurements + 3
  left req (looking_up_all parsed) = ensuring_budget parsed.channel_measurements + 2
  left req (falling_back_all parsed) = ensuring_budget parsed.channel_measurements + 1
  left req (absent parsed) = 1
  left req (creating parsed r m ms) = ensuring_budget ms + 3
  left req (not_created r tag x) = 1
  left req (counting_channel parsed r mapping ms) = ensuring_budget ms + 2
  left req (storing_channel parsed r mapping ms) = ensuring_budget ms + 1
  left req (stamping parsed sample) = 3
  left req (enqueueing parsed envelope) = 2
  left req (counting parsed) = 1
  left req (finished result) = 0

module _ ⦃u : Unicode⦄ {E : Type 0} (X : Type 0) (registry : Registry E) (req : Request) where
  left-after_parse :
      (o : Result E ParseResult) → left registry {X = X} req (after_parse o) ≤ parse_budget o
  unfolding left
  left-after_parse (ok parsed) = omega arith
  left-after_parse (err e) = omega arith

  left-after_registry :
      (o : Option (Parser E))
      → left registry {X = X} req (after_registry req o) ≤ registry_budget req o
  left-after_registry none = unfold left in omega arith
  left-after_registry (some p) = left-after_parse (p.parse req)

  left-after_build :
      (parsed : ParseResult) (o : Result UnresolvedChannel DeploymentSamples)
      → left registry {X = X} req (after_build parsed o) ≤ 3
  unfolding left
  left-after_build parsed (ok sample) = omega arith
  left-after_build parsed (err x) = omega arith

  left-next_channel :
      (parsed : ParseResult) (r : DeviceRecord) (m : ChannelMeasurement)
      (ms : List ChannelMeasurement) (pc : Pc E X) (o : Option ℕ)
      → left registry req pc ≤ ensuring_budget ms
      → left registry req (next_channel parsed r m ms pc o) ≤ ensuring_budget (m ∷ ms)
  unfolding next_channel left
  left-next_channel parsed r m ms pc (some id) h = omega (arith, h)
  left-next_channel parsed r m ms pc none h = elim (Bool-cases (equal (trim_space m.name) [])) [
    | inl blank ↦ rw blank (omega (arith, h))
    | inr named ↦ rw named (omega arith)
  ]

  left-ensuring :
      (parsed : ParseResult) (r : DeviceRecord) (ms : List ChannelMeasurement)
      → left registry {X = X} req (ensuring parsed r ms) ≤ ensuring_budget ms
  unfolding ensuring
  left-ensuring parsed r [] = left-after_build parsed (build_telemetry r parsed)
  left-ensuring parsed r (m ∷ ms) =
      left-next_channel parsed r m ms (ensuring parsed r ms) (resolve_channel_id_by_tag r m.name)
        (left-ensuring parsed r ms)

  left-after_search :
      (parsed : ParseResult) (missing : Pc E X) (o : Option DeviceRecord) (n : ℕ)
      → left registry req missing ≤ n
      → ensuring_budget parsed.channel_measurements ≤ n
      → left registry req (after_search parsed missing o) ≤ n
  left-after_search parsed missing none n h k = h
  left-after_search parsed missing (some r) n h k =
      omega (arith, k, left-ensuring parsed r parsed.channel_measurements)

  module _ {W : Type 0} where
    abbrev left_at : Pc E X × Service W → ℕ
    left_at (pc, s) = left registry req pc

    left-after_updated :
        (parsed : ParseResult) (o : Result X (List DeviceRecord) × W) (s : Service W)
        → left_at (after_updated parsed o s) ≤ ensuring_budget parsed.channel_measurements + 7
    unfolding left
    left-after_updated parsed (ok [], w) s = omega arith
    left-after_updated parsed (ok (r ∷ rs), w) s = omega arith
    left-after_updated parsed (err x, w) s = omega arith

    left-after_all :
        (parsed : ParseResult) (o : Result X (List DeviceRecord) × W) (s : Service W)
        → left_at (after_all parsed o s) ≤ ensuring_budget parsed.channel_measurements + 3
    unfolding left
    left-after_all parsed (ok rs, w) s = omega arith
    left-after_all parsed (err x, w) s = omega arith

    left-after_create :
        (parsed : ParseResult) (r : DeviceRecord) (tag : Text) (ms : List ChannelMeasurement)
        (o : Result X ChannelMapping × W) (s : Service W)
        → left_at (after_create parsed r tag ms o s) ≤ ensuring_budget ms + 2
    unfolding left
    left-after_create parsed r tag ms (ok mapping, w) s = omega arith
    left-after_create parsed r tag ms (err x, w) s = omega arith

    left-after_store :
        (parsed : ParseResult) (ms : List ChannelMeasurement)
        (o : DeviceCache × Option DeviceRecord) (s : Service W)
        → left_at (after_store parsed ms o s) ≤ ensuring_budget ms
    left-after_store parsed ms (c, some r) s = left-ensuring parsed r ms
    left-after_store parsed ms (c, none) s = unfold left in omega arith

module _ ⦃u : Unicode⦄ {W E X : Type 0} (remote : Remote W X) (registry : Registry E)
    (cfg : PublishConfig) where
  -- Every access takes one off what is left.
  pub left-step :
      (req : Request) (pc : Pc E X) (s : Service W)
      → left registry req (step remote registry cfg req pc s).0 ≤ left registry req pc - 1
  unfolding step left
  left-step req arrived s = omega (
    arith,
    left-after_registry X registry req (Registry.lookup registry req.manufacturer req.model),
  )
  left-step req unsupported s = omega arith
  left-step req (unparsed e) s = omega arith
  left-step req (looking_up parsed) s =
      left-after_search X registry req parsed (missed parsed) _ _ (omega arith) (omega arith)
  left-step req (missed parsed) s = omega arith
  left-step req (refreshing parsed) s = omega arith
  left-step req (fetching_updated since parsed) s =
      omega (arith, left-after_updated X registry req parsed _ s)
  left-step req (storing_updated rs parsed) s = omega arith
  left-step req (looking_up_updated parsed) s =
      left-after_search X registry req parsed (falling_back_updated parsed) _ _ (omega arith)
        (omega arith)
  left-step req (falling_back_updated parsed) s =
      left-after_search X registry req parsed (fetching_all parsed) _ _ (omega arith) (omega arith)
  left-step req (fetching_all parsed) s =
      omega (arith, left-after_all X registry req parsed (remote.fetch_devices s.world) s)
  left-step req (storing_all rs parsed) s = omega arith
  left-step req (looking_up_all parsed) s =
      left-after_search X registry req parsed (falling_back_all parsed) _ _ (omega arith)
        (omega arith)
  left-step req (falling_back_all parsed) s =
      left-after_search X registry req parsed (absent parsed) _ _ (omega arith) (omega arith)
  left-step req (absent parsed) s = omega arith
  left-step req (creating parsed r m ms) s =
      omega (arith, left-after_create X registry req parsed r (trim_space m.name) ms _ s)
  left-step req (not_created r tag x) s = omega arith
  left-step req (counting_channel parsed r mapping ms) s = omega arith
  left-step req (storing_channel parsed r mapping ms) s =
      omega (arith, left-after_store X registry req parsed ms _ s)
  left-step req (stamping parsed sample) s = omega arith
  left-step req (enqueueing parsed envelope) s = omega arith
  left-step req (counting parsed) s = omega arith
  left-step req (finished result) s = omega arith

module _ {E X : Type 0} where
  -- The result of a request that has finished.
  abbrev pub result_of : Pc E X → Option (Result (HandleError E X) Response)
  result_of (finished result) = some result
  result_of _ = none

  abbrev pub IsFinished : Pc E X → Type 0
  IsFinished pc = (o : Result (HandleError E X) Response) × (pc ≡ finished o)

module _ ⦃u : Unicode⦄ {E X : Type 0} (registry : Registry E) where
  -- With nothing left, the request has its result.
  pub left-IsFinished : (req : Request) (pc : Pc E X) → left registry req pc ≤ 0 → IsFinished pc
  unfolding left
  left-IsFinished req (finished o) h = (o, refl)
  left-IsFinished req _ h = absurd (omega arith)
