-- ===== src/Ingest/Untouched.antt =====
-- A request that fails enqueues nothing.
use device_handler.Prelude.{
  ℕ, ◌≡◌, refl, inl, inr, Option, none, some, List, [], ◌∷◌, Result, ok, err, Bool-cases,
}
use device_handler.Text.{Text, Unicode, equal, trim_space}
use device_handler.Metrics.{inc}
use device_handler.Cache
use device_handler.Cache.{
  DeviceCache, DeviceRecord, key, record_key, matches_owner, resolve_channel_id_by_tag,
  upsert_channel_mapping,
}
use device_handler.Cache.Consistent.{IsConsistent, upsert_channel_mapping-IsConsistent}
use device_handler.Action.{lift, continue}
use device_handler.Action.Outcome.{Outcome, continue-Outcome, weaken}
use device_handler.Telemetry.{DeploymentSamples}
use device_handler.Device.{
  Request, ParseResult, ChannelMeasurement, UnresolvedChannel, build_telemetry,
}
use device_handler.Device.Registry
use device_handler.Device.Registry.{Parser, Registry}
use device_handler.Publish.{PublishConfig}
use device_handler.Ingest.State.{Remote, HandleError, Service, count}
use device_handler.Ingest.Lookup.{resolve_device}
use device_handler.Ingest.Channels.{
  stored, created, create_channel, ensure_channel, ensure_channels,
}
use device_handler.Ingest.Handle.{
  select_parser, parsed_as, built, identify, prepare, deliver, handle,
}
use device_handler.Ingest.Kept.{Kept, keep, Fails, Found, resolve_device-Found}

module _ ⦃u : Unicode⦄ {W X : Type 0} (E : Type 0) (remote : Remote W X) (s₀ : Service W) where
  abbrev pub Keeps : {A : Type 0} → A → Service W → Type 0
  Keeps a s = Kept s₀ s

  stored-Kept :
      (t : Text) (p : DeviceCache × Option DeviceRecord) (s : Service W)
      → Kept s₀ s
      → IsConsistent p.0
      → Outcome Keeps Keeps (stored {E = E} {X = X} t p s)
  stored-Kept t (c, some r) s k h = record {
    consistent = h;
    buffer = k.buffer;
    flushing = k.flushing;
    requests = k.requests;
    successes = k.successes;
  }
  stored-Kept t (c, none) s k h = record {
    consistent = h;
    buffer = k.buffer;
    flushing = k.flushing;
    requests = k.requests;
    successes = k.successes;
  }

  created-Kept :
      (t : Text) (r : DeviceRecord) (tag : Text) (p : Result X Cache.ChannelMapping × W)
      (s : Service W)
      → Kept s₀ s
      → Outcome Keeps Keeps (created {E = E} t r tag p s)
  created-Kept t r tag (err x, w) s k = keep s₀ s _ k refl refl refl refl refl
  created-Kept t r tag (ok mapping, w) s k =
      stored-Kept t _ _ (keep s₀ s _ k refl refl refl refl refl)
        (upsert_channel_mapping-IsConsistent r.manufacturer r.model t mapping s.cache k.consistent)

  ensure_channel-Kept :
      (t : Text) (r : DeviceRecord) (m : ChannelMeasurement) (o : Option ℕ) (s : Service W)
      → Kept s₀ s
      → Outcome Keeps Keeps (ensure_channel {E = E} remote t r m o s)
  unfolding ensure_channel
  ensure_channel-Kept t r m (some id) s k = k
  ensure_channel-Kept t r m none s k = elim (Bool-cases (equal (trim_space m.name) [])) [
    | inl blank ↦ rw blank k
    | inr named ↦ rw named (unfold create_channel in created-Kept t r _ _ s k)
  ]

  ensure_channels-Kept :
      (t : Text) (r : DeviceRecord) (ms : List ChannelMeasurement) (s : Service W)
      → Kept s₀ s
      → Outcome Keeps Keeps (ensure_channels {E = E} remote t r ms s)
  unfolding ensure_channels
  ensure_channels-Kept t r [] s k = k
  ensure_channels-Kept t r (m ∷ ms) s k =
      continue-Outcome _ (ensure_channel remote t r m _ s) Keeps Keeps Keeps
        (ensure_channel-Kept t r m _ s k) (λ r' s' k'. ensure_channels-Kept t r' ms s' k')

  identify-Kept :
      (registry : Registry E) (req : Request) (parsed : ParseResult) (s : Service W)
      → Kept s₀ s
      → Outcome Keeps Keeps (identify remote registry req parsed s)
  unfolding identify
  identify-Kept registry req parsed s k =
      continue-Outcome _ (resolve_device remote req.manufacturer req.model parsed.serial _ s)
        (Found s₀ req.manufacturer req.model parsed.serial) Keeps Keeps
        (weaken (resolve_device remote req.manufacturer req.model parsed.serial _ s)
          (Found s₀ req.manufacturer req.model parsed.serial) _ (Fails s₀) Keeps
          (resolve_device-Found E remote s₀ req.manufacturer req.model parsed.serial _ s refl k)
          (λ r s' h. h) (λ e s' h. h.0))
        (λ r s' h. ensure_channels-Kept parsed.serial r parsed.channel_measurements s' h.0)

-- The state once the request is counted.
abbrev pub begun : {W : Type 0} → Service W → Service W
begun s = count (λ m. record m { ingest_requests = inc m.ingest_requests }) s

module _ ⦃u : Unicode⦄ {W E X : Type 0} (remote : Remote W X) (registry : Registry E) where
  select_parser-Kept :
      (o : Option (Parser E)) (s₀ s : Service W)
      → Kept s₀ s
      → Outcome (Keeps E remote s₀) (Keeps E remote s₀) (select_parser {X = X} o s)
  select_parser-Kept (some p) s₀ s k = k
  select_parser-Kept none s₀ s k = keep s₀ s _ k refl refl refl refl refl

  parsed_as-Kept :
      (o : Result E ParseResult) (s₀ s : Service W)
      → Kept s₀ s
      → Outcome (Keeps E remote s₀) (Keeps E remote s₀) (parsed_as {X = X} o s)
  parsed_as-Kept (ok p) s₀ s k = k
  parsed_as-Kept (err e) s₀ s k = keep s₀ s _ k refl refl refl refl refl

  built-Kept :
      (o : Result UnresolvedChannel DeploymentSamples) (s₀ s : Service W)
      → Kept s₀ s
      → Outcome (Keeps E remote s₀) (Keeps E remote s₀) (lift (built {E = E} {X = X} o) s)
  built-Kept (ok p) s₀ s k = k
  built-Kept (err e) s₀ s k = k

  pub prepare-Kept :
      (req : Request) (s : Service W)
      → IsConsistent s.cache
      → Outcome
          (Keeps E remote (begun s))
          (Keeps E remote (begun s))
          (prepare remote registry req s)
  unfolding prepare
  prepare-Kept req s h =
      let K = λ (A : Type 0). Keeps E remote (begun s) {A = A} in
      continue-Outcome _
        (select_parser (Registry.lookup registry req.manufacturer req.model) (begun s)) (K _) (K _)
        (K _)
        (select_parser-Kept _ (begun s) (begun s) (record {
          consistent = h;
          buffer = refl;
          flushing = refl;
          requests = refl;
          successes = refl;
        }))
        λ p s₁ k₁.
          continue-Outcome _ (parsed_as (p.parse req) s₁) (K _) (K _) (K _)
            (parsed_as-Kept (p.parse req) (begun s) s₁ k₁)
            λ parsed s₂ k₂.
              continue-Outcome _ (identify remote registry req parsed s₂) (K _) (K _) (K _)
                (identify-Kept E remote (begun s) registry req parsed s₂ k₂)
                λ r s₃ k₃.
                  continue-Outcome _ (lift (built (build_telemetry r parsed)) s₃) (K _) (K _) (K _)
                    (built-Kept (build_telemetry r parsed) (begun s) s₃ k₃) λ sample s₄ k₄. k₄

  continue-deliver :
      (cfg : PublishConfig) (s₀ : Service W)
      (r : Result (HandleError E X) (ParseResult × DeploymentSamples) × Service W)
      → Outcome (Keeps E remote s₀) (Keeps E remote s₀) r
      → {e : HandleError E X} → (continue (deliver remote registry cfg) r).0 ≡ err e
      → Kept s₀ (continue (deliver remote registry cfg) r).1
  unfolding deliver
  continue-deliver cfg s₀ (ok (parsed, sample), s) k {e} h = cc
  continue-deliver cfg s₀ (err x, s) k {e} h = k

  -- On a consistent cache, a request that fails, for whatever reason, enqueues nothing and counts
  -- no success; the request is counted, and the cache stays consistent.
  pub handle-untouched :
      (cfg : PublishConfig) (req : Request) (s : Service W) {e : HandleError E X}
      → IsConsistent s.cache
      → (handle remote registry cfg req s).0 ≡ err e
      → Kept (begun s) (handle remote registry cfg req s).1
  unfolding handle
  handle-untouched cfg req s {e} h =
      continue-deliver cfg (begun s) (prepare remote registry req s) (prepare-Kept req s h) {e = e}
