-- ===== src/Ingest/Ensured.antt =====
-- What ensureChannels guarantees: it finds the device in the cache again whenever it has created a
-- channel, and afterwards the name of every measurement resolves.
use device_handler.Prelude.{
  ℕ, ◌≡◌, refl, sym, ◌∙◌, true, false, Option, none, some, List, [], ◌∷◌, Result, ok, err,
  if◌then◌else◌, All, Bool-cases, inl, inr,
}
use device_handler.Text.{Text, Unicode, equal, trim_space}
use device_handler.Text.Normal.{equal_refl, trim_space_idem}
use device_handler.Dict
use device_handler.Cache
use device_handler.Cache.{
  DeviceCache, DeviceRecord, ChannelMapping, key, same_tag, normalize_channel_tag,
  resolve_channel_id_by_tag, upsert_channel_mapping,
}
use device_handler.Cache.Consistent.{IsConsistent, upsert_channel_mapping-IsConsistent}
use device_handler.Cache.Channels.{upsert_channel_mapping_lem}
use device_handler.Action.Outcome.{Outcome, continue-Outcome, weaken}
use device_handler.Device.{ChannelMeasurement}
use device_handler.Device.Build.{Resolves}
use device_handler.Ingest.State.{Remote, Service, CreateChannelRequest}
use device_handler.Ingest.Channels.{
  stored, created, create_channel, ensure_channel, ensure_channels, normalize_unit,
}
use device_handler.Ingest.Same.{SameDevice, SameDevice-refl, SameDevice-trans, SameDevice-of_eq}
use device_handler.Ingest.Kept.{Kept, keep, Fails, IsForeign}

-- The name of the measurement is more than white space.
abbrev pub HasName : ChannelMeasurement → Type 0
HasName m = equal (trim_space m.name) [] ≡ false

module _ ⦃u : Unicode⦄ where
  -- The cache holds exactly this record for the manufacturer and model of the record and the serial
  -- of the upload.
  abbrev pub HeldAs : Text → DeviceRecord → DeviceCache → Type 0
  HeldAs t r c = Cache.lookup c r.manufacturer r.model t ≡ some r

  -- What resolves by one record resolves by the other.
  abbrev pub Grows : DeviceRecord → DeviceRecord → Type 0
  Grows r r' = (m : ChannelMeasurement) → Resolves r m → Resolves r' m

  same_tag-trim_space : (s t : Text) → same_tag s (trim_space t) ≡ same_tag s t
  unfolding same_tag normalize_channel_tag
  same_tag-trim_space s t = rw trim_space_idem

  -- The effect of a new mapping on the resolution of tags.
  abbrev Extends : ChannelMapping → DeviceRecord → DeviceRecord → Type 0
  Extends mapping r r' =
      (x : Text)
      → resolve_channel_id_by_tag r' x ≡ (
          if same_tag mapping.tag x then some mapping.channel_id else resolve_channel_id_by_tag r x)

  Extends-Grows :
      (mapping : ChannelMapping) (r r' : DeviceRecord) → Extends mapping r r' → Grows r r'
  Extends-Grows mapping r r' h m (id, e) = elim (Bool-cases (same_tag mapping.tag m.name)) [
    | inl y ↦ (mapping.channel_id, h m.name ∙ rw y refl)
    | inr n ↦ (id, h m.name ∙ rw n e)
  ]

  Extends-Resolves :
      (mapping : ChannelMapping) (r r' : DeviceRecord) (m : ChannelMeasurement)
      → Extends mapping r r'
      → same_tag mapping.tag (trim_space m.name) ≡ true
      → Resolves r' m
  Extends-Resolves mapping r r' m h e =
      (mapping.channel_id, h m.name ∙ rw (sym (same_tag-trim_space mapping.tag m.name) ∙ e) refl)

  HeldAs-upsert :
      (t : Text) (r r' : DeviceRecord) (c : DeviceCache)
      → SameDevice r r'
      → Dict.lookup (key r.manufacturer r.model t) c.by_key ≡ some r'
      → HeldAs t r' c
  unfolding Cache.lookup
  HeldAs-upsert t r r' c same e = simp (same.manufacturer, same.model) e

-- The REST API names a channel as it was asked to, up to case and outer white space.
pub record Echoes ⦃u : Unicode⦄ {W X : Type 0} (remote : Remote W X) : Type 0 where
  pub echo :
      (d : ℕ) (q : CreateChannelRequest) (w w' : W) (m : ChannelMapping)
      → remote.create_deployment_channel d q w ≡ (ok m, w')
      → same_tag m.tag q.tag ≡ true

module _ ⦃u : Unicode⦄ {W X : Type 0} (E : Type 0) (remote : Remote W X) (s₀ : Service W) where
  -- What the loop of ensureChannels keeps of the record `r` that it began with.
  pub record Ensured (t : Text) (r r' : DeviceRecord) (s : Service W) : Type 0 where
    pub kept : Kept s₀ s
    pub held : HeldAs t r' s.cache
    pub same : SameDevice r r'
    pub grows : Grows r r'

  -- ... and what one round adds.
  abbrev EnsuredFor : Text → DeviceRecord → ChannelMeasurement → DeviceRecord → Service W → Type 0
  EnsuredFor t r m r' s = Ensured t r r' s × (Echoes remote → HasName m → Resolves r' m)

  stored-Outcome :
      (t : Text) (p : DeviceCache × Option DeviceRecord) (s : Service W) (r' : DeviceRecord)
      (Q : DeviceRecord → Service W → Type 0)
      → p.1 ≡ some r'
      → Q r' (record s { cache = p.0 })
      → Outcome Q (Fails {E = E} {X = X} s₀) (stored t p s)
  stored-Outcome t (c, none) s r' Q e h = cc
  stored-Outcome t (c, some q) s r' Q e h = rw (q_eq) h
    where
      q_eq : q ≡ r'
      q_eq = cc

  created-Ensured :
      (t : Text) (r : DeviceRecord) (m : ChannelMeasurement) (s : Service W)
      (p : Result X ChannelMapping × W)
      → remote.create_deployment_channel r.deployment_id
          (record {
            tag = trim_space m.name;
            name = trim_space m.name;
            unit = normalize_unit m.unit;
          })
          s.world
        ≡ p
      → Kept s₀ s
      → HeldAs t r s.cache
      → Outcome (EnsuredFor t r m) (Fails {E = E} {X = X} s₀) (created t r (trim_space m.name) p s)
  created-Ensured t r m s (err x, w) e k h = (keep s₀ s _ k refl refl refl refl refl, tt)
  created-Ensured t r m s (ok mapping, w) e k h =
      let (r', found, resolves, other, same) =
        upsert_channel_mapping_lem r.manufacturer r.model t mapping s.cache r h in
      stored-Outcome t _ _ r' (EnsuredFor t r m) found (
        record {
          kept = record {
            consistent =
                upsert_channel_mapping-IsConsistent r.manufacturer r.model t mapping s.cache
                  k.consistent;
            buffer = k.buffer;
            flushing = k.flushing;
            requests = k.requests;
            successes = k.successes;
          };
          held =
              HeldAs-upsert t r r' _ (SameDevice-of_eq r r' same)
                (other (key r.manufacturer r.model t) ∙ rw equal_refl refl);
          same = SameDevice-of_eq r r' same;
          grows = Extends-Grows mapping r r' resolves;
        },
        λ ec nn. Extends-Resolves mapping r r' m resolves (ec.echo _ _ _ _ mapping e),
      )

  ensure_channel-Ensured :
      (t : Text) (r : DeviceRecord) (m : ChannelMeasurement) (o : Option ℕ) (s : Service W)
      → resolve_channel_id_by_tag r m.name ≡ o
      → Kept s₀ s
      → HeldAs t r s.cache
      → Outcome (EnsuredFor t r m) (Fails {E = E} {X = X} s₀) (ensure_channel remote t r m o s)
  unfolding ensure_channel
  ensure_channel-Ensured t r m (some id) s e k h =
      (record { kept = k; held = h; same = SameDevice-refl r; grows = λ x y. y }, λ ec nn. (id, e))
  ensure_channel-Ensured t r m none s e k h = elim (Bool-cases (equal (trim_space m.name) [])) [
    | inl blank ↦
        rw blank
          (record { kept = k; held = h; same = SameDevice-refl r; grows = λ x y. y }, λ ec nn. cc)
    | inr named ↦ rw named (unfold create_channel in created-Ensured t r m s _ refl k h)
  ]

  -- What the loop has done for the measurements behind it.
  abbrev pub EnsuredAll :
      Text → DeviceRecord → List ChannelMeasurement → DeviceRecord → Service W → Type 0
  EnsuredAll t r ms r' s =
      Ensured t r r' s × (Echoes remote → All HasName ms → All (Resolves r') ms)

  Ensured-trans :
      {t : Text} {a b c : DeviceRecord} {s s' : Service W}
      → Ensured t a b s
      → Ensured t b c s'
      → Ensured t a c s'
  Ensured-trans p q = record {
    kept = q.kept;
    held = q.held;
    same = SameDevice-trans p.same q.same;
    grows = λ m h. q.grows m (p.grows m h);
  }

  -- ensureChannels fails only if the REST API does. Else it returns the cached record of the same
  -- device, by which all that resolved before still resolves, and the name of each measurement.
  pub ensure_channels-Ensured :
      (t : Text) (r : DeviceRecord) (ms : List ChannelMeasurement) (s : Service W)
      → Kept s₀ s
      → HeldAs t r s.cache
      → Outcome (EnsuredAll t r ms) (Fails {E = E} {X = X} s₀) (ensure_channels remote t r ms s)
  unfolding ensure_channels
  ensure_channels-Ensured t r [] s k h =
      (record { kept = k; held = h; same = SameDevice-refl r; grows = λ x y. y }, λ ec nn. tt)
  ensure_channels-Ensured t r (m ∷ ms) s k h =
      continue-Outcome _ (ensure_channel remote t r m (resolve_channel_id_by_tag r m.name) s)
        (EnsuredFor t r m) (EnsuredAll t r (m ∷ ms)) (Fails s₀)
        (ensure_channel-Ensured t r m _ s refl k h)
        λ r' s' (one, named).
          weaken (ensure_channels remote t r' ms s') (EnsuredAll t r' ms) _ (Fails s₀) (Fails s₀)
            (ensure_channels-Ensured t r' ms s' one.kept one.held)
            (λ r'' s'' (rest, all).
              (Ensured-trans one rest, λ ec nn. (rest.grows m (named ec nn.0), all ec nn.1)))
            (λ e s'' x. x)

module _ ⦃u : Unicode⦄ {W X : Type 0} (E : Type 0) (remote : Remote W X) where
  -- The record that ensureChannels returns, and the cache that it leaves.
  abbrev pub Complete :
      Text → DeviceRecord → List ChannelMeasurement → DeviceRecord → Service W → Type 0
  Complete t r ms r' s = SameDevice r r' × HeldAs t r' s.cache × All (Resolves r') ms

  -- If the REST API names channels as it is asked to, every measurement has a name, and a
  -- consistent cache holds the record, then ensureChannels either returns the cached record of the
  -- same device, by which all measurements resolve, or fails because the REST API does.
  pub ensure_channels-Complete :
      (t : Text) (r : DeviceRecord) (ms : List ChannelMeasurement) (s : Service W)
      → Echoes remote
      → All HasName ms
      → IsConsistent s.cache
      → HeldAs t r s.cache
      → Outcome (Complete t r ms) (λ e s'. IsForeign e) (ensure_channels {E = E} remote t r ms s)
  ensure_channels-Complete t r ms s ec nn c h =
      weaken (ensure_channels remote t r ms s) (EnsuredAll E remote s t r ms) _ (Fails s) _
        (ensure_channels-Ensured E remote s t r ms s
          (record {
            consistent = c;
            buffer = refl;
            flushing = refl;
            requests = refl;
            successes = refl;
          })
          h)
        (λ r' s' q. (q.0.same, q.0.held, q.1 ec nn)) (λ e s' f. f.1)
