-- ===== src/Ingest/Served.antt =====
-- What Handle does for a request whose key holds no '|'.
use device_handler.Prelude.{◌≡◌, refl, sym, ◌∙◌, inl, inr, All}
use device_handler.Text.{Text, Unicode, trim_space}
use device_handler.Cache
use device_handler.Cache.{
  DeviceCache, DeviceRecord, key, record_key, matches_owner, resolve_channel_id_by_tag,
  upsert_channel_mapping,
}
use device_handler.Cache.Key.{key-replace_serial}
use device_handler.Action.Outcome.{Outcome, continue-Outcome, weaken}
use device_handler.Device.{Request, ParseResult}
use device_handler.Device.Build.{Resolves}
use device_handler.Device.Registry.{Registry}
use device_handler.Ingest.State.{Remote, Service}
use device_handler.Ingest.Lookup.{resolve_device}
use device_handler.Ingest.Channels.{ensure_channels}
use device_handler.Ingest.Handle.{identify}
use device_handler.Ingest.Found.{Belongs, Holds, IsPlain, Belongs-serial}
use device_handler.Ingest.Kept.{Kept, Fails, Found, resolve_device-Found}
use device_handler.Ingest.Same.{SameDevice}
use device_handler.Ingest.Ensured.{HasName, HeldAs, Echoes, EnsuredAll, ensure_channels-Ensured}

module _ ⦃u : Unicode⦄ where
  record_key-SameDevice : {r r' : DeviceRecord} → SameDevice r r' → record_key r' ≡ record_key r
  unfolding key
  record_key-SameDevice h = simp (h.manufacturer, h.model, h.serial)

  Belongs-SameDevice :
      {r r' : DeviceRecord} (m mo t : Text) → SameDevice r r' → Belongs m mo t r → Belongs m mo t r'
  Belongs-SameDevice m mo t h (inl e) = inl (record_key-SameDevice h ∙ e)
  Belongs-SameDevice m mo t h (inr e) =
      inr (unfold matches_owner in simp (h.manufacturer, h.serial) (unfold matches_owner in e))

  Holds-HeldAs :
      (t : Text) (r : DeviceRecord) (c : DeviceCache)
      → Holds c r
      → trim_space r.serial ≡ trim_space t
      → HeldAs t r c
  unfolding Cache.lookup
  Holds-HeldAs t r c h e = rw (sym (key-replace_serial r.manufacturer r.model r.serial t e)) h

module _ ⦃u : Unicode⦄ {W X : Type 0} (E : Type 0) (remote : Remote W X) (s₀ : Service W) where
  -- The record of the request's device, with the channels that the upload needs.
  pub record Identified (req : Request) (parsed : ParseResult) (r : DeviceRecord) (s : Service W)
      : Type 0 where
    pub kept : Kept s₀ s
    pub belongs : Belongs req.manufacturer req.model parsed.serial r
    pub held : HeldAs parsed.serial r s.cache
    pub resolved :
        Echoes remote
        → All HasName parsed.channel_measurements
        → All (Resolves r) parsed.channel_measurements

  pub identify-Identified :
      (registry : Registry E) (req : Request) (parsed : ParseResult) (s : Service W)
      → IsPlain req.manufacturer req.model parsed.serial
      → Kept s₀ s
      → Outcome (Identified req parsed) (Fails s₀) (identify remote registry req parsed s)
  unfolding identify
  identify-Identified registry req parsed s plain k =
      continue-Outcome _ (resolve_device remote req.manufacturer req.model parsed.serial _ s)
        (Found s₀ req.manufacturer req.model parsed.serial) (Identified req parsed) (Fails s₀)
        (resolve_device-Found E remote s₀ req.manufacturer req.model parsed.serial _ s refl k)
        λ r s' (k', b, holds).
          weaken (ensure_channels remote parsed.serial r parsed.channel_measurements s')
            (EnsuredAll E remote s₀ parsed.serial r parsed.channel_measurements) _ (Fails s₀)
            (Fails s₀)
            (ensure_channels-Ensured E remote s₀ parsed.serial r parsed.channel_measurements s' k' (
              Holds-HeldAs parsed.serial r s'.cache holds
                (Belongs-serial req.manufacturer req.model parsed.serial r plain b)))
            (λ r' s'' (en, all). record {
              kept = en.kept;
              belongs = Belongs-SameDevice req.manufacturer req.model parsed.serial en.same b;
              held = en.held;
              resolved = all;
            })
            (λ e s'' x. x)
