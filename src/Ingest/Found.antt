-- ===== src/Ingest/Found.antt =====
-- The device that Handle finds belongs to the request, and is in the cache under its own key.
use device_handler.Prelude.{
  ◌≡◌, refl, sym, ◌∙◌, ◌⊎◌, inl, inr, Bool, true, false, Option, none, some, List, [], ◌∷◌, arith,
  All, Bool-cases,
}
use device_handler.Text.{Text, Unicode, trim_space, to_lower}
use device_handler.Text.Normal.{equal_iff}
use device_handler.Dict
use device_handler.Dict.{Dict, IsKeyed}
use device_handler.Cache
use device_handler.Cache.{
  DeviceCache, DeviceRecord, key, record_key, select, matches_owner,
  find_by_manufacturer_and_serial, upsert_many,
}
use device_handler.Cache.Key.{has_bar, key-same_serial}
use device_handler.Cache.Consistent.{IsConsistent, record_key-lookup}
use device_handler.Ingest.Lookup.{
  only, lookup_by_manufacturer_and_serial_fallback, or_fallback, search_cache,
}

All-map {ℓ κ ν} :
    {A : Type ℓ} {P : A → Type κ} {Q : A → Type ν} (xs : List A)
    → ((a : A) → P a → Q a)
    → All P xs
    → All Q xs
All-map [] f h = tt
All-map (x ∷ xs) f h = (f x h.0, All-map xs f h.1)

-- The record passes the test, and the map holds it under its name.
abbrev Passes :
    (DeviceRecord → Text) → (DeviceRecord → Bool) → Dict DeviceRecord → DeviceRecord → Type 0
Passes name p m r = (p r ≡ true) × (Dict.lookup (name r) m ≡ some r)

Passes-cons :
    (name : DeviceRecord → Text) (p : DeviceRecord → Bool) (j : Text) (v : DeviceRecord)
    (m : Dict DeviceRecord) (r : DeviceRecord)
    → Dict.lookup j m ≡ none
    → Passes name p m r
    → Passes name p ((j, v) ∷ m) r
unfolding Dict.lookup
Passes-cons name p j v m r fresh h = (h.0, ground (arith, equal_iff j (name r)))

Passes-head :
    (name : DeviceRecord → Text) (p : DeviceRecord → Bool) (j : Text) (v : DeviceRecord)
    (m : Dict DeviceRecord)
    → j ≡ name v
    → p v ≡ true
    → Passes name p ((j, v) ∷ m) v
unfolding Dict.lookup
Passes-head name p j v m e h = (h, ground (arith, equal_iff j (name v)))

select-Passes :
    (name : DeviceRecord → Text) (p : DeviceRecord → Bool) (m : Dict DeviceRecord)
    → IsKeyed name m
    → All (Passes name p m) (select p (Dict.values m))
unfolding select
select-Passes name p [] h = tt
select-Passes name p ((j, v) ∷ m) (e, fresh, h) =
    let rest =
      All-map (select p (Dict.values m)) (λ r. Passes-cons name p j v m r fresh)
        (select-Passes name p m h) in
    elim (Bool-cases (p v)) [
      | inl t ↦ rw t (Passes-head name p j v m e t, rest)
      | inr f ↦ rw f rest
    ]

only-All :
    (P : DeviceRecord → Type 0) (rs : List DeviceRecord) (r : DeviceRecord)
    → All P rs
    → only rs ≡ some r
    → P r
only-All P [] r h e = cc
only-All P (q ∷ []) r h e = rw (q_eq) at h.0
  where
    q_eq : q ≡ r
    q_eq = cc
only-All P (q ∷ p ∷ rs) r h e = cc

module _ ⦃u : Unicode⦄ where
  -- The record has the key of the request, or its manufacturer and serial.
  abbrev pub Belongs : Text → Text → Text → DeviceRecord → Type 0
  Belongs m mo s r = (record_key r ≡ key m mo s) ⊎ (matches_owner m s r ≡ true)

  -- The cache holds exactly this record under its key.
  abbrev pub Holds : DeviceCache → DeviceRecord → Type 0
  Holds c r = Dict.lookup (record_key r) c.by_key ≡ some r

  pub lookup-Belongs :
      (c : DeviceCache) (m mo s : Text) (r : DeviceRecord)
      → IsConsistent c
      → Cache.lookup c m mo s ≡ some r
      → Belongs m mo s r × Holds c r
  lookup-Belongs c m mo s r h e =
      let k = record_key-lookup c m mo s {r = r} h e in (inl k, rw k (unfold Cache.lookup in e))

  pub fallback-Belongs :
      (c : DeviceCache) (m mo s : Text) (r : DeviceRecord)
      → IsConsistent c
      → lookup_by_manufacturer_and_serial_fallback c m s ≡ some r
      → Belongs m mo s r × Holds c r
  unfolding lookup_by_manufacturer_and_serial_fallback find_by_manufacturer_and_serial
  fallback-Belongs c m mo s r h e =
      let p =
        only-All (Passes record_key (matches_owner m s) c.by_key) _ r
          (select-Passes record_key (matches_owner m s) c.by_key h.keyed) e in
      (inr p.0, p.1)

  or_fallback-Belongs :
      (c : DeviceCache) (m mo s : Text) (o : Option DeviceRecord) (r : DeviceRecord)
      → Cache.lookup c m mo s ≡ o
      → IsConsistent c
      → or_fallback c m s o ≡ some r
      → Belongs m mo s r × Holds c r
  or_fallback-Belongs c m mo s none r l h e = fallback-Belongs c m mo s r h e
  or_fallback-Belongs c m mo s (some q) r l h e = lookup-Belongs c m mo s r h (l ∙ e)

  -- What a search of the cache finds belongs to the request, and the cache holds it.
  pub search_cache-Belongs :
      (c : DeviceCache) (m mo s : Text) (r : DeviceRecord)
      → IsConsistent c
      → search_cache c m mo s ≡ some r
      → Belongs m mo s r × Holds c r
  unfolding search_cache
  search_cache-Belongs c m mo s r h e = or_fallback-Belongs c m mo s _ r refl h e

  -- The parts of the request's key hold no '|'.
  pub record IsPlain (m mo s : Text) : Type 0 where
    pub manufacturer : has_bar (to_lower (trim_space m)) ≡ false
    pub model : has_bar (to_lower (trim_space mo)) ≡ false
    pub serial : has_bar s ≡ false

  matches_owner-serial :
      (m s : Text) (r : DeviceRecord)
      → matches_owner m s r ≡ true
      → trim_space r.serial ≡ trim_space s
  unfolding matches_owner
  matches_owner-serial m s r e = ground (arith, equal_iff (trim_space r.serial) (trim_space s))

  pub Belongs-serial :
      (m mo s : Text) (r : DeviceRecord)
      → IsPlain m mo s
      → Belongs m mo s r
      → trim_space r.serial ≡ trim_space s
  Belongs-serial m mo s r h (inl e) = sym (
      key-same_serial m mo s r.manufacturer r.model r.serial h.manufacturer h.model h.serial
        (sym e))
  Belongs-serial m mo s r h (inr e) = matches_owner-serial m s r e
