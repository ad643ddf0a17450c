-- ===== src/Cache/Consistent.antt =====
-- UpsertMany and UpsertChannelMapping keep the cache consistent, and what a lookup finds after
-- UpsertMany.
use device_handler.Prelude.{
  ℕ, suc, ◌≤◌, ◌≡◌, ◌≢◌, refl, sym, ◌∙◌, inl, inr, Option, none, some, List, [], ◌∷◌, ◌++◌, arith,
  All, length, Bool-cases,
}
use device_handler.Time.{Time}
use device_handler.Text.{Text, Unicode, equal}
use device_handler.Text.Normal.{equal_iff}
use device_handler.Dict
use device_handler.Dict.{
  Dict, IsKeyed, insert-IsKeyed, lookup-insert, lookup-insert_self, lookup-IsKeyed,
}
use device_handler.Cache.{
  DeviceRecord, DeviceCache, ChannelMapping, stamp, key, record_key, upsert, upsert_many, lookup,
  upsert_found, upsert_channel_mapping,
}

-- No record of the list is newer than `t`.
abbrev pub NoneAfter : Time → List DeviceRecord → Type 0
NoneAfter t rs = All (λ r. r.updated_at ≤ t) rs

NoneAfter-mono : (s t : Time) (rs : List DeviceRecord) → s ≤ t → NoneAfter s rs → NoneAfter t rs
NoneAfter-mono s t [] h a = tt
NoneAfter-mono s t (r ∷ rs) h a = (omega arith, NoneAfter-mono s t rs h a.1)

NoneAfter-insert :
    (t : Time) (k : Text) (r : DeviceRecord) (m : Dict DeviceRecord)
    → r.updated_at ≤ t
    → NoneAfter t (Dict.values m)
    → NoneAfter t (Dict.values (Dict.insert k r m))
unfolding Dict.insert
NoneAfter-insert t k r [] h a = (h, tt)
NoneAfter-insert t k r ((j, w) ∷ m) h a = elim (Bool-cases (equal j k)) [
  | inl e ↦ rw e (h, a.1)
  | inr e ↦ rw e (a.0, NoneAfter-insert t k r m h a.1)
]

NoneAfter-lookup :
    (t : Time) (k : Text) (m : Dict DeviceRecord) (r : DeviceRecord)
    → NoneAfter t (Dict.values m)
    → Dict.lookup k m ≡ some r
    → r.updated_at ≤ t
unfolding Dict.lookup
NoneAfter-lookup t k [] r a e = cc
NoneAfter-lookup t k ((j, w) ∷ m) r a e = ground (arith, NoneAfter-lookup t k m r a.1)

module _ ⦃u : Unicode⦄ where
  -- Each entry stands once, under the key of its record, and no record is newer than the cache.
  pub record IsConsistent (c : DeviceCache) : Type 0 where
    pub keyed : IsKeyed record_key c.by_key
    pub newest : NoneAfter c.updated_at (Dict.values c.by_key)

  pub record_key-stamp : (t : Time) (r : DeviceRecord) → record_key (stamp t r) ≡ record_key r
  unfolding stamp
  record_key-stamp t r = ground arith

  upsert-IsConsistent :
      (r : DeviceRecord) (c : DeviceCache) → IsConsistent c → IsConsistent (upsert r c)
  unfolding upsert
  upsert-IsConsistent r c h = record {
    keyed = insert-IsKeyed record_key (record_key r) r c.by_key refl h.keyed;
    newest =
        NoneAfter-insert _ (record_key r) r c.by_key (ground arith)
          (NoneAfter-mono c.updated_at _ (Dict.values c.by_key) (ground arith) h.newest);
  }

  -- UpsertMany keeps a consistent cache consistent: each entry stands once, under the key of its
  -- record, and no record is newer than the cache.
  pub upsert_many-IsConsistent :
      (clock : ℕ → Time) (rs : List DeviceRecord) (c : DeviceCache)
      → IsConsistent c
      → IsConsistent (upsert_many clock rs c)
  unfolding upsert_many
  upsert_many-IsConsistent clock [] c h = h
  upsert_many-IsConsistent clock (r ∷ rs) c h =
      upsert_many-IsConsistent (λ i. clock (suc i)) rs _
        (upsert-IsConsistent (stamp (clock 0) r) c h)

  upsert_found-IsConsistent :
      (k : Text) (mapping : ChannelMapping) (c : DeviceCache) (o : Option DeviceRecord)
      → Dict.lookup k c.by_key ≡ o
      → IsConsistent c
      → IsConsistent (upsert_found k mapping c o).0
  unfolding upsert_found
  upsert_found-IsConsistent k mapping c none e h = h
  upsert_found-IsConsistent k mapping c (some r) e h = record {
    keyed =
        insert-IsKeyed record_key k _ c.by_key
          (sym (lookup-IsKeyed record_key k c.by_key {v = r} h.keyed e)) h.keyed;
    newest =
        NoneAfter-insert c.updated_at k _ c.by_key
          (NoneAfter-lookup c.updated_at k c.by_key r h.newest e) h.newest;
  }

  pub upsert_channel_mapping-IsConsistent :
      (m mo s : Text) (mapping : ChannelMapping) (c : DeviceCache)
      → IsConsistent c
      → IsConsistent (upsert_channel_mapping m mo s mapping c).0
  unfolding upsert_channel_mapping
  upsert_channel_mapping-IsConsistent m mo s mapping c h =
      upsert_found-IsConsistent (key m mo s) mapping c _ refl h

  -- UpsertMany never takes the cache's time back.
  pub updated_at-upsert_many :
      (clock : ℕ → Time) (rs : List DeviceRecord) (c : DeviceCache)
      → c.updated_at ≤ (upsert_many clock rs c).updated_at
  unfolding upsert_many upsert
  updated_at-upsert_many clock [] c = omega arith
  updated_at-upsert_many clock (r ∷ rs) c =
      ground (arith, updated_at-upsert_many (λ i. clock (suc i)) rs (upsert (stamp (clock 0) r) c))

  -- No record of the list has the key.
  abbrev pub Absent : Text → List DeviceRecord → Type 0
  Absent k rs = All (λ r. record_key r ≢ k) rs

  pub lookup-upsert_many-Absent :
      (clock : ℕ → Time) (rs : List DeviceRecord) (c : DeviceCache) (k : Text)
      → Absent k rs
      → Dict.lookup k (upsert_many clock rs c).by_key ≡ Dict.lookup k c.by_key
  unfolding upsert_many upsert
  lookup-upsert_many-Absent clock [] c k a = refl
  lookup-upsert_many-Absent clock (r ∷ rs) c k a = ground (
    arith,
    lookup-upsert_many-Absent (λ i. clock (suc i)) rs (upsert (stamp (clock 0) r) c) k a.1,
    lookup-insert (record_key (stamp (clock 0) r)) k (stamp (clock 0) r) c.by_key,
    equal_iff (record_key (stamp (clock 0) r)) k,
    record_key-stamp (clock 0) r,
  )

  -- After UpsertMany a lookup of a device that the list holds finds the last record of the list
  -- under its key, its missing time replaced by the reading of the clock made for it.
  pub lookup-upsert_many :
      (clock : ℕ → Time) (rs ss : List DeviceRecord) (r : DeviceRecord) (c : DeviceCache)
      → Absent (record_key r) ss
      → lookup (upsert_many clock (rs ++ (r ∷ ss)) c) r.manufacturer r.model r.serial
        ≡ some (stamp (clock (length rs)) r)
  unfolding lookup upsert_many upsert
  lookup-upsert_many clock [] ss r c a =
      lookup-upsert_many-Absent (λ i. clock (suc i)) ss (upsert (stamp (clock 0) r) c)
        (record_key r) a
      ∙ rw (record_key-stamp (clock 0) r)
          (lookup-insert_self (record_key r) (stamp (clock 0) r) c.by_key)
  lookup-upsert_many clock (q ∷ rs) ss r c a =
      lookup-upsert_many (λ i. clock (suc i)) rs ss r (upsert (stamp (clock 0) q) c) a

  -- The record that a lookup finds has the key that was looked up.
  pub record_key-lookup :
      (c : DeviceCache) (m mo s : Text) {r : DeviceRecord}
      → IsConsistent c
      → lookup c m mo s ≡ some r
      → record_key r ≡ key m mo s
  unfolding lookup
  record_key-lookup c m mo s {r} h e =
      lookup-IsKeyed record_key (key m mo s) c.by_key {v = r} h.keyed e
