-- ===== src/Cache/Cells.antt =====
-- The cache of internal/cache/device_cache.go under its two writers, UpsertMany and
-- UpsertChannelMapping, in any order: each is one section under the mutex, so that whatever the
-- goroutines of the service and of the syncer do is a list of such writes.
use device_handler.Prelude.{
  ℕ, suc, ◌≤◌, ◌≡◌, refl, ap, ◌∙◌, subst, inl, inr, arith, Bool-cases, Option, none, some, List, [],
  ◌∷◌, if◌then◌else◌,
}
use device_handler.Time.{Time}
use device_handler.Text.{Text, Unicode, equal}
use device_handler.Text.Normal.{equal_iff}
use device_handler.Dict
use device_handler.Dict.{lookup-insert}
use device_handler.Cache.{
  ChannelMapping, DeviceRecord, DeviceCache, stamp, key, record_key, upsert, upsert_many, lookup,
  put_mapping, upsert_found, upsert_channel_mapping,
}
use device_handler.Cache.Consistent.{
  IsConsistent, record_key-stamp, upsert_many-IsConsistent, upsert_channel_mapping-IsConsistent,
  updated_at-upsert_many,
}

pub data Write : Type 0 where
  upserted : (clock : ℕ → Time) (records : List DeviceRecord) → Write
  mapped : (manufacturer model serial : Text) (mapping : ChannelMapping) → Write

-- What the cache promises of one key: a cell with a record, or none.
abbrev pub Cell : Type 0
Cell = Option DeviceRecord

abbrev pub with_mapping : ⦃u : Unicode⦄ → ChannelMapping → Cell → Cell
with_mapping mapping none = none
with_mapping mapping (some r) =
    some (record r { channel_mappings = put_mapping mapping r.channel_mappings })

module _ ⦃u : Unicode⦄ where
  abbrev pub write : Write → DeviceCache → DeviceCache
  write (upserted clock rs) c = upsert_many clock rs c
  write (mapped manufacturer model serial mapping) c =
      (upsert_channel_mapping manufacturer model serial mapping c).0

  unfoldable pub writes : List Write → DeviceCache → DeviceCache
  unfolding upsert_many upsert_channel_mapping
  writes [] c = c
  writes (x ∷ xs) c = writes xs (write x c)

  -- The same on the cell of a key.
  unfoldable pub put_records : Text → (ℕ → Time) → List DeviceRecord → Cell → Cell
  unfolding stamp
  put_records k clock [] o = o
  put_records k clock (r ∷ rs) o =
      put_records k (λ i. clock (suc i)) rs
        (if equal (record_key r) k then some (stamp (clock 0) r) else o)

  abbrev pub put : Text → Write → Cell → Cell
  put k (upserted clock rs) o = put_records k clock rs o
  put k (mapped manufacturer model serial mapping) o =
      if equal (key manufacturer model serial) k then with_mapping mapping o else o

  unfoldable pub puts : Text → List Write → Cell → Cell
  unfolding put_records
  puts k [] o = o
  puts k (x ∷ xs) o = puts k xs (put k x o)

  lookup-upsert_records :
      (clock : ℕ → Time) (rs : List DeviceRecord) (c : DeviceCache) (k : Text)
      → Dict.lookup k (upsert_many clock rs c).by_key
        ≡ put_records k clock rs (Dict.lookup k c.by_key)
  unfolding upsert_many upsert put_records
  lookup-upsert_records clock [] c k = refl
  lookup-upsert_records clock (r ∷ rs) c k =
      lookup-upsert_records (λ i. clock (suc i)) rs (upsert (stamp (clock 0) r) c) k
      ∙ ap (put_records k (λ i. clock (suc i)) rs) (
          lookup-insert (record_key (stamp (clock 0) r)) k (stamp (clock 0) r) c.by_key
          ∙ ap (λ j. if equal j k then some (stamp (clock 0) r) else Dict.lookup k c.by_key)
              (record_key-stamp (clock 0) r))

  lookup-upsert_found :
      (j k : Text) (mapping : ChannelMapping) (c : DeviceCache) (o : Cell)
      → Dict.lookup j c.by_key ≡ o
      → Dict.lookup k (upsert_found j mapping c o).0.by_key ≡ (
          if equal j k
          then with_mapping mapping (Dict.lookup k c.by_key)
          else Dict.lookup k c.by_key)
  unfolding upsert_found
  lookup-upsert_found j k mapping c none e = elim (Bool-cases (equal j k)) [
    | inl same ↦
        let h : Dict.lookup k c.by_key ≡ none =
          subst (λ i. Dict.lookup i c.by_key ≡ none) ((equal_iff j k).0 same) e in
        rw same (rw h refl)
    | inr other ↦ rw other refl
  ]
  lookup-upsert_found j k mapping c (some r) e = elim (Bool-cases (equal j k)) [
    | inl same ↦
        let h : Dict.lookup k c.by_key ≡ some r =
          subst (λ i. Dict.lookup i c.by_key ≡ some r) ((equal_iff j k).0 same) e in
        lookup-insert j k _ c.by_key ∙ rw (same, h) refl
    | inr other ↦ lookup-insert j k _ c.by_key ∙ rw other refl
  ]

  lookup-write :
      (x : Write) (c : DeviceCache) (k : Text)
      → Dict.lookup k (write x c).by_key ≡ put k x (Dict.lookup k c.by_key)
  lookup-write (upserted clock rs) c k = lookup-upsert_records clock rs c k
  lookup-write (mapped manufacturer model serial mapping) c k =
      unfold upsert_channel_mapping in
      lookup-upsert_found (key manufacturer model serial) k mapping c _ refl

  lookup-writes_at :
      (xs : List Write) (c : DeviceCache) (k : Text)
      → Dict.lookup k (writes xs c).by_key ≡ puts k xs (Dict.lookup k c.by_key)
  unfolding writes puts
  lookup-writes_at [] c k = refl
  lookup-writes_at (x ∷ xs) c k =
      lookup-writes_at xs (write x c) k ∙ ap (puts k xs) (lookup-write x c k)

  -- After any writes, in whatever order the goroutines made them, a lookup finds what its cell
  -- holds: under each key the cache is a cell of its own, in which UpsertMany puts the records with
  -- that key, and UpsertChannelMapping replaces or adds the mapping if it is for that key and there
  -- is a record.
  pub lookup-writes :
      (xs : List Write) (c : DeviceCache) (manufacturer model serial : Text)
      → lookup (writes xs c) manufacturer model serial
        ≡ puts (key manufacturer model serial) xs (lookup c manufacturer model serial)
  unfolding lookup
  lookup-writes xs c manufacturer model serial =
      lookup-writes_at xs c (key manufacturer model serial)

  updated_at-upsert_found :
      (k : Text) (mapping : ChannelMapping) (c : DeviceCache) (o : Cell)
      → (upsert_found k mapping c o).0.updated_at ≡ c.updated_at
  unfolding upsert_found
  updated_at-upsert_found k mapping c none = refl
  updated_at-upsert_found k mapping c (some r) = refl

  updated_at-write : (x : Write) (c : DeviceCache) → c.updated_at ≤ (write x c).updated_at
  unfolding upsert_channel_mapping
  updated_at-write (upserted clock rs) c = updated_at-upsert_many clock rs c
  updated_at-write (mapped manufacturer model serial mapping) c = omega (
    arith,
    updated_at-upsert_found (key manufacturer model serial) mapping c
        (Dict.lookup (key manufacturer model serial) c.by_key),
  )

  write-IsConsistent : (x : Write) (c : DeviceCache) → IsConsistent c → IsConsistent (write x c)
  write-IsConsistent (upserted clock rs) c h = upsert_many-IsConsistent clock rs c h
  write-IsConsistent (mapped manufacturer model serial mapping) c h =
      upsert_channel_mapping-IsConsistent manufacturer model serial mapping c h

  -- Any writes, in whatever order the goroutines made them, keep a consistent cache consistent:
  -- each entry stands once, under the key of its record, and no record is newer than the cache; and
  -- the time of the cache never goes back.
  pub writes-IsConsistent :
      (xs : List Write) (c : DeviceCache)
      → IsConsistent c
      → IsConsistent (writes xs c) × (c.updated_at ≤ (writes xs c).updated_at)
  unfolding writes
  writes-IsConsistent [] c h = (h, omega arith)
  writes-IsConsistent (x ∷ xs) c h =
      let (consistent, later) = writes-IsConsistent xs (write x c) (write-IsConsistent x c h) in
      (consistent, omega (arith, later, updated_at-write x c))
