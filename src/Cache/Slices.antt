-- ===== src/Cache/Slices.antt =====
-- UpsertChannelMapping of internal/cache/device_cache.go on the slice of the mappings: the records
-- that Lookup has returned share the array behind the slice with the cache, and the loop writes
-- into it. Cache.antt has the value of the slice only.
pub mod Aliases
use device_handler.Prelude.{
  ℕ, zero, suc, ◌+◌, ◌≤◌, ◌<◌, ◌≡◌, ◌≢◌, refl, sym, ap, ◌∙◌, subst, inl, inr, arith, Bool, true,
  false, Bool-cases, Option, none, some, List, [], ◌∷◌, ◌++◌, length, take, ltb, ◌==◌,
  if◌then◌else◌,
}
use device_handler.Text.{Text, Unicode, equal}
use device_handler.Text.Normal.{equal_iff}
use device_handler.Cache.{ChannelMapping, same_tag, normalize_channel_tag, put_mapping, resolve_in}

-- The arrays by their addresses; a list has a slot for each unit of capacity.
abbrev pub Heap : Type 0
Heap = ℕ → List ChannelMapping

pub record Slice : Type 0 where
  pub array : ℕ
  pub len : ℕ

abbrev pub read : Heap → Slice → List ChannelMapping
read h s = take s.len (h s.array)

abbrev pub store : ℕ → List ChannelMapping → Heap → Heap
store a xs h b = if b == a then xs else h b

abbrev pub write_at : ℕ → ChannelMapping → List ChannelMapping → List ChannelMapping
write_at n m [] = []
write_at zero m (x ∷ xs) = m ∷ xs
write_at (suc n) m (x ∷ xs) = x ∷ write_at n m xs

abbrev behind : ChannelMapping → Option (List ChannelMapping) → Option (List ChannelMapping)
behind x none = none
behind x (some xs) = some (x ∷ xs)

module _ ⦃u : Unicode⦄ where
  -- The loop over the first slots; none if no tag is the same.
  unfoldable pub replace : ℕ → ChannelMapping → List ChannelMapping → Option (List ChannelMapping)
  unfolding same_tag
  replace zero m xs = none
  replace (suc n) m [] = none
  replace (suc n) m (x ∷ xs) =
      let rest = replace n m xs in if same_tag x.tag m.tag then some (m ∷ xs) else behind x rest

  -- append: into the next slot, or into a new array at `fresh` with `spare` slots behind.
  abbrev pub append : ℕ → List ChannelMapping → ChannelMapping → Heap → Slice → Heap × Slice
  append fresh spare m h s =
      if ltb s.len (length (h s.array))
      then (
        store s.array (write_at s.len m (h s.array)) h,
        record { array = s.array; len = suc s.len },
      )
      else (store fresh (read h s ++ (m ∷ spare)) h, record { array = fresh; len = suc s.len })

  abbrev pub replaced :
      ℕ
      → List ChannelMapping
      → ChannelMapping
      → Heap
      → Slice
      → Option (List ChannelMapping)
      → Heap × Slice
  replaced fresh spare m h s (some xs) = (store s.array xs h, s)
  replaced fresh spare m h s none = append fresh spare m h s

  -- What UpsertChannelMapping does to the slice of the record that it found.
  unfoldable pub upsert_slice :
      ℕ → List ChannelMapping → ChannelMapping → Heap → Slice → Heap × Slice
  unfolding replace
  upsert_slice fresh spare m h s = replaced fresh spare m h s (replace s.len m (h s.array))
