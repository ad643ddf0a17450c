-- ===== src/Cache/Slices/Aliases.antt =====
-- UpsertChannelMapping on a slice: its value is that of Cache.antt, and other slices of the same
-- array, in records that internal/cache/device_cache.go has returned, keep what they resolve.
use device_handler.Prelude.{
  ℕ, zero, suc, ◌≤◌, ◌<◌, ◌≡◌, ◌≢◌, refl, sym, ap, ◌∙◌, inl, inr, arith, true, false, Bool-cases,
  Option, none, some, List, [], ◌∷◌, ◌++◌, length, take, ltb, if◌then◌else◌,
}
use device_handler.Text.{Text, Unicode}
use device_handler.Text.Normal.{equal_iff}
use device_handler.Cache.{ChannelMapping, same_tag, normalize_channel_tag, put_mapping, resolve_in}
use device_handler.Cache.Slices.{
  Heap, Slice, read, store, write_at, behind, replace, append, replaced, upsert_slice,
}

module _ ⦃u : Unicode⦄ where
  -- Every tag but the one of `m` resolves as before, also in a shorter slice of the array.
  abbrev SameOthers : ChannelMapping → List ChannelMapping → List ChannelMapping → Type 0
  SameOthers m xs ys =
      (k : ℕ) (t : Text)
      → same_tag m.tag t ≡ false
      → resolve_in (take k ys) t ≡ resolve_in (take k xs) t

  -- The loop does what `put_mapping` does with the slice, up to the append.
  abbrev IsReplaced :
      ℕ → ChannelMapping → List ChannelMapping → Option (List ChannelMapping) → Type 0
  IsReplaced n m xs (some ys) = (take n ys ≡ put_mapping m (take n xs)) × SameOthers m xs ys
  IsReplaced n m xs none = put_mapping m (take n xs) ≡ take n xs ++ (m ∷ [])

  same_tag-other :
      (x m : ChannelMapping) (t : Text)
      → same_tag x.tag m.tag ≡ true
      → same_tag m.tag t ≡ false
      → same_tag x.tag t ≡ false
  unfolding same_tag
  same_tag-other x m t e h = ground (
    arith,
    equal_iff (normalize_channel_tag x.tag) (normalize_channel_tag m.tag),
    equal_iff (normalize_channel_tag x.tag) (normalize_channel_tag t),
    equal_iff (normalize_channel_tag m.tag) (normalize_channel_tag t),
  )

  SameOthers-here :
      (x m : ChannelMapping) (xs : List ChannelMapping)
      → same_tag x.tag m.tag ≡ true
      → SameOthers m (x ∷ xs) (m ∷ xs)
  unfolding resolve_in
  SameOthers-here x m xs e zero t h = refl
  SameOthers-here x m xs e (suc k) t h = rw (h, same_tag-other x m t e h) refl

  SameOthers-behind :
      (x m : ChannelMapping) (xs ys : List ChannelMapping)
      → SameOthers m xs ys
      → SameOthers m (x ∷ xs) (x ∷ ys)
  unfolding resolve_in
  SameOthers-behind x m xs ys f zero t h = refl
  SameOthers-behind x m xs ys f (suc k) t h =
      ap (λ o. if same_tag x.tag t then some x.channel_id else o) (f k t h)

  behind-IsReplaced :
      (n : ℕ) (m x : ChannelMapping) (xs : List ChannelMapping) (o : Option (List ChannelMapping))
      → same_tag x.tag m.tag ≡ false
      → IsReplaced n m xs o
      → IsReplaced (suc n) m (x ∷ xs) (behind x o)
  unfolding put_mapping
  behind-IsReplaced n m x xs (some ys) other (same, f) =
      (rw (other, same) refl, SameOthers-behind x m xs ys f)
  behind-IsReplaced n m x xs none other h = rw (other, h) refl

  replace-IsReplaced :
      (n : ℕ) (m : ChannelMapping) (xs : List ChannelMapping) → IsReplaced n m xs (replace n m xs)
  unfolding replace put_mapping
  replace-IsReplaced zero m xs = refl
  replace-IsReplaced (suc n) m [] = refl
  replace-IsReplaced (suc n) m (x ∷ xs) = elim (Bool-cases (same_tag x.tag m.tag)) [
    | inl e ↦ rw e (rw e refl, SameOthers-here x m xs e)
    | inr e ↦ rw e (behind-IsReplaced n m x xs (replace n m xs) e (replace-IsReplaced n m xs))
  ]

take-write_at :
    (n : ℕ) (m : ChannelMapping) (xs : List ChannelMapping)
    → n < length xs
    → take (suc n) (write_at n m xs) ≡ take n xs ++ (m ∷ [])
take-write_at n m [] h = ground arith
take-write_at zero m (x ∷ xs) h = refl
take-write_at (suc n) m (x ∷ xs) h = ap (λ l. x ∷ l) (take-write_at n m xs (omega (arith, h)))

-- A slice that is not longer does not see the slot behind.
take-write_at_behind :
    (k n : ℕ) (m : ChannelMapping) (xs : List ChannelMapping)
    → k ≤ n
    → take k (write_at n m xs) ≡ take k xs
take-write_at_behind zero n m xs h = refl
take-write_at_behind (suc k) n m [] h = refl
take-write_at_behind (suc k) zero m (x ∷ xs) h = ground arith
take-write_at_behind (suc k) (suc n) m (x ∷ xs) h =
    ap (λ l. x ∷ l) (take-write_at_behind k n m xs (omega (arith, h)))

take-grow :
    (n : ℕ) (m : ChannelMapping) (xs spare : List ChannelMapping)
    → n ≤ length xs
    → take (suc n) (take n xs ++ (m ∷ spare)) ≡ take n xs ++ (m ∷ [])
take-grow zero m xs spare h = refl
take-grow (suc n) m [] spare h = ground arith
take-grow (suc n) m (x ∷ xs) spare h = ap (λ l. x ∷ l) (take-grow n m xs spare (omega (arith, h)))

store-same : (a : ℕ) (xs : List ChannelMapping) (h : Heap) → store a xs h a ≡ xs
store-same a xs h = ground arith

store-other : (a b : ℕ) (xs : List ChannelMapping) (h : Heap) → b ≢ a → store a xs h b ≡ h b
store-other a b xs h ne = ground arith

-- What holds of the heap and the slice behind the write: the new slice reads as `put_mapping` of
-- what the old one read, and a slice of `k` slots of the old array resolves `t` as before.
abbrev pub IsUpserted :
    ⦃u : Unicode⦄ → ChannelMapping → Heap → Slice → ℕ → Text → Heap × Slice → Type 0
IsUpserted m h s k t (h', s') =
    (read h' s' ≡ put_mapping m (read h s))
    × (resolve_in (take k (h' s.array)) t ≡ resolve_in (take k (h s.array)) t)

module _ ⦃u : Unicode⦄ (fresh : ℕ) (spare : List ChannelMapping) (m : ChannelMapping) (h : Heap)
    (s : Slice) (k : ℕ) (t : Text) where
  append-IsUpserted :
      s.len ≤ length (h s.array)
      → fresh ≢ s.array
      → k ≤ s.len
      → put_mapping m (read h s) ≡ read h s ++ (m ∷ [])
      → IsUpserted m h s k t (append fresh spare m h s)
  append-IsUpserted fits new shorter e = elim (Bool-cases (ltb s.len (length (h s.array)))) [
    | inl room ↦ rw room (
      ap (take (suc s.len)) (store-same s.array _ h)
          ∙ take-write_at s.len m (h s.array) (ground arith)
          ∙ sym e,
      ap (λ l. resolve_in l t)
          (ap (take k) (store-same s.array _ h)
            ∙ take-write_at_behind k s.len m (h s.array) shorter),
    )
    | inr full ↦ rw full (
      ap (take (suc s.len)) (store-same fresh _ h)
          ∙ take-grow s.len m (h s.array) spare fits
          ∙ sym e,
      ap (λ l. resolve_in (take k l) t) (store-other fresh s.array _ h (λ same. new (sym same))),
    )
  ]

  replaced-IsUpserted :
      (o : Option (List ChannelMapping))
      → s.len ≤ length (h s.array)
      → fresh ≢ s.array
      → k ≤ s.len
      → same_tag m.tag t ≡ false
      → IsReplaced s.len m (h s.array) o
      → IsUpserted m h s k t (replaced fresh spare m h s o)
  replaced-IsUpserted (some ys) fits new shorter other (same, f) = (
    ap (take s.len) (store-same s.array ys h) ∙ same,
    ap (λ l. resolve_in (take k l) t) (store-same s.array ys h) ∙ f k t other,
  )
  replaced-IsUpserted none fits new shorter other e = append-IsUpserted fits new shorter e

  -- On a slice within its array, and if append takes an address that is not the array's for a new
  -- one: UpsertChannelMapping leaves the slice with the value that `put_mapping` gives, whether it
  -- writes into the shared array, appends in place or moves to a new one; and a record that was
  -- handed out before, whose slice of the same array is not longer, resolves every tag but the
  -- mapping's as before.
  pub upsert_slice-IsUpserted :
      s.len ≤ length (h s.array)
      → fresh ≢ s.array
      → k ≤ s.len
      → same_tag m.tag t ≡ false
      → IsUpserted m h s k t (upsert_slice fresh spare m h s)
  unfolding upsert_slice
  upsert_slice-IsUpserted fits new shorter other =
      replaced-IsUpserted (replace s.len m (h s.array)) fits new shorter other
        (replace-IsReplaced s.len m (h s.array))
