-- ===== src/Text/Normal.antt =====
-- Laws of the text functions: equality is decided, and trimming and lower-casing give normal forms.
use device_handler.Prelude.{ℕ, ◌≡◌, refl, ap, ◌∙◌, ◌↔◌, true, false, [], ◌∷◌, arith}
use device_handler.Text.{
  Text, Unicode, equal, is_space, trim_left, trim_right, keep, trim_space, rune_lower, to_lower,
}

pub equal_iff : (s t : Text) → (equal s t ≡ true) ↔ (s ≡ t)
unfolding equal
equal_iff (x ∷ s) (y ∷ t) = ground (arith, equal_iff s t)
equal_iff _ _ = ground arith

pub equal_refl : (s : Text) → equal s s ≡ true
equal_refl s = (equal_iff s s).1 refl

pub equal_comm : (s t : Text) → equal s t ≡ equal t s
equal_comm s t = ground (arith, equal_iff s t, equal_iff t s)

trim_right_idem : (s : Text) → trim_right (trim_right s) ≡ trim_right s
unfolding trim_right
trim_right_idem [] = refl
trim_right_idem (c ∷ s) = ground (arith, trim_right_idem s)

-- The first code point of a text trimmed on the left is no space.
trim_left-cons : (s : Text) (c : ℕ) (t : Text) → trim_left s ≡ c ∷ t → is_space c ≡ false
unfolding trim_left
trim_left-cons [] c t h = cc
trim_left-cons (d ∷ s) c t h = ground (arith, trim_left-cons s c t)

trim_left-keep : (c : ℕ) (s : Text) → is_space c ≡ false → trim_left (keep c s) ≡ keep c s
unfolding trim_left
trim_left-keep c [] h = ground arith
trim_left-keep c (d ∷ s) h = ground arith

trim_left-trim_right : (s t : Text) → trim_left s ≡ t → trim_left (trim_right t) ≡ trim_right t
unfolding trim_left trim_right
trim_left-trim_right s [] h = refl
trim_left-trim_right s (c ∷ t) h = trim_left-keep c (trim_right t) (trim_left-cons s c t h)

pub trim_space_idem : (s : Text) → trim_space (trim_space s) ≡ trim_space s
unfolding trim_space
trim_space_idem s =
    ap trim_right (trim_left-trim_right s (trim_left s) refl) ∙ trim_right_idem (trim_left s)

module _ ⦃u : Unicode⦄ where
  rune_lower_idem : (c : ℕ) → rune_lower u.lower (rune_lower u.lower c) ≡ rune_lower u.lower c
  unfolding rune_lower
  rune_lower_idem c = ground (arith, u.lower_idem c)

  is_space-rune_lower : (c : ℕ) → is_space (rune_lower u.lower c) ≡ is_space c
  unfolding rune_lower is_space
  is_space-rune_lower c = ground (arith, u.is_space-lower c)

  pub to_lower_idem : (s : Text) → to_lower (to_lower s) ≡ to_lower s
  unfolding to_lower
  to_lower_idem [] = refl
  to_lower_idem (c ∷ s) = cc (rune_lower_idem c, to_lower_idem s)

  trim_left-to_lower : (s : Text) → trim_left (to_lower s) ≡ to_lower (trim_left s)
  unfolding trim_left to_lower
  trim_left-to_lower [] = refl
  trim_left-to_lower (c ∷ s) = ground (arith, is_space-rune_lower c, trim_left-to_lower s)

  keep-to_lower :
      (c : ℕ) (s : Text) → keep (rune_lower u.lower c) (to_lower s) ≡ to_lower (keep c s)
  unfolding to_lower
  keep-to_lower c [] = ground (arith, is_space-rune_lower c)
  keep-to_lower c (d ∷ s) = refl

  trim_right-to_lower : (s : Text) → trim_right (to_lower s) ≡ to_lower (trim_right s)
  unfolding trim_right to_lower
  trim_right-to_lower [] = refl
  trim_right-to_lower (c ∷ s) =
      ap (keep (rune_lower u.lower c)) (trim_right-to_lower s) ∙ keep-to_lower c (trim_right s)

  pub trim_space-to_lower : (s : Text) → trim_space (to_lower s) ≡ to_lower (trim_space s)
  unfolding trim_space
  trim_space-to_lower s = ap trim_right (trim_left-to_lower s) ∙ trim_right-to_lower (trim_left s)
