-- ===== src/Text.antt =====
-- Go strings as lists of code points, with what the program uses of the package strings.
-- The case mapping beyond ASCII is a parameter, `Unicode`, with the facts of the Unicode tables
-- that the normal forms of keys and tags rest on.
pub mod Normal
use Prim.Native.Char.{code}
use Prim.Native.String.{String}
use device_handler.Prelude.{
  ℕ, ◌+◌, ◌-◌, ◌≤◌, ◌≡◌, Bool, true, false, ◌&&◌, ◌||◌, List, [], ◌∷◌, map, ltb, leb, ◌==◌,
  if◌then◌else◌,
}

abbrev pub Text : Type 0
Text = List ℕ

-- A literal.
abbrev pub codes : String → Text
codes String.[] = []
codes (String.◌∷◌ c s) = code c ∷ codes s

-- s == t
unfoldable pub equal : Text → Text → Bool
equal [] [] = true
equal (a ∷ s) (b ∷ t) = a == b && equal s t
equal _ _ = false

-- unicode.IsSpace
unfoldable pub is_space : ℕ → Bool
is_space c =
    (leb 9 c && leb c 13)
    || c == 32
    || c == 133
    || c == 160
    || c == 5760
    || (leb 8192 c && leb c 8202)
    || c == 8232
    || c == 8233
    || c == 8239
    || c == 8287
    || c == 12288

unfoldable pub trim_left : Text → Text
trim_left [] = []
trim_left (c ∷ s) = if is_space c then trim_left s else c ∷ s

abbrev pub keep : ℕ → Text → Text
keep c [] = if is_space c then [] else c ∷ []
keep c (d ∷ s) = c ∷ d ∷ s

unfoldable pub trim_right : Text → Text
trim_right [] = []
trim_right (c ∷ s) = keep c (trim_right s)

-- strings.TrimSpace
unfoldable pub trim_space : Text → Text
trim_space s = trim_right (trim_left s)

unfoldable pub ascii_lower : ℕ → ℕ
ascii_lower c = if leb 65 c && leb c 90 then c + 32 else c

unfoldable pub ascii_upper : ℕ → ℕ
ascii_upper c = if leb 97 c && leb c 122 then c - 32 else c

-- unicode.ToLower and unicode.ToUpper, the tables from code point 128 on being `f`.
unfoldable pub rune_lower : (ℕ → ℕ) → ℕ → ℕ
unfolding ascii_lower
rune_lower f c = if ltb c 128 then ascii_lower c else f c

unfoldable pub rune_upper : (ℕ → ℕ) → ℕ → ℕ
unfolding ascii_upper
rune_upper f c = if ltb c 128 then ascii_upper c else f c

-- The case tables of the package unicode: a lower-case letter stays, and neither white space nor
-- its absence is changed by the mapping.
pub record Unicode : Type 0 where
  pub lower : ℕ → ℕ
  pub upper : ℕ → ℕ
  pub lower_idem : (c : ℕ) → 128 ≤ c → rune_lower lower (lower c) ≡ lower c
  pub is_space-lower : (c : ℕ) → 128 ≤ c → is_space (lower c) ≡ is_space c

module _ ⦃u : Unicode⦄ where
  -- strings.ToLower
  unfoldable pub to_lower : Text → Text
  to_lower = map (rune_lower u.lower)

  -- strings.ToUpper
  unfoldable pub to_upper : Text → Text
  to_upper = map (rune_upper u.upper)

-- strings.HasPrefix
unfoldable pub has_prefix : Text → Text → Bool
has_prefix s [] = true
has_prefix [] (p ∷ ps) = false
has_prefix (c ∷ s) (p ∷ ps) = c == p && has_prefix s ps

abbrev pub drop_prefix : Text → Text → Text
drop_prefix s [] = s
drop_prefix [] (p ∷ ps) = []
drop_prefix (c ∷ s) (p ∷ ps) = drop_prefix s ps

-- strings.TrimPrefix
unfoldable pub trim_prefix : Text → Text → Text
unfolding has_prefix
trim_prefix s p = if has_prefix s p then drop_prefix s p else s
