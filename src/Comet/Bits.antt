-- ===== src/Comet/Bits.antt =====
-- Which float a measurement in the hexadecimal form of the devices stands for.
use device_handler.Prelude.{
  ℕ, ◌+◌, ◌*◌, ◌/◌, ◌%◌, ◌^◌, ◌≡◌, ◌<◌, refl, ap, ◌∙◌, Bool, false, some, List, map, ◌==◌, [], ◌∷◌,
  ok, err, arith, ltb, if◌then◌else◌, All,
}
use device_handler.Text.{
  Text, Unicode, codes, is_space, trim_left, trim_right, trim_space, rune_lower, to_lower,
  has_prefix, trim_prefix,
}
use device_handler.Comet.{hex_digit, decode_string}
use device_handler.Comet.Hex.{measurement_error, from_bytes, normal_hex, parse_hex_float}

-- The lower-case digit of a number below 16.
abbrev pub digit : ℕ → ℕ
digit d = if ltb d 10 then 48 + d else 87 + d

hex_digit-digit : (d : ℕ) → d < 16 → hex_digit (digit d) ≡ some d
unfolding hex_digit
hex_digit-digit d h = ground arith

digit-IsPlain : (d : ℕ) → d < 16 → (is_space (digit d) ≡ false) × (digit d < 128)
unfolding is_space
digit-IsPlain d h = ground arith

trim_right-plain : (s : Text) → All (λ c. is_space c ≡ false) s → trim_right s ≡ s
unfolding trim_right
trim_right-plain [] h = refl
trim_right-plain (c ∷ []) h = ground arith
trim_right-plain (c ∷ d ∷ s) h = rw (trim_right-plain (d ∷ s) h.1) refl

pub trim_space-plain : (s : Text) → All (λ c. is_space c ≡ false) s → trim_space s ≡ s
unfolding trim_space trim_left
trim_space-plain [] h = trim_right-plain [] h
trim_space-plain (c ∷ s) h = rw (h.0) (trim_right-plain (c ∷ s) h)

abbrev IsDigits : List ℕ → Type 0
IsDigits = All (λ d. d < 16)

pub digits-IsPlain : (ds : List ℕ) → IsDigits ds → All (λ c. is_space c ≡ false) (map digit ds)
digits-IsPlain [] h = tt
digits-IsPlain (d ∷ ds) h = ((digit-IsPlain d h.0).0, digits-IsPlain ds h.1)

digit-x : (d : ℕ) → d < 16 → (digit d == 120) ≡ false
digit-x d h = ground arith

has_prefix-digits : (ds : List ℕ) → IsDigits ds → has_prefix (map digit ds) (codes "0x") ≡ false
unfolding has_prefix
has_prefix-digits [] h = refl
has_prefix-digits (a ∷ []) h = ground arith
has_prefix-digits (a ∷ b ∷ ds) h = rw (digit-x b h.1.0) (ground arith)

module _ ⦃u : Unicode⦄ where
  rune_lower-digit : (d : ℕ) → d < 16 → rune_lower u.lower (digit d) ≡ digit d
  unfolding rune_lower
  rune_lower-digit d h = ground arith

  pub to_lower-digits : (ds : List ℕ) → IsDigits ds → to_lower (map digit ds) ≡ map digit ds
  unfolding to_lower
  to_lower-digits [] h = refl
  to_lower-digits (d ∷ ds) h = cc (rune_lower-digit d h.0, to_lower-digits ds h.1)

  pub normal_hex-digits : (ds : List ℕ) → IsDigits ds → normal_hex (map digit ds) ≡ map digit ds
  unfolding normal_hex trim_prefix
  normal_hex-digits ds h =
      rw
        (
          trim_space-plain (map digit ds) (digits-IsPlain ds h),
          to_lower-digits ds h,
          has_prefix-digits ds h,
        )
        refl

pub decode-pair :
    (a b : ℕ) (t : Text) {bytes : List ℕ}
    → a < 16
    → b < 16
    → decode_string t ≡ some bytes
    → decode_string (digit a ∷ digit b ∷ t) ≡ some ((a * 16 + b) ∷ bytes)
unfolding decode_string
decode-pair a b t ha hb e = rw (hex_digit-digit a ha, hex_digit-digit b hb, e) refl

-- The digits of a 32-bit number, the highest first.
abbrev pub digits8 : ℕ → List ℕ
digits8 n =
    (n / 2 ^ 28 % 16)
    ∷ (n / 2 ^ 24 % 16)
    ∷ (n / 2 ^ 20 % 16)
    ∷ (n / 2 ^ 16 % 16)
    ∷ (n / 2 ^ 12 % 16)
    ∷ (n / 2 ^ 8 % 16)
    ∷ (n / 2 ^ 4 % 16)
    ∷ (n % 16)
    ∷ []

below16 : (n : ℕ) → n % 16 < 16
below16 n = omega arith

pub digits8-IsDigits : (n : ℕ) → IsDigits (digits8 n)
digits8-IsDigits n = (
  below16 _,
  (below16 _, (below16 _, (below16 _, (below16 _, (below16 _, (below16 _, (below16 _, tt))))))),
)

pub decode-nil : decode_string [] ≡ some []
unfolding decode_string
decode-nil = refl

pub bytes8 : (n : ℕ) → n < 2 ^ 32 → from_bytes (decode_string (map digit (digits8 n))) ≡ ok n
unfolding from_bytes
bytes8 n h =
    ap from_bytes (
      decode-pair _ _ _ (below16 _) (below16 _) (
        decode-pair _ _ _ (below16 _) (below16 _) (
          decode-pair _ _ _ (below16 _) (below16 _)
            (decode-pair _ _ _ (below16 _) (below16 _) decode-nil))))
    ∙ ap ok (omega arith)

digit-same : (a b : ℕ) → a < 16 → b < 16 → (digit a == digit b) ≡ (a == b)
digit-same a b ha hb = ground arith

-- The number stands for a measuring error of the device: its first six digits are ff8100.
abbrev pub is_error_code : ℕ → Bool
is_error_code n = n / 2 ^ 8 == 0xff8100

pub error_prefix :
    (n : ℕ) → n < 2 ^ 32 → has_prefix (map digit (digits8 n)) (codes "ff8100") ≡ is_error_code n
unfolding has_prefix
error_prefix n h =
    rw
      (
        digit-same (n / 2 ^ 28 % 16) 15 (below16 _) (omega arith),
        digit-same (n / 2 ^ 24 % 16) 15 (below16 _) (omega arith),
        digit-same (n / 2 ^ 20 % 16) 8 (below16 _) (omega arith),
        digit-same (n / 2 ^ 16 % 16) 1 (below16 _) (omega arith),
        digit-same (n / 2 ^ 12 % 16) 0 (below16 _) (omega arith),
        digit-same (n / 2 ^ 8 % 16) 0 (below16 _) (omega arith),
      )
      (ground arith)

module _ ⦃u : Unicode⦄ where
  -- parseHexFloat of the U-Logger reads the eight lower-case hexadecimal digits of a 32-bit pattern
  -- as that pattern, but for the patterns ff8100.., which are measuring errors.
  pub parse_hex_float-digits :
      (n : ℕ)
      → n < 2 ^ 32
      → parse_hex_float (map digit (digits8 n))
        ≡ (if is_error_code n then err (measurement_error (map digit (digits8 n))) else ok n)
  unfolding parse_hex_float
  parse_hex_float-digits n h =
      rw (normal_hex-digits (digits8 n) (digits8-IsDigits n), error_prefix n h, bytes8 n h) refl
