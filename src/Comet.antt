-- ===== src/Comet.antt =====
-- internal/device/comet: the three parsers of Comet devices, and what they share: the strconv,
-- encoding/hex and math functions that they call on text, and the floats. A float64 is its bit
-- pattern; the conversions of floats, and strconv.ParseFloat, are the parameter `Floats`.
pub mod Hex
pub mod Ulogger
pub mod Websensor
pub mod Soaptx
pub mod Named
pub mod Printed
pub mod Logged
pub mod Posted
pub mod Bits
use device_handler.Prelude.{
  ℕ, zero, suc, ◌+◌, ◌-◌, ◌*◌, ◌/◌, ◌%◌, ◌^◌, Bool, true, false, ◌&&◌, Option, none, some, List, [],
  ◌∷◌, ◌++◌, ltb, leb, ◌==◌, if◌then◌else◌,
}
use mathlib.Core.Option
use device_handler.Time.{Time, ℤ, pos, negsuc, nanos_per_second, unix_to_internal, to_bits}
use device_handler.Text.{Text, codes, trim_prefix}
use device_handler.Telemetry.{Float32}

abbrev pub Float64 : Type 0
Float64 = ℕ

pub record Floats : Type 0 where
  -- int64(f), which the language leaves open out of range
  pub to_int : Float64 → ℤ
  -- float32(f)
  pub to_float32 : Float64 → Float32
  -- float64(n) and float32(n) of an int
  pub of_int : ℤ → Float64
  pub float32_of_int : ℤ → Float32
  -- f == g
  pub same : Float64 → Float64 → Bool
  -- strconv.ParseFloat(s, 32)
  pub parse_float : Text → Option Float64

-- The byte order mark, and bytes.TrimPrefix.
abbrev pub strip_bom : List ℕ → List ℕ
strip_bom body = trim_prefix body (0xef ∷ 0xbb ∷ 0xbf ∷ [])

unfoldable pub hex_digit : ℕ → Option ℕ
hex_digit c =
    if leb 48 c && leb c 57
    then some (c - 48)
    else if leb 97 c && leb c 102
    then some (c - 87)
    else if leb 65 c && leb c 70
    then some (c - 55)
    else none

abbrev pub pair : Option ℕ → Option ℕ → Option (List ℕ) → Option (List ℕ)
pair (some a) (some b) (some rest) = some ((a * 16 + b) ∷ rest)
pair _ _ _ = none

-- hex.DecodeString
unfoldable pub decode_string : Text → Option (List ℕ)
unfolding hex_digit
decode_string [] = some []
decode_string (a ∷ []) = none
decode_string (a ∷ b ∷ rest) = pair (hex_digit a) (hex_digit b) (decode_string rest)

-- The digits of a number in base 16 behind `acc`, if all are digits.
unfoldable pub hex_value : ℕ → Text → Option ℕ
unfolding hex_digit
hex_value acc [] = some acc
hex_value acc (c ∷ s) = Option.bind (hex_digit c) (λ d. hex_value (acc * 16 + d) s)

abbrev pub positive : ℕ → Option ℤ
positive n = if ltb n (2 ^ 63) then some (pos n) else none

abbrev pub negative : ℕ → Option ℤ
negative n = if n == 0 then some (pos 0) else if leb n (2 ^ 63) then some (negsuc (n - 1)) else none

abbrev pub unsigned : Text → Option ℕ
unsigned [] = none
unsigned (c ∷ s) = hex_value 0 (c ∷ s)

-- strconv.ParseInt(s, 16, 64)
unfoldable pub parse_int16 : Text → Option ℤ
unfolding hex_value
parse_int16 [] = none
parse_int16 (c ∷ s) =
    if c == b'+'
    then Option.bind (unsigned s) positive
    else if c == b'-'
    then Option.bind (unsigned s) negative
    else Option.bind (unsigned (c ∷ s)) positive

-- The decimal digits of `n` in front of `acc`, at most `fuel` of them.
unfoldable pub digits : ℕ → ℕ → Text → Text
digits zero n acc = acc
digits (suc fuel) n acc =
    let rest = digits fuel (n / 10) ((48 + n % 10) ∷ acc) in
    if ltb n 10 then (48 + n) ∷ acc else rest

-- strconv.FormatInt(i, 10); an int64 has at most 20 digits.
unfoldable pub format_int : ℤ → Text
unfolding digits
format_int (pos n) = digits 20 n []
format_int (negsuc n) = b'-' ∷ digits 20 (suc n) []
