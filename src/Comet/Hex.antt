-- ===== src/Comet/Hex.antt =====
-- parseHexFloat of internal/device/comet/ulogger/parser.go and of
-- internal/device/comet/websensor/parser.go, which agree on a given text.
use device_handler.Prelude.{
  ℕ, ◌+◌, ◌*◌, ◌^◌, Bool, Option, none, some, List, [], ◌∷◌, Result, ok, err, length, if◌then◌else◌,
}
use device_handler.Text.{Text, Unicode, codes, trim_space, to_lower, trim_prefix, has_prefix}
use device_handler.Telemetry.{Float32}
use device_handler.Comet.{decode_string}

pub data HexError : Type 0 where
  measurement_error : Text → HexError
  bad_hex : HexError
  bad_length : ℕ → HexError

-- The four bytes as a big-endian uint32, the bit pattern of the float32.
unfoldable pub from_bytes : Option (List ℕ) → Result HexError Float32
from_bytes none = err bad_hex
from_bytes (some (a ∷ b ∷ c ∷ d ∷ [])) = ok (a * 2 ^ 24 + b * 2 ^ 16 + c * 2 ^ 8 + d)
from_bytes (some bytes) = err (bad_length (length bytes))

module _ ⦃u : Unicode⦄ where
  -- strings.TrimPrefix(strings.ToLower(strings.TrimSpace(value)), "0x")
  unfoldable pub normal_hex : Text → Text
  normal_hex value = trim_prefix (to_lower (trim_space value)) (codes "0x")

  -- isMeasurementError
  unfoldable pub is_measurement_error : Text → Bool
  is_measurement_error raw = has_prefix (to_lower (trim_space raw)) (codes "ff8100")

  -- ulogger: the error prefix is looked for in the normal form.
  unfoldable pub parse_hex_float : Text → Result HexError Float32
  unfolding normal_hex from_bytes decode_string
  parse_hex_float value =
      let raw = normal_hex value in
      if has_prefix raw (codes "ff8100")
      then err (measurement_error raw)
      else from_bytes (decode_string raw)
