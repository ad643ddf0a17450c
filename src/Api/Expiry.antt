-- ===== src/Api/Expiry.antt =====
-- tokenExpiry of internal/api/client.go.
use device_handler.Prelude.{
  ℕ, ◌*◌, Option, none, some, List, [], ◌∷◌, Result, ok, err, ◌==◌, if◌then◌else◌,
}
use device_handler.Time.{
  Time, Duration, ℤ, pos, negsuc, nanos_per_second, to_signed, to_bits, unix_time,
}
use device_handler.Time
use device_handler.Text.{Text}
use device_handler.Api.{Http}

-- strings.Split by one code point; the result is never empty.
abbrev pub extend : ℕ → List Text → List Text
extend c [] = (c ∷ []) ∷ []
extend c (t ∷ ts) = (c ∷ t) ∷ ts

unfoldable pub split : ℕ → Text → List Text
split sep [] = [] ∷ []
split sep (c ∷ s) = let rest = split sep s in if c == sep then [] ∷ rest else extend c rest

-- The second of three parts.
abbrev pub middle_part : List Text → Option Text
middle_part (a ∷ b ∷ c ∷ []) = some b
middle_part _ = none

-- A positive number of seconds as time.Duration(n) * time.Second.
abbrev pub lifetime : ℤ → Option Duration
lifetime (pos n) = if n == 0 then none else some (to_signed (n * nanos_per_second))
lifetime (negsuc n) = none

-- The time of the claim, if there is one.
abbrev pub claimed : {X : Type 0} → Result X ℤ → Option Time
claimed (ok (pos n)) = if n == 0 then none else some (unix_time n)
claimed (ok (negsuc n)) = some (unix_time (to_bits (negsuc n)))
claimed (err x) = none

abbrev pub or_fallback : Time → Option Time → Time
or_fallback t none = t
or_fallback t (some e) = e

module _ {W X : Type 0} (http : Http W X) where
  abbrev pub payload_expiry : Result X (List ℕ) → Option Time
  payload_expiry (ok payload) = claimed (http.decode_claims payload)
  payload_expiry (err x) = none

  abbrev pub part_expiry : Option Text → Option Time
  part_expiry (some part) = payload_expiry (http.decode_base64 part)
  part_expiry none = none

  abbrev pub expiry_after : Time → Text → Duration → Option Duration → Time
  expiry_after now token fallback (some d) = Time.add now d
  expiry_after now token fallback none =
      or_fallback (Time.add now fallback) (part_expiry (middle_part (split b'.' token)))

  -- `now` is the reading of the clock on the branch that is taken.
  unfoldable pub token_expiry : Time → Text → Duration → ℤ → Time
  unfolding split
  token_expiry now token fallback expires_in_seconds =
      expiry_after now token fallback (lifetime expires_in_seconds)
