-- ===== src/Time.antt =====
-- time.Time as the nanoseconds since the earliest instant that Go can hold, whose seconds before
-- year 1 fill an int64: so Go's zero time is `zero_time`, and the order of instants is that of ℕ.
-- Locations are not kept, and UTC() changes nothing here. time.Duration is a whole number of
-- nanoseconds in an int64.
use device_handler.Prelude.{ℕ, suc, ◌+◌, ◌-◌, ◌*◌, ◌/◌, ◌%◌, ◌^◌, Bool, ltb, ◌==◌, if◌then◌else◌}

abbrev pub Time : Type 0
Time = ℕ

abbrev pub nanos_per_second : ℕ
nanos_per_second = 1000000000

abbrev pub zero_time : Time
zero_time = 2 ^ 63 * nanos_per_second

-- t.IsZero()
abbrev pub is_zero : Time → Bool
is_zero t = t == zero_time

-- t.After(s)
abbrev pub after : Time → Time → Bool
after t s = ltb s t

-- The seconds from year 1 to 1970.
abbrev pub unix_to_internal : ℕ
unix_to_internal = 62135596800

-- uint64(t.Unix())
abbrev pub unix : Time → ℕ
unix t = (t / nanos_per_second + (2 ^ 64 - 2 ^ 63 - unix_to_internal)) % 2 ^ 64

-- A signed 64-bit integer; `negsuc n` is -(n + 1).
pub data ℤ : Type 0 where
  pos : ℕ → ℤ
  negsuc : ℕ → ℤ

-- The int64 with the bit pattern n % 2^64.
abbrev pub to_signed : ℕ → ℤ
to_signed n =
    if ltb (n % 2 ^ 64) (2 ^ 63) then pos (n % 2 ^ 64) else negsuc (2 ^ 64 - 1 - n % 2 ^ 64)

-- The bit pattern of an int64.
abbrev pub to_bits : ℤ → ℕ
to_bits (pos n) = n % 2 ^ 64
to_bits (negsuc n) = 2 ^ 64 - 1 - n % 2 ^ 64

abbrev pub Duration : Type 0
Duration = ℤ

-- t.Add(d); a negative d stops at the earliest instant.
abbrev pub add : Time → Duration → Time
add t (pos d) = t + d
add t (negsuc d) = t - suc d

-- time.Unix(sec, 0), the int64 sec given by its bit pattern.
unfoldable pub unix_time : ℕ → Time
unix_time sec = (sec + unix_to_internal + 2 ^ 63) % 2 ^ 64 * nanos_per_second
