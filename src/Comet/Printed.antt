-- ===== src/Comet/Printed.antt =====
-- The web sensor parser, internal/device/comet/websensor, on the channels of a device that writes
-- its measurements as the parser expects them.
use device_handler.Prelude.{
  ℕ, ◌^◌, ◌≡◌, ◌≢◌, ◌<◌, refl, ap, sym, ◌∙◌, inl, inr, true, false, Bool-cases, Option, none, some,
  List, [], ◌∷◌, ◌++◌, append-nil, append_assoc, map, ok, err, if◌then◌else◌, All,
}
use device_handler.Time.{Time, pos}
use device_handler.Text.{Text, Unicode, equal, trim_space}
use device_handler.Text.Normal.{equal_iff}
use device_handler.Device.{Request, ParseResult, ChannelMeasurement}
use device_handler.Comet.{strip_bom}
use device_handler.Comet.Hex.{measurement_error, is_measurement_error}
use device_handler.Comet.Bits.{
  digit, digits8, is_error_code, error_prefix, bytes8, normal_hex-digits, to_lower-digits,
  trim_space-plain, digits-IsPlain, digits8-IsDigits,
}
use device_handler.Comet.Websensor.{
  Message, MessageChannel, append_some, is_five, parse_hex_float, parse_channel, parse_channels,
  parse_timestamp, parse_message, parse,
}
use device_handler.Comet.Named.{IsNamed}

-- The channel of a measurement, its value as the eight digits of its bit pattern.
abbrev pub channel_of : ChannelMeasurement → MessageChannel
channel_of m = record {
  number = m.number;
  enabled = none;
  quantity = m.name;
  value = map digit (digits8 m.value);
  value_text = [];
  unit = m.unit;
  decimals = pos 0;
  type = [];
  alarm = [];
  alarm_mode = [];
  bin_desc = [];
}

-- The measurements without those that are measuring errors.
abbrev pub valid : List ChannelMeasurement → List ChannelMeasurement
valid [] = []
valid (m ∷ ms) = let rest = valid ms in if is_error_code m.value then rest else m ∷ rest

-- What a device can write: a name that is there, and neither it nor the unit with white space
-- around it, and a value of 32 bits.
pub record IsPrintable (m : ChannelMeasurement) : Type 0 where
  pub named : IsNamed m
  pub trimmed : trim_space m.unit ≡ m.unit
  pub bits : m.value < 2 ^ 32

module _ ⦃u : Unicode⦄ where
  is_measurement_error-digits :
      (n : ℕ) → n < 2 ^ 32 → is_measurement_error (map digit (digits8 n)) ≡ is_error_code n
  unfolding is_measurement_error
  is_measurement_error-digits n h =
      rw
        (
          trim_space-plain (map digit (digits8 n))
              (digits-IsPlain (digits8 n) (digits8-IsDigits n)),
          to_lower-digits (digits8 n) (digits8-IsDigits n),
        )
        (error_prefix n h)

  parse_hex_float-printed :
      (n : ℕ)
      → n < 2 ^ 32
      → parse_hex_float (map digit (digits8 n))
        ≡ (if is_error_code n then err (measurement_error (map digit (digits8 n))) else ok n)
  unfolding parse_hex_float
  parse_hex_float-printed n h =
      rw
        (
          normal_hex-digits (digits8 n) (digits8-IsDigits n),
          is_measurement_error-digits n h,
          bytes8 n h,
        )
        refl

  unequal : (t : Text) → t ≢ [] → equal t [] ≡ false
  unequal t h = elim (Bool-cases (equal t [])) [
    | inl e ↦ absurd (h ((equal_iff t []).0 e))
    | inr e ↦ e
  ]

  -- The answer of the parser to one channel.
  abbrev read_as : ChannelMeasurement → Option ChannelMeasurement
  read_as m = if is_error_code m.value then none else some m

  parse_channel-printed :
      (m : ChannelMeasurement) → IsPrintable m → parse_channel (channel_of m) ≡ ok (read_as m)
  unfolding parse_channel
  parse_channel-printed m h =
      let named : equal m.name [] ≡ false = unequal m.name h.named.0 in
      rw
        (
          h.named.1,
          named,
          h.trimmed,
          is_measurement_error-digits m.value h.bits,
          parse_hex_float-printed m.value h.bits,
        )
        (elim (Bool-cases (is_error_code m.value)) [
          | inl faulty ↦ rw faulty refl
          | inr fine ↦ rw fine refl
        ])

  append_some-valid :
      (m : ChannelMeasurement) (ms done : List ChannelMeasurement)
      → append_some done (read_as m) ++ valid ms ≡ done ++ valid (m ∷ ms)
  append_some-valid m ms done = elim (Bool-cases (is_error_code m.value)) [
    | inl faulty ↦ rw faulty refl
    | inr fine ↦ rw fine (append_assoc done (m ∷ []) (valid ms))
  ]

  parse_channels-printed :
      (ms done : List ChannelMeasurement)
      → All IsPrintable ms
      → parse_channels (map channel_of ms) done ≡ ok (done ++ valid ms)
  unfolding parse_channels
  parse_channels-printed [] done h = ap ok (sym (append-nil done))
  parse_channels-printed (m ∷ ms) done h = rw (parse_channel-printed m h.0) (
      parse_channels-printed ms (append_some done (read_as m)) h.1
      ∙ ap ok (append_some-valid m ms done))

-- What the parser reads off a message: the serial number, the time, and the measurements.
pub record IsReadAs (sn : Text) (t : Time) (ms : List ChannelMeasurement) (parsed : ParseResult)
    : Type 0 where
  pub serial : parsed.serial ≡ sn
  pub occurred_at : parsed.occurred_at ≡ t
  pub measurements : parsed.channel_measurements ≡ ms

module _ ⦃u : Unicode⦄ (parse_rfc3339 : Text → Option Time) where
  parse_message-printed :
      (req : Request) (payload : Message) (t : Time) (ms : List ChannelMeasurement)
      → parse_timestamp parse_rfc3339 payload.time.sample ≡ ok t
      → payload.channels ≡ map channel_of ms
      → All IsPrintable ms
      → (parsed : ParseResult) × (parse_message parse_rfc3339 req payload ≡ ok parsed)
        × IsReadAs payload.sn t (valid ms) parsed
  unfolding parse_message
  parse_message-printed req payload t ms ht hc h =
      rw (ht, hc, parse_channels-printed ms [] h)
        (_, refl, record { serial = refl; occurred_at = refl; measurements = refl })

  -- A message of type 5 with a serial number and a time that parse, and the channels of any
  -- measurements that a device can write, is accepted; the upload has its serial number and time,
  -- and exactly the measurements that were written, in order, but for the measuring errors.
  pub parse-printed :
      (decode : List ℕ → Option Message) (req : Request) (payload : Message) (t : Time)
      (ms : List ChannelMeasurement)
      → decode (strip_bom req.body) ≡ some payload
      → payload.json_type ≡ pos 5
      → trim_space payload.sn ≢ []
      → parse_timestamp parse_rfc3339 payload.time.sample ≡ ok t
      → payload.channels ≡ map channel_of ms
      → All IsPrintable ms
      → (parsed : ParseResult) × (parse parse_rfc3339 decode req ≡ ok parsed)
        × IsReadAs payload.sn t (valid ms) parsed
  unfolding parse
  parse-printed decode req payload t ms hd h5 hs ht hc h =
      let serial : equal (trim_space payload.sn) [] ≡ false = unequal (trim_space payload.sn) hs in
      let five : is_five payload.json_type ≡ true = ap is_five h5 in
      simp (hd, five, serial) (parse_message-printed req payload t ms ht hc h)
