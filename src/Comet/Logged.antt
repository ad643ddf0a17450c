-- ===== src/Comet/Logged.antt =====
-- The U-Logger parser, internal/device/comet/ulogger, on the channels of a device that writes its
-- measurements as the parser expects them.
use device_handler.Prelude.{
  ℕ, ◌^◌, ◌≤◌, ◌≡◌, ◌<◌, refl, ap, sym, ◌∙◌, false, Option, some, List, [], ◌∷◌, ◌++◌, append-nil,
  append_assoc, map, ok, arith, All, ltb,
}
use device_handler.Time.{Time, ℤ, pos}
use device_handler.Text.{Text, Unicode}
use device_handler.Telemetry.{Float32}
use device_handler.Device.{Request, ParseResult, ChannelMeasurement}
use device_handler.Comet.{Floats, Float64, strip_bom}
use device_handler.Comet.Bits.{digit, digits8, is_error_code, parse_hex_float-digits}
use device_handler.Comet.Printed.{IsReadAs}
use device_handler.Comet.Ulogger.{
  Value, text, float, array, Items, nil, cons, size, at, as_string, as_int, as_float32,
  parse_device_time, parse_hex_value, parse_fields, parse_channel, parse_channels, parse_items,
  parse,
}

module _ ⦃u : Unicode⦄ (floats : Floats) (number_of : ℤ → Float64) where
  -- The channel of a measurement: its number, that it is not binary, its name, the eight digits of
  -- its bit pattern, and its unit.
  abbrev pub item_of : ChannelMeasurement → Value
  item_of m = array (
      cons (float (number_of m.number)) (
        cons (float (number_of (pos 0))) (
          cons (text m.name) (cons (text (map digit (digits8 m.value))) (cons (text m.unit) nil)))))

  abbrev pub items_of : List ChannelMeasurement → Items
  items_of [] = nil
  items_of (m ∷ ms) = cons (item_of m) (items_of ms)

  -- The number of the channel survives as a float, and the value has 32 bits and is no error code.
  pub record IsLoggable (m : ChannelMeasurement) : Type 0 where
    pub number : floats.to_int (number_of m.number) ≡ m.number
    pub bits : m.value < 2 ^ 32
    pub valid : is_error_code m.value ≡ false

  parse_channel-item :
      (m : ChannelMeasurement)
      → floats.to_int (number_of (pos 0)) ≡ pos 0
      → IsLoggable m
      → parse_channel floats (item_of m) ≡ ok m
  unfolding parse_channel parse_fields as_int as_string parse_hex_value at
  parse_channel-item m z h = rw (h.number, z, parse_hex_float-digits m.value h.bits, h.valid) refl

  parse_channels-items :
      (ms done : List ChannelMeasurement)
      → floats.to_int (number_of (pos 0)) ≡ pos 0
      → All IsLoggable ms
      → parse_channels floats (items_of ms) done ≡ ok (done ++ ms)
  unfolding parse_channels
  parse_channels-items [] done z h = ap ok (sym (append-nil done))
  parse_channels-items (m ∷ ms) done z h =
      rw (parse_channel-item m z h.0)
        (parse_channels-items ms (done ++ (m ∷ [])) z h.1 ∙ ap ok (append_assoc done (m ∷ []) ms))

  parse_items-logged :
      (req : Request) (raw : Items) (serial : Text) (t : Time) (rssi battery : Float32)
      (ms : List ChannelMeasurement)
      → at 6 raw ≡ text serial
      → parse_device_time floats (at 9 raw) ≡ ok t
      → as_float32 floats (at 2 raw) ≡ ok rssi
      → as_float32 floats (at 20 raw) ≡ ok battery
      → at 21 raw ≡ array (items_of ms)
      → floats.to_int (number_of (pos 0)) ≡ pos 0
      → All IsLoggable ms
      → (parsed : ParseResult) × (parse_items floats req raw ≡ ok parsed)
        × IsReadAs serial t ms parsed
        × (parsed.signal_strength ≡ some rssi)
        × (parsed.battery_percent ≡ some battery)
  unfolding parse_items
  parse_items-logged req raw serial t rssi battery ms hs ht hr hb hi z h =
      rw (hs, ht, hr, hb, hi)
        (unfold as_string in
          rw (parse_channels-items ms [] z h) (
            _,
            refl,
            record { serial = refl; occurred_at = refl; measurements = refl },
            refl,
            refl,
          ))

  -- An array of at least 22 values with a text as its serial number, a time, a signal strength and
  -- a battery level that can be read, and the channels of any measurements that a device can write,
  -- is accepted; the upload has these, and exactly the measurements that were written, in order.
  pub parse-logged :
      (decode : List ℕ → Option Items) (req : Request) (raw : Items) (serial : Text) (t : Time)
      (rssi battery : Float32) (ms : List ChannelMeasurement)
      → decode (strip_bom req.body) ≡ some raw
      → 22 ≤ size raw
      → at 6 raw ≡ text serial
      → parse_device_time floats (at 9 raw) ≡ ok t
      → as_float32 floats (at 2 raw) ≡ ok rssi
      → as_float32 floats (at 20 raw) ≡ ok battery
      → at 21 raw ≡ array (items_of ms)
      → floats.to_int (number_of (pos 0)) ≡ pos 0
      → All IsLoggable ms
      → (parsed : ParseResult) × (parse floats decode req ≡ ok parsed)
        × IsReadAs serial t ms parsed
        × (parsed.signal_strength ≡ some rssi)
        × (parsed.battery_percent ≡ some battery)
  unfolding parse
  parse-logged decode req raw serial t rssi battery ms hd hl hs ht hr hb hi z h =
      let long : ltb (size raw) 22 ≡ false = ground (arith, hl) in
      simp (hd, long) (parse_items-logged req raw serial t rssi battery ms hs ht hr hb hi z h)
