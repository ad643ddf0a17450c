-- ===== src/Comet/Ulogger.antt =====
-- internal/device/comet/ulogger/parser.go, from the decoded JSON on: json.Unmarshal into []any is
-- the parameter `decode`.
use device_handler.Prelude.{
  ℕ, zero, suc, ◌+◌, Bool, Option, none, some, List, [], ◌∷◌, ◌++◌, Result, ok, err, ◌>>=◌, ltb,
  if◌then◌else◌,
}
use device_handler.Time.{Time, ℤ, pos, to_bits, unix_time}
use device_handler.Text.{Text, Unicode, codes}
use device_handler.Telemetry.{Float32}
use device_handler.Device.{
  Request, ParseResult, ChannelMeasurement, default_success_response, MetaValue,
}
use device_handler.Comet.{Floats, Float64, strip_bom, parse_int16, format_int}
use device_handler.Comet.Hex.{HexError, parse_hex_float}
use device_handler.Device.Registry.{Parser}

-- The values that encoding/json puts into an `any`, and the `int` that the type switches know.
mutual
  pub data Value : Type 0 where
    text : Text → Value
    float : Float64 → Value
    int : ℤ → Value
    array : Items → Value
    other : Value

  pub data Items : Type 0 where
    nil : Items
    cons : Value → Items → Items

-- What Parse wraps, by its messages.
pub data ParseError : Type 0 where
  bad_json : ParseError
  bad_top_length : ℕ → ParseError
  not_text : Value → ParseError
  not_number : Value → ParseError
  bad_seconds : ParseError
  not_channels : ParseError
  bad_channel_shape : ParseError
  bad_measurement : HexError → ParseError

abbrev pub size : Items → ℕ
size nil = 0
size (cons x xs) = suc (size xs)

-- raw[i], behind a test of the length.
unfoldable pub at : ℕ → Items → Value
at i nil = other
at zero (cons x xs) = x
at (suc i) (cons x xs) = at i xs

abbrev pub seconds_since2000_to_unix : ℕ
seconds_since2000_to_unix = 946684800

-- The result of ParseInt as a time.
abbrev pub device_time : Option ℤ → Result ParseError Time
device_time none = err bad_seconds
device_time (some seconds) = ok (unix_time (seconds_since2000_to_unix + to_bits seconds))

abbrev pub measured : Result HexError Float32 → Result ParseError Float32
measured (ok v) = ok v
measured (err e) = err (bad_measurement e)

abbrev pub channel_list : Value → Result ParseError Items
channel_list (array xs) = ok xs
channel_list _ = err not_channels

module _ ⦃u : Unicode⦄ (floats : Floats) where
  unfoldable pub as_string : Value → Result ParseError Text
  as_string (text t) = ok t
  as_string (float f) = ok (format_int (floats.to_int f))
  as_string v = err (not_text v)

  unfoldable pub as_int : Value → Result ParseError ℤ
  as_int (float f) = ok (floats.to_int f)
  as_int (int i) = ok i
  as_int v = err (not_number v)

  unfoldable pub as_float32 : Value → Result ParseError Float32
  as_float32 (float f) = ok (floats.to_float32 f)
  as_float32 (int i) = ok (floats.float32_of_int i)
  as_float32 v = err (not_number v)

  unfoldable pub parse_device_time : Value → Result ParseError Time
  unfolding as_string
  parse_device_time value = do raw ← as_string value; device_time (parse_int16 raw)

  -- parseHexFloat on a value.
  unfoldable pub parse_hex_value : Value → Result ParseError Float32
  unfolding as_string
  parse_hex_value value = do raw ← as_string value; measured (parse_hex_float raw)

  abbrev pub is_one : ℤ → Bool
  is_one (pos (suc zero)) = Bool.true
  is_one _ = Bool.false

  unfoldable pub parse_fields : Items → Result ParseError ChannelMeasurement
  unfolding as_string as_int as_float32 parse_hex_value at
  parse_fields values = do
    number ← as_int (at 0 values)
    is_binary ← as_int (at 1 values)
    name ← as_string (at 2 values)
    let binary : Result ParseError ChannelMeasurement = do
      state ← as_float32 (at 4 values)
      ok (record { number = number; name = name; unit = []; value = state })
    let analog : Result ParseError ChannelMeasurement = do
      measurement ← parse_hex_value (at 3 values)
      unit ← as_string (at 4 values)
      ok (record { number = number; name = name; unit = unit; value = measurement })
    if is_one is_binary then binary else analog

  -- parseChannel; it never returns nil with no error.
  unfoldable pub parse_channel : Value → Result ParseError ChannelMeasurement
  unfolding parse_fields
  parse_channel (array values) =
      if ltb (size values) 5 then err bad_channel_shape else parse_fields values
  parse_channel _ = err bad_channel_shape

  -- The loop over the channel items.
  unfoldable pub parse_channels :
      Items → List ChannelMeasurement → Result ParseError (List ChannelMeasurement)
  unfolding parse_channel
  parse_channels nil done = ok done
  parse_channels (cons item items) done =
      parse_channel item >>= λ channel. parse_channels items (done ++ (channel ∷ []))

  -- Parse, behind the decoding and the test of the length.
  unfoldable pub parse_items : Request → Items → Result ParseError ParseResult
  unfolding as_string parse_device_time as_float32 parse_channels at
  parse_items req raw = do
    serial ← as_string (at 6 raw)
    occurred_at ← parse_device_time (at 9 raw)
    rssi ← as_float32 (at 2 raw)
    battery ← as_float32 (at 20 raw)
    items ← channel_list (at 21 raw)
    channels ← parse_channels items []
    ok (record {
      serial = serial;
      occurred_at = occurred_at;
      channel_measurements = channels;
      battery_percent = some battery;
      signal_strength = some rssi;
      response = default_success_response;
      metadata =
          (codes "secret", MetaValue.text req.secret)
          ∷ (codes "content_type", MetaValue.text req.content_type)
          ∷ [];
    })

  abbrev pub parse_decoded : Request → Option Items → Result ParseError ParseResult
  parse_decoded req none = err bad_json
  parse_decoded req (some raw) =
      if ltb (size raw) 22 then err (bad_top_length (size raw)) else parse_items req raw

  unfoldable pub parse : (List ℕ → Option Items) → Request → Result ParseError ParseResult
  unfolding parse_items
  parse decode req = parse_decoded req (decode (strip_bom req.body))

  abbrev pub parser : (List ℕ → Option Items) → Parser ParseError
  parser decode = record {
    manufacturer = codes "comet";
    model = codes "UxxxxM";
    parse = parse decode;
  }
