-- ===== src/Comet/Websensor.antt =====
-- internal/device/comet/websensor/parser.go, from the decoded JSON on: json.Unmarshal into message
-- is the parameter `decode`, and time.Parse with RFC 3339 the parameter `parse_rfc3339`.
use device_handler.Prelude.{
  ℕ, zero, Bool, true, false, not, Option, none, some, List, [], ◌∷◌, ◌++◌, Result, ok, err, ◌>>=◌,
  ◌==◌, if◌then◌else◌,
}
use device_handler.Time.{Time, ℤ, pos, negsuc}
use device_handler.Text.{Text, Unicode, codes, equal, trim_space}
use device_handler.Telemetry.{Float32}
use device_handler.Device.{
  Request, ParseResult, ChannelMeasurement, default_success_response, MetaValue,
}
use device_handler.Device.Registry.{Parser}
use device_handler.Comet.{strip_bom, decode_string}
use device_handler.Comet.Hex.{
  HexError, measurement_error, from_bytes, normal_hex, is_measurement_error,
}

pub record MessageTime : Type 0 where
  pub now : Text
  pub sample : Text
  pub is_valid : ℤ

pub record MessageChannel : Type 0 where
  pub number : ℤ
  pub enabled : Option ℤ
  pub quantity : Text
  pub value : Text
  pub value_text : Text
  pub unit : Text
  pub decimals : ℤ
  pub type : List ℤ
  pub alarm : List ℤ
  pub alarm_mode : List ℤ
  pub bin_desc : List Text

pub record Message : Type 0 where
  pub json_type : ℤ
  pub json_version : ℤ
  pub order_id : ℤ
  pub msg_type : ℤ
  pub msg_cache : ℤ
  pub sn : Text
  pub desc : Text
  pub kind : ℤ
  pub n_conf : ℤ
  pub conf_id : Text
  pub interval : ℤ
  pub time : MessageTime
  pub channels : List MessageChannel

pub data ParseError : Type 0 where
  bad_json : ParseError
  unexpected_json_type : ℤ → ParseError
  missing_serial : ParseError
  empty_timestamp : ParseError
  bad_timestamp : Text → ParseError
  bad_value : ℤ → Text → HexError → ParseError

-- `enabled` is there and 0.
abbrev pub is_disabled : Option ℤ → Bool
is_disabled none = false
is_disabled (some (pos zero)) = true
is_disabled (some n) = false

abbrev pub is_five : ℤ → Bool
is_five (pos n) = n == 5
is_five (negsuc n) = false

-- The measurement of a channel with a value, or the channel skipped, or the payload refused.
abbrev pub channel_result :
    MessageChannel
    → Text
    → Bool
    → Result HexError Float32
    → Result ParseError (Option ChannelMeasurement)
channel_result c unit skip (ok v) =
    ok (some (record { number = c.number; name = c.quantity; unit = unit; value = v }))
channel_result c unit true (err e) = ok none
channel_result c unit false (err e) = err (bad_value c.number c.quantity e)

abbrev pub append_some :
    List ChannelMeasurement → Option ChannelMeasurement → List ChannelMeasurement
append_some done none = done
append_some done (some m) = done ++ (m ∷ [])

module _ ⦃u : Unicode⦄ where
  -- parseHexFloat of this package.
  unfoldable pub parse_hex_float : Text → Result HexError Float32
  unfolding normal_hex is_measurement_error from_bytes decode_string
  parse_hex_float value =
      let raw = normal_hex value in
      if is_measurement_error raw
      then err (measurement_error raw)
      else from_bytes (decode_string raw)

  -- parseChannel; `none` is a channel that is skipped.
  unfoldable pub parse_channel : MessageChannel → Result ParseError (Option ChannelMeasurement)
  unfolding parse_hex_float is_measurement_error
  parse_channel c =
      let quantity = trim_space c.quantity in
      if equal quantity []
      then ok none
      else if is_disabled c.enabled
      then ok none
      else channel_result (record c { quantity = quantity }) (trim_space c.unit)
          (is_measurement_error c.value) (parse_hex_float c.value)

  -- The loop over the channels.
  unfoldable pub parse_channels :
      List MessageChannel → List ChannelMeasurement → Result ParseError (List ChannelMeasurement)
  unfolding parse_channel
  parse_channels [] done = ok done
  parse_channels (c ∷ cs) done = parse_channel c >>= λ o. parse_channels cs (append_some done o)

module _ ⦃u : Unicode⦄ (parse_rfc3339 : Text → Option Time) where
  abbrev pub timestamp_of : Text → Option Time → Result ParseError Time
  timestamp_of value none = err (bad_timestamp value)
  timestamp_of value (some t) = ok t

  unfoldable pub parse_timestamp : Text → Result ParseError Time
  parse_timestamp raw =
      let value = trim_space raw in
      if equal value [] then err empty_timestamp else timestamp_of value (parse_rfc3339 value)

  -- Parse, behind the decoding and the tests of the type and the serial number.
  unfoldable pub parse_message : Request → Message → Result ParseError ParseResult
  unfolding parse_timestamp parse_channels
  parse_message req payload = do
    occurred_at ← parse_timestamp payload.time.sample
    channels ← parse_channels payload.channels []
    ok (record {
      serial = payload.sn;
      occurred_at = occurred_at;
      channel_measurements = channels;
      battery_percent = none;
      signal_strength = none;
      response = default_success_response;
      metadata =
          (codes "secret", MetaValue.text req.secret)
          ∷ (codes "content_type", MetaValue.text req.content_type)
          ∷ (codes "json_type", MetaValue.number payload.json_type)
          ∷ (codes "json_version", MetaValue.number payload.json_version)
          ∷ (codes "kind", MetaValue.number payload.kind)
          ∷ (codes "msg_type", MetaValue.number payload.msg_type)
          ∷ (codes "msg_cache", MetaValue.number payload.msg_cache)
          ∷ (codes "conf_id", MetaValue.text payload.conf_id)
          ∷ [];
    })

  abbrev pub parse_decoded : Request → Option Message → Result ParseError ParseResult
  parse_decoded req none = err bad_json
  parse_decoded req (some payload) =
      if not (is_five payload.json_type)
      then err (unexpected_json_type payload.json_type)
      else if equal (trim_space payload.sn) []
      then err missing_serial
      else parse_message req payload

  unfoldable pub parse : (List ℕ → Option Message) → Request → Result ParseError ParseResult
  unfolding parse_message
  parse decode req = parse_decoded req (decode (strip_bom req.body))

  abbrev pub parser : (List ℕ → Option Message) → Text → Parser ParseError
  parser decode model = record { manufacturer = codes "comet"; model = model; parse = parse decode }

abbrev pub supported_models : List Text
supported_models =
    codes "TA3610"
    ∷ codes "TA3611"
    ∷ codes "TA7610"
    ∷ codes "TA4611"
    ∷ codes "TA0610"
    ∷ codes "TA7611"
    ∷ codes "TA5640"
    ∷ codes "TA4621"
    ∷ codes "TA3621"
    ∷ codes "TA3645"
    ∷ codes "TA7640"
    ∷ codes "PA8652"
    ∷ codes "PA8611"
    ∷ codes "PA8641"
    ∷ codes "PA8610"
    ∷ []
