-- ===== src/Comet/Soaptx.antt =====
-- internal/device/comet/soaptx/parser.go, from the decoded XML on: xml.Unmarshal into envelope is
-- the parameter `decode`.
use device_handler.Prelude.{
  ℕ, Bool, ◌||◌, Option, none, some, List, [], ◌∷◌, ◌++◌, Result, ok, err, ◌>>=◌, if◌then◌else◌,
}
use device_handler.Time.{pos, negsuc}
use device_handler.Text.{Text, Unicode, codes, equal, trim_space, to_lower, to_upper}
use device_handler.Telemetry.{Float32}
use device_handler.Device.{
  Request, ParseResult, ChannelMeasurement, default_success_response, MetaValue,
}
use device_handler.Device.Registry.{Parser}
use device_handler.Comet.{Floats, Float64, strip_bom}

pub record BaseSample : Type 0 where
  pub pass_key : Text
  pub device : Text
  pub temp : Text
  pub rel_hum : Text
  pub comp_quant : Text
  pub alarms : Text
  pub comp_type : Text
  pub temp_u : Text
  pub timer : Text

pub record Tx5xxSample : Type 0 where
  pub base : BaseSample
  pub pressure : Text
  pub pressure_u : Text

pub record Tx5xxCo2Sample : Type 0 where
  pub base : BaseSample
  pub co2 : Text
  pub lev1 : Text
  pub lev2 : Text
  pub lev3 : Text

-- The body of the envelope, by the elements that are there.
pub record Envelope : Type 0 where
  pub insert_tx5xx_sample : Option Tx5xxSample
  pub insert_tx5xx_co2_sample : Option Tx5xxCo2Sample

pub data Quantity : Type 0 where
  temperature relative_humidity computed_quantity pressure co2 : Quantity

-- What Parse wraps, by its messages.
pub data ParseError : Type 0 where
  bad_xml : ParseError
  unsupported_body : ParseError
  missing_pass_key : ParseError
  bad_float : Quantity → Text → ParseError

-- parseResult of this package.
pub record Parsed : Type 0 where
  pub serial : Text
  pub device_code : Text
  pub timer : Text
  pub schema : Text
  pub channels : List ChannelMeasurement

module _ ⦃u : Unicode⦄ where
  unfoldable pub normalize_temperature_unit : Text → Text
  normalize_temperature_unit raw =
      let unit = to_upper (trim_space raw) in
      if equal unit (codes "C") || equal unit (codes "°C")
      then codes "°C"
      else if equal unit (codes "F") || equal unit (codes "°F")
      then codes "°F"
      else trim_space raw

  unfoldable pub normalize_pressure_unit : Text → Text
  normalize_pressure_unit raw = trim_space raw

  unfoldable pub normalize_computed_unit : Text → Text → Text
  unfolding normalize_temperature_unit
  normalize_computed_unit name temp_unit =
      if equal (to_lower (trim_space name)) (codes "dew point")
      then normalize_temperature_unit temp_unit
      else []

module _ (floats : Floats) where
  -- The loop over the error values, and the conversion behind it.
  unfoldable pub checked : Float64 → List Float64 → Option Float32
  checked parsed [] = some (floats.to_float32 parsed)
  checked parsed (e ∷ es) =
      let rest = checked parsed es in if floats.same parsed e then none else rest

  abbrev pub float_result :
      Quantity → Text → Option Float64 → List Float64 → Result ParseError (Option Float32)
  float_result q value none errors = err (bad_float q value)
  float_result q value (some parsed) errors = ok (checked parsed errors)

  -- parseOptionalFloat, with the message that its error is wrapped in.
  unfoldable pub parse_optional_float :
      Quantity → Text → List Float64 → Result ParseError (Option Float32)
  unfolding checked
  parse_optional_float q raw errors =
      let value = trim_space raw in
      if equal value [] then ok none else float_result q value (floats.parse_float value) errors

  -- The values by which the device reports an error.
  abbrev pub high_and_low : List Float64
  high_and_low = floats.of_int (pos 9999) ∷ floats.of_int (negsuc 9998) ∷ []

  abbrev pub low : List Float64
  low = floats.of_int (negsuc 9998) ∷ []

  abbrev pub co2_errors : List Float64
  co2_errors = floats.of_int (negsuc 9997) ∷ floats.of_int (negsuc 9998) ∷ []

-- The append of an optional measurement; the number is left at 0.
abbrev pub with_value :
    List ChannelMeasurement → Text → Text → Option Float32 → List ChannelMeasurement
with_value done name unit none = done
with_value done name unit (some v) =
    done ++ (record { number = pos 0; name = name; unit = unit; value = v } ∷ [])

module _ (equal_fold : Text → Text → Bool) where
  -- `equal_fold` is strings.EqualFold, the comparison by simple case folding.
  unfoldable pub computed_name : Text → Text
  computed_name comp_type =
      let name = trim_space comp_type in
      if equal name [] || equal_fold name (codes "n/a") then codes "Computed quantity" else name

module _ ⦃u : Unicode⦄ (floats : Floats) (equal_fold : Text → Text → Bool) where
  unfoldable pub parse_base_sample : BaseSample → Result ParseError Parsed
  unfolding parse_optional_float computed_name normalize_temperature_unit normalize_computed_unit
  parse_base_sample sample =
      let serial = trim_space sample.pass_key in
      let rest : Result ParseError Parsed = (do
        temp ← parse_optional_float floats temperature sample.temp (high_and_low floats)
        humidity ←
            parse_optional_float floats relative_humidity sample.rel_hum (high_and_low floats)
        quantity ←
            parse_optional_float floats computed_quantity sample.comp_quant (high_and_low floats)
        let one =
            with_value [] (codes "Temperature") (normalize_temperature_unit sample.temp_u) temp
        let two = with_value one (codes "Relative humidity") (codes "%RH") humidity
        let name = computed_name equal_fold sample.comp_type
        ok (record {
          serial = serial;
          device_code = trim_space sample.device;
          timer = trim_space sample.timer;
          schema = [];
          channels = with_value two name (normalize_computed_unit name sample.temp_u) quantity;
        })) in
      if equal serial [] then err missing_pass_key else rest

  unfoldable pub parse_pressure : Tx5xxSample → Result ParseError Parsed
  unfolding parse_base_sample parse_optional_float normalize_pressure_unit
  parse_pressure sample = do
    result ← parse_base_sample sample.base
    value ← parse_optional_float floats pressure sample.pressure (low floats)
    ok (record result {
      schema = codes "soapTx5xx_v2";
      channels =
          with_value result.channels (codes "Pressure") (normalize_pressure_unit sample.pressure_u)
            value;
    })

  unfoldable pub parse_co2 : Tx5xxCo2Sample → Result ParseError Parsed
  unfolding parse_base_sample parse_optional_float
  parse_co2 sample = do
    result ← parse_base_sample sample.base
    value ← parse_optional_float floats co2 sample.co2 (co2_errors floats)
    ok (record result {
      schema = codes "soapTx5xxCO2";
      channels = with_value result.channels (codes "CO2") (codes "ppm") value;
    })

  -- The switch on the body; the first element wins.
  unfoldable pub parse_body : Option Tx5xxSample → Option Tx5xxCo2Sample → Result ParseError Parsed
  unfolding parse_pressure parse_co2
  parse_body (some sample) o = parse_pressure sample
  parse_body none (some sample) = parse_co2 sample
  parse_body none none = err unsupported_body

  abbrev pub parse_decoded : Request → Option Envelope → Result ParseError ParseResult
  parse_decoded req none = err bad_xml
  parse_decoded req (some e) = do
    parsed ← parse_body e.insert_tx5xx_sample e.insert_tx5xx_co2_sample
    ok (record {
      serial = parsed.serial;
      occurred_at = req.received_at;
      channel_measurements = parsed.channels;
      battery_percent = none;
      signal_strength = none;
      response = default_success_response;
      metadata =
          (codes "secret", MetaValue.text req.secret)
          ∷ (codes "content_type", MetaValue.text req.content_type)
          ∷ (codes "schema", MetaValue.text parsed.schema)
          ∷ (codes "device_code", MetaValue.text parsed.device_code)
          ∷ (codes "timer", MetaValue.text parsed.timer)
          ∷ [];
    })

  unfoldable pub parse : (List ℕ → Option Envelope) → Request → Result ParseError ParseResult
  unfolding parse_body
  parse decode req = parse_decoded req (decode (strip_bom req.body))

  abbrev pub parser : (List ℕ → Option Envelope) → Text → Parser ParseError
  parser decode model = record { manufacturer = codes "comet"; model = model; parse = parse decode }

abbrev pub supported_models : List Text
supported_models =
    codes "T3511"
    ∷ codes "T4511"
    ∷ codes "T7511"
    ∷ codes "T2514"
    ∷ codes "T0510"
    ∷ codes "T3510"
    ∷ codes "T7510"
    ∷ codes "T0610"
    ∷ codes "T4611"
    ∷ codes "T3610"
    ∷ codes "T3611"
    ∷ codes "T7610"
    ∷ codes "T7611"
    ∷ codes "T7613D"
    ∷ codes "T5540"
    ∷ codes "T6540"
    ∷ codes "T5541"
    ∷ codes "T6541"
    ∷ codes "T6640"
    ∷ codes "T5640"
    ∷ codes "T5545"
    ∷ codes "T6545"
    ∷ codes "T5641"
    ∷ codes "T6641"
    ∷ []
