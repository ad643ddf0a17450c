-- ===== src/Tests/Parsers.antt =====
-- Examples for the parsers.
use device_handler.Prelude.{
  ℕ, zero, suc, ◌≡◌, refl, false, Option, none, some, List, [], ◌∷◌, ◌++◌, All, ok, err,
  if◌then◌else◌, map, arith,
}
use device_handler.Time.{Time, ℤ, pos, negsuc}
use device_handler.Text.{Text, codes, equal, trim_space}
use device_handler.Device.{ParseResult, ChannelMeasurement, default_success_response, MetaValue}
use device_handler.Comet.{Floats, Float64, strip_bom}
use device_handler.Comet.Hex.{measurement_error, parse_hex_float}
use device_handler.Comet.Bits.{digit, digits8, is_error_code, parse_hex_float-digits}
use device_handler.Comet.Ulogger
use device_handler.Comet.Ulogger.{Value, Items, cons, nil, float, array}
use device_handler.Comet.Websensor
use device_handler.Comet.Websensor.{Message, MessageChannel}
use device_handler.Comet.Printed.{channel_of, valid, IsPrintable, IsReadAs, parse-printed}
use device_handler.Comet.Logged.{items_of, IsLoggable, parse-logged}
use device_handler.Comet.Soaptx
use device_handler.Comet.Soaptx.{BaseSample, Envelope, Tx5xxSample}
use device_handler.Comet.Posted.{
  Posted, present, absent, measured, base_quantities, BodyPosts, pressure_posted, parse-posted,
}
use device_handler.Tests.{ascii, request}

-- 20.5 as a float32
parse_hex_float-digits_example : parse_hex_float (map digit (digits8 0x41a40000)) ≡ (
    if is_error_code 0x41a40000
    then err (measurement_error (map digit (digits8 0x41a40000)))
    else ok 0x41a40000)
parse_hex_float-digits_example = parse_hex_float-digits 0x41a40000 (omega arith)

abbrev channel : Text → Text → MessageChannel
channel quantity value = record {
  number = pos 1;
  enabled = some (pos 1);
  quantity = quantity;
  value = value;
  value_text = [];
  unit = codes "C";
  decimals = pos 1;
  type = [];
  alarm = [];
  alarm_mode = [];
  bin_desc = [];
}

-- A message with a channel without a name, one with a value and one with a measuring error.
abbrev message : Message
message = record {
  json_type = pos 5;
  json_version = pos 1;
  order_id = pos 0;
  msg_type = pos 0;
  msg_cache = pos 0;
  sn = codes "A1";
  desc = [];
  kind = pos 0;
  n_conf = pos 0;
  conf_id = [];
  interval = pos 0;
  time = record { now = []; sample = codes "now"; is_valid = pos 1 };
  channels =
      channel [] []
      ∷ channel (codes " Temperature") (codes "0x41a40000")
      ∷ channel (codes "CO2") (codes "ff810001")
      ∷ [];
}

abbrev clock : Text → Option Time
clock t = some 5

abbrev read_message : List ℕ → Option Message
read_message body = some message

abbrev parsed : ParseResult
parsed = record {
  serial = codes "A1";
  occurred_at = 5;
  channel_measurements =
      record { number = pos 1; name = codes "Temperature"; unit = codes "C"; value = 0x41a40000 }
      ∷ [];
  battery_percent = none;
  signal_strength = none;
  response = default_success_response;
  metadata =
      (codes "secret", MetaValue.text [])
      ∷ (codes "content_type", MetaValue.text [])
      ∷ (codes "json_type", MetaValue.number (pos 5))
      ∷ (codes "json_version", MetaValue.number (pos 1))
      ∷ (codes "kind", MetaValue.number (pos 0))
      ∷ (codes "msg_type", MetaValue.number (pos 0))
      ∷ (codes "msg_cache", MetaValue.number (pos 0))
      ∷ (codes "conf_id", MetaValue.text [])
      ∷ [];
}

message_read : Websensor.parse clock read_message request ≡ ok parsed
unfolding Websensor.parse device_handler.Text.equal trim_space device_handler.Text.trim_right
    device_handler.Text.trim_left device_handler.Text.is_space device_handler.Text.has_prefix
    device_handler.Text.to_lower device_handler.Text.trim_prefix device_handler.Text.rune_lower
message_read = refl

-- A temperature, and a measuring error.
abbrev written : List ChannelMeasurement
written =
    record { number = pos 1; name = codes "Temperature"; unit = codes "C"; value = 0x41a40000 }
    ∷ record { number = pos 2; name = codes "CO2"; unit = codes "ppm"; value = 0xff810001 }
    ∷ []

abbrev printed : Message
printed = record message { channels = map channel_of written }

written-IsPrintable : All IsPrintable written
unfolding trim_space device_handler.Text.trim_right device_handler.Text.trim_left
    device_handler.Text.is_space
written-IsPrintable = (
  record { named = (λ e. cc, refl); trimmed = refl; bits = omega arith },
  (record { named = (λ e. cc, refl); trimmed = refl; bits = omega arith }, tt),
)

now_read : Websensor.parse_timestamp clock (codes "now") ≡ ok 5
unfolding Websensor.parse_timestamp equal trim_space device_handler.Text.trim_right
    device_handler.Text.trim_left device_handler.Text.is_space
now_read = refl

parse-printed_example :
    (p : ParseResult) × (Websensor.parse clock (λ body. some printed) request ≡ ok p)
    × IsReadAs (codes "A1") 5 (valid written) p
parse-printed_example =
    parse-printed clock (λ body. some printed) request printed 5 written refl refl
      (unfold trim_space in
        unfold device_handler.Text.trim_right in
        unfold device_handler.Text.trim_left in unfold device_handler.Text.is_space in λ e. cc)
      now_read refl written-IsPrintable

-- Floats that are all whole numbers.
abbrev whole : Floats
whole = record {
  to_int = λ f. pos f;
  to_float32 = λ f. f;
  of_int = λ n. 0;
  float32_of_int = λ n. 0;
  same = λ f g. false;
  parse_float = λ t. none;
}

abbrev blank : ℕ → Items → Items
blank zero rest = rest
blank (suc n) rest = cons (float 0) (blank n rest)

-- 22 values, of which the last one is a list of one channel with a binary state.
abbrev values : Items
values =
    let channels : Value = array (
      cons
        (array (
          cons (float 1) (
            cons (float 1)
              (cons (Value.text (codes "Door")) (cons (float 0) (cons (float 1) nil))))))
        nil) in
    cons (float 0) (
      cons (float 0) (
        cons (float 0) (
          cons (float 0) (
            cons (float 0) (
              cons (float 0) (
                cons (Value.text (codes "A1")) (
                  cons (float 0) (
                    cons (float 0) (
                      cons (Value.text (codes "2a"))
                        (blank 10 (cons (float 80) (cons channels nil))))))))))))

abbrev read_values : List ℕ → Option Items
read_values body = some values

abbrev logged : ParseResult
logged = record {
  serial = codes "A1";
  occurred_at = 9223372099937057450000000000;
  channel_measurements = record { number = pos 1; name = codes "Door"; unit = []; value = 1 } ∷ [];
  battery_percent = some 80;
  signal_strength = some 0;
  response = default_success_response;
  metadata = (codes "secret", MetaValue.text []) ∷ (codes "content_type", MetaValue.text []) ∷ [];
}

values_read : Ulogger.parse whole read_values request ≡ ok logged
unfolding Ulogger.parse device_handler.Comet.parse_int16 mathlib.Core.Option.bind
    device_handler.Time.unix_time
values_read = refl

-- The numbers of channels as such floats.
abbrev number_of : ℤ → Float64
number_of (pos n) = n
number_of (negsuc n) = 0

abbrev humidities : List ChannelMeasurement
humidities =
    record { number = pos 3; name = codes "Humidity"; unit = codes "%"; value = 0x42480000 } ∷ []

-- The same values with the list of these channels at the end.
abbrev humid_values : Items
humid_values = blank 6 (
    cons (Value.text (codes "A1")) (
      blank 2 (
        cons (Value.text (codes "2a"))
          (blank 10 (cons (float 80) (cons (array (items_of whole number_of humidities)) nil))))))

humidities-IsLoggable : All (IsLoggable whole number_of) humidities
humidities-IsLoggable = (record { number = refl; bits = omega arith; valid = refl }, tt)

device_time_read :
    Ulogger.parse_device_time whole (Ulogger.at 9 humid_values) ≡ ok 9223372099937057450000000000
unfolding Ulogger.parse_device_time device_handler.Comet.parse_int16 mathlib.Core.Option.bind
    device_handler.Time.unix_time Ulogger.at
device_time_read = refl

parse-logged_example :
    (p : ParseResult) × (Ulogger.parse whole (λ body. some humid_values) request ≡ ok p)
    × IsReadAs (codes "A1") 9223372099937057450000000000 humidities p
    × (p.signal_strength ≡ some 0)
    × (p.battery_percent ≡ some 80)
unfolding Ulogger.as_float32 Ulogger.at
parse-logged_example =
    parse-logged whole number_of (λ body. some humid_values) request humid_values (codes "A1")
      9223372099937057450000000000 0 80 humidities refl (omega arith) refl device_time_read refl
      refl refl refl humidities-IsLoggable

abbrev soap_base : BaseSample
soap_base = record {
  pass_key = codes "A1";
  device = [];
  temp = codes "20";
  rel_hum = [];
  comp_quant = codes "20";
  alarms = [];
  comp_type = codes "n/a";
  temp_u = codes "c";
  timer = [];
}

abbrev soap : Envelope
soap = record {
  insert_tx5xx_sample = some (record { base = soap_base; pressure = []; pressure_u = [] });
  insert_tx5xx_co2_sample = none;
}

abbrev read_soap : List ℕ → Option Envelope
read_soap body = some soap

-- Every text is read as the number 20.
abbrev twenty : Floats
twenty = record whole { parse_float = λ t. some 20 }

abbrev received : ParseResult
received = record {
  serial = codes "A1";
  occurred_at = 6;
  channel_measurements =
      record { number = pos 0; name = codes "Temperature"; unit = codes "°C"; value = 20 }
      ∷ record { number = pos 0; name = codes "Computed quantity"; unit = []; value = 20 }
      ∷ [];
  battery_percent = none;
  signal_strength = none;
  response = default_success_response;
  metadata =
      (codes "secret", MetaValue.text [])
      ∷ (codes "content_type", MetaValue.text [])
      ∷ (codes "schema", MetaValue.text (codes "soapTx5xx_v2"))
      ∷ (codes "device_code", MetaValue.text [])
      ∷ (codes "timer", MetaValue.text [])
      ∷ [];
}

soap_read : Soaptx.parse twenty equal read_soap request ≡ ok received
unfolding Soaptx.parse equal trim_space device_handler.Text.trim_right device_handler.Text.trim_left
    device_handler.Text.is_space device_handler.Text.to_upper device_handler.Text.to_lower
    device_handler.Text.rune_upper device_handler.Text.rune_lower
soap_read = refl

abbrev posted : List Posted
posted =
    base_quantities twenty equal soap_base (some 20) none (some 20)
    ++ (record { name = codes "Pressure"; unit = trim_space []; value = none } ∷ [])

soap-BodyPosts :
    BodyPosts twenty equal soap.insert_tx5xx_sample none (trim_space (codes "A1")) posted
unfolding trim_space device_handler.Text.trim_right device_handler.Text.trim_left
    device_handler.Text.is_space
soap-BodyPosts =
    pressure_posted
      (record {
        serial = λ e. cc;
        temperature_posted = measured {f = 20} (λ e. cc) refl (refl, (refl, tt));
        humidity_posted = absent refl;
        quantity_posted = measured {f = 20} (λ e. cc) refl (refl, (refl, tt));
      })
      (absent refl)

parse-posted_example :
    (p : ParseResult) × (Soaptx.parse twenty equal read_soap request ≡ ok p)
    × IsReadAs (trim_space (codes "A1")) 6 (present posted) p
parse-posted_example = parse-posted twenty equal read_soap request soap refl soap-BodyPosts
