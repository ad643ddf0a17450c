-- ===== src/Comet/Posted.antt =====
-- The SOAP parser, internal/device/comet/soaptx, on what a device posts: for each quantity nothing,
-- a value, or a value that reports an error.
use device_handler.Prelude.{
  ℕ, ◌≡◌, ◌≢◌, refl, ap, ◌∙◌, ◌⊎◌, inl, inr, Bool, true, false, Bool-cases, Option, none, some,
  List, [], ◌∷◌, ◌++◌, ok, All,
}
use device_handler.Time.{pos}
use device_handler.Text.{Text, Unicode, codes, equal, trim_space}
use device_handler.Text.Normal.{equal_iff}
use device_handler.Telemetry.{Float32}
use device_handler.Device.{Request, ParseResult, ChannelMeasurement}
use device_handler.Comet.{Floats, Float64, strip_bom}
use device_handler.Comet.Printed.{IsReadAs}
use device_handler.Comet.Soaptx.{
  BaseSample, Tx5xxSample, Tx5xxCo2Sample, Envelope, Quantity, temperature, relative_humidity,
  computed_quantity, pressure, co2, Parsed, normalize_temperature_unit, normalize_pressure_unit,
  normalize_computed_unit, checked, parse_optional_float, high_and_low, low, co2_errors, with_value,
  computed_name, parse_base_sample, parse_pressure, parse_co2, parse_body, parse,
}

-- A quantity with its name and unit, and its value, if there is one.
pub record Posted : Type 0 where
  pub name : Text
  pub unit : Text
  pub value : Option Float32

abbrev pub with_head :
    Text → Text → Option Float32 → List ChannelMeasurement → List ChannelMeasurement
with_head n unit none ms = ms
with_head n unit (some v) ms = record { number = pos 0; name = n; unit = unit; value = v } ∷ ms

-- The measurements of the quantities that have a value.
abbrev pub present : List Posted → List ChannelMeasurement
present [] = []
present (p ∷ ps) = with_head p.name p.unit p.value (present ps)

with_value-head :
    (a b n unit : Text) (x o : Option Float32) (ms : List ChannelMeasurement)
    → with_value (with_head a b x ms) n unit o ≡ with_head a b x (with_value ms n unit o)
with_value-head a b n unit none o ms = refl
with_value-head a b n unit (some v) none ms = refl
with_value-head a b n unit (some v) (some w) ms = refl

with_value-present :
    (ps : List Posted) (n unit : Text) (o : Option Float32)
    → with_value (present ps) n unit o
      ≡ present (ps ++ (record { name = n; unit = unit; value = o } ∷ []))
with_value-present [] n unit none = refl
with_value-present [] n unit (some v) = refl
with_value-present (p ∷ ps) n unit o =
    with_value-head p.name p.unit n unit p.value o (present ps)
    ∙ ap (with_head p.name p.unit p.value) (with_value-present ps n unit o)

three_channels :
    (a b c d e f : Text) (t h q : Option Float32)
    → with_value (with_value (with_value [] a b t) c d h) e f q
      ≡ with_head a b t (with_head c d h (with_head e f q []))
three_channels a b c d e f none none none = refl
three_channels a b c d e f none none (some z) = refl
three_channels a b c d e f none (some y) none = refl
three_channels a b c d e f none (some y) (some z) = refl
three_channels a b c d e f (some x) none none = refl
three_channels a b c d e f (some x) none (some z) = refl
three_channels a b c d e f (some x) (some y) none = refl
three_channels a b c d e f (some x) (some y) (some z) = refl

module _ ⦃u : Unicode⦄ (floats : Floats) where
  -- The value is the same as one of these.
  abbrev pub Meets : Float64 → List Float64 → Type 0
  Meets f [] = ⊥
  Meets f (e ∷ es) = (floats.same f e ≡ true) ⊎ Meets f es

  -- What a device posts in one element: nothing, a number that is none of the error values, or one
  -- that is.
  pub data Posts (errors : List Float64) (raw : Text) : Option Float32 → Type 0 where
    absent : trim_space raw ≡ [] → Posts errors raw none
    measured :
        {f : Float64}
        → trim_space raw ≢ []
        → floats.parse_float (trim_space raw) ≡ some f
        → All (λ e. floats.same f e ≡ false) errors
        → Posts errors raw (some (floats.to_float32 f))
    faulty :
        {f : Float64}
        → trim_space raw ≢ []
        → floats.parse_float (trim_space raw) ≡ some f
        → Meets f errors
        → Posts errors raw none

  checked-none : (f : Float64) (es : List Float64) → Meets f es → checked floats f es ≡ none
  unfolding checked
  checked-none f [] h = absurd h
  checked-none f (e ∷ es) (inl h) = rw h refl
  checked-none f (e ∷ es) (inr h) = elim (Bool-cases (floats.same f e)) [
    | inl t ↦ rw t refl
    | inr n ↦ rw n (checked-none f es h)
  ]

  checked-some :
      (f : Float64) (es : List Float64)
      → All (λ e. floats.same f e ≡ false) es
      → checked floats f es ≡ some (floats.to_float32 f)
  unfolding checked
  checked-some f [] h = refl
  checked-some f (e ∷ es) h = rw (h.0) (checked-some f es h.1)

  filled : (t : Text) → t ≢ [] → equal t [] ≡ false
  filled t h = elim (Bool-cases (equal t [])) [
    | inl e ↦ absurd (h ((equal_iff t []).0 e))
    | inr e ↦ e
  ]

  parse_optional_float-Posts :
      (q : Quantity) (errors : List Float64) (raw : Text) {o : Option Float32}
      → Posts errors raw o
      → parse_optional_float floats q raw errors ≡ ok o
  unfolding parse_optional_float
  parse_optional_float-Posts q errors raw (absent h) =
      simp ((equal_iff (trim_space raw) []).1 h) refl
  parse_optional_float-Posts q errors raw (measured {f} h p a) =
      simp (filled (trim_space raw) h, p) (ap ok (checked-some f errors a))
  parse_optional_float-Posts q errors raw (faulty {f} h p m) =
      simp (filled (trim_space raw) h, p) (ap ok (checked-none f errors m))

module _ ⦃u : Unicode⦄ (floats : Floats) (equal_fold : Text → Text → Bool) where
  -- The three quantities of every sample, with their names and units.
  abbrev pub base_quantities :
      BaseSample → Option Float32 → Option Float32 → Option Float32 → List Posted
  base_quantities sample t h q =
      let computed = computed_name equal_fold sample.comp_type in
      record {
        name = codes "Temperature";
        unit = normalize_temperature_unit sample.temp_u;
        value = t;
      }
      ∷ record { name = codes "Relative humidity"; unit = codes "%RH"; value = h }
      ∷ record { name = computed; unit = normalize_computed_unit computed sample.temp_u; value = q }
      ∷ []

  -- A sample with a serial number and these three values.
  pub record BasePosts (sample : BaseSample) (t h q : Option Float32) : Type 0 where
    pub serial : trim_space sample.pass_key ≢ []
    pub temperature_posted : Posts floats (high_and_low floats) sample.temp t
    pub humidity_posted : Posts floats (high_and_low floats) sample.rel_hum h
    pub quantity_posted : Posts floats (high_and_low floats) sample.comp_quant q

  -- The body of the envelope, by its first element: the sample, and all its quantities.
  pub data BodyPosts
      : Option Tx5xxSample → Option Tx5xxCo2Sample → Text → List Posted → Type 0 where
    pressure_posted :
        {sample : Tx5xxSample} {other : Option Tx5xxCo2Sample} {t h q p : Option Float32}
        → BasePosts sample.base t h q
        → Posts floats (low floats) sample.pressure p
        → BodyPosts (some sample) other (trim_space sample.base.pass_key) (
            base_quantities sample.base t h q
            ++ (record { name = codes "Pressure"; unit = trim_space sample.pressure_u; value = p }
                ∷ []))
    co2_posted :
        {sample : Tx5xxCo2Sample} {t h q c : Option Float32}
        → BasePosts sample.base t h q
        → Posts floats (co2_errors floats) sample.co2 c
        → BodyPosts none (some sample) (trim_space sample.base.pass_key) (
            base_quantities sample.base t h q
            ++ (record { name = codes "CO2"; unit = codes "ppm"; value = c } ∷ []))

  -- What the parser makes of a body.
  pub record IsParsedAs (serial : Text) (ps : List Posted) (p : Parsed) : Type 0 where
    pub serial_is : p.serial ≡ serial
    pub channels_are : p.channels ≡ present ps

  parse_base_sample-Posts :
      (sample : BaseSample) {t h q : Option Float32}
      → BasePosts sample t h q
      → (p : Parsed) × (parse_base_sample floats equal_fold sample ≡ ok p)
        × IsParsedAs (trim_space sample.pass_key) (base_quantities sample t h q) p
  unfolding parse_base_sample
  parse_base_sample-Posts sample {t} {h} {q} b =
      simp
        (
          filled floats (trim_space sample.pass_key) b.serial,
          parse_optional_float-Posts floats temperature (high_and_low floats) sample.temp
              b.temperature_posted,
          parse_optional_float-Posts floats relative_humidity (high_and_low floats) sample.rel_hum
              b.humidity_posted,
          parse_optional_float-Posts floats computed_quantity (high_and_low floats)
              sample.comp_quant b.quantity_posted,
        )
        (_, refl, record { serial_is = refl; channels_are = three_channels _ _ _ _ _ _ t h q })

  -- The quantity behind those of every sample.
  last-present :
      (ps : List Posted) (n unit : Text) (o : Option Float32) (ms : List ChannelMeasurement)
      → ms ≡ present ps
      → with_value ms n unit o ≡ present (ps ++ (record { name = n; unit = unit; value = o } ∷ []))
  last-present ps n unit o ms e = ap (λ l. with_value l n unit o) e ∙ with_value-present ps n unit o

  parse_body-BodyPosts :
      (x : Option Tx5xxSample) (y : Option Tx5xxCo2Sample) {serial : Text} {ps : List Posted}
      → BodyPosts x y serial ps
      → (p : Parsed) × (parse_body floats equal_fold x y ≡ ok p) × IsParsedAs serial ps p
  unfolding parse_body parse_pressure parse_co2
  parse_body-BodyPosts x y (pressure_posted {sample} {other} {t} {h} {q} {p} b l) =
      let (r, e, i) = parse_base_sample-Posts sample.base b in
      rw (e, parse_optional_float-Posts floats pressure (low floats) sample.pressure l)
        (
          _,
          refl,
          record {
            serial_is = i.serial_is;
            channels_are =
                unfold normalize_pressure_unit in
                last-present (base_quantities sample.base t h q) _ _ p r.channels i.channels_are;
          },
        )
  parse_body-BodyPosts x y (co2_posted {sample} {t} {h} {q} {c} b l) =
      let (r, e, i) = parse_base_sample-Posts sample.base b in
      rw (e, parse_optional_float-Posts floats co2 (co2_errors floats) sample.co2 l)
        (
          _,
          refl,
          record {
            serial_is = i.serial_is;
            channels_are =
                last-present (base_quantities sample.base t h q) _ _ c r.channels i.channels_are;
          },
        )

  -- An envelope whose body is a sample with a serial number is accepted, if each of its quantities
  -- is absent, a number, or one of the error values of the quantity; the upload has the serial
  -- number, the time of the request, and one measurement for each number that is no error value, in
  -- the order of the quantities, with its name and unit.
  pub parse-posted :
      (decode : List ℕ → Option Envelope) (req : Request) (e : Envelope) {serial : Text}
      {ps : List Posted}
      → decode (strip_bom req.body) ≡ some e
      → BodyPosts e.insert_tx5xx_sample e.insert_tx5xx_co2_sample serial ps
      → (parsed : ParseResult) × (parse floats equal_fold decode req ≡ ok parsed)
        × IsReadAs serial req.received_at (present ps) parsed
  unfolding parse
  parse-posted decode req e hd b =
      let (p, h, i) = parse_body-BodyPosts e.insert_tx5xx_sample e.insert_tx5xx_co2_sample b in
      rw (hd, h)
        (
          _,
          refl,
          record { serial = i.serial_is; occurred_at = refl; measurements = i.channels_are },
        )
