-- ===== src/Comet/Named.antt =====
-- The measurements that the parsers of internal/device/comet report.
use device_handler.Prelude.{
  ℕ, ◌+◌, ◌≡◌, ◌≢◌, refl, ap, sym, ◌∙◌, Bool, true, false, not, Option, none, some, List, [], ◌∷◌,
  ◌++◌, Result, ok, err, arith, if◌then◌else◌, All, All-append, length, length-append, bind-eq-ok,
}
use device_handler.Text.{Text, Unicode, equal, trim_space}
use device_handler.Text.Normal.{equal_iff, trim_space_idem}
use device_handler.Device.{Request, ParseResult, ChannelMeasurement}
use device_handler.Comet.{Floats, strip_bom}
use device_handler.Time.{Time}
use device_handler.Comet.Hex.{HexError}
use device_handler.Comet.Ulogger
use device_handler.Comet.Websensor
use device_handler.Comet.Websensor.{MessageChannel, append_some, channel_result, is_disabled}

-- The name of a measurement is there and trimmed.
abbrev pub IsNamed : ChannelMeasurement → Type 0
IsNamed m = (m.name ≢ []) × (trim_space m.name ≡ m.name)

module _ ⦃u : Unicode⦄ where
  channel_result-IsNamed :
      (c : MessageChannel) (unit : Text) (skip : Bool) (r : Result HexError ℕ)
      (m : ChannelMeasurement)
      → channel_result c unit skip r ≡ ok (some m)
      → m.name ≡ c.quantity
  channel_result-IsNamed c unit skip (ok v) m e = cc
  channel_result-IsNamed c unit true (err x) m e = cc
  channel_result-IsNamed c unit false (err x) m e = cc

  tests-IsNamed :
      (c : MessageChannel) (a b : Bool) (skip : Bool) (r : Result HexError ℕ)
      (m : ChannelMeasurement)
      → equal (trim_space c.quantity) [] ≡ a
      → is_disabled c.enabled ≡ b
      → (if a
          then ok none
          else if b
          then ok none
          else channel_result
              (record c { quantity = trim_space c.quantity })
              (trim_space c.unit)
              skip
              r)
        ≡ ok (some m)
      → (is_disabled c.enabled ≡ false) × IsNamed m
  tests-IsNamed c true b skip r m ha hb e = cc
  tests-IsNamed c false true skip r m ha hb e = cc
  tests-IsNamed c false false skip r m ha hb e = (
    hb,
    (
      λ blank. named (sym name ∙ blank),
      ap trim_space name ∙ (trim_space_idem c.quantity ∙ sym name),
    ),
  )
    where
      name : m.name ≡ trim_space c.quantity
      name =
          channel_result-IsNamed (record c { quantity = trim_space c.quantity }) (trim_space c.unit)
            skip r m e

      named : trim_space c.quantity ≢ []
      named blank = ground (arith, equal_iff (trim_space c.quantity) [])

  parse_channel-IsNamed :
      (c : MessageChannel) (m : ChannelMeasurement)
      → Websensor.parse_channel c ≡ ok (some m)
      → (is_disabled c.enabled ≡ false) × IsNamed m
  unfolding Websensor.parse_channel
  parse_channel-IsNamed c m e = tests-IsNamed c _ _ _ _ m refl refl e

  appended-IsNamed :
      (c : MessageChannel) (done : List ChannelMeasurement) (o : Option ChannelMeasurement)
      → Websensor.parse_channel c ≡ ok o
      → All IsNamed done
      → All IsNamed (append_some done o)
  appended-IsNamed c done none e h = h
  appended-IsNamed c done (some m) e h =
      All-append IsNamed done (m ∷ []) h ((parse_channel-IsNamed c m e).1, tt)

  parse_channels-IsNamed :
      (cs : List MessageChannel) (done : List ChannelMeasurement) {ms : List ChannelMeasurement}
      → All IsNamed done
      → Websensor.parse_channels cs done ≡ ok ms
      → All IsNamed ms
  unfolding Websensor.parse_channels
  parse_channels-IsNamed [] done {ms} h e = rw (done_eq) at h
    where
      done_eq : done ≡ ms
      done_eq = cc
  parse_channels-IsNamed (c ∷ cs) done h e =
      let (o, ho, hr) = bind-eq-ok (Websensor.parse_channel c) _ e in
      parse_channels-IsNamed cs (append_some done o) (appended-IsNamed c done o ho h) hr

  pub parse_channels-length :
      (floats : Floats) (items : Ulogger.Items) (done : List ChannelMeasurement)
      {ms : List ChannelMeasurement}
      → Ulogger.parse_channels floats items done ≡ ok ms
      → length ms ≡ length done + Ulogger.size items
  unfolding Ulogger.parse_channels
  parse_channels-length floats Ulogger.nil done e = ground arith
  parse_channels-length floats (Ulogger.cons x xs) done e =
      let (m, hm, hr) = bind-eq-ok (Ulogger.parse_channel floats x) _ e in
      ground
        (arith, parse_channels-length floats xs (done ++ (m ∷ [])) hr, length-append done (m ∷ []))

abbrev serial_of : Result Websensor.ParseError ParseResult → Text
serial_of (ok p) = p.serial
serial_of (err e) = []

abbrev measurements_of : Result Websensor.ParseError ParseResult → List ChannelMeasurement
measurements_of (ok p) = p.channel_measurements
measurements_of (err e) = []

module _ ⦃u : Unicode⦄ (parse_rfc3339 : Text → Option Time) where
  message-IsNamed :
      (req : Request) (payload : Websensor.Message) {parsed : ParseResult}
      → Websensor.parse_message parse_rfc3339 req payload ≡ ok parsed
      → (parsed.serial ≡ payload.sn) × All IsNamed parsed.channel_measurements
  unfolding Websensor.parse_message
  message-IsNamed req payload {parsed} e =
      let (t, ht, hr) =
        bind-eq-ok (Websensor.parse_timestamp parse_rfc3339 payload.time.sample) _ e in
      let (ms, hm, hp) = bind-eq-ok (Websensor.parse_channels payload.channels []) _ hr in
      (
        ap (λ r. serial_of r) (sym hp),
        rw (ap (λ r. measurements_of r) hp) at (parse_channels-IsNamed payload.channels [] tt hm),
      )

  decoded-IsNamed :
      (req : Request) (o : Option Websensor.Message) {parsed : ParseResult}
      → Websensor.parse_decoded parse_rfc3339 req o ≡ ok parsed
      → (trim_space parsed.serial ≢ []) × All IsNamed parsed.channel_measurements
  decoded-IsNamed req none e = cc
  decoded-IsNamed req (some payload) {parsed} e = tested _ _ refl e
    where
      tested :
          (a b : Bool)
          → equal (trim_space payload.sn) [] ≡ b
          → (if not a
              then err (Websensor.unexpected_json_type payload.json_type)
              else if b
              then err Websensor.missing_serial
              else Websensor.parse_message parse_rfc3339 req payload)
            ≡ ok parsed
          → (trim_space parsed.serial ≢ []) × All IsNamed parsed.channel_measurements
      tested false b hb h = cc
      tested true true hb h = cc
      tested true false hb h =
          let (serial, named) = message-IsNamed req payload h in
          (rw (serial) (λ blank. ground (arith, equal_iff (trim_space payload.sn) [])), named)

  -- An upload that the web sensor parser accepts has a serial number that is not blank, and every
  -- measurement in it has a trimmed name that is not empty.
  pub parse-IsNamed :
      (decode : List ℕ → Option Websensor.Message) (req : Request) {parsed : ParseResult}
      → Websensor.parse parse_rfc3339 decode req ≡ ok parsed
      → (trim_space parsed.serial ≢ []) × All IsNamed parsed.channel_measurements
  unfolding Websensor.parse
  parse-IsNamed decode req e = decoded-IsNamed req (decode (strip_bom req.body)) e
