-- ===== src/Main.antt =====
-- cmd/device-handler/main.go: the registry of all parsers, and the readiness function that joins
-- the syncer's with the publisher's.
pub mod Served
pub mod Ready
pub mod Start
pub mod Stop
pub mod Started
use device_handler.Prelude.{
  ℕ, Bool, true, false, Option, none, some, List, [], ◌∷◌, ◌++◌, map, Result, ok, err,
  if◌then◌else◌,
}
use device_handler.Time.{Time}
use device_handler.Text.{Text, Unicode, codes}
use device_handler.Device.{Request, ParseResult}
use device_handler.Device.Registry.{Parser, Registry, new_registry, register}
use device_handler.Comet.{Floats}
use device_handler.Comet.Ulogger
use device_handler.Comet.Websensor
use device_handler.Comet.Soaptx
use device_handler.Syncer
use device_handler.Syncer.{Syncer}
use device_handler.Publish.Jetstream
use device_handler.Publish.Jetstream.{Conn}

-- The errors of the three parsers, which share Go's interface error.
pub data ParseError : Type 0 where
  ulogger : Ulogger.ParseError → ParseError
  websensor : Websensor.ParseError → ParseError
  soaptx : Soaptx.ParseError → ParseError

abbrev pub relabelled : {E F A : Type 0} → (E → F) → Result E A → Result F A
relabelled f (ok a) = ok a
relabelled f (err e) = err (f e)

abbrev pub as_parser : {E : Type 0} → (E → ParseError) → Parser E → Parser ParseError
as_parser f p = record {
  manufacturer = p.manufacturer;
  model = p.model;
  parse = λ r. relabelled f (p.parse r);
}

-- The libraries that the parsers use.
pub record Libraries : Type 0 where
  pub floats : Floats
  pub equal_fold : Text → Text → Bool
  pub parse_rfc3339 : Text → Option Time
  pub decode_items : List ℕ → Option Ulogger.Items
  pub decode_message : List ℕ → Option Websensor.Message
  pub decode_envelope : List ℕ → Option Soaptx.Envelope

module _ ⦃u : Unicode⦄ where
  unfoldable pub register_all : {E : Type 0} → List (Parser E) → Registry E → Registry E
  unfolding register
  register_all [] r = r
  register_all (p ∷ ps) r = register_all ps (register p r)

  module _ (libs : Libraries) where
    -- The parsers in the order of their registration.
    abbrev pub parsers : List (Parser ParseError)
    parsers =
        as_parser ulogger (Ulogger.parser libs.floats libs.decode_items)
        ∷ (map
              (λ model.
                as_parser websensor (Websensor.parser libs.parse_rfc3339 libs.decode_message model))
              Websensor.supported_models
            ++ map
                (λ model.
                  as_parser soaptx
                    (Soaptx.parser libs.floats libs.equal_fold libs.decode_envelope model))
                Soaptx.supported_models)

    abbrev pub registry : Registry ParseError
    registry = register_all parsers new_registry

-- A reason for not being ready, if there is one.
abbrev pub reason_of : Text → Bool × Text → List Text
reason_of label (true, reason) = []
reason_of label (false, reason) = (label ++ reason) ∷ []

abbrev pub none_of : List Text → Bool
none_of [] = true
none_of (t ∷ ts) = false

-- The function that main gives to NewHTTPServer, at time `now`.
unfoldable pub readiness : {W : Type 0} → ℕ → Time → Syncer W → Option Conn → Bool × List Text
unfolding Syncer.ready_status Jetstream.ready_status
readiness poll_interval now s nc =
    let reasons =
      reason_of (codes "cache/api: ") (Syncer.ready_status poll_interval now s)
      ++ reason_of (codes "nats: ") (Jetstream.ready_status nc) in
    (none_of reasons, reasons)
