-- ===== src/Device/Registry.antt =====
-- internal/device/registry.go
use device_handler.Prelude.{◌≡◌, Option, some, [], Result, if◌then◌else◌}
use device_handler.Text.{Text, Unicode, equal}
use device_handler.Dict
use device_handler.Dict.{Dict, lookup-insert}
use device_handler.Device.{Request, ParseResult, parser_key}

-- The interface Parser; `E` is the type of the parsers' errors.
pub record Parser (E : Type 0) : Type 0 where
  pub manufacturer : Text
  pub model : Text
  pub parse : Request → Result E ParseResult

pub record Registry (E : Type 0) : Type 0 where
  pub parsers : Dict (Parser E)

abbrev pub new_registry : {E : Type 0} → Registry E
new_registry = record { parsers = [] }

module _ ⦃u : Unicode⦄ {E : Type 0} where
  unfoldable pub register : Parser E → Registry E → Registry E
  register p r = record { parsers = Dict.insert (parser_key p.manufacturer p.model) p r.parsers }

  unfoldable pub lookup : Registry E → Text → Text → Option (Parser E)
  lookup r manufacturer model = Dict.lookup (parser_key manufacturer model) r.parsers

  -- After Register the parser serves every spelling of its manufacturer and model, and every other
  -- device is served as before.
  pub lookup-register :
      (p : Parser E) (r : Registry E) (manufacturer model : Text)
      → lookup (register p r) manufacturer model ≡ (
          if equal (parser_key p.manufacturer p.model) (parser_key manufacturer model)
          then some p
          else lookup r manufacturer model)
  unfolding lookup register
  lookup-register p r manufacturer model = lookup-insert _ _ p r.parsers
