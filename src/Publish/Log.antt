-- ===== src/Publish/Log.antt =====
-- internal/publish/log_publisher.go: Publish of the log publisher, whose only error is that of
-- json.Marshal, the parameter `marshal`.
use device_handler.Prelude.{ℕ, Option, none, some, List, Result, ok, err}
use device_handler.Text.{Text}
use device_handler.Telemetry.{Batch}

module _ {X : Type 0} where
  abbrev error_of : Result X (List ℕ) → Option X
  error_of (ok payload) = none
  error_of (err x) = some x

  unfoldable publish : (Batch → Result X (List ℕ)) → Text → Batch → Option X
  publish marshal subject batch = error_of (marshal batch)
