-- ===== src/Server.antt =====
-- internal/ingest/server.go: the handlers of the HTTP server, from the parts of a request that they
-- read to the status and the body that they write. Routing is the standard library's.
pub mod Replies
pub mod Routes
pub mod Sessions
use device_handler.Prelude.{
  ℕ, ◌≡◌, ◌≢◌, refl, Bool, true, false, ◌||◌, not, Option, none, some, List, [], ◌∷◌, ◌++◌, Result,
  ok, err, arith, if◌then◌else◌, ◌⊎◌, inl, inr, Bool-cases, ◌<◌, ◌≤◌,
}
use device_handler.Time.{Time}
use device_handler.Text.{Text, Unicode, codes, equal, trim_space}
use device_handler.Text.Normal.{equal_iff}
use device_handler.Device.{Request, Response}
use device_handler.Device.Registry.{Registry}
use device_handler.Action.{Action, continue}
use device_handler.Publish.{PublishConfig}
use device_handler.Ingest.State.{
  Remote, HandleError, unsupported_device, parse_failed, refresh_updated_failed,
  refresh_full_failed, device_not_found, create_channel_failed, cache_update_failed, build_failed,
  Service,
}
use device_handler.Ingest.Handle.{handle}

-- What a handler writes. The text of an error is left open, as in http.Error(w, err.Error(), status).
pub data Reply (Err : Type 0) : Type 0 where
  body : ℕ → Text → List ℕ → Reply Err
  http_error : ℕ → Text → Reply Err
  failed : ℕ → Err → Reply Err

abbrev pub status_code : {Err : Type 0} → Reply Err → ℕ
status_code (body status type content) = status
status_code (http_error status message) = status
status_code (failed status e) = status

-- The parts of *http.Request that handleDevices reads; `body` is the result of io.ReadAll.
pub record HttpRequest : Type 0 where
  pub method : Text
  pub manufacturer : Text
  pub model : Text
  pub secret : Text
  pub content_type : Text
  pub body : Option (List ℕ)

-- The choice of the status by errors.Is.
unfoldable pub error_status : {E X : Type 0} → HandleError E X → ℕ
error_status unsupported_device = 404
error_status (device_not_found serial) = 503
error_status _ = 400

abbrev pub write_response : {Err : Type 0} → Response → Reply Err
write_response r = body r.status_code r.content_type r.body

unfoldable pub respond :
    {W E X : Type 0}
    → Result (HandleError E X) Response × Service W
    → Reply (HandleError E X) × Service W
unfolding error_status
respond (ok response, s) = (write_response response, s)
respond (err e, s) = (failed (error_status e) e, s)

module _ ⦃u : Unicode⦄ {W E X : Type 0} (remote : Remote W X) (registry : Registry E)
    (cfg : PublishConfig) where
  -- handleDevices behind the reading of the body.
  unfoldable pub handle_body :
      HttpRequest → Option (List ℕ) → Service W → Reply (HandleError E X) × Service W
  unfolding handle respond
  handle_body r none s = (http_error 400 (codes "read request body"), s)
  handle_body r (some bytes) s =
      let (clock, w) = remote.readings s.world in
      respond (
        handle remote registry cfg
          (record {
            manufacturer = trim_space r.manufacturer;
            model = trim_space r.model;
            secret = r.secret;
            body = bytes;
            content_type = r.content_type;
            received_at = clock 0;
          })
          (record s { world = w }))

  unfoldable pub handle_devices : HttpRequest → Service W → Reply (HandleError E X) × Service W
  unfolding handle_body
  handle_devices r s =
      if not (equal r.method (codes "POST"))
      then (http_error 405 (codes "method not allowed"), s)
      else if equal (trim_space r.manufacturer) [] || equal (trim_space r.model) []
      then (http_error 400 (codes "manufacturer and model are required"), s)
      else handle_body r r.body s

-- strings.Join
unfoldable pub join : Text → List Text → Text
join sep [] = []
join sep (t ∷ []) = t
join sep (t ∷ v ∷ ts) = t ++ (sep ++ join sep (v ∷ ts))

abbrev pub reasons_text : List Text → Text
reasons_text [] = codes "not ready"
reasons_text (t ∷ ts) = join (codes "; ") (t ∷ ts)

-- handleReady, given the readiness function, or none.
unfoldable pub handle_ready : Option (Bool × List Text) → ℕ × Text
handle_ready none = (200, codes "ready")
handle_ready (some (true, reasons)) = (200, codes "ready")
handle_ready (some (false, reasons)) = (503, reasons_text reasons)
