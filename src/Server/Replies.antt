-- ===== src/Server/Replies.antt =====
-- What a client of internal/ingest/server.go sees: the status of each answer.
use device_handler.Prelude.{
  ℕ, ◌≡◌, ◌≢◌, refl, ap, true, false, ◌||◌, Option, none, some, List, [], Result, ok, err, arith,
  if◌then◌else◌, ◌⊎◌, inl, inr, Bool-cases,
}
use device_handler.Text.{Text, Unicode, codes, equal, trim_space}
use device_handler.Text.Normal.{equal_iff}
use device_handler.Device.{Request, Response}
use device_handler.Device.Registry.{Registry}
use device_handler.Publish.{PublishConfig}
use device_handler.Ingest.State.{
  Remote, HandleError, unsupported_device, parse_failed, refresh_updated_failed,
  refresh_full_failed, device_not_found, create_channel_failed, cache_update_failed, build_failed,
  Service,
}
use device_handler.Cache.Consistent.{IsConsistent}
use device_handler.Ingest.Handle.{handle, prepare}
use device_handler.Ingest.Kept.{Kept}
use device_handler.Ingest.Untouched.{begun, handle-untouched}
use device_handler.Time.{Time}
use device_handler.Device.Registry
use device_handler.Server.{
  Reply, body, http_error, HttpRequest, status_code, error_status, failed, respond, handle_body,
  handle_devices,
}

-- A request the server answers itself.
abbrev pub IsMalformed : HttpRequest → Type 0
IsMalformed r =
    (r.method ≢ codes "POST")
    ⊎ ((trim_space r.manufacturer ≡ []) ⊎ ((trim_space r.model ≡ []) ⊎ (r.body ≡ none)))

not-equal : {t : Text} → t ≢ [] → equal t [] ≡ false
not-equal {t} h = ground (arith, equal_iff t [])

-- The status of an error of Handle.
pub data IsStatus {E X : Type 0} : HandleError E X → ℕ → Type 0 where
  unsupported : IsStatus unsupported_device 404
  not_found : {serial : Text} → IsStatus (device_not_found serial) 503
  rejected :
      {e : HandleError E X}
      → e ≢ unsupported_device
      → ((serial : Text) → e ≢ device_not_found serial)
      → IsStatus e 400

error_status-IsStatus : {E X : Type 0} (e : HandleError E X) → IsStatus e (error_status e)
unfolding error_status
error_status-IsStatus unsupported_device = unsupported
error_status-IsStatus (device_not_found serial) = not_found
error_status-IsStatus (parse_failed x) = rejected (λ h. cc) (λ serial h. cc)
error_status-IsStatus (refresh_updated_failed x) = rejected (λ h. cc) (λ serial h. cc)
error_status-IsStatus (refresh_full_failed x) = rejected (λ h. cc) (λ serial h. cc)
error_status-IsStatus (create_channel_failed d tag x) = rejected (λ h. cc) (λ serial h. cc)
error_status-IsStatus (cache_update_failed tag) = rejected (λ h. cc) (λ serial h. cc)
error_status-IsStatus (build_failed x) = rejected (λ h. cc) (λ serial h. cc)

module _ ⦃u : Unicode⦄ {W E X : Type 0} (remote : Remote W X) (registry : Registry E)
    (cfg : PublishConfig) where
  -- A request with another method than POST, a blank manufacturer or model, or an unreadable body
  -- leaves the whole state as it was; the status is 405 for another method than POST and 400 for
  -- the rest.
  pub handle_devices-malformed :
      (r : HttpRequest) (s : Service W)
      → IsMalformed r
      → ((handle_devices remote registry cfg r s).1 ≡ s)
        × (status_code (handle_devices remote registry cfg r s).0
            ≡ (if equal r.method (codes "POST") then 400 else 405))
  unfolding handle_devices
  handle_devices-malformed r s h = elim (Bool-cases (equal r.method (codes "POST"))) [
    | inr other ↦ simp (other) (refl, refl)
    | inl post ↦
        elim (Bool-cases (equal (trim_space r.manufacturer) [] || equal (trim_space r.model) [])) [
          | inl blank ↦ simp (post, blank) (refl, refl)
          | inr given ↦
              simp (post, given, unread r h post given) (unfold handle_body in (refl, refl))
        ]
  ]
    where
      unread :
          (r : HttpRequest)
          → IsMalformed r
          → equal r.method (codes "POST") ≡ true
          → (equal (trim_space r.manufacturer) [] || equal (trim_space r.model) []) ≡ false
          → r.body ≡ none
      unread r h p g = ground (
        arith,
        equal_iff r.method (codes "POST"),
        equal_iff (trim_space r.manufacturer) [],
        equal_iff (trim_space r.model) [],
      )

  -- The request that a well-formed HTTP request is.
  abbrev pub request_of : HttpRequest → List ℕ → Time → Request
  request_of r bytes t = record {
    manufacturer = trim_space r.manufacturer;
    model = trim_space r.model;
    secret = r.secret;
    body = bytes;
    content_type = r.content_type;
    received_at = t;
  }

  abbrev pub ticked : Service W → Service W
  ticked s = record s { world = (remote.readings s.world).1 }

  abbrev IsPost : HttpRequest → Type 0
  IsPost r = r.method ≡ codes "POST"

  -- A POST request with a manufacturer, a model and this body.
  pub record IsUpload (r : HttpRequest) (bytes : List ℕ) : Type 0 where
    pub post : r.method ≡ codes "POST"
    pub some_manufacturer : trim_space r.manufacturer ≢ []
    pub some_model : trim_space r.model ≢ []
    pub readable : r.body ≡ some bytes

  -- What Handle makes of it.
  abbrev pub handled :
      HttpRequest → List ℕ → Service W → Result (HandleError E X) Response × Service W
  handled r bytes s =
      handle remote registry cfg (request_of r bytes ((remote.readings s.world).0 0)) (ticked s)

  -- The ways in which a request ends, with its reply and the state.
  pub data Ends (r : HttpRequest) (s : Service W)
      : Reply (HandleError E X) → Service W → Type 0 where
    wrong_method : {message : Text} → r.method ≢ codes "POST" → Ends r s (http_error 405 message) s
    nameless :
        {message : Text}
        → IsPost r
        → (trim_space r.manufacturer ≡ []) ⊎ (trim_space r.model ≡ [])
        → Ends r s (http_error 400 message) s
    unreadable : {message : Text} → IsPost r → r.body ≡ none → Ends r s (http_error 400 message) s
    refused :
        {bytes : List ℕ} {e : HandleError E X} {status : ℕ} {s' : Service W}
        → IsUpload r bytes
        → handled r bytes s ≡ (err e, s')
        → IsStatus e status
        → Kept (begun (ticked s)) s'
        → Ends r s (failed status e) s'
    served :
        {bytes : List ℕ} {response : Response} {s' : Service W}
        → IsUpload r bytes
        → handled r bytes s ≡ (ok response, s')
        → Ends r s (body response.status_code response.content_type response.body) s'

  respond-Ends :
      (r : HttpRequest) (bytes : List ℕ) (s : Service W)
      (o : Result (HandleError E X) Response × Service W)
      → IsConsistent s.cache
      → IsUpload r bytes
      → handled r bytes s ≡ o
      → Ends r s (respond o).0 (respond o).1
  unfolding respond
  respond-Ends r bytes s (ok response, s') h up e = served up e
  respond-Ends r bytes s (err x, s') h up e =
      refused up e (error_status-IsStatus x) (rw (ap (λ p. p.1) e) at kept)
    where
      kept : Kept (begun (ticked s)) (handled r bytes s).1
      kept =
          handle-untouched remote registry cfg (request_of r bytes ((remote.readings s.world).0 0))
            (ticked s) {e = x} h (ap (λ p. p.0) e)

  body-Ends :
      (r : HttpRequest) (s : Service W) (o : Option (List ℕ))
      → IsConsistent s.cache
      → IsPost r
      → trim_space r.manufacturer ≢ []
      → trim_space r.model ≢ []
      → r.body ≡ o
      → Ends r s (handle_body remote registry cfg r o s).0 (handle_body remote registry cfg r o s).1
  unfolding handle_body
  body-Ends r s none h post man kind b = unreadable post b
  body-Ends r s (some bytes) h post man kind b =
      respond-Ends r bytes s _ h
        (record { post = post; some_manufacturer = man; some_model = kind; readable = b }) refl

  -- Every request on a consistent cache ends in one of five ways. Another method than POST is
  -- answered with 405, and a blank manufacturer or model, or an unreadable body, with 400, and the
  -- state is as before. Otherwise the parameters are trimmed and Handle is run: if it succeeds, its
  -- response is the reply; if it fails, the status is 404 for a device that no parser supports, 503
  -- for one that was not found, and 400 for every other error, and nothing was enqueued.
  pub handle_devices-Ends :
      (r : HttpRequest) (s : Service W)
      → IsConsistent s.cache
      → Ends r s
          (handle_devices remote registry cfg r s).0
          (handle_devices remote registry cfg r s).1
  unfolding handle_devices
  handle_devices-Ends r s h = elim (Bool-cases (equal r.method (codes "POST"))) [
    | inr other ↦ rw other (wrong_method λ e. ground (arith, equal_iff r.method (codes "POST")))
    | inl post ↦
        let p : IsPost r = (equal_iff r.method (codes "POST")).0 post in
        elim (Bool-cases (equal (trim_space r.manufacturer) [])) [
          | inl blank ↦
              rw (post, blank)
                (nameless p (inl ((equal_iff (trim_space r.manufacturer) []).0 blank)))
          | inr man ↦ elim (Bool-cases (equal (trim_space r.model) [])) [
            | inl blank ↦
                rw (post, man, blank)
                  (nameless p (inr ((equal_iff (trim_space r.model) []).0 blank)))
            | inr kind ↦
                rw (post, man, kind) (body-Ends r s r.body h p (given man) (given kind) refl)
          ]
        ]
  ]
    where
      given : {t : Text} → equal t [] ≡ false → t ≢ []
      given {t} e same = ground (arith, equal_iff t [])

  -- A POST request with a manufacturer, a model and a readable body, for which no parser is
  -- registered, is answered with status 404.
  pub handle_devices-unsupported :
      (r : HttpRequest) (bytes : List ℕ) (s : Service W)
      → r.method ≡ codes "POST"
      → trim_space r.manufacturer ≢ []
      → trim_space r.model ≢ []
      → r.body ≡ some bytes
      → Registry.lookup registry (trim_space r.manufacturer) (trim_space r.model) ≡ none
      → status_code (handle_devices remote registry cfg r s).0 ≡ 404
  unfolding handle_devices handle_body handle prepare respond error_status
  handle_devices-unsupported r bytes s post man kind b gone =
      rw (b, (equal_iff r.method (codes "POST")).1 post, not-equal man, not-equal kind, gone) refl
