-- ===== src/Api.antt =====
-- internal/api/client.go, JWTClient: the configuration, the state and the requests of the client of
-- the REST API. net/http, net/url, encoding/json and encoding/base64 are the record `Http`.
pub mod Expiry
pub mod Token
pub mod Requests
pub mod Calls
pub mod Traffic
pub mod Reuse
pub mod Relogin
pub mod Retried
pub mod Echo
use device_handler.Prelude.{ℕ, Bool, Option, List, Result, ok, err, ltb, leb, ◌&&◌}
use device_handler.Time.{Time, Duration, ℤ}
use device_handler.Text.{Text}
use device_handler.Dict.{Dict}
use device_handler.Cache.{DeviceRecord}
use device_handler.Cache.Wire.{DeviceUpdate}
use device_handler.Ingest.State.{CreateChannelRequest}
use device_handler.Action.{Action}

-- config.APIConfig
pub record ApiConfig : Type 0 where
  pub base_url : Text
  pub username : Text
  pub password : Text
  pub service_name : Text
  pub login_path : Text
  pub internal_devices_path : Text
  pub internal_updated_path : Text
  pub outdated_properties_path : Text
  pub request_timeout : Duration
  pub jwt_leeway : Duration
  pub fallback_token_ttl : Duration

-- What is encoded as the body of a request.
pub data Payload : Type 0 where
  login : (username password : Text) → Payload
  channel : CreateChannelRequest → Payload

-- *http.Request: `body` is what is left to read of the body, `content_length` was set when the
-- request was made, and `get_body` is what a call of GetBody gives to read, if it is set. A header
-- that is not set is empty.
pub record ApiRequest : Type 0 where
  pub method : Text
  pub url : Text
  pub query : Dict Text
  pub accept : Text
  pub content_type : Text
  pub authorization : Text
  pub body : List ℕ
  pub content_length : ℕ
  pub get_body : Option (List ℕ)

-- *http.Response: `body` is the result of io.ReadAll.
pub record ApiResponse (X : Type 0) : Type 0 where
  pub status_code : ℕ
  pub status : Text
  pub body : Result X (List ℕ)

pub record DeviceListResponse : Type 0 where
  pub items : List DeviceRecord
  pub devices : List DeviceRecord

pub record DeviceUpdateListResponse : Type 0 where
  pub items : List DeviceUpdate
  pub updates : List DeviceUpdate

-- The anonymous structs of CreateDeploymentChannel and ensureToken.
pub record ChannelResponse : Type 0 where
  pub id : ℕ
  pub tag : Text

pub record LoginResponse : Type 0 where
  pub token : Text
  pub access_token : Text
  pub expires_in : ℤ

-- The libraries, over a state `W` of the outside world; `X` is the type of their errors.
pub record Http (W X : Type 0) : Type 0 where
  -- time.Now() in one step
  pub readings : W → (ℕ → Time) × W
  -- http.Client.Do: the redirects that it follows, and what it sends again by itself, are inside
  pub send : ApiRequest → W → Result X (ApiResponse X) × W
  -- what is left of a request's body behind Do
  pub body_after : List ℕ → List ℕ
  -- url.JoinPath
  pub join_path : Text → Text → Result X Text
  -- the test of method and URL in http.NewRequestWithContext
  pub check_request : Text → Text → Result X (Unit {0})
  -- json.Encoder.Encode
  pub encode : Payload → Result X (List ℕ)
  -- json.Unmarshal into a raw message, and into the types of the client
  pub decode_raw : List ℕ → Result X (List ℕ)
  pub decode_device_list_response : List ℕ → Result X DeviceListResponse
  pub decode_devices : List ℕ → Result X (List DeviceRecord)
  pub decode_device_update_list_response : List ℕ → Result X DeviceUpdateListResponse
  pub decode_updates : List ℕ → Result X (List DeviceUpdate)
  pub decode_channel : List ℕ → Result X ChannelResponse
  pub decode_login : List ℕ → Result X LoginResponse
  pub decode_claims : List ℕ → Result X ℤ
  -- base64.RawURLEncoding.DecodeString
  pub decode_base64 : Text → Result X (List ℕ)
  -- Time.Format with RFC 3339
  pub format_rfc3339 : Time → Text

-- JWTClient, with the state of the outside world.
pub record Client (W : Type 0) : Type 0 where
  pub token : Text
  pub token_expires : Time
  pub world : W

-- The errors of the client, by their messages, with what each one wraps or quotes; of a body the
-- message quotes at most the first 512 bytes.
pub data ApiError (X : Type 0) : Type 0 where
  build_url encode_body create_request perform_request perform_retry read_body decode_raw_failed
        raw_list_failed decode_body build_login_url encode_login create_login_request perform_login
        read_login decode_login_failed :
      X → ApiError X
  unexpected_status login_status : (status : Text) (body : List ℕ) → ApiError X
  missing_token : ApiError X

-- A result under a message.
abbrev pub wrapped :
    {W X A : Type 0} → (X → ApiError X) → Result X A → Action (Client W) (ApiError X) A
wrapped message (ok a) s = (ok a, s)
wrapped message (err x) s = (err (message x), s)

-- The test of the status code.
abbrev pub is_success : ℕ → Bool
is_success status_code = leb 200 status_code && ltb status_code 300
