-- ===== src/Api/Token.antt =====
-- ensureToken and clearToken of internal/api/client.go.
use device_handler.Prelude.{
  ℕ, ◌-◌, ◌^◌, Bool, true, false, some, List, [], ok, err, ltb, leb, if◌then◌else◌, length,
}
use device_handler.Time.{Time, Duration, pos, negsuc, zero_time}
use device_handler.Text.{Text, codes, equal, trim_space}
use device_handler.Action.{Action, ◌>>=◌, ◌>>◌}
use device_handler.Api.{
  ApiConfig, login, ApiRequest, ApiResponse, LoginResponse, Http, Client, ApiError, build_login_url,
  encode_login, create_login_request, perform_login, read_login, login_status, decode_login_failed,
  missing_token, wrapped, is_success,
}
use device_handler.Api.Expiry.{token_expiry}

-- time.Until, which stops at the ends of an int64.
abbrev pub capped : ℕ → ℕ
capped n = if ltb n (2 ^ 63) then n else 2 ^ 63 - 1

abbrev pub until : Time → Time → Duration
until now t = if leb now t then pos (capped (t - now)) else negsuc (capped (now - t - 1))

-- d > e
abbrev pub longer : Duration → Duration → Bool
longer (pos m) (pos n) = ltb n m
longer (pos m) (negsuc n) = true
longer (negsuc m) (pos n) = false
longer (negsuc m) (negsuc n) = ltb m n

-- The token of a login response: the first of its two fields that is not blank.
abbrev pub token_of : LoginResponse → Text
token_of r = if equal (trim_space r.token) [] then trim_space r.access_token else trim_space r.token

module _ {W X : Type 0} where
  -- A login response that is not a success.
  abbrev pub accept_login : ApiResponse X → List ℕ → Action (Client W) (ApiError X) (List ℕ)
  accept_login r body s =
      if is_success r.status_code then (ok body, s) else (err (login_status r.status body), s)

module _ {W X : Type 0} (http : Http W X) where
  -- http.Client.Do, once
  abbrev pub perform :
      (X → ApiError X) → ApiRequest → Action (Client W) (ApiError X) (ApiResponse X)
  perform message request s =
      let (r, w) = http.send request s.world in wrapped message r (record s { world = w })

-- The request for a token.
abbrev pub login_request : Text → List ℕ → ApiRequest
login_request url body = record {
  method = codes "POST";
  url = url;
  query = [];
  accept = codes "application/json";
  content_type = codes "application/json";
  authorization = [];
  body = body;
  content_length = length body;
  get_body = some body;
}

module _ {W X : Type 0} (http : Http W X) (cfg : ApiConfig) where
  -- The end of ensureToken: the new token, and when it expires.
  abbrev pub keep_token : LoginResponse → Action (Client W) (ApiError X) Text
  keep_token r s =
      let (clock, w) = http.readings s.world in
      if equal (token_of r) [] then (err missing_token, s) else (
        ok (token_of r),
        record {
          token = token_of r;
          token_expires =
              token_expiry http (clock 0) (token_of r) cfg.fallback_token_ttl r.expires_in;
          world = w;
        },
      )

  -- ensureToken where no cached token will do.
  unfoldable pub log_in : Action (Client W) (ApiError X) Text
  unfolding token_expiry
  log_in = do
    url ← wrapped build_login_url (http.join_path cfg.base_url cfg.login_path)
    payload ← wrapped encode_login (http.encode (login cfg.username cfg.password))
    wrapped create_login_request (http.check_request (codes "POST") url)
    response ← perform http perform_login (login_request url payload)
    body ← wrapped read_login response.body
    accepted ← accept_login response body
    r ← wrapped decode_login_failed (http.decode_login accepted)
    keep_token r

  -- The clock is read only if there is a token.
  unfoldable pub ensure_token : Action (Client W) (ApiError X) Text
  unfolding log_in
  ensure_token s =
      let (clock, w) = http.readings s.world in
      if equal s.token []
      then log_in s
      else if longer (until (clock 0) s.token_expires) cfg.jwt_leeway
      then (ok s.token, record s { world = w })
      else log_in (record s { world = w })

-- clearToken; its error is always nil.
abbrev pub clear_token : {W : Type 0} → Client W → Client W
clear_token s = record s { token = []; token_expires = zero_time }
