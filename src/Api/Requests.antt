-- ===== src/Api/Requests.antt =====
-- newRequest and doJSON of internal/api/client.go.
use device_handler.Prelude.{
  ℕ, Option, none, some, List, [], ◌++◌, Result, ok, err, ◌==◌, if◌then◌else◌, length,
}
use device_handler.Text.{Text, codes}
use device_handler.Dict.{Dict}
use device_handler.Action.{Action, pure, modify, ◌>>=◌, ◌>>◌}
use device_handler.Api.{
  ApiConfig, Payload, ApiRequest, ApiResponse, Http, Client, ApiError, build_url, encode_body,
  create_request, perform_request, perform_retry, read_body, unexpected_status, decode_raw_failed,
  raw_list_failed, decode_body, wrapped, is_success,
}
use device_handler.Api.Token.{perform, ensure_token, clear_token}

-- The type that a response is decoded into: by json.Unmarshal and, where it has the method
-- decodeRawList, also from a list.
pub record Decoder (X A : Type 0) : Type 0 where
  pub decode : List ℕ → Result X A
  pub decode_raw_list : Option (List ℕ → Result X A)

abbrev pub bearer : Text → Text
bearer token = codes "Bearer " ++ token

module _ {W X : Type 0} (http : Http W X) where
  abbrev pub encode_payload : Option Payload → Action (Client W) (ApiError X) (List ℕ)
  encode_payload none = pure []
  encode_payload (some payload) = wrapped encode_body (http.encode payload)

-- The header of a request with a body.
abbrev pub content_type_of : Option Payload → Text
content_type_of none = []
content_type_of (some payload) = codes "application/json"

module _ {W X A : Type 0} (http : Http W X) where
  -- The second attempt at decoding a response, behind the error of the first.
  abbrev pub decode_list :
      Option (List ℕ → Result X A) → X → List ℕ → Action (Client W) (ApiError X) A
  decode_list none x body s = (err (decode_body x), s)
  decode_list (some raw_list) x body s =
      (wrapped decode_raw_failed (http.decode_raw body) >>= λ raw.
      wrapped raw_list_failed (raw_list raw))
        s

  abbrev pub decode_with : Decoder X A → List ℕ → Result X A → Action (Client W) (ApiError X) A
  decode_with decoder body (ok a) s = (ok a, s)
  decode_with decoder body (err x) s = decode_list decoder.decode_raw_list x body s

  abbrev pub accept_response :
      Decoder X A → ApiResponse X → List ℕ → Action (Client W) (ApiError X) A
  accept_response decoder response body s =
      if is_success response.status_code
      then decode_with decoder body (decoder.decode body) s
      else (err (unexpected_status response.status body), s)

  -- doJSON from io.ReadAll on.
  abbrev pub read_response : Decoder X A → ApiResponse X → Action (Client W) (ApiError X) A
  read_response decoder response =
      wrapped read_body response.body >>= accept_response decoder response

module _ {W X : Type 0} (http : Http W X) (cfg : ApiConfig) where
  unfoldable pub new_request :
      Text → Text → Dict Text → Option Payload → Action (Client W) (ApiError X) ApiRequest
  unfolding ensure_token
  new_request method path query payload = do
    full_url ← wrapped build_url (http.join_path cfg.base_url path)
    body ← encode_payload http payload
    wrapped create_request (http.check_request method full_url)
    token ← ensure_token http cfg
    pure (record {
      method = method;
      url = full_url;
      query = query;
      accept = codes "application/json";
      content_type = content_type_of payload;
      authorization = bearer token;
      body = body;
      content_length = length body;
      get_body = some body;
    })

  -- req.Clone with the new token: it shares the body, of which Do has read what it read, and keeps
  -- GetBody, by which Do can have the body again.
  abbrev pub retry_of : ApiRequest → Text → ApiRequest
  retry_of request token = record request {
    authorization = bearer token;
    body = http.body_after request.body;
  }

  -- The retry of doJSON behind status 401.
  unfoldable pub retry : ApiRequest → Action (Client W) (ApiError X) (ApiResponse X)
  unfolding ensure_token
  retry request = do
    modify clear_token
    token ← ensure_token http cfg
    perform http perform_retry (retry_of request token)

  unfoldable pub retry_unauthorized :
      ApiRequest → ApiResponse X → Action (Client W) (ApiError X) (ApiResponse X)
  unfolding retry
  retry_unauthorized request response s =
      if response.status_code == 401 then retry request s else (ok response, s)

module _ {W X A : Type 0} (http : Http W X) (cfg : ApiConfig) where
  unfoldable pub do_json : ApiRequest → Decoder X A → Action (Client W) (ApiError X) A
  unfolding retry_unauthorized
  do_json request decoder = do
    first ← perform http perform_request request
    response ← retry_unauthorized http cfg request first
    read_response http decoder response

  -- A call of the REST API: newRequest, and doJSON on it.
  unfoldable pub call :
      Text → Text → Dict Text → Option Payload → Decoder X A → Action (Client W) (ApiError X) A
  unfolding new_request do_json
  call method path query payload decoder =
      new_request http cfg method path query payload >>= λ request. do_json request decoder
