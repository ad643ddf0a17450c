-- ===== src/Api/Retried.antt =====
-- What doJSON of internal/api/client.go sends, in which order, by the first answer.
use device_handler.Prelude.{ℕ, ◌≡◌, ◌≢◌, List, [], ◌∷◌, ◌++◌, Result, ok, err}
use device_handler.Text.{Text}
use device_handler.Action.Outcome.{Outcome}
use device_handler.Api.{ApiConfig, ApiRequest, ApiResponse, Http, Client}
use device_handler.Api.Requests.{bearer}
use device_handler.Api.Relogin.{log, LoggedIn, AtMostLogin}

-- The same request with another token.
pub record IsRetry (request r : ApiRequest) (token : Text) : Type 0 where
  pub method : r.method ≡ request.method
  pub url : r.url ≡ request.url
  pub query : r.query ≡ request.query
  pub accept : r.accept ≡ request.accept
  pub content_type : r.content_type ≡ request.content_type
  pub content_length : r.content_length ≡ request.content_length
  pub get_body : r.get_body ≡ request.get_body
  pub authorization : r.authorization ≡ bearer token

abbrev code : {X : Type 0} → Result X (ApiResponse X) → ℕ
code (ok r) = r.status_code
code (err x) = 0

module _ {W X : Type 0} (http : Http W X) (cfg : ApiConfig) where
  abbrev State : Type 0
  State = Client (W × List ApiRequest)

  -- The answer to the first attempt.
  abbrev pub first : ApiRequest → State → Result X (ApiResponse X)
  first request s = (http.send request s.world.0).0

  -- What doJSON has sent from `s` to `s'`, and the token it has then.
  pub data Exchange (request : ApiRequest) (s s' : State) : Type 0 where
    settled :
        ((response : ApiResponse X) → first request s ≡ ok response → response.status_code ≢ 401)
        → log s' ≡ log s ++ (request ∷ [])
        → s'.token ≡ s.token
        → Exchange request s s'
    not_logged_in :
        (response : ApiResponse X) (t : State)
        → first request s ≡ ok response
        → response.status_code ≡ 401
        → log t ≡ log s ++ (request ∷ [])
        → AtMostLogin t s'
        → Exchange request s s'
    retried :
        (response : ApiResponse X) (t u : State) (r : ApiRequest) (token : Text)
        → first request s ≡ ok response
        → response.status_code ≡ 401
        → log t ≡ log s ++ (request ∷ [])
        → LoggedIn t u
        → log s' ≡ log u ++ (r ∷ [])
        → IsRetry request r token
        → s'.token ≡ token
        → token ≢ []
        → Exchange request s s'

  -- The state behind the first attempt.
  record IsFirst (request : ApiRequest) (s : State) (response : ApiResponse X) (t : State)
      : Type 0 where
    pub answer : first request s ≡ ok response
    pub sent : log t ≡ log s ++ (request ∷ [])
    pub token : t.token ≡ s.token
