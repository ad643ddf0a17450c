-- ===== src/Api/Traffic/Bounds.antt =====
-- How often each operation of internal/api/client.go calls Do.
use device_handler.Prelude.{
  ℕ, ◌≢◌, inl, inr, refl, Option, none, some, List, [], Result, ok, err, arith, Bool-cases, ◌==◌,
}
use device_handler.Text.{Text, equal, codes}
use device_handler.Text.Normal.{equal_iff}
use device_handler.Dict.{Dict}
use device_handler.Api.{
  ApiConfig, Payload, ApiRequest, ApiResponse, LoginResponse, Http, Client, perform_login,
  perform_retry, perform_request, login, is_success, build_login_url, encode_login,
  create_login_request, read_login, decode_login_failed, build_url, create_request, read_body,
  decode_raw_failed, raw_list_failed,
}
use device_handler.Api.Token.{
  perform, token_of, keep_token, accept_login, log_in, ensure_token, clear_token, until, longer,
}
use device_handler.Api.Requests.{
  Decoder, encode_payload, new_request, retry_of, retry, retry_unauthorized, decode_list,
  decode_with, accept_response, do_json, call,
}
use device_handler.Api.Traffic.{
  logged, HasToken, Sends, Costs, Any, Sends-none, Sends-trans, Sends-weaken, continue-Costs,
  wrapped-Costs, login-Costs, attempt-Costs,
}

module _ {W X : Type 0} (http : Http W X) (cfg : ApiConfig) where
  abbrev State : Type 0
  State = Client (W × List ApiRequest)

  abbrev IsToken : Text → Type 0
  IsToken t = t ≢ []

  keep_token-Costs :
      (r : LoginResponse) (s : State) → Costs 0 0 IsToken s (keep_token (logged http) cfg r s)
  keep_token-Costs r s = elim (Bool-cases (equal (token_of r) [])) [
    | inl e ↦ rw e (Sends-none s s refl, tt)
    | inr e ↦ rw e (Sends-none s _ refl, λ blank. ground (arith, equal_iff (token_of r) []))
  ]

  accept_login-Costs :
      (r : ApiResponse X) (body : List ℕ) (s : State)
      → Costs 0 0 (Any http cfg) s (accept_login r body s)
  accept_login-Costs r body s = elim (Bool-cases (is_success r.status_code)) [
    | inl e ↦ rw e (Sends-none s s refl, tt)
    | inr e ↦ rw e (Sends-none s s refl, tt)
  ]

  log_in-Costs : (s : State) → Costs 1 0 IsToken s (log_in (logged http) cfg s)
  unfolding log_in
  log_in-Costs s =
      let K = λ (A : Type 0). Any http cfg {A = A} in
      continue-Costs 0 0 1 0 (K Text) IsToken s _ _
        (wrapped-Costs http cfg build_login_url (http.join_path cfg.base_url cfg.login_path) s)
        λ url s₁ h₁.
          continue-Costs 0 0 1 0 (K (List ℕ)) IsToken s₁ _ _
            (wrapped-Costs http cfg encode_login (http.encode (login cfg.username cfg.password)) s₁)
            λ payload s₂ h₂.
              continue-Costs 0 0 1 0 (K (Unit {0})) IsToken s₂ _ _
                (wrapped-Costs http cfg create_login_request (http.check_request (codes "POST") url)
                  s₂)
                λ x s₃ h₃.
                  continue-Costs 1 0 0 0 (K (ApiResponse X)) IsToken s₃ _ _
                    (login-Costs http cfg perform_login url payload s₃)
                    λ response s₄ h₄.
                      continue-Costs 0 0 0 0 (K (List ℕ)) IsToken s₄ _ _
                        (wrapped-Costs http cfg read_login response.body s₄)
                        λ body s₅ h₅.
                          continue-Costs 0 0 0 0 (K (List ℕ)) IsToken s₅ _ _
                            (accept_login-Costs response body s₅)
                            λ accepted s₆ h₆.
                              continue-Costs 0 0 0 0 (K LoginResponse) IsToken s₆ _ _
                                (wrapped-Costs http cfg decode_login_failed
                                  (http.decode_login accepted) s₆)
                                λ r s₇ h₇. keep_token-Costs r s₇

  ensure_token-Costs : (s : State) → Costs 1 0 IsToken s (ensure_token (logged http) cfg s)
  unfolding ensure_token
  ensure_token-Costs s = elim (Bool-cases (equal s.token [])) [
    | inl e ↦ simp (e) (log_in-Costs s)
    | inr e ↦
        elim (Bool-cases
          (longer (until ((http.readings s.world.0).0 0) s.token_expires) cfg.jwt_leeway)) [
            | inl fresh ↦
                simp (e, fresh)
                  (
                    Sends-weaken 0 0 1 0 (omega arith) (omega arith) (Sends-none s _ refl),
                    λ blank. ground (arith, equal_iff s.token []),
                  )
            | inr stale ↦
                let later : State = record s { world = ((http.readings s.world.0).1, s.world.1) } in
                let (p, q) = log_in-Costs later in
                simp (e, stale) (Sends-trans 0 0 1 0 (Sends-none s later refl) p, q)
          ]
  ]

  encode_payload-Costs :
      (o : Option Payload) (s : State)
      → Costs 0 0 (Any http cfg) s (encode_payload (logged http) o s)
  encode_payload-Costs none s = (Sends-none s s refl, tt)
  encode_payload-Costs (some payload) s = wrapped-Costs http cfg _ (http.encode payload) s

  new_request-Costs :
      (method path : Text) (query : Dict Text) (payload : Option Payload) (s : State)
      → Costs 1 0 HasToken s (new_request (logged http) cfg method path query payload s)
  unfolding new_request
  new_request-Costs method path query payload s =
      let K = λ (A : Type 0). Any http cfg {A = A} in
      continue-Costs 0 0 1 0 (K Text) HasToken s _ _
        (wrapped-Costs http cfg build_url (http.join_path cfg.base_url path) s)
        λ url s₁ h₁.
          continue-Costs 0 0 1 0 (K (List ℕ)) HasToken s₁ _ _ (encode_payload-Costs payload s₁)
            λ body s₂ h₂.
              continue-Costs 0 0 1 0 (K (Unit {0})) HasToken s₂ _ _
                (wrapped-Costs http cfg create_request (http.check_request method url) s₂)
                λ x s₃ h₃.
                  continue-Costs 1 0 0 0 IsToken HasToken s₃ _ _ (ensure_token-Costs s₃)
                    λ token s₄ h₄. (Sends-none s₄ s₄ refl, (token, h₄, refl))

  retry-Costs :
      (r : ApiRequest) (s : State) → Costs 1 1 (Any http cfg) s (retry (logged http) cfg r s)
  unfolding retry
  retry-Costs r s =
      let (p, q) =
        continue-Costs 1 0 0 1 IsToken (Any http cfg) (clear_token s)
          (λ token. perform (logged http) perform_retry (retry_of (logged http) cfg r token)) _
          (ensure_token-Costs (clear_token s))
          λ token t h.
            attempt-Costs http cfg perform_retry (retry_of (logged http) cfg r token) t
              (token, h, refl) in
      (Sends-trans 0 0 1 1 (Sends-none s (clear_token s) refl) p, q)

  retry_unauthorized-Costs :
      (r : ApiRequest) (response : ApiResponse X) (s : State)
      → Costs 1 1 (Any http cfg) s (retry_unauthorized (logged http) cfg r response s)
  unfolding retry_unauthorized
  retry_unauthorized-Costs r response s = elim (Bool-cases (response.status_code == 401)) [
    | inl e ↦ rw e (retry-Costs r s)
    | inr e ↦ rw e (Sends-weaken 0 0 1 1 (omega arith) (omega arith) (Sends-none s s refl), tt)
  ]

module _ {W X A : Type 0} (http : Http W X) (cfg : ApiConfig) where
  decode_list-Costs :
      (o : Option (List ℕ → Result X A)) (x : X) (body : List ℕ) (s : State http cfg)
      → Costs 0 0 (Any http cfg) s (decode_list (logged http) o x body s)
  decode_list-Costs none x body s = (Sends-none s s refl, tt)
  decode_list-Costs (some raw_list) x body s =
      continue-Costs 0 0 0 0 (Any http cfg) (Any http cfg) s _ _
        (wrapped-Costs http cfg decode_raw_failed (http.decode_raw body) s)
        λ raw t h. wrapped-Costs http cfg raw_list_failed (raw_list raw) t

  decode_with-Costs :
      (decoder : Decoder X A) (body : List ℕ) (r : Result X A) (s : State http cfg)
      → Costs 0 0 (Any http cfg) s (decode_with (logged http) decoder body r s)
  decode_with-Costs decoder body (ok a) s = (Sends-none s s refl, tt)
  decode_with-Costs decoder body (err x) s = decode_list-Costs decoder.decode_raw_list x body s

  accept_response-Costs :
      (decoder : Decoder X A) (response : ApiResponse X) (body : List ℕ) (s : State http cfg)
      → Costs 0 0 (Any http cfg) s (accept_response (logged http) decoder response body s)
  accept_response-Costs decoder response body s =
      elim (Bool-cases (is_success response.status_code)) [
        | inl e ↦ rw e (decode_with-Costs decoder body (decoder.decode body) s)
        | inr e ↦ rw e (Sends-none s s refl, tt)
      ]

  do_json-Costs :
      (request : ApiRequest) (decoder : Decoder X A) (s : State http cfg)
      → HasToken request
      → Costs 1 2 (Any http cfg) s (do_json (logged http) cfg request decoder s)
  unfolding do_json
  do_json-Costs request decoder s h =
      let K = λ (B : Type 0). Any http cfg {A = B} in
      continue-Costs 0 1 1 1 (K (ApiResponse X)) (K A) s _ _
        (attempt-Costs http cfg perform_request request s h)
        λ first s₁ h₁.
          continue-Costs 1 1 0 0 (K (ApiResponse X)) (K A) s₁ _ _
            (retry_unauthorized-Costs http cfg request first s₁)
            λ response s₂ h₂.
              continue-Costs 0 0 0 0 (K (List ℕ)) (K A) s₂ _ _
                (wrapped-Costs http cfg read_body response.body s₂)
                λ body s₃ h₃. accept_response-Costs decoder response body s₃

  -- Whatever Do answers, a call of the REST API calls Do at most twice for a login and at most twice
  -- with a token, which is not empty, and for nothing else. The redirects that Do may follow by itself
  -- are not counted.
  pub call-Sends :
      (method path : Text) (query : Dict Text) (payload : Option Payload) (decoder : Decoder X A)
      (s : State http cfg)
      → Sends 2 2 s (call (logged http) cfg method path query payload decoder s).1
  unfolding call
  call-Sends method path query payload decoder s =
      (continue-Costs 1 0 1 2 HasToken (Any http cfg) s _ _
        (new_request-Costs http cfg method path query payload s)
        λ request t h. do_json-Costs request decoder t h).0
