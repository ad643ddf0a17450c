-- ===== src/Api/Relogin.antt =====
-- ensureToken of internal/api/client.go behind clearToken: what it sends, and the token it keeps.
use device_handler.Prelude.{
  ℕ, ◌≡◌, ◌≢◌, ◌⊎◌, inl, inr, refl, ap, arith, List, [], ◌∷◌, ◌++◌, Result, ok, err, Bool-cases,
}
use device_handler.Text.{Text, codes, equal}
use device_handler.Text.Normal.{equal_iff}
use device_handler.Action.Outcome.{Outcome, continue-Outcome}
use device_handler.Api.{
  ApiConfig, ApiRequest, ApiResponse, LoginResponse, Http, Client, ApiError, wrapped, is_success,
  login, build_login_url, encode_login, create_login_request, perform_login, read_login,
  decode_login_failed,
}
use device_handler.Api.Token.{
  login_request, perform, token_of, keep_token, accept_login, log_in, ensure_token, clear_token,
}
use device_handler.Api.Traffic.{logged}

module _ {W : Type 0} where
  abbrev pub log : Client (W × List ApiRequest) → List ApiRequest
  log s = s.world.1

  -- From `s` to `t` one login was sent, and none or one.
  abbrev pub LoggedIn : Client (W × List ApiRequest) → Client (W × List ApiRequest) → Type 0
  LoggedIn s t = (url : Text) × ((body : List ℕ) × (log t ≡ log s ++ (login_request url body ∷ [])))

  abbrev pub AtMostLogin : Client (W × List ApiRequest) → Client (W × List ApiRequest) → Type 0
  AtMostLogin s t = (log t ≡ log s) ⊎ LoggedIn s t

  pub wrapped-Outcome :
      {X A : Type 0} (P R : Client (W × List ApiRequest) → Type 0) (message : X → ApiError X)
      (r : Result X A) (s : Client (W × List ApiRequest))
      → P s
      → R s
      → Outcome (λ a. P) (λ e. R) (wrapped message r s)
  wrapped-Outcome P R message (ok a) s p q = p
  wrapped-Outcome P R message (err x) s p q = q

  pub either :
      {E A : Type 0} (P : Client (W × List ApiRequest) → Type 0)
      (r : Result E A × Client (W × List ApiRequest))
      → Outcome (λ a. P) (λ e. P) r
      → P r.1
  either P (ok a, s) h = h
  either P (err e, s) h = h

module _ {W X : Type 0} (http : Http W X) (cfg : ApiConfig) where
  abbrev pub State : Type 0
  State = Client (W × List ApiRequest)

  -- A token that was returned is kept and is not empty.
  abbrev pub HasNew : State → Text → State → Type 0
  HasNew s token t = LoggedIn s t × (t.token ≡ token) × (token ≢ [])

  keep_token-Outcome :
      (s t : State) (r : LoginResponse)
      → LoggedIn s t
      → Outcome (HasNew s) (λ e. AtMostLogin s) (keep_token (logged http) cfg r t)
  keep_token-Outcome s t r h = elim (Bool-cases (equal (token_of r) [])) [
    | inl e ↦ rw e (inr h)
    | inr e ↦ rw e (h, refl, λ blank. ground (arith, equal_iff (token_of r) []))
  ]

  accept_login-Outcome :
      (s t : State) (response : ApiResponse X) (body : List ℕ)
      → LoggedIn s t
      → Outcome (λ a. LoggedIn s) (λ e. AtMostLogin s) (accept_login response body t)
  accept_login-Outcome s t response body h = elim (Bool-cases (is_success response.status_code)) [
    | inl e ↦ rw e h
    | inr e ↦ rw e (inr h)
  ]

  log_in-Outcome :
      (s : State) → Outcome (HasNew s) (λ e. AtMostLogin s) (log_in (logged http) cfg s)
  unfolding log_in
  log_in-Outcome s =
      let R : ApiError X → State → Type 0 = λ e. AtMostLogin s in
      let N : State → Type 0 = λ t. log t ≡ log s in
      continue-Outcome _ _ (λ a. N) (HasNew s) R
        (wrapped-Outcome N (AtMostLogin s) build_login_url
          (http.join_path cfg.base_url cfg.login_path) s refl (inl refl))
        λ url s₁ h₁.
          continue-Outcome _ _ (λ a. N) (HasNew s) R
            (wrapped-Outcome N (AtMostLogin s) encode_login
              (http.encode (login cfg.username cfg.password)) s₁ h₁ (inl h₁))
            λ payload s₂ h₂.
              continue-Outcome _ _ (λ a. N) (HasNew s) R
                (wrapped-Outcome N (AtMostLogin s) create_login_request
                  (http.check_request (codes "POST") url) s₂ h₂ (inl h₂))
                λ x s₃ h₃.
                  continue-Outcome _ _ (λ a. LoggedIn s) (HasNew s) R (sent url payload s₃ h₃)
                    λ response s₄ h₄.
                      continue-Outcome _ _ (λ a. LoggedIn s) (HasNew s) R
                        (wrapped-Outcome (LoggedIn s) (AtMostLogin s) read_login response.body s₄ h₄
                          (inr h₄))
                        λ body s₅ h₅.
                          continue-Outcome _ _ (λ a. LoggedIn s) (HasNew s) R
                            (accept_login-Outcome s s₅ response body h₅)
                            λ accepted s₆ h₆.
                              continue-Outcome _ _ (λ a. LoggedIn s) (HasNew s) R
                                (wrapped-Outcome (LoggedIn s) (AtMostLogin s) decode_login_failed
                                  (http.decode_login accepted) s₆ h₆ (inr h₆))
                                λ r s₇ h₇. keep_token-Outcome s s₇ r h₇
    where
      sent :
          (url : Text) (payload : List ℕ) (t : State)
          → log t ≡ log s
          → Outcome
              (λ a. LoggedIn s)
              (λ e. AtMostLogin s)
              (perform (logged http) perform_login (login_request url payload) t)
      sent url payload t h =
          let t' : State = record t {
            world = (
              (http.send (login_request url payload) t.world.0).1,
              log t ++ (login_request url payload ∷ []),
            );
          } in
          let g : LoggedIn s t' =
            (url, (payload, ap (λ l. l ++ (login_request url payload ∷ [])) h)) in
          wrapped-Outcome (LoggedIn s) (AtMostLogin s) perform_login
            (http.send (login_request url payload) t.world.0).0 t' g (inr g)

  -- Behind clearToken there is no token to reuse.
  pub ensure_token-cleared :
      (s : State)
      → Outcome (HasNew s) (λ e. AtMostLogin s) (ensure_token (logged http) cfg (clear_token s))
  unfolding ensure_token equal
  ensure_token-cleared s = log_in-Outcome (clear_token s)
