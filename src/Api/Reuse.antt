-- ===== src/Api/Reuse.antt =====
-- The token that ensureToken of internal/api/client.go keeps.
use device_handler.Prelude.{
  ◌≡◌, ◌≢◌, refl, arith, true, [], Result, ok, err, Bool-cases, ap, subst, inl, inr,
}
use device_handler.Text.{Text, equal, codes}
use device_handler.Text.Normal.{equal_iff}
use device_handler.Action.{continue}
use device_handler.Api.{
  ApiConfig, LoginResponse, Http, Client, ApiError, login, wrapped, build_login_url, encode_login,
  create_login_request, perform_login, read_login, decode_login_failed,
}
use device_handler.Api.Token.{
  until, longer, token_of, keep_token, accept_login, perform, login_request, log_in, ensure_token,
}

module _ {W X : Type 0} where
  -- A token that was returned is the one that is kept, and is not empty.
  abbrev Kept : Result (ApiError X) Text × Client W → Type 0
  Kept (ok t, s) = (t ≢ []) × (s.token ≡ t)
  Kept (err e, s) = Unit

  continue-Kept :
      {A : Type 0} (f : A → Client W → Result (ApiError X) Text × Client W)
      (r : Result (ApiError X) A × Client W)
      → ((a : A) (s : Client W) → Kept (f a s))
      → Kept (continue f r)
  continue-Kept f (ok a, s) h = h a s
  continue-Kept f (err e, s) h = tt

module _ {W X : Type 0} (http : Http W X) (cfg : ApiConfig) where
  keep_token-Kept : (r : LoginResponse) (s : Client W) → Kept (keep_token http cfg r s)
  keep_token-Kept r s = elim (Bool-cases (equal (token_of r) [])) [
    | inl e ↦ rw e tt
    | inr e ↦ rw e ((λ blank. ground (arith, equal_iff (token_of r) [])), refl)
  ]

  log_in-Kept : (s : Client W) → Kept (log_in http cfg s)
  unfolding log_in
  log_in-Kept s =
      continue-Kept _ (wrapped build_login_url (http.join_path cfg.base_url cfg.login_path) s)
        λ url s₁.
          continue-Kept _ (wrapped encode_login (http.encode (login cfg.username cfg.password)) s₁)
            λ payload s₂.
              continue-Kept _
                (wrapped create_login_request (http.check_request (codes "POST") url) s₂)
                λ x s₃.
                  continue-Kept _ (perform http perform_login (login_request url payload) s₃)
                    λ response s₄. continue-Kept _ (wrapped read_login response.body s₄) λ body s₅.
                      continue-Kept _ (accept_login response body s₅) λ accepted s₆.
                        continue-Kept _
                          (wrapped decode_login_failed (http.decode_login accepted) s₆)
                          λ r s₇. keep_token-Kept r s₇

  ensure_token-Kept : (s : Client W) → Kept (ensure_token http cfg s)
  unfolding ensure_token
  ensure_token-Kept s = elim (Bool-cases (equal s.token [])) [
    | inl e ↦ simp (e) (log_in-Kept s)
    | inr e ↦
        elim (Bool-cases
          (longer (until ((http.readings s.world).0 0) s.token_expires) cfg.jwt_leeway)) [
            | inl fresh ↦ simp (e, fresh) ((λ blank. ground (arith, equal_iff s.token [])), refl)
            | inr stale ↦
                simp (e, stale) (log_in-Kept (record s { world = (http.readings s.world).1 }))
          ]
  ]

  again :
      (s : Client W) (t : Text)
      → t ≢ []
      → s.token ≡ t
      → longer (until ((http.readings s.world).0 0) s.token_expires) cfg.jwt_leeway ≡ true
      → ensure_token http cfg s ≡ (ok t, record s { world = (http.readings s.world).1 })
  unfolding ensure_token
  again s t nonempty kept fresh = elim (Bool-cases (equal s.token [])) [
    | inl e ↦ ground (arith, equal_iff s.token [])
    | inr e ↦
        simp (e, fresh) (ap (λ v. (ok v, record s { world = (http.readings s.world).1 })) kept)
  ]

  -- A token that ensureToken returns is not empty and is the one it keeps, and whatever happens
  -- outside: as long as it is valid for longer than the leeway, ensureToken returns it again, does
  -- nothing but read the clock, and leaves it in place.
  pub ensure_token-Reuses :
      (s : Client W) (t : Text) (s' : Client W)
      → ensure_token http cfg s ≡ (ok t, s')
      → (w : W) → longer (until ((http.readings w).0 0) s'.token_expires) cfg.jwt_leeway ≡ true
      → (t ≢ [])
        × (s'.token ≡ t)
        × (ensure_token http cfg (record s' { world = w })
            ≡ (ok t, record s' { world = (http.readings w).1 }))
  ensure_token-Reuses s t s' e w fresh =
      let (nonempty, kept) = subst Kept e (ensure_token-Kept s) in
      (nonempty, kept, again (record s' { world = w }) t nonempty kept fresh)
