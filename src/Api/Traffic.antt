-- ===== src/Api/Traffic.antt =====
-- Which requests internal/api/client.go gives to Do, and how many. The transport is wrapped in one that
-- keeps a log.
pub mod Bounds
use device_handler.Prelude.{
  ℕ, suc, ◌+◌, ◌≤◌, ◌≡◌, ◌≢◌, ◌⊎◌, inl, inr, refl, sym, ap, ◌∙◌, Bool, true, false, Option, none,
  some, List, [], ◌∷◌, ◌++◌, append-nil, append_assoc, Result, ok, err, arith, if◌then◌else◌,
  length, length-append, All, All-append, Bool-cases, ◌==◌,
}
use device_handler.Time.{Time}
use device_handler.Text.{Text, equal, codes}
use device_handler.Text.Normal.{equal_iff}
use device_handler.Dict.{Dict}
use device_handler.Action.{Action, continue, modify}
use device_handler.Api.{
  ApiConfig, Payload, ApiRequest, ApiResponse, LoginResponse, Http, Client, ApiError, wrapped,
  is_success,
}
use device_handler.Api.Token.{
  login_request, perform, token_of, keep_token, accept_login, log_in, ensure_token, clear_token,
  until, longer,
}
use device_handler.Api.Requests.{
  Decoder, bearer, encode_payload, new_request, retry_of, retry, retry_unauthorized, decode_list,
  decode_with, accept_response, read_response, do_json, call,
}

-- The transport with a log of the requests behind the state of the outside world.
abbrev pub logged : {W X : Type 0} → Http W X → Http (W × List ApiRequest) X
logged http = record {
  readings = λ w. ((http.readings w.0).0, ((http.readings w.0).1, w.1));
  send = λ r w. ((http.send r w.0).0, ((http.send r w.0).1, w.1 ++ (r ∷ [])));
  body_after = http.body_after;
  join_path = http.join_path;
  check_request = http.check_request;
  encode = http.encode;
  decode_raw = http.decode_raw;
  decode_device_list_response = http.decode_device_list_response;
  decode_devices = http.decode_devices;
  decode_device_update_list_response = http.decode_device_update_list_response;
  decode_updates = http.decode_updates;
  decode_channel = http.decode_channel;
  decode_login = http.decode_login;
  decode_claims = http.decode_claims;
  decode_base64 = http.decode_base64;
  format_rfc3339 = http.format_rfc3339;
}

-- A login, or a request that bears a token.
abbrev pub IsLogin : ApiRequest → Type 0
IsLogin r = (url : Text) × ((body : List ℕ) × (r ≡ login_request url body))

abbrev pub HasToken : ApiRequest → Type 0
HasToken r = (token : Text) × (token ≢ []) × (r.authorization ≡ bearer token)

abbrev pub IsAuthorized : ApiRequest → Type 0
IsAuthorized r = IsLogin r ⊎ HasToken r

abbrev is_nil : Text → Bool
is_nil [] = true
is_nil (c ∷ t) = false

-- The number of requests without a token, and of those with one.
unfoldable pub logins : List ApiRequest → ℕ
logins [] = 0
logins (r ∷ rs) = let rest = logins rs in if is_nil r.authorization then suc rest else rest

unfoldable pub attempts : List ApiRequest → ℕ
attempts [] = 0
attempts (r ∷ rs) = let rest = attempts rs in if is_nil r.authorization then rest else suc rest

logins-append : (rs qs : List ApiRequest) → logins (rs ++ qs) ≡ logins rs + logins qs
unfolding logins
logins-append [] qs = omega arith
logins-append (r ∷ rs) qs = ground (arith, logins-append rs qs)

attempts-append : (rs qs : List ApiRequest) → attempts (rs ++ qs) ≡ attempts rs + attempts qs
unfolding attempts
attempts-append [] qs = omega arith
attempts-append (r ∷ rs) qs = ground (arith, attempts-append rs qs)

-- Between the two states Do was called at most `j` times for a login and at most `k` times with a
-- token, and for nothing else.
pub record Sends {W : Type 0} (j k : ℕ) (s s' : Client (W × List ApiRequest)) : Type 0 where
  pub sent : List ApiRequest
  pub log : s'.world.1 ≡ s.world.1 ++ sent
  pub few_logins : logins sent ≤ j
  pub few_attempts : attempts sent ≤ k
  pub authorized : All IsAuthorized sent

-- What is known of a value that was returned.
abbrev OnOk : {E A : Type 0} → (A → Type 0) → Result E A → Type 0
OnOk Q (ok a) = Q a
OnOk Q (err e) = Unit

module _ {W : Type 0} where
  -- An action from `s` logs in at most `j` times and makes at most `k` attempts, and its value has `Q`.
  abbrev Costs :
      {E A : Type 0}
      → ℕ
      → ℕ
      → (A → Type 0)
      → Client (W × List ApiRequest)
      → Result E A × Client (W × List ApiRequest)
      → Type 0
  Costs j k Q s r = Sends j k s r.1 × OnOk Q r.0

  Sends-none : (s s' : Client (W × List ApiRequest)) → s'.world.1 ≡ s.world.1 → Sends 0 0 s s'
  Sends-none s s' e = record {
    sent = [];
    log = e ∙ sym (append-nil _);
    few_logins = unfold logins in omega arith;
    few_attempts = unfold attempts in omega arith;
    authorized = tt;
  }

  Sends-trans :
      (j k j' k' : ℕ) {s t u : Client (W × List ApiRequest)}
      → Sends j k s t
      → Sends j' k' t u
      → Sends (j + j') (k + k') s u
  Sends-trans j k j' k' {s} p q = record {
    sent = p.sent ++ q.sent;
    log = q.log ∙ ap (λ l. l ++ q.sent) p.log ∙ append_assoc s.world.1 p.sent q.sent;
    few_logins = omega (arith, p.few_logins, q.few_logins, logins-append p.sent q.sent);
    few_attempts = omega (arith, p.few_attempts, q.few_attempts, attempts-append p.sent q.sent);
    authorized = All-append IsAuthorized p.sent q.sent p.authorized q.authorized;
  }

  Sends-weaken :
      (j k j' k' : ℕ) {s t : Client (W × List ApiRequest)}
      → j ≤ j'
      → k ≤ k'
      → Sends j k s t
      → Sends j' k' s t
  Sends-weaken j k j' k' h h' p = record {
    sent = p.sent;
    log = p.log;
    few_logins = omega (arith, p.few_logins);
    few_attempts = omega (arith, p.few_attempts);
    authorized = p.authorized;
  }

  -- The rule for a sequence.
  continue-Costs :
      {E A B : Type 0} (j k j' k' : ℕ) (Q : A → Type 0) (R : B → Type 0)
      (s : Client (W × List ApiRequest)) (f : A → Action (Client (W × List ApiRequest)) E B)
      (r : Result E A × Client (W × List ApiRequest))
      → Costs j k Q s r
      → ((a : A) (t : Client (W × List ApiRequest)) → Q a → Costs j' k' R t (f a t))
      → Costs (j + j') (k + k') R s (continue f r)
  continue-Costs j k j' k' Q R s f (ok a, t) (p, q) h =
      let next = h a t q in (Sends-trans j k j' k' p (next.0), next.1)
  continue-Costs j k j' k' Q R s f (err e, t) (p, q) h =
      (Sends-weaken j k (j + j') (k + k') (omega arith) (omega arith) p, tt)

module _ {W X : Type 0} (http : Http W X) (cfg : ApiConfig) where
  abbrev Any : {A : Type 0} → A → Type 0
  Any a = Unit

  wrapped-Costs :
      {A : Type 0} (message : X → ApiError X) (r : Result X A) (s : Client (W × List ApiRequest))
      → Costs 0 0 Any s (wrapped message r s)
  wrapped-Costs message (ok a) s = (Sends-none s s refl, tt)
  wrapped-Costs message (err x) s = (Sends-none s s refl, tt)

  wrapped_sent :
      {A : Type 0} (j k : ℕ) (message : X → ApiError X) (r : Result X A)
      (s t : Client (W × List ApiRequest))
      → Sends j k s t
      → Costs j k Any s (wrapped message r t)
  wrapped_sent j k message (ok a) s t p = (p, tt)
  wrapped_sent j k message (err x) s t p = (p, tt)

  login-Costs :
      (message : X → ApiError X) (url : Text) (body : List ℕ) (s : Client (W × List ApiRequest))
      → Costs 1 0 Any s (perform (logged http) message (login_request url body) s)
  unfolding logins attempts
  login-Costs message url body s =
      wrapped_sent 1 0 message (http.send (login_request url body) s.world.0).0 s _ (record {
        sent = login_request url body ∷ [];
        log = refl;
        few_logins = omega arith;
        few_attempts = omega arith;
        authorized = (inl (url, (body, refl)), tt);
      })

  attempt-Costs :
      (message : X → ApiError X) (r : ApiRequest) (s : Client (W × List ApiRequest))
      → HasToken r
      → Costs 0 1 Any s (perform (logged http) message r s)
  unfolding logins attempts
  attempt-Costs message r s (token, some_token, e) =
      wrapped_sent 0 1 message (http.send r s.world.0).0 s _ (record {
        sent = r ∷ [];
        log = refl;
        few_logins = rw e (omega arith);
        few_attempts = rw e (omega arith);
        authorized = (inr (token, some_token, e), tt);
      })
