-- ===== src/Config/Loaded.antt =====
-- What Load of internal/config/config.go returns.
use device_handler.Prelude.{
  ◌≡◌, ◌≢◌, ◌⊎◌, inl, inr, refl, arith, false, List, [], ◌∷◌, Result, ok, err, ◌>>=◌, Bool-cases,
  All,
}
use device_handler.Time.{Duration, ℤ}
use device_handler.Text.{Text, Unicode, codes, equal, trim_space, to_upper}
use device_handler.Text.Normal.{equal_iff}
use device_handler.Api.{ApiConfig}
use device_handler.Publish.{PublishConfig}
use device_handler.Config.{
  HttpConfig, Config, Environment, LoadError, unsupported_log_level, required, panicked, level_of,
  parse_log_level, or_panic, check, getenv, must_duration, must_int, read_http, read_api,
  read_publish, load,
}

abbrev Nonempty : Text → Type 0
Nonempty t = t ≢ []

-- The names that parseLogLevel knows.
abbrev pub level_names : List Text
level_names = codes "DEBUG" ∷ codes "INFO" ∷ codes "WARN" ∷ codes "ERROR" ∷ []

module _ {X : Type 0} (env : Environment X) ⦃u : Unicode⦄ where
  -- Why Load may fail: a variable that is set does not parse, or the level has no such name. No
  -- variable is ever missing.
  abbrev pub Why : LoadError X → Type 0
  Why (unsupported_log_level value) =
      (value ≡ getenv env (codes "LOG_LEVEL") (codes "DEBUG"))
      × All (λ name. to_upper (trim_space value) ≢ name) level_names
  Why (required key) = ⊥
  Why (panicked key x) =
      (env.variable key ≢ [])
      × ((env.parse_duration (env.variable key) ≡ err x) ⊎ (env.atoi (env.variable key) ≡ err x))

  abbrev pub Outcome : {A : Type 0} → (A → Type 0) → Result (LoadError X) A → Type 0
  Outcome Q (ok a) = Q a
  Outcome Q (err e) = Why e

  bind-Outcome :
      {A B : Type 0} (Q : A → Type 0) (R : B → Type 0) (m : Result (LoadError X) A)
      (f : A → Result (LoadError X) B)
      → Outcome Q m
      → ((a : A) → Q a → Outcome R (f a))
      → Outcome R (m >>= f)
  bind-Outcome Q R (ok a) f q h = h a q
  bind-Outcome Q R (err e) f q h = q

  abbrev Any : {A : Type 0} → A → Type 0
  Any a = Unit

  differs : (s t : Text) → equal s t ≡ false → s ≢ t
  differs s t e same = ground (arith, equal_iff s t)

  getenv-Nonempty : (key fallback : Text) → fallback ≢ [] → Nonempty (getenv env key fallback)
  unfolding getenv
  getenv-Nonempty key fallback h = elim (Bool-cases (equal (env.variable key) [])) [
    | inl e ↦ rw e h
    | inr e ↦ rw e (differs (env.variable key) [] e)
  ]

  or_panic-Outcome :
      {A : Type 0} (key : Text) (r : Result X A)
      → env.variable key ≢ []
      → ((x : X)
          → r ≡ err x
          → (env.parse_duration (env.variable key) ≡ err x) ⊎ (env.atoi (env.variable key) ≡ err x))
      → Outcome Any (or_panic key r)
  or_panic-Outcome key (ok a) set h = tt
  or_panic-Outcome key (err x) set h = (set, h x refl)

  must_duration-Outcome :
      (key : Text) (fallback : Duration) → Outcome Any (must_duration env key fallback)
  unfolding must_duration
  must_duration-Outcome key fallback = elim (Bool-cases (equal (env.variable key) [])) [
    | inl e ↦ rw e tt
    | inr e ↦ rw e (
        or_panic-Outcome key (env.parse_duration (env.variable key))
          (differs (env.variable key) [] e) λ x h. inl h)
  ]

  must_int-Outcome : (key : Text) (fallback : ℤ) → Outcome Any (must_int env key fallback)
  unfolding must_int
  must_int-Outcome key fallback = elim (Bool-cases (equal (env.variable key) [])) [
    | inl e ↦ rw e tt
    | inr e ↦ rw e (
        or_panic-Outcome key (env.atoi (env.variable key)) (differs (env.variable key) [] e)
          λ x h. inr h)
  ]

  level_of-Outcome :
      (value name : Text)
      → value ≡ getenv env (codes "LOG_LEVEL") (codes "DEBUG")
      → to_upper (trim_space value) ≡ name
      → Outcome Any (level_of value name)
  level_of-Outcome value name v e = elim (Bool-cases (equal name (codes "DEBUG"))) [
    | inl h ↦ rw h tt
    | inr a ↦ elim (Bool-cases (equal name (codes "INFO"))) [
      | inl h ↦ rw (a, h) tt
      | inr b ↦ elim (Bool-cases (equal name (codes "WARN"))) [
        | inl h ↦ rw (a, b, h) tt
        | inr c ↦ elim (Bool-cases (equal name (codes "ERROR"))) [
          | inl h ↦ rw (a, b, c, h) tt
          | inr d ↦
              rw (a, b, c, d)
                (v, rw e (differs _ _ a, (differs _ _ b, (differs _ _ c, (differs _ _ d, tt)))))
        ]
      ]
    ]
  ]

  parse_log_level-Outcome :
      Outcome Any (parse_log_level {X = X} (getenv env (codes "LOG_LEVEL") (codes "DEBUG")))
  unfolding parse_log_level
  parse_log_level-Outcome = level_of-Outcome _ _ refl refl

  -- The texts of a configuration.
  abbrev pub http_texts : HttpConfig → List Text
  http_texts http = http.address ∷ []

  abbrev pub api_texts : ApiConfig → List Text
  api_texts api =
      api.base_url ∷ api.username ∷ api.password ∷ api.service_name ∷ api.login_path
      ∷ api.internal_devices_path ∷ api.internal_updated_path ∷ api.outdated_properties_path ∷ []

  abbrev pub publish_texts : PublishConfig → List Text
  publish_texts publish = publish.nats_url ∷ publish.subject ∷ []

  abbrev pub IsFull : Config → Type 0
  IsFull cfg =
      All Nonempty (http_texts cfg.http)
      × All Nonempty (api_texts cfg.api)
      × All Nonempty (publish_texts cfg.publish)

  duration-Outcome :
      {B : Type 0} (R : B → Type 0) (key : Text) (fallback : Duration)
      (f : Duration → Result (LoadError X) B)
      → ((d : Duration) → Outcome R (f d))
      → Outcome R (must_duration env key fallback >>= f)
  duration-Outcome R key fallback f h =
      bind-Outcome Any R _ f (must_duration-Outcome key fallback) λ d _. h d

  int-Outcome :
      {B : Type 0} (R : B → Type 0) (key : Text) (fallback : ℤ) (f : ℤ → Result (LoadError X) B)
      → ((n : ℤ) → Outcome R (f n))
      → Outcome R (must_int env key fallback >>= f)
  int-Outcome R key fallback f h = bind-Outcome Any R _ f (must_int-Outcome key fallback) λ n _. h n

  abbrev FullHttp : HttpConfig → Type 0
  FullHttp http = All Nonempty (http_texts http)

  abbrev FullApi : ApiConfig → Type 0
  FullApi api = All Nonempty (api_texts api)

  abbrev FullPublish : PublishConfig → Type 0
  FullPublish publish = All Nonempty (publish_texts publish)

  read_http-Outcome : Outcome FullHttp (read_http env)
  unfolding read_http
  read_http-Outcome = duration-Outcome FullHttp _ _ _ λ a.
      duration-Outcome FullHttp _ _ _
        λ b. duration-Outcome FullHttp _ _ _ λ c. (getenv-Nonempty _ _ (λ h. cc), tt)

  read_api-Outcome : Outcome FullApi (read_api env)
  unfolding read_api
  read_api-Outcome = duration-Outcome FullApi _ _ _ λ a. duration-Outcome FullApi _ _ _ λ b.
      duration-Outcome FullApi _ _ _ λ c. (
        getenv-Nonempty _ _ (λ h. cc),
        (
          getenv-Nonempty _ _ (λ h. cc),
          (
            getenv-Nonempty _ _ (λ h. cc),
            (
              getenv-Nonempty _ _ (λ h. cc),
              (
                getenv-Nonempty _ _ (λ h. cc),
                (
                  getenv-Nonempty _ _ (λ h. cc),
                  (getenv-Nonempty _ _ (λ h. cc), (getenv-Nonempty _ _ (λ h. cc), tt)),
                ),
              ),
            ),
          ),
        ),
      )

  read_publish-Outcome : Outcome FullPublish (read_publish env)
  unfolding read_publish
  read_publish-Outcome = duration-Outcome FullPublish _ _ _ λ a. int-Outcome FullPublish _ _ _ λ b.
      duration-Outcome FullPublish _ _ _ λ c. duration-Outcome FullPublish _ _ _ λ d.
        int-Outcome FullPublish _ _ _
          λ e. (getenv-Nonempty _ _ (λ h. cc), (getenv-Nonempty _ _ (λ h. cc), tt))

  set : (t : Text) → t ≢ [] → equal t [] ≡ false
  set t h = ground (arith, equal_iff t [])

  check-Outcome : (cfg : Config) → IsFull cfg → Outcome IsFull (check {X = X} cfg)
  unfolding check
  check-Outcome cfg h =
      let (a, (b, (c, rest))) = h.1 in
      simp (set cfg.api.base_url a, set cfg.api.username b, set cfg.api.password c) h

  -- Load returns a configuration with no empty text in it, or it fails for one of two reasons: the
  -- text of LOG_LEVEL, or its default, is no level, or a variable that is set is no duration or no
  -- number. It never fails for want of a variable.
  pub load-Outcome : Outcome IsFull (load env)
  unfolding load
  load-Outcome = bind-Outcome Any IsFull _ _ parse_log_level-Outcome λ level _.
      bind-Outcome FullHttp IsFull _ _ read_http-Outcome λ http full_http.
        bind-Outcome FullApi IsFull _ _ read_api-Outcome λ api full_api.
          duration-Outcome IsFull _ _ _ λ poll_interval.
            bind-Outcome FullPublish IsFull _ _ read_publish-Outcome
              λ publish full_publish. check-Outcome _ (full_http, full_api, full_publish)
