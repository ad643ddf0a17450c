-- ===== src/Server/Sessions.antt =====
-- The server of internal/ingest/server.go over any number of requests.
use device_handler.Prelude.{
  ℕ, ◌+◌, ◌≡◌, inl, inr, refl, sym, ap, ◌∙◌, arith, Bool, ◌||◌, Bool-cases, Option, none, some,
  List, [], ◌∷◌, ◌++◌, append-nil, append_assoc, length, length-append, Result, ok, err,
}
use device_handler.Text.{Text, Unicode, codes, equal, trim_space}
use device_handler.Time.{zero_time}
use device_handler.Telemetry.{DeploymentSamples}
use device_handler.Device.{Request, Response, ParseResult}
use device_handler.Device.Registry.{Registry}
use device_handler.Metrics.Registry as MetricsRegistry
use device_handler.Publish.{PublishConfig, BufferedItem, enqueue}
use device_handler.Cache.Consistent.{IsConsistent}
use device_handler.Action.{continue}
use device_handler.Action.Outcome.{Outcome}
use device_handler.Ingest.State.{Remote, HandleError, Service}
use device_handler.Ingest.Handle.{prepare, deliver, handle}
use device_handler.Ingest.Untouched.{Keeps, begun, prepare-Kept}
use device_handler.Server.{body, HttpRequest, respond, handle_body, handle_devices}
use device_handler.Server.Routes.{Answer, devices, serve_metrics, serve, serve_all}

-- The telemetry that an answer acknowledges: one item if Handle has succeeded.
abbrev pub acknowledged : {Err : Type 0} → Answer Err → ℕ
acknowledged (devices (body status type content)) = 1
acknowledged _ = 0

abbrev pub all_acknowledged : {Err : Type 0} → List (Answer Err) → ℕ
all_acknowledged [] = 0
all_acknowledged (a ∷ rest) = acknowledged a + all_acknowledged rest

-- From `s` to `s'` the cache stays consistent, and `n` items are new behind the others.
pub record Adds ⦃u : Unicode⦄ {W : Type 0} (n : ℕ) (s s' : Service W) : Type 0 where
  pub consistent : IsConsistent s'.cache
  pub added : List BufferedItem
  pub buffer : s'.publisher.buffer ≡ s.publisher.buffer ++ added
  pub count : length added ≡ n

module _ ⦃u : Unicode⦄ {W : Type 0} where
  Adds-none :
      (s s' : Service W)
      → IsConsistent s'.cache
      → s'.publisher.buffer ≡ s.publisher.buffer
      → Adds 0 s s'
  Adds-none s s' h e = record {
    consistent = h;
    added = [];
    buffer = e ∙ sym (append-nil _);
    count = refl;
  }

  Adds-trans : (m n : ℕ) {s t v : Service W} → Adds m s t → Adds n t v → Adds (m + n) s v
  Adds-trans m n {s} p q = record {
    consistent = q.consistent;
    added = p.added ++ q.added;
    buffer =
        q.buffer
        ∙ ap (λ l. l ++ q.added) p.buffer
        ∙ append_assoc s.publisher.buffer p.added q.added;
    count = omega (arith, p.count, q.count, length-append p.added q.added);
  }

  -- What a result of Handle adds.
  abbrev AddsOn : {Err : Type 0} → Service W → Result Err Response × Service W → Type 0
  AddsOn s (ok response, s') = Adds 1 s s'
  AddsOn s (err e, s') = Adds 0 s s'

  respond-Adds :
      {E X : Type 0} (s : Service W) (o : Result (HandleError E X) Response × Service W)
      → AddsOn s o
      → Adds (acknowledged (devices (respond o).0)) s (respond o).1
  unfolding respond
  respond-Adds s (ok response, s') h = h
  respond-Adds s (err e, s') h = h

module _ ⦃u : Unicode⦄ {W E X : Type 0} (remote : Remote W X) (registry : Registry E)
    (cfg : PublishConfig) where
  deliver-AddsOn :
      (s : Service W) (r : Result (HandleError E X) (ParseResult × DeploymentSamples) × Service W)
      → Outcome (Keeps E remote (begun s)) (Keeps E remote (begun s)) r
      → AddsOn s (continue (deliver remote registry cfg) r)
  unfolding deliver enqueue
  deliver-AddsOn s (ok (parsed, sample), t) k =
      let item : BufferedItem = record {
        envelope = record {
          subject = [];
          deployment_sample = sample;
          received_at = (remote.readings t.world).0 0;
        };
        retry_count = 0;
        not_before = zero_time;
      } in
      record {
        consistent = k.consistent;
        added = item ∷ [];
        buffer = ap (λ l. l ++ (item ∷ [])) k.buffer;
        count = refl;
      }
  deliver-AddsOn s (err e, t) k = Adds-none s t k.consistent k.buffer

  handle-AddsOn :
      (req : Request) (s : Service W)
      → IsConsistent s.cache
      → AddsOn s (handle remote registry cfg req s)
  unfolding handle
  handle-AddsOn req s h =
      deliver-AddsOn s (prepare remote registry req s) (prepare-Kept remote registry req s h)

  handle_body-Adds :
      (r : HttpRequest) (o : Option (List ℕ)) (s : Service W)
      → IsConsistent s.cache
      → Adds
          (acknowledged (devices (handle_body remote registry cfg r o s).0))
          s
          (handle_body remote registry cfg r o s).1
  unfolding handle_body
  handle_body-Adds r none s h = Adds-none s s h refl
  handle_body-Adds r (some bytes) s h =
      let t : Service W = record s { world = (remote.readings s.world).1 } in
      let a = respond-Adds t (handle remote registry cfg _ t) (handle-AddsOn _ t h) in
      record { consistent = a.consistent; added = a.added; buffer = a.buffer; count = a.count }

  handle_devices-Adds :
      (r : HttpRequest) (s : Service W)
      → IsConsistent s.cache
      → Adds
          (acknowledged (devices (handle_devices remote registry cfg r s).0))
          s
          (handle_devices remote registry cfg r s).1
  unfolding handle_devices
  handle_devices-Adds r s h = elim (Bool-cases (equal r.method (codes "POST"))) [
    | inr other ↦ simp (other) (Adds-none s s h refl)
    | inl post ↦
        elim (Bool-cases (equal (trim_space r.manufacturer) [] || equal (trim_space r.model) [])) [
          | inl blank ↦ simp (post, blank) (Adds-none s s h refl)
          | inr given ↦ simp (post, given) (handle_body-Adds r r.body s h)
        ]
  ]

module _ ⦃u : Unicode⦄ {W E X : Type 0} (remote : Remote W X) (registry : Registry E)
    (cfg : PublishConfig) (ready : Service W → Option (Bool × List Text))
    (metrics : Option MetricsRegistry.Registry) where
  serve-Adds :
      (path : Text) (r : HttpRequest) (s : Service W)
      → IsConsistent s.cache
      → Adds
          (acknowledged (serve remote registry cfg ready metrics path r s).0)
          s
          (serve remote registry cfg ready metrics path r s).1
  unfolding serve
  serve-Adds path r s h = elim (Bool-cases (equal path (codes "/devices"))) [
    | inl e ↦ simp (e) (handle_devices-Adds remote registry cfg r s h)
    | inr a ↦ elim (Bool-cases (equal path (codes "/healthz"))) [
      | inl e ↦ simp (a, e) (Adds-none s s h refl)
      | inr b ↦ elim (Bool-cases (equal path (codes "/readyz"))) [
        | inl e ↦ simp (a, b, e) (Adds-none s s h refl)
        | inr c ↦ elim (Bool-cases (equal path (codes "/metrics"))) [
          | inl e ↦ simp (a, b, c, e) (metrics-Adds metrics)
          | inr d ↦ simp (a, b, c, d) (Adds-none s s h refl)
        ]
      ]
    ]
  ]
    where
      metrics-Adds :
          (o : Option MetricsRegistry.Registry)
          → Adds (acknowledged (serve_metrics remote registry cfg ready metrics o s)) s s
      metrics-Adds none = Adds-none s s h refl
      metrics-Adds (some m) = Adds-none s s h refl

  -- From a consistent cache, after any requests to the server, on any path and well-formed or not:
  -- each has got one answer, the cache is consistent, and the buffer has, behind what it had, one
  -- new item for each answer with the response of a parser, and none for any other answer.
  pub serve_all-Adds :
      (rs : List (Text × HttpRequest)) (s : Service W)
      → IsConsistent s.cache
      → (length (serve_all remote registry cfg ready metrics rs s).0 ≡ length rs)
        × Adds
            (all_acknowledged (serve_all remote registry cfg ready metrics rs s).0)
            s
            (serve_all remote registry cfg ready metrics rs s).1
  unfolding serve_all
  serve_all-Adds [] s h = (refl, Adds-none s s h refl)
  serve_all-Adds ((path, r) ∷ rs) s h =
      let first = serve-Adds path r s h in
      let (answered, others) =
        serve_all-Adds rs (serve remote registry cfg ready metrics path r s).1 first.consistent in
      (omega (arith, answered), Adds-trans _ _ first others)
