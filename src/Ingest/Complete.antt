-- ===== src/Ingest/Complete.antt =====
-- Handle as a whole, for a request whose key holds no '|': what a success means, and which errors
-- are left.
use device_handler.Prelude.{◌≡◌, refl, ap, Option, none, some, [], ◌∷◌, ◌++◌, Result, ok, err, All}
use device_handler.Time.{Time, zero_time}
use device_handler.Text.{Unicode}
use device_handler.Metrics.{inc}
use device_handler.Cache.{DeviceRecord}
use device_handler.Cache.Consistent.{IsConsistent}
use device_handler.Action.{lift, continue}
use device_handler.Action.Outcome.{Outcome, continue-Outcome, weaken}
use device_handler.Telemetry.{DeploymentSamples}
use device_handler.Device.{Request, ParseResult, Response, UnresolvedChannel, build_telemetry}
use device_handler.Device.Build.{IsSampleOf, build_telemetry-ok, build_telemetry-IsSampleOf}
use device_handler.Device.Registry
use device_handler.Device.Registry.{Parser, Registry}
use device_handler.Publish.{PublishConfig, enqueue}
use device_handler.Ingest.State.{Remote, HandleError, Service}
use device_handler.Ingest.Handle.{
  select_parser, parsed_as, built, identify, prepare, deliver, handle,
}
use device_handler.Ingest.Found.{Belongs, IsPlain}
use device_handler.Ingest.Kept.{Kept, keep, Fails, IsForeign}
use device_handler.Ingest.Ensured.{HasName, HeldAs, Echoes}
use device_handler.Ingest.Untouched.{begun}
use device_handler.Ingest.Served.{Identified, identify-Identified}

module _ ⦃u : Unicode⦄ {E : Type 0} (registry : Registry E) where
  -- The upload that the registered parser of the request reads.
  abbrev pub ParsesTo : Request → ParseResult → Type 0
  ParsesTo req parsed =
      (p : Parser E) × (Registry.lookup registry req.manufacturer req.model ≡ some p)
      × (p.parse req ≡ ok parsed)

  -- The key of the upload holds no '|' in its parts.
  abbrev pub HasPlainKey : Request → Type 0
  HasPlainKey req =
      (parsed : ParseResult)
      → ParsesTo req parsed
      → IsPlain req.manufacturer req.model parsed.serial

  -- The names of all measurements of the upload are more than white space.
  abbrev pub HasNames : Request → Type 0
  HasNames req =
      (parsed : ParseResult) → ParsesTo req parsed → All HasName parsed.channel_measurements

module _ ⦃u : Unicode⦄ {W E X : Type 0} (remote : Remote W X) (registry : Registry E)
    (s₀ : Service W) where
  -- The sample of the request, and the cached record that it was built from.
  pub record Prepared (req : Request) (out : ParseResult × DeploymentSamples) (s : Service W)
      : Type 0 where
    pub kept : Kept s₀ s
    pub parses : ParsesTo registry req out.0
    pub device : DeviceRecord
    pub belongs : Belongs req.manufacturer req.model out.0.serial device
    pub held : HeldAs out.0.serial device s.cache
    pub sample : IsSampleOf device out.0 out.1

  abbrev pub Refused : Request → HandleError E X → Service W → Type 0
  Refused req e s = Kept s₀ s × (Echoes remote → HasNames registry req → IsForeign e)

  select_parser-Outcome :
      (req : Request) (o : Option (Parser E)) (s : Service W)
      → Registry.lookup registry req.manufacturer req.model ≡ o
      → Kept s₀ s
      → Outcome
          (λ p s'. Kept s₀ s' × (Registry.lookup registry req.manufacturer req.model ≡ some p))
          (Refused req)
          (select_parser o s)
  select_parser-Outcome req (some p) s e k = (k, e)
  select_parser-Outcome req none s e k = (keep s₀ s _ k refl refl refl refl refl, λ ec nn. tt)

  parsed_as-Outcome :
      (req : Request) (p : Parser E) (o : Result E ParseResult) (s : Service W)
      → Registry.lookup registry req.manufacturer req.model ≡ some p
      → p.parse req ≡ o
      → Kept s₀ s
      → Outcome
          (λ parsed s'. Kept s₀ s' × ParsesTo registry req parsed)
          (Refused req)
          (parsed_as o s)
  parsed_as-Outcome req p (ok parsed) s l e k = (k, (p, l, e))
  parsed_as-Outcome req p (err x) s l e k = (keep s₀ s _ k refl refl refl refl refl, λ ec nn. tt)

  built-Outcome :
      (req : Request) (parsed : ParseResult) (r : DeviceRecord)
      (o : Result UnresolvedChannel DeploymentSamples) (s : Service W)
      → ParsesTo registry req parsed
      → build_telemetry r parsed ≡ o
      → Identified E remote s₀ req parsed r s
      → Outcome (λ sample s'. Prepared req (parsed, sample) s') (Refused req) (lift (built o) s)
  built-Outcome req parsed r (ok sample) s p e h = record {
    kept = h.kept;
    parses = p;
    device = r;
    belongs = h.belongs;
    held = h.held;
    sample = build_telemetry-ok r parsed e;
  }
  built-Outcome req parsed r (err x) s p e h = (
    h.kept,
    λ ec nn.
        let (sample, e', _) = build_telemetry-IsSampleOf r parsed (h.resolved ec (nn parsed p)) in
        cc (e, e'),
  )

  prepare-Prepared :
      (req : Request) (s : Service W)
      → HasPlainKey registry req
      → Kept s₀ (begun s)
      → Outcome (Prepared req) (Refused req) (prepare remote registry req s)
  unfolding prepare
  prepare-Prepared req s plain k =
      continue-Outcome _
        (select_parser (Registry.lookup registry req.manufacturer req.model) (begun s)) _
        (Prepared req) (Refused req) (select_parser-Outcome req _ (begun s) refl k)
        λ p s₁ (k₁, l).
          continue-Outcome _ (parsed_as (p.parse req) s₁) _ (Prepared req) (Refused req)
            (parsed_as-Outcome req p (p.parse req) s₁ l refl k₁)
            λ parsed s₂ (k₂, ps).
              continue-Outcome _ (identify remote registry req parsed s₂)
                (Identified E remote s₀ req parsed) (Prepared req) (Refused req)
                (weaken (identify remote registry req parsed s₂) (Identified E remote s₀ req parsed)
                  _ (Fails s₀) (Refused req)
                  (identify-Identified E remote s₀ registry req parsed s₂ (plain parsed ps) k₂)
                  (λ r s' h. h) (λ e s' h. (h.0, λ ec nn. h.1)))
                λ r s₃ h.
                  continue-Outcome _ (lift (built (build_telemetry r parsed)) s₃) _ (Prepared req)
                    (Refused req) (built-Outcome req parsed r _ s₃ ps refl h) λ sample s₄ done. done

module _ ⦃u : Unicode⦄ {W E X : Type 0} (remote : Remote W X) (registry : Registry E)
    (cfg : PublishConfig) where
  -- From `s` to `s'` the request was served, with the response `resp`: the registered parser read
  -- an upload, and one item was enqueued behind the others, with the sample of the upload for a
  -- device that belongs to it and that the cache holds with all its channels.
  pub record IsServed (req : Request) (s s' : Service W) (resp : Response) : Type 0 where
    pub parsed : ParseResult
    pub parses : ParsesTo registry req parsed
    pub response : resp ≡ parsed.response
    pub device : DeviceRecord
    pub belongs : Belongs req.manufacturer req.model parsed.serial device
    pub held : HeldAs parsed.serial device s'.cache
    pub sample : DeploymentSamples
    pub is_sample : IsSampleOf device parsed sample
    pub received_at : Time
    pub buffer :
        s'.publisher.buffer
        ≡ s.publisher.buffer
          ++ (record {
            envelope = record {
              subject = [];
              deployment_sample = sample;
              received_at = received_at;
            };
            retry_count = 0;
            not_before = zero_time;
          }
              ∷ [])
    pub requests : s'.publisher.metrics.ingest_requests ≡ inc s.publisher.metrics.ingest_requests
    pub successes : s'.publisher.metrics.ingest_success ≡ inc s.publisher.metrics.ingest_success

  delivered-IsServed :
      (req : Request) (s : Service W)
      (r : Result (HandleError E X) (ParseResult × DeploymentSamples) × Service W)
      → Outcome (Prepared remote registry (begun s) req) (Refused remote registry (begun s) req) r
      → {resp : Response} → (continue (deliver remote registry cfg) r).0 ≡ ok resp
      → IsServed req s (continue (deliver remote registry cfg) r).1 resp
  unfolding deliver enqueue
  delivered-IsServed req s (ok (parsed, sample), s') p {resp} e = record {
    parsed = parsed;
    parses = p.parses;
    response = cc;
    device = p.device;
    belongs = p.belongs;
    held = p.held;
    sample = sample;
    is_sample = p.sample;
    received_at = (remote.readings s'.world).0 0;
    buffer = rw p.kept.buffer refl;
    requests = p.kept.requests;
    successes = ap inc p.kept.successes;
  }
  delivered-IsServed req s (err x, s') p {resp} e = cc

  -- On a consistent cache, a request that succeeds, and whose key has no '|' in its parts, was
  -- served: the registered parser read the upload, the response is the parser's, and one new item
  -- stands behind the others in the buffer, with the sample of the upload for a device that belongs
  -- to the request and that the cache holds; the request and its success are counted.
  pub handle-IsServed :
      (req : Request) (s : Service W) {resp : Response}
      → IsConsistent s.cache
      → HasPlainKey registry req
      → (handle remote registry cfg req s).0 ≡ ok resp
      → IsServed req s (handle remote registry cfg req s).1 resp
  unfolding handle
  handle-IsServed req s {resp} h plain =
      delivered-IsServed req s (prepare remote registry req s)
        (prepare-Prepared remote registry (begun s) req s plain (record {
          consistent = h;
          buffer = refl;
          flushing = refl;
          requests = refl;
          successes = refl;
        }))
        {resp = resp}

  delivered-IsForeign :
      (req : Request) (s : Service W)
      (r : Result (HandleError E X) (ParseResult × DeploymentSamples) × Service W)
      → Outcome (Prepared remote registry (begun s) req) (Refused remote registry (begun s) req) r
      → {e : HandleError E X} → Echoes remote
      → HasNames registry req
      → (continue (deliver remote registry cfg) r).0 ≡ err e
      → IsForeign e
  unfolding deliver
  delivered-IsForeign req s (ok (parsed, sample), s') p {e} ec nn h = cc
  delivered-IsForeign req s (err x, s') p {e} ec nn h = rw (x_eq) at (p.1 ec nn)
    where
      x_eq : x ≡ e
      x_eq = cc

  -- On a consistent cache, for a request whose key has no '|' in its parts, and if the REST API
  -- names channels as it is asked to and every measurement has a name: a request that fails does so
  -- neither in BuildTelemetry nor for want of the cache entry of the device whose channel was
  -- created.
  pub handle-IsForeign :
      (req : Request) (s : Service W) {e : HandleError E X}
      → IsConsistent s.cache
      → HasPlainKey registry req
      → Echoes remote
      → HasNames registry req
      → (handle remote registry cfg req s).0 ≡ err e
      → IsForeign e
  unfolding handle
  handle-IsForeign req s {e} h plain ec nn =
      delivered-IsForeign req s (prepare remote registry req s)
        (prepare-Prepared remote registry (begun s) req s plain (record {
          consistent = h;
          buffer = refl;
          flushing = refl;
          requests = refl;
          successes = refl;
        }))
        {e = e} ec nn
