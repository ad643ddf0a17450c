-- ===== src/Ingest/Threads/Kept.antt =====
-- What one access of Handle of internal/ingest/service.go does to the goroutine's own record and to
-- what the goroutines share.
use device_handler.Prelude.{
  ℕ, ◌+◌, ◌≡◌, refl, sym, ap, ◌∙◌, Option, none, some, List, [], ◌∷◌, ◌++◌, Result, ok, err, arith,
}
use mathlib.Core.Option.{some-injective}
use device_handler.Text.{Text, Unicode, trim_space}
use device_handler.Dict
use device_handler.Dict.{lookup-IsKeyed}
use device_handler.Cache.{
  DeviceCache, DeviceRecord, ChannelMapping, key, record_key, upsert_found, upsert_channel_mapping,
}
use device_handler.Cache.Consistent.{
  IsConsistent, upsert_many-IsConsistent, upsert_channel_mapping-IsConsistent,
}
use device_handler.Device.{Request, ParseResult, ChannelMeasurement}
use device_handler.Device.Registry.{Registry}
use device_handler.Publish.{PublishConfig, TelemetryEnvelope, enqueue}
use device_handler.Publish.Steps.Conserve.{total, load, load-append}
use device_handler.Ingest.State.{Remote, Service}
use device_handler.Ingest.Lookup.{upsert_cache}
use device_handler.Ingest.Found.{lookup-Belongs, fallback-Belongs}
use device_handler.Ingest.Threads.{
  Pc, arrived, unsupported, unparsed, looking_up, missed, refreshing, fetching_updated,
  storing_updated, looking_up_updated, falling_back_updated, fetching_all, storing_all,
  looking_up_all, falling_back_all, absent, creating, not_created, counting_channel,
  storing_channel, stamping, enqueueing, counting, finished, after_updated, after_all, after_create,
  after_store, step,
}
use device_handler.Ingest.Threads.System.{emitted}
use device_handler.Ingest.Threads.Stands.{
  Stands, after_registry-Stands, after_search-Stands, after_updated-Stands, after_all-Stands,
  after_create-Stands, after_store-Stands,
}

module _ ⦃u : Unicode⦄ where
  upsert_found-record_key :
      (k : Text) (mapping : ChannelMapping) (c : DeviceCache) (o : Option DeviceRecord)
      {r : DeviceRecord}
      → Dict.lookup k c.by_key ≡ o
      → IsConsistent c
      → (upsert_found k mapping c o).1 ≡ some r
      → record_key r ≡ k
  unfolding upsert_found
  upsert_found-record_key k mapping c none {r} l h e = cc
  upsert_found-record_key k mapping c (some q) {r} l h e =
      ap record_key (sym (some-injective _ r e))
      ∙ lookup-IsKeyed record_key k c.by_key {v = q} h.keyed l

  -- UpsertChannelMapping returns the record that stands under the key.
  upsert_channel_mapping-record_key :
      (m mo t : Text) (mapping : ChannelMapping) (c : DeviceCache) {r : DeviceRecord}
      → IsConsistent c
      → (upsert_channel_mapping m mo t mapping c).1 ≡ some r
      → record_key r ≡ key m mo t
  unfolding upsert_channel_mapping
  upsert_channel_mapping-record_key m mo t mapping c {r} =
      upsert_found-record_key (key m mo t) mapping c _ {r = r} refl

  -- From `s` to `s'` the cache stays consistent, and the buffer gets these envelopes and no others.
  pub record Adds {W : Type 0} (es : List TelemetryEnvelope) (s s' : Service W) : Type 0 where
    pub consistent : IsConsistent s'.cache
    pub flushing : s'.publisher.flushing ≡ s.publisher.flushing
    pub loads :
        (f : TelemetryEnvelope → ℕ)
        → load f s'.publisher.buffer ≡ load f s.publisher.buffer + total f es

  Adds-none :
      {W : Type 0} (s s' : Service W)
      → IsConsistent s'.cache
      → s'.publisher.flushing ≡ s.publisher.flushing
      → s'.publisher.buffer ≡ s.publisher.buffer
      → Adds [] s s'
  Adds-none s s' h e b = record {
    consistent = h;
    flushing = e;
    loads = λ f. omega (arith, ap (load f) b);
  }

  module _ {W : Type 0} (E X : Type 0) where
    abbrev AddsAt : Service W → Pc E X × Service W → Type 0
    AddsAt s (pc, s') = Adds [] s s'

    after_updated-Adds :
        (parsed : ParseResult) (o : Result X (List DeviceRecord) × W) (s : Service W)
        → IsConsistent s.cache
        → AddsAt s (after_updated parsed o s)
    after_updated-Adds parsed (ok [], w) s h = Adds-none s _ h refl refl
    after_updated-Adds parsed (ok (r ∷ rs), w) s h = Adds-none s _ h refl refl
    after_updated-Adds parsed (err x, w) s h = Adds-none s _ h refl refl

    after_all-Adds :
        (parsed : ParseResult) (o : Result X (List DeviceRecord) × W) (s : Service W)
        → IsConsistent s.cache
        → AddsAt s (after_all parsed o s)
    after_all-Adds parsed (ok rs, w) s h = Adds-none s _ h refl refl
    after_all-Adds parsed (err x, w) s h = Adds-none s _ h refl refl

    after_create-Adds :
        (parsed : ParseResult) (r : DeviceRecord) (tag : Text) (ms : List ChannelMeasurement)
        (o : Result X ChannelMapping × W) (s : Service W)
        → IsConsistent s.cache
        → AddsAt s (after_create parsed r tag ms o s)
    after_create-Adds parsed r tag ms (ok mapping, w) s h = Adds-none s _ h refl refl
    after_create-Adds parsed r tag ms (err x, w) s h = Adds-none s _ h refl refl

    after_store-Adds :
        (parsed : ParseResult) (ms : List ChannelMeasurement)
        (o : DeviceCache × Option DeviceRecord) (s : Service W)
        → IsConsistent o.0
        → AddsAt s (after_store parsed ms o s)
    after_store-Adds parsed ms (c, some r) s h = Adds-none s _ h refl refl
    after_store-Adds parsed ms (c, none) s h = Adds-none s _ h refl refl

module _ ⦃u : Unicode⦄ {W E X : Type 0} (remote : Remote W X) (registry : Registry E)
    (cfg : PublishConfig) where
  upsert_cache-Adds :
      (rs : List DeviceRecord) (s : Service W)
      → IsConsistent s.cache
      → Adds [] s (upsert_cache remote rs s)
  unfolding upsert_cache
  upsert_cache-Adds rs s h =
      Adds-none s _ (upsert_many-IsConsistent (remote.readings s.world).0 rs s.cache h) refl refl

  -- The shared state is left with what the access has enqueued, on a consistent cache.
  pub step-Adds :
      (req : Request) (pc : Pc E X) (s : Service W)
      → IsConsistent s.cache
      → Adds (emitted pc) s (step remote registry cfg req pc s).1
  unfolding step
  step-Adds req (fetching_updated since parsed) s h =
      after_updated-Adds E X parsed (remote.fetch_updated_devices since s.world) s h
  step-Adds req (storing_updated rs parsed) s h = upsert_cache-Adds rs s h
  step-Adds req (fetching_all parsed) s h =
      after_all-Adds E X parsed (remote.fetch_devices s.world) s h
  step-Adds req (storing_all rs parsed) s h = upsert_cache-Adds rs s h
  step-Adds req (creating parsed r m ms) s h =
      after_create-Adds E X parsed r (trim_space m.name) ms _ s h
  step-Adds req (storing_channel parsed r mapping ms) s h =
      after_store-Adds E X parsed ms _ s
        (upsert_channel_mapping-IsConsistent r.manufacturer r.model parsed.serial mapping s.cache h)
  step-Adds req (enqueueing parsed envelope) s h =
      unfold enqueue in
      record {
        consistent = h;
        flushing = refl;
        loads = λ f. omega (arith, load-append f s.publisher.buffer);
      }
  step-Adds req _ s h = Adds-none s _ h refl refl

  -- What holds of the goroutine goes on to hold.
  pub step-Stands :
      (req : Request) (sent : List TelemetryEnvelope) (pc : Pc E X) (s : Service W)
      → IsConsistent s.cache
      → Stands registry req sent pc
      → Stands registry req (emitted pc ++ sent) (step remote registry cfg req pc s).0
  unfolding step Stands
  step-Stands req sent arrived s c h = after_registry-Stands X registry req sent _ refl h
  step-Stands req sent unsupported s c h = h
  step-Stands req sent (unparsed e) s c h = h
  step-Stands req sent (looking_up parsed) s c h =
      after_search-Stands X registry req sent parsed (missed parsed) _ h h
        (λ r e. (lookup-Belongs s.cache req.manufacturer req.model parsed.serial r c e).0)
  step-Stands req sent (missed parsed) s c h = h
  step-Stands req sent (refreshing parsed) s c h = h
  step-Stands req sent (fetching_updated since parsed) s c h =
      after_updated-Stands X registry req sent parsed (remote.fetch_updated_devices since s.world) s
        h
  step-Stands req sent (storing_updated rs parsed) s c h = h
  step-Stands req sent (looking_up_updated parsed) s c h =
      after_search-Stands X registry req sent parsed (falling_back_updated parsed) _ h h
        (λ r e. (lookup-Belongs s.cache req.manufacturer req.model parsed.serial r c e).0)
  step-Stands req sent (falling_back_updated parsed) s c h =
      after_search-Stands X registry req sent parsed (fetching_all parsed) _ h h
        (λ r e. (fallback-Belongs s.cache req.manufacturer req.model parsed.serial r c e).0)
  step-Stands req sent (fetching_all parsed) s c h =
      after_all-Stands X registry req sent parsed (remote.fetch_devices s.world) s h
  step-Stands req sent (storing_all rs parsed) s c h = h
  step-Stands req sent (looking_up_all parsed) s c h =
      after_search-Stands X registry req sent parsed (falling_back_all parsed) _ h h
        (λ r e. (lookup-Belongs s.cache req.manufacturer req.model parsed.serial r c e).0)
  step-Stands req sent (falling_back_all parsed) s c h =
      after_search-Stands X registry req sent parsed (absent parsed) _ h h.1
        (λ r e. (fallback-Belongs s.cache req.manufacturer req.model parsed.serial r c e).0)
  step-Stands req sent (absent parsed) s c h = h
  step-Stands req sent (creating parsed r m ms) s c h =
      after_create-Stands X registry req sent parsed r (trim_space m.name) ms _ s h
  step-Stands req sent (not_created r tag x) s c h = h
  step-Stands req sent (counting_channel parsed r mapping ms) s c h = h
  step-Stands req sent (storing_channel parsed r mapping ms) s c h =
      after_store-Stands X registry req sent parsed r ms _ s h (λ r' e.
        upsert_channel_mapping-record_key r.manufacturer r.model parsed.serial mapping s.cache
          {r = r'} c e)
  step-Stands req sent (stamping parsed sample) s c h = h
  step-Stands req sent (enqueueing parsed envelope) s c h = record {
    parsed = parsed;
    response = refl;
    envelope = envelope;
    only = ap (λ l. envelope ∷ l) h.1;
    is_for = h.0;
  }
  step-Stands req sent (counting parsed) s c h = h
  step-Stands req sent (finished (ok resp)) s c h = h
  step-Stands req sent (finished (err e)) s c h = h
