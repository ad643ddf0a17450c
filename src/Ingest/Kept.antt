-- ===== src/Ingest/Kept.antt =====
-- What a request leaves alone until its sample is built, and what the search for its device and the
-- creation of its channels guarantee.
use device_handler.Prelude.{◌≡◌, refl, ◌∙◌, Option, none, some, List, [], ◌∷◌, Result, ok, err}
use device_handler.Text.{Text, Unicode}
use device_handler.Cache
use device_handler.Cache.{
  DeviceCache, DeviceRecord, ChannelMapping, key, record_key, same_tag, resolve_channel_id_by_tag,
  upsert_many, upsert_channel_mapping,
}
use device_handler.Cache.Consistent.{IsConsistent, upsert_many-IsConsistent}
use device_handler.Action.Outcome.{Outcome, continue-Outcome}
use device_handler.Ingest.State.{
  Remote, HandleError, refresh_updated_failed, refresh_full_failed, build_failed,
  cache_update_failed, Service,
}
use device_handler.Ingest.Lookup.{
  search_cache, upsert_cache, upsert_some, fetched, fetch_updated, fetch_full, refresh_full,
  refresh_and_lookup_device, require_device, resolve_device,
}
use device_handler.Ingest.Found.{Belongs, Holds, search_cache-Belongs}

-- The two errors that come from the service itself rather than from its input or the REST API.
abbrev pub IsForeign : {E X : Type 0} → HandleError E X → Type 0
IsForeign (build_failed x) = ⊥
IsForeign (cache_update_failed t) = ⊥
IsForeign _ = Unit

module _ ⦃u : Unicode⦄ {W : Type 0} where
  -- From `s₀` to `s` nothing was enqueued, no request was counted as served, and the cache is
  -- consistent.
  pub record Kept (s₀ s : Service W) : Type 0 where
    pub consistent : IsConsistent s.cache
    pub buffer : s.publisher.buffer ≡ s₀.publisher.buffer
    pub flushing : s.publisher.flushing ≡ s₀.publisher.flushing
    pub requests : s.publisher.metrics.ingest_requests ≡ s₀.publisher.metrics.ingest_requests
    pub successes : s.publisher.metrics.ingest_success ≡ s₀.publisher.metrics.ingest_success

module _ ⦃u : Unicode⦄ {W X : Type 0} (remote : Remote W X) where
  upsert_cache-Kept :
      (rs : List DeviceRecord) (s₀ s : Service W) → Kept s₀ s → Kept s₀ (upsert_cache remote rs s)
  unfolding upsert_cache
  upsert_cache-Kept rs s₀ s k = record {
    consistent = upsert_many-IsConsistent (remote.readings s.world).0 rs s.cache k.consistent;
    buffer = k.buffer;
    flushing = k.flushing;
    requests = k.requests;
    successes = k.successes;
  }

  upsert_some-Kept :
      (rs : List DeviceRecord) (s₀ s : Service W) → Kept s₀ s → Kept s₀ (upsert_some remote rs s)
  upsert_some-Kept [] s₀ s k = k
  upsert_some-Kept (r ∷ rs) s₀ s k = upsert_cache-Kept (r ∷ rs) s₀ s k

module _ ⦃u : Unicode⦄ {W : Type 0} (s₀ : Service W) where
  -- What the search for the device has found is what the cache then has.
  abbrev pub Searched : Text → Text → Text → Option DeviceRecord → Service W → Type 0
  Searched m mo t o s = Kept s₀ s × (search_cache s.cache m mo t ≡ o)

  -- The record belongs to the request, and the cache holds it.
  abbrev pub Found : Text → Text → Text → DeviceRecord → Service W → Type 0
  Found m mo t r s = Kept s₀ s × Belongs m mo t r × Holds s.cache r

  pub keep :
      (s s' : Service W)
      → Kept s₀ s
      → s'.cache ≡ s.cache
      → s'.publisher.buffer ≡ s.publisher.buffer
      → s'.publisher.flushing ≡ s.publisher.flushing
      → s'.publisher.metrics.ingest_requests ≡ s.publisher.metrics.ingest_requests
      → s'.publisher.metrics.ingest_success ≡ s.publisher.metrics.ingest_success
      → Kept s₀ s'
  keep s s' k c b f q y = record {
    consistent = rw c k.consistent;
    buffer = b ∙ k.buffer;
    flushing = f ∙ k.flushing;
    requests = q ∙ k.requests;
    successes = y ∙ k.successes;
  }

module _ ⦃u : Unicode⦄ {W E X : Type 0} (s₀ : Service W) where
  abbrev pub Fails : HandleError E X → Service W → Type 0
  Fails e s = Kept s₀ s × IsForeign e

  fetched-Kept :
      (wrap : X → HandleError E X) (r : Result X (List DeviceRecord) × W) (s : Service W)
      → ((x : X) → IsForeign (wrap x))
      → Kept s₀ s
      → Outcome (λ _ s'. Kept s₀ s') Fails (fetched wrap r s)
  fetched-Kept wrap (ok rs, w) s f k = keep s₀ s _ k refl refl refl refl refl
  fetched-Kept wrap (err x, w) s f k = (keep s₀ s _ k refl refl refl refl refl, f x)

module _ ⦃u : Unicode⦄ {W : Type 0} (E X : Type 0) (s₀ : Service W) where
  require_device-Found :
      (m mo t : Text) (o : Option DeviceRecord) (s : Service W)
      → Searched s₀ m mo t o s
      → Outcome (Found s₀ m mo t) (Fails {E = E} s₀) (require_device {X = X} t o s)
  require_device-Found m mo t (some r) s (k, e) =
      let b = search_cache-Belongs s.cache m mo t r k.consistent e in (k, b.0, b.1)
  require_device-Found m mo t none s (k, e) = (keep s₀ s _ k refl refl refl refl refl, tt)

module _ ⦃u : Unicode⦄ {W X : Type 0} (E : Type 0) (remote : Remote W X) (s₀ : Service W) where
  refresh_full-Searched :
      (m mo t : Text) (o : Option DeviceRecord) (s : Service W)
      → search_cache s.cache m mo t ≡ o
      → Kept s₀ s
      → Outcome (Searched s₀ m mo t) (Fails s₀) (refresh_full {E = E} remote m mo t o s)
  unfolding refresh_full
  refresh_full-Searched m mo t (some r) s e k = (k, e)
  refresh_full-Searched m mo t none s e k =
      continue-Outcome _ (fetch_full remote s) (λ _ s'. Kept s₀ s') (Searched s₀ m mo t) (Fails s₀)
        (unfold fetch_full in
          fetched-Kept s₀ refresh_full_failed (remote.fetch_devices s.world) s (λ x. tt) k)
        (λ rs s' k'. (upsert_cache-Kept remote rs s₀ s' k', refl))

  refresh_and_lookup_device-Searched :
      (m mo t : Text) (s : Service W)
      → Kept s₀ s
      → Outcome (Searched s₀ m mo t) (Fails s₀) (refresh_and_lookup_device {E = E} remote m mo t s)
  unfolding refresh_and_lookup_device
  refresh_and_lookup_device-Searched m mo t s k =
      continue-Outcome _ (fetch_updated remote s) (λ _ s'. Kept s₀ s') (Searched s₀ m mo t)
        (Fails s₀)
        (unfold fetch_updated in
          fetched-Kept s₀ refresh_updated_failed
            (remote.fetch_updated_devices s.cache.updated_at s.world) s (λ x. tt) k)
        (λ rs s' k'. refresh_full-Searched m mo t _ _ refl (upsert_some-Kept remote rs s₀ s' k'))

  -- The search for a device either fails for a reason outside, or finds a record that belongs to
  -- the request and is in the cache.
  pub resolve_device-Found :
      (m mo t : Text) (o : Option DeviceRecord) (s : Service W)
      → Cache.lookup s.cache m mo t ≡ o
      → Kept s₀ s
      → Outcome (Found s₀ m mo t) (Fails s₀) (resolve_device {E = E} remote m mo t o s)
  unfolding resolve_device
  resolve_device-Found m mo t (some r) s e k =
      let b = search_cache-Belongs s.cache m mo t r k.consistent (unfold search_cache in rw e) in
      (k, b.0, b.1)
  resolve_device-Found m mo t none s e k =
      continue-Outcome _ (refresh_and_lookup_device remote m mo t _) (Searched s₀ m mo t)
        (Found s₀ m mo t) (Fails s₀)
        (refresh_and_lookup_device-Searched m mo t _ (keep s₀ s _ k refl refl refl refl refl))
        (λ o s'. require_device-Found E X s₀ m mo t o s')
