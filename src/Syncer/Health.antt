-- ===== src/Syncer/Health.antt =====
-- Readiness and freshness under any sequence of polls.
use device_handler.Prelude.{
  ℕ, ◌+◌, ◌*◌, ◌≤◌, ◌≡◌, ◌≢◌, refl, ◌∙◌, ◌⊎◌, inl, inr, ◌↔◌, Bool, true, false, List, [], ◌∷◌,
  Result, ok, err, arith,
}
use device_handler.Time.{Time, zero_time}
use device_handler.Text.{Unicode}
use device_handler.Cache.{DeviceRecord, DeviceCache}
use device_handler.Cache.Consistent.{IsConsistent, upsert_many-IsConsistent, updated_at-upsert_many}
use device_handler.Cache.Wire.{DeviceUpdate}
use device_handler.Syncer.{
  SyncClient, Syncer, poll_failed, finish_poll, store_updates, poll_updates, poll_devices,
  poll_once, upsert_devices, upsert_some, ready_status,
}

module _ {W : Type 0} where
  -- ReadyStatus is positive exactly if a load or poll has succeeded and the last success, if it has
  -- a time, is not longer ago than twice the poll interval.
  pub ready_status_iff :
      (poll_interval : ℕ) (now : Time) (s : Syncer W)
      → ((ready_status poll_interval now s).0 ≡ true) ↔ (
          (s.initial_load_done ≡ true)
          × ((s.last_successful_sync ≡ zero_time)
              ⊎ (now ≤ s.last_successful_sync + 2 * poll_interval)))
  unfolding ready_status
  ready_status_iff poll_interval now s = ground arith

  -- A success at time `now`, and a failed poll.
  pub record IsHealthy (now : Time) (s : Syncer W) : Type 0 where
    pub done : s.initial_load_done ≡ true
    pub last : s.last_successful_sync ≡ now
    pub error : s.last_sync_error ≡ []

  pub record IsFailed (s s' : Syncer W) : Type 0 where
    pub done : s'.initial_load_done ≡ s.initial_load_done
    pub last : s'.last_successful_sync ≡ s.last_successful_sync
    pub error : s'.last_sync_error ≡ poll_failed

module _ {W X : Type 0} (client : SyncClient W X) where
  -- The requests of a poll from `s`: that for the devices changed since the cache's time, and that
  -- for the updates, at whatever state the outside world then is in.
  pub data Answers (s : Syncer W) : Type 0 where
    both :
        {rs : List DeviceRecord} {xs : List DeviceUpdate} {w w₁ w₂ : W}
        → client.fetch_updated_devices s.device_cache.updated_at s.world ≡ (ok rs, w)
        → client.fetch_device_updates w₁ ≡ (ok xs, w₂)
        → Answers s

  pub data Refuses (s : Syncer W) : Type 0 where
    devices :
        {x : X} {w : W}
        → client.fetch_updated_devices s.device_cache.updated_at s.world ≡ (err x, w)
        → Refuses s
    updates : {x : X} {w₁ w₂ : W} → client.fetch_device_updates w₁ ≡ (err x, w₂) → Refuses s

  -- The health after a poll.
  abbrev pub Health : Syncer W → Syncer W → Type 0
  Health s s' = (Answers s × ((now : Time) × IsHealthy now s')) ⊎ (Refuses s × IsFailed s s')

  store_updates_cache :
      (xs : List DeviceUpdate) (s : Syncer W)
      → (store_updates client xs s).device_cache ≡ s.device_cache
  store_updates_cache [] s = refl
  store_updates_cache (x ∷ xs) s = refl

  poll_updates_cache :
      (failed : Bool) (r : Result X (List DeviceUpdate) × W) (s : Syncer W)
      → (poll_updates client failed r s).device_cache ≡ s.device_cache
  unfolding poll_updates
  poll_updates_cache true (ok xs, w) s = store_updates_cache xs _
  poll_updates_cache false (ok xs, w) s = store_updates_cache xs _
  poll_updates_cache failed (err x, w) s = refl

  finish_poll-IsFailed :
      (xs : List DeviceUpdate) (s : Syncer W)
      → IsFailed s (finish_poll client true (store_updates client xs s))
  unfolding finish_poll
  finish_poll-IsFailed [] s = record { done = refl; last = refl; error = refl }
  finish_poll-IsFailed (x ∷ xs) s = record { done = refl; last = refl; error = refl }

  -- Behind a request for the devices that was answered.
  poll_updates-answered :
      (s s₁ : Syncer W) (r : Result X (List DeviceUpdate) × W) {rs : List DeviceRecord} {w : W}
      → client.fetch_updated_devices s.device_cache.updated_at s.world ≡ (ok rs, w)
      → client.fetch_device_updates s₁.world ≡ r
      → s₁.initial_load_done ≡ s.initial_load_done
      → s₁.last_successful_sync ≡ s.last_successful_sync
      → Health s (poll_updates client false r s₁)
  unfolding poll_updates
  poll_updates-answered s s₁ (ok xs, w₂) e f d l =
      inl (both e f, (_, record { done = refl; last = refl; error = refl }))
  poll_updates-answered s s₁ (err x, w₂) e f d l =
      inr (updates f, record { done = d; last = l; error = refl })

  -- Behind one that was refused.
  poll_updates-refused :
      (s : Syncer W) (r : Result X (List DeviceUpdate) × W) (w : W)
      → IsFailed s (poll_updates client true r (record s { world = w }))
  unfolding poll_updates
  poll_updates-refused s (ok xs, w₂) w =
      let f = finish_poll-IsFailed xs (record s { world = w₂ }) in
      record { done = f.done; last = f.last; error = f.error }
  poll_updates-refused s (err x, w₂) w = record { done = refl; last = refl; error = refl }

module _ ⦃u : Unicode⦄ {W X : Type 0} (client : SyncClient W X) where
  upsert_some_health :
      (rs : List DeviceRecord) (s : Syncer W)
      → ((upsert_some client rs s).initial_load_done ≡ s.initial_load_done)
        × ((upsert_some client rs s).last_successful_sync ≡ s.last_successful_sync)
  unfolding upsert_devices
  upsert_some_health [] s = (refl, refl)
  upsert_some_health (r ∷ rs) s = (refl, refl)

  poll_devices-Health :
      (s : Syncer W) (r : Result X (List DeviceRecord) × W)
      → client.fetch_updated_devices s.device_cache.updated_at s.world ≡ r
      → Health client s (poll_devices client r s)
  unfolding poll_devices
  poll_devices-Health s (ok rs, w) e =
      let h = upsert_some_health rs (record s { world = w }) in
      poll_updates-answered client s (upsert_some client rs (record s { world = w })) _ e refl h.0
        h.1
  poll_devices-Health s (err x, w) e = inr (devices e, poll_updates-refused client s _ w)

  -- A poll either has both its requests answered, and then the initial load counts as done, the
  -- last success is now and the error is cleared; or one is refused, and then the load and the last
  -- success stay as they were and the error is set.
  pub poll_once-Health : (s : Syncer W) → Health client s (poll_once client s)
  unfolding poll_once
  poll_once-Health s = poll_devices-Health s _ refl

  -- The cache is consistent, and no older than before.
  abbrev pub IsFresh : DeviceCache → DeviceCache → Type 0
  IsFresh c c' = IsConsistent c' × (c.updated_at ≤ c'.updated_at)

  upsert_some-IsFresh :
      (rs : List DeviceRecord) (s : Syncer W)
      → IsConsistent s.device_cache
      → IsFresh s.device_cache (upsert_some client rs s).device_cache
  unfolding upsert_devices
  upsert_some-IsFresh [] s h = (h, omega arith)
  upsert_some-IsFresh (r ∷ rs) s h = (
    upsert_many-IsConsistent (client.readings s.world).0 (r ∷ rs) s.device_cache h,
    updated_at-upsert_many (client.readings s.world).0 (r ∷ rs) s.device_cache,
  )

  poll_devices-IsFresh :
      (s : Syncer W) (r : Result X (List DeviceRecord) × W)
      → IsConsistent s.device_cache
      → IsFresh s.device_cache (poll_devices client r s).device_cache
  unfolding poll_devices
  poll_devices-IsFresh s (ok rs, w) h =
      rw poll_updates_cache (upsert_some-IsFresh rs (record s { world = w }) h)
  poll_devices-IsFresh s (err x, w) h = rw poll_updates_cache (h, omega arith)

  -- The states that polls lead to.
  pub data Polls (s : Syncer W) : Syncer W → Type 0 where
    here : Polls s s
    next : {t : Syncer W} → Polls s t → Polls s (poll_once client t)

  -- From a consistent cache and a completed initial load, any number of polls, failing or not, keep
  -- the cache consistent, never take its time back, and never undo the initial load.
  pub Polls-IsFresh :
      {s t : Syncer W}
      → IsConsistent s.device_cache
      → s.initial_load_done ≡ true
      → Polls s t
      → IsFresh s.device_cache t.device_cache × (t.initial_load_done ≡ true)
  unfolding poll_once
  Polls-IsFresh h d here = ((h, omega arith), d)
  Polls-IsFresh h d (next {t} p) =
      let ih = Polls-IsFresh h d p in
      let f = poll_devices-IsFresh t _ ih.0.0 in
      ((f.0, omega (arith, ih.0.1, f.1)), still_done t (poll_once-Health t) ih.1)
    where
      still_done :
          (t : Syncer W)
          → Health client t (poll_once client t)
          → t.initial_load_done ≡ true
          → (poll_once client t).initial_load_done ≡ true
      still_done t (inl (a, (now, k))) d' = k.done
      still_done t (inr (r, k)) d' = k.done ∙ d'

  -- What the REST API answers to a poll from `t` in which a request is refused: that for the devices,
  -- or, behind the devices, that for the updates.
  pub data Refused (t : Syncer W) : Type 0 where
    no_devices :
        {x : X} {w : W}
        → client.fetch_updated_devices t.device_cache.updated_at t.world ≡ (err x, w)
        → Refused t
    no_updates :
        {rs : List DeviceRecord} {x : X} {w w₂ : W}
        → client.fetch_updated_devices t.device_cache.updated_at t.world ≡ (ok rs, w)
        → client.fetch_device_updates (upsert_some client rs (record t { world = w })).world
          ≡ (err x, w₂)
        → Refused t

  poll_once-IsFailed : (t : Syncer W) → Refused t → IsFailed t (poll_once client t)
  unfolding poll_once poll_devices poll_updates
  poll_once-IsFailed t (no_devices {w = w} e) = rw e (poll_updates-refused client t _ w)
  poll_once-IsFailed t (no_updates {rs} {w = w} e f) =
      let h = upsert_some_health rs (record t { world = w }) in
      rw (e, f) (record { done = h.0; last = h.1; error = refl })

  -- The states that polls in which a request is refused lead to.
  pub data Outage (s : Syncer W) : Syncer W → Type 0 where
    here : Outage s s
    next : {t : Syncer W} → Outage s t → Refused t → Outage s (poll_once client t)

  Outage-last :
      {s t : Syncer W}
      → Outage s t
      → (t.initial_load_done ≡ s.initial_load_done)
        × (t.last_successful_sync ≡ s.last_successful_sync)
  Outage-last here = (refl, refl)
  Outage-last (next {t} o r) =
      let ih = Outage-last o in let f = poll_once-IsFailed t r in (f.done ∙ ih.0, f.last ∙ ih.1)

  -- After a success at `last`, which is not the zero time, and any number of polls in each of which
  -- the REST API refuses one of the two requests, the syncer is ready up to twice the poll interval
  -- after `last`, and no longer.
  pub ready_status-Outage :
      {s t : Syncer W} (last now : Time) (poll_interval : ℕ)
      → last ≢ zero_time
      → IsHealthy last s
      → Outage s t
      → ((ready_status poll_interval now t).0 ≡ true) ↔ (now ≤ last + 2 * poll_interval)
  ready_status-Outage {s} {t} last now poll_interval nz h o =
      let kept = Outage-last o in
      let d : t.initial_load_done ≡ true = kept.0 ∙ h.done in
      let l : t.last_successful_sync ≡ last = kept.1 ∙ h.last in
      ground (arith, ready_status_iff poll_interval now t, d, l)
