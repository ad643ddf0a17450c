-- ===== src/Main/Started.antt =====
-- What holds once the program of cmd/device-handler/main.go has started.
use device_handler.Prelude.{
  ℕ, ◌+◌, ◌*◌, ◌≤◌, ◌≡◌, inl, inr, Bool-cases, refl, true, false, [], Option, some, Result, ok, err,
  subst,
}
use device_handler.Time.{Time}
use device_handler.Text.{Text, Unicode}
use device_handler.Cache.Consistent.{IsConsistent}
use device_handler.Publish.{PublishConfig}
use device_handler.Publish.Jetstream.{Conn, is_positive}
use device_handler.Syncer.{Syncer}
use device_handler.Syncer.Startup.{Loads, initial_load-Loads}
use device_handler.Api.{Http, Client, ApiError}
use device_handler.Api.Calls.{sync_client}
use device_handler.Config.{Config, Environment, LoadError, load}
use device_handler.Config.Loaded.{Outcome, IsFull, load-Outcome}
use device_handler.Server.{handle_ready}
use device_handler.Main.{readiness}
use device_handler.Main.Ready.{IsConnected, handle_ready-readiness}
use device_handler.Main.Start.{
  is_negative, Program, StartError, first_syncer, connected_to, loaded, configured, start_up,
}

module _ ⦃u : Unicode⦄ {W X : Type 0} (env : Environment X) where
  -- The service has a full configuration, a consistent cache, which is the syncer's, and nothing
  -- to publish; and the first load counts as a success.
  pub record IsStarted (p : Program W) : Type 0 where
    pub full : IsFull env p.config
    pub consistent : IsConsistent p.service.cache
    pub shared : p.service.cache ≡ p.syncer.device_cache
    pub empty : p.service.publisher.buffer ≡ []
    pub idle : p.service.publisher.flushing ≡ false
    pub synced : p.syncer.initial_load_done ≡ true

  abbrev OnStart : Result (StartError X) (Program W) → Type 0
  OnStart (ok p) = IsStarted p
  OnStart (err e) = Unit

  connected_to-OnStart :
      (connect : PublishConfig → Text → W → Result X (Unit {0}) × W) (cfg : Config)
      (s : Syncer (Client W)) (r : Result X (Unit {0}) × W)
      → IsFull env cfg
      → IsConsistent s.device_cache
      → s.initial_load_done ≡ true
      → OnStart (connected_to connect cfg s r)
  connected_to-OnStart connect cfg s (ok x, w) full consistent done =
      elim (Bool-cases (is_negative cfg.publish.flush_capacity)) [
        | inl bad ↦ rw bad tt
        | inr fine ↦ elim (Bool-cases (is_positive cfg.publish.flush_after)) [
          | inr none_left ↦ rw (fine, none_left) tt
          | inl ticks ↦
              rw (fine, ticks)
                (record {
                  full = full;
                  consistent = consistent;
                  shared = refl;
                  empty = refl;
                  idle = refl;
                  synced = done;
                })
        ]
      ]
  connected_to-OnStart connect cfg s (err e, w) full consistent done = tt

  module _ (http : Http W X) (connect : PublishConfig → Text → W → Result X (Unit {0}) × W) where
    loaded-OnStart :
        (cfg : Config) (s : Syncer (Client W))
        (r : Result (ApiError X) (Unit {0}) × Syncer (Client W))
        → IsFull env cfg
        → Loads (sync_client http cfg.api) s r
        → OnStart (loaded connect cfg r)
    loaded-OnStart cfg s (ok x, t) full h =
        connected_to-OnStart connect cfg t (connect cfg.publish cfg.api.service_name t.world.world)
          full (h.0.0) (h.1.1.done)
    loaded-OnStart cfg s (err e, t) full h = tt

    configured-OnStart :
        (w : W) (r : Result (LoadError X) Config)
        → Outcome env (IsFull env) r
        → OnStart (configured http connect w r)
    configured-OnStart w (ok cfg) full = loaded-OnStart cfg (first_syncer w) _ full (
        initial_load-Loads (sync_client http cfg.api) (first_syncer w)
          (record { keyed = tt; newest = tt }))
    configured-OnStart w (err e) full = tt

    -- If main gets to listen, its configuration is full, the service has a consistent cache, the
    -- one of the syncer, and an empty buffer; and /readyz replies 200 up to twice the poll interval
    -- after the first load, as long as NATS is connected.
    pub start_up-IsStarted :
        (w : W) (p : Program W) (poll_interval : ℕ) (now : Time) (nc : Option Conn)
        → start_up http connect env w ≡ ok p
        → now ≤ p.syncer.last_successful_sync + 2 * poll_interval
        → IsConnected nc
        → IsStarted p × ((handle_ready (some (readiness poll_interval now p.syncer nc))).0 ≡ 200)
    unfolding start_up
    start_up-IsStarted w p poll_interval now nc e recent link =
        let started = subst OnStart e (configured-OnStart w (load env) (load-Outcome env)) in
        (
          started,
          (handle_ready-readiness poll_interval now p.syncer nc).0.1
              (started.synced, inr recent, link),
        )
