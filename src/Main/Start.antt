-- ===== src/Main/Start.antt =====
-- The order of start-up in cmd/device-handler/main.go: the configuration, the first load of the
-- cache through the REST client, the connection to NATS. An exit is an error.
use device_handler.Prelude.{Bool, true, false, if◌then◌else◌, [], Result, ok, err}
use device_handler.Time.{ℤ, pos, negsuc, zero_time}
use device_handler.Publish.Jetstream.{is_positive}
use device_handler.Text.{Text, Unicode}
use device_handler.Cache.{new_device_cache}
use device_handler.Cache.Wire.{new_device_update_store}
use device_handler.Metrics.{new_app_metrics}
use device_handler.Publish.{PublishConfig, new_buffered_publisher}
use device_handler.Ingest.State.{Service}
use device_handler.Syncer.{Syncer, new_syncer, initial_load}
use device_handler.Api.{Http, Client, ApiError}
use device_handler.Api.Calls.{sync_client}
use device_handler.Config.{Config, Environment, LoadError, load}

-- What main has built when it starts to listen. The syncer and the service share the cache, the
-- metrics and the client; each of the two states has them as they are at this moment.
pub record Program (W : Type 0) : Type 0 where
  pub config : Config
  pub syncer : Syncer (Client W)
  pub service : Service (Client W)

-- The three calls of os.Exit before that, and the panics of make in NewBufferedPublisher and of
-- time.NewTicker in its Start.
pub data StartError (X : Type 0) : Type 0 where
  load_config : LoadError X → StartError X
  initial_sync : ApiError X → StartError X
  connect_publisher : X → StartError X
  make_panicked new_ticker_panicked : StartError X

abbrev pub new_client : {W : Type 0} → W → Client W
new_client w = record { token = []; token_expires = zero_time; world = w }

-- The syncer before InitialLoad.
abbrev pub first_syncer : {W : Type 0} → W → Syncer (Client W)
first_syncer w = new_syncer new_device_cache new_device_update_store new_app_metrics (new_client w)

abbrev pub service_of : {W : Type 0} → Syncer (Client W) → W → Service (Client W)
service_of s w = record {
  cache = s.device_cache;
  publisher = new_buffered_publisher s.metrics;
  world = record (s.world) { world = w };
}

abbrev pub is_negative : ℤ → Bool
is_negative (pos n) = false
is_negative (negsuc n) = true

-- main from NewBufferedPublisher on, in the state `w` that the connecting has left.
abbrev pub buffered :
    {W X : Type 0} → Config → Syncer (Client W) → W → Result (StartError X) (Program W)
buffered cfg s w =
    if is_negative cfg.publish.flush_capacity
    then err make_panicked
    else if is_positive cfg.publish.flush_after
    then ok (record {
      config = cfg;
      syncer = record s { world = record (s.world) { world = w } };
      service = service_of s w;
    })
    else err new_ticker_panicked

module _ {W X : Type 0} (connect : PublishConfig → Text → W → Result X (Unit {0}) × W) where
  abbrev pub connected_to :
      Config → Syncer (Client W) → Result X (Unit {0}) × W → Result (StartError X) (Program W)
  connected_to cfg s (ok x, w) = buffered cfg s w
  connected_to cfg s (err e, w) = err (connect_publisher e)

  -- main behind InitialLoad; `connect` is NewJetStreamPublisher.
  abbrev pub loaded :
      Config
      → Result (ApiError X) (Unit {0}) × Syncer (Client W)
      → Result (StartError X) (Program W)
  loaded cfg (ok x, s) = connected_to cfg s (connect cfg.publish cfg.api.service_name s.world.world)
  loaded cfg (err e, s) = err (initial_sync e)

module _ ⦃u : Unicode⦄ {W X : Type 0} (http : Http W X)
    (connect : PublishConfig → Text → W → Result X (Unit {0}) × W) where
  -- main behind Load.
  abbrev pub configured : W → Result (LoadError X) Config → Result (StartError X) (Program W)
  configured w (ok cfg) =
      loaded connect cfg (initial_load (sync_client http cfg.api) (first_syncer w))
  configured w (err e) = err (load_config e)

  unfoldable pub start_up : Environment X → W → Result (StartError X) (Program W)
  unfolding load initial_load
  start_up env w = configured w (load env)
