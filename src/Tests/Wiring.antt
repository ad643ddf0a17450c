-- ===== src/Tests/Wiring.antt =====
-- Examples for the configuration, the metrics page, the NATS publisher and the wiring of the parts.
use mathlib.Core.List.Permᴰ as Permᴰ
use mathlib.Core.List.{Permᴰ}
use device_handler.Prelude.{
  ℕ, ◌+◌, ◌*◌, ◌≡◌, ◌≤◌, ◌⊎◌, ◌↔◌, refl, true, false, Option, none, some, List, [], ◌∷◌, map, take,
  Result, ok, err, arith, ◌==◌,
}
use device_handler.Time.{ℤ, pos, zero_time}
use device_handler.Text.{Text, codes, equal, trim_space}
use device_handler.Dict.{values}
use device_handler.Cache.{new_device_cache}
use device_handler.Cache.Wire.{new_device_update_store}
use device_handler.Metrics.{new_app_metrics}
use device_handler.Metrics.App.{app_metrics, app_registry, register_metrics}
use device_handler.Metrics.Registry.{Metric, name, blocks, new_registry, render_prometheus}
use device_handler.Metrics.Registry.Order.{IsSorted}
use device_handler.Metrics.Registry.Rendering.{render_prometheus-Renders}
use device_handler.Api.{ChannelResponse, ApiConfig, ApiRequest, ApiResponse, ApiError, Http, Client}
use device_handler.Api.Calls.{device_list_decoder, create_deployment_channel}
use device_handler.Config.{debug, Environment, Config, load}
use device_handler.Config.Loaded.{Outcome, IsFull, load-Outcome}
use device_handler.Telemetry.{Batch}
use device_handler.Publish.{PublishConfig}
use device_handler.Publish.Jetstream.{Nats, Conn, connected, publish}
use device_handler.Publish.Jetstream.Message.{Publishes, publish-Publishes}
use device_handler.Comet.{Floats}
use device_handler.Device.{parser_key}
use device_handler.Device.Registry.{Parser, lookup}
use device_handler.Server.{handle_ready}
use device_handler.Syncer.{Syncer, new_syncer}
use device_handler.Main.{Libraries, parsers, registry, readiness}
use device_handler.Main.Served.{Serves, registry-Serves}
use device_handler.Main.Start.{Program, StartError, first_syncer, service_of, start_up}
use device_handler.Main.Started.{IsStarted, start_up-IsStarted}
use device_handler.Main.Ready.{IsConnected, handle_ready-readiness}
use device_handler.Tests.{ascii, settings, sample}
use device_handler.Tests.Clients.{api_settings, http, reply}

-- An environment in which nothing is set, and one in which one variable does not parse.
abbrev unset : Environment Text
unset = record { variable = λ k. []; parse_duration = λ t. err t; atoi = λ t. err t }

load-Outcome_example : Outcome unset (IsFull unset) (load unset)
load-Outcome_example = load-Outcome unset

render_prometheus-Renders_example :
    (ms : List Metric) × Permᴰ ms (values (register_metrics app_metrics new_registry).metrics)
    × IsSorted (map name ms)
    × (render_prometheus (register_metrics app_metrics new_registry) new_app_metrics
        ≡ some (blocks new_app_metrics ms))
    × (render_prometheus (register_metrics app_metrics new_registry) new_app_metrics
        ≡ some (blocks new_app_metrics ms))
render_prometheus-Renders_example =
    render_prometheus-Renders app_metrics app_registry new_app_metrics (Permᴰ.refl _)

abbrev batch : Batch
batch = record {
  transmission_id = 171 ∷ 5 ∷ [];
  source_deployment_id = some 3;
  deployment_samples = sample 1 ∷ [];
}

-- A connection that counts its messages and refuses none.
abbrev nats : Nats ℕ Text
nats = record { marshal = λ b. ok (1 ∷ []); publish_msg = λ m d w. (none, w + 1) }

publish-Publishes_example :
    Publishes nats settings false
      (codes "subject")
      batch
      0
      (publish nats settings false (codes "subject") batch 0)
publish-Publishes_example =
    publish-Publishes nats settings false (codes "subject") batch 0 (omega arith, (omega arith, tt))

abbrev floats : Floats
floats = record {
  to_int = λ f. pos 0;
  to_float32 = λ f. 0;
  of_int = λ n. 0;
  float32_of_int = λ n. 0;
  same = λ a b. a == b;
  parse_float = λ t. none;
}

abbrev libraries : Libraries
libraries = record {
  floats = floats;
  equal_fold = λ s t. false;
  parse_rfc3339 = λ t. none;
  decode_items = λ b. none;
  decode_message = λ b. none;
  decode_envelope = λ b. none;
}

registry-Serves_example :
    Serves
      (parsers libraries)
      (codes "Comet")
      (codes " t3510")
      (lookup (registry libraries) (codes "Comet") (codes " t3510"))
registry-Serves_example = registry-Serves libraries (codes "Comet") (codes " t3510")

abbrev idle : Syncer ℕ
idle = new_syncer new_device_cache new_device_update_store new_app_metrics 0

abbrev link : Option Conn
link = some (record { status = connected; last_error = none })

handle_ready-readiness_example :
    (((handle_ready (some (readiness 60 7 idle link))).0 ≡ 200) ↔ (
      (idle.initial_load_done ≡ true)
      × ((idle.last_successful_sync ≡ zero_time) ⊎ (7 ≤ idle.last_successful_sync + 2 * 60))
      × IsConnected link))
    × (((handle_ready (some (readiness 60 7 idle link))).0 ≡ 200)
        ⊎ ((handle_ready (some (readiness 60 7 idle link))).0 ≡ 503))
handle_ready-readiness_example = handle_ready-readiness 60 7 idle link

-- The defaults of the configuration, and a parser found by another spelling of its model.
abbrev retries : {X : Type 0} → Result X Config → Option ℤ
retries (ok cfg) = some cfg.publish.max_retries
retries (err e) = none

default_retries : retries (load unset) ≡ some (pos 5)
unfolding load device_handler.Text.equal device_handler.Text.to_upper device_handler.Text.trim_space
    device_handler.Text.trim_right device_handler.Text.trim_left device_handler.Text.is_space
    device_handler.Text.rune_upper
default_retries = refl

abbrev model_of : {E : Type 0} → Option (Parser E) → Option Text
model_of none = none
model_of (some p) = some p.model

other_spelling :
    model_of (lookup (registry libraries) (codes "Comet") (codes " t3510")) ≡ some (codes "T3510")
unfolding lookup device_handler.Dict.lookup device_handler.Main.register_all
    device_handler.Dict.insert device_handler.Text.equal parser_key device_handler.Text.to_lower
    device_handler.Text.trim_space device_handler.Text.trim_right device_handler.Text.trim_left
    device_handler.Text.is_space device_handler.Text.rune_lower
other_spelling = refl

-- The page starts with the first name in the order.
abbrev start_of : Option Text → Option Text
start_of none = none
start_of (some t) = some (take 31 t)

first_name :
    start_of (render_prometheus app_registry new_app_metrics)
    ≡ some (codes "# HELP device_handler_cache_las")
unfolding render_prometheus register_metrics device_handler.Text.equal
first_name = refl

-- The server of the first examples without its 401.
abbrev friendly : Http ℕ Text
friendly = record http { send = λ r w. (ok (reply 200), w + 1) }

abbrev connect : PublishConfig → Text → ℕ → Result Text (Unit {0}) × ℕ
connect cfg name w = (ok tt, w)

abbrev begun : Result (StartError Text) (Program ℕ)
begun = start_up friendly connect unset 1

abbrev program_of : Result (StartError Text) (Program ℕ) → Program ℕ
program_of (ok p) = p
program_of (err e) = record {
  config = record {
    http = record {
      address = [];
      read_timeout = pos 0;
      write_timeout = pos 0;
      shutdown_timeout = pos 0;
    };
    api = api_settings;
    sync = record { poll_interval = pos 0 };
    publish = settings;
    log_level = debug;
  };
  syncer = first_syncer 0;
  service = service_of (first_syncer 0) 0;
}

start_up-IsStarted_example :
    IsStarted unset (program_of begun)
    × ((handle_ready (some (readiness 60 1003 (program_of begun).syncer link))).0 ≡ 200)
unfolding start_up equal device_handler.Text.to_upper trim_space device_handler.Text.trim_right
    device_handler.Text.trim_left device_handler.Text.is_space device_handler.Text.rune_upper
    device_handler.Api.Calls.fetch_devices device_handler.Api.Calls.fetch_device_updates
start_up-IsStarted_example =
    start_up-IsStarted unset friendly connect 1 (program_of begun) 60 1003 link refl (omega arith)
      refl
