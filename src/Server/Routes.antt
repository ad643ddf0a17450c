-- ===== src/Server/Routes.antt =====
-- NewHTTPServer and handleHealth of internal/ingest/server.go: the routes of the server. The path is
-- the cleaned one that http.ServeMux compares.
use device_handler.Prelude.{ℕ, Bool, Option, none, some, List, [], ◌∷◌, if◌then◌else◌}
use device_handler.Text.{Text, Unicode, codes, equal}
use device_handler.Device.Registry.{Registry}
use device_handler.Metrics.Registry as MetricsRegistry
use device_handler.Metrics.App.{handle_metrics}
use device_handler.Publish.{PublishConfig}
use device_handler.Ingest.State.{Remote, HandleError, Service}
use device_handler.Server.{Reply, HttpRequest, handle_devices, handle_ready}

-- What a client gets: a status with a text, the page of the metrics, none being a panic, or the
-- reply of handleDevices.
pub data Answer (Err : Type 0) : Type 0 where
  plain : ℕ → Text → Answer Err
  page : Option (Text × Text) → Answer Err
  devices : Reply Err → Answer Err

abbrev pub handle_health : ℕ × Text
handle_health = (200, codes "ok")

abbrev pub not_found : ℕ × Text
not_found = (404, codes "404 page not found")

abbrev pub write_plain : {Err : Type 0} → ℕ × Text → Answer Err
write_plain (status, t) = plain status t

module _ ⦃u : Unicode⦄ {W E X : Type 0} (remote : Remote W X) (registry : Registry E)
    (cfg : PublishConfig) (ready : Service W → Option (Bool × List Text))
    (metrics : Option MetricsRegistry.Registry) where
  -- The registry of the metrics is optional, like the readiness function.
  abbrev pub serve_metrics : Option MetricsRegistry.Registry → Service W → Answer (HandleError E X)
  serve_metrics none s = write_plain not_found
  serve_metrics (some r) s = page (handle_metrics r s.publisher.metrics)

  abbrev pub serve_devices : HttpRequest → Service W → Answer (HandleError E X) × Service W
  serve_devices r s =
      let (reply, s') = handle_devices remote registry cfg r s in (devices reply, s')

  unfoldable pub serve : Text → HttpRequest → Service W → Answer (HandleError E X) × Service W
  unfolding handle_devices handle_ready handle_metrics
  serve path r s =
      if equal path (codes "/devices")
      then serve_devices r s
      else if equal path (codes "/healthz")
      then (write_plain handle_health, s)
      else if equal path (codes "/readyz")
      then (write_plain (handle_ready (ready s)), s)
      else if equal path (codes "/metrics")
      then (serve_metrics metrics s, s)
      else (write_plain not_found, s)

  -- Requests one after the other.
  unfoldable pub serve_all :
      List (Text × HttpRequest) → Service W → List (Answer (HandleError E X)) × Service W
  unfolding serve
  serve_all [] s = ([], s)
  serve_all ((path, r) ∷ rs) s =
      let (answer, s') = serve path r s in
      let (answers, t) = serve_all rs s' in (answer ∷ answers, t)
