-- ===== src/Metrics/App.antt =====
-- NewAppMetrics of internal/metrics/app_metrics.go: what is registered, under which names; and the
-- handler of /metrics.
use device_handler.Prelude.{Option, none, some, List, [], ◌∷◌}
use device_handler.Text.{Text, codes}
use device_handler.Metrics.{AppMetrics}
use device_handler.Metrics.Registry.{
  Metric, counter, gauge, Registry, new_registry, register, render_prometheus,
}

-- The metrics in the order of their registration.
abbrev pub app_metrics : List Metric
app_metrics =
    counter (codes "device_handler_ingest_requests_total")
      (codes "Total incoming device publish requests.") (λ m. m.ingest_requests)
    ∷ counter (codes "device_handler_ingest_success_total")
        (codes "Total successfully processed device publish requests.") (λ m. m.ingest_success)
    ∷ counter (codes "device_handler_ingest_parse_failures_total")
        (codes "Total device payload parse failures.") (λ m. m.ingest_parse_failures)
    ∷ counter (codes "device_handler_ingest_unsupported_devices_total")
        (codes "Total requests rejected because manufacturer/model is unsupported.")
        (λ m. m.ingest_unsupported_devices)
    ∷ counter (codes "device_handler_ingest_device_not_found_total")
        (codes "Total requests that could not be matched to a cached device.")
        (λ m. m.ingest_device_not_found)
    ∷ counter (codes "device_handler_ingest_cache_misses_total")
        (codes "Total requests that missed the local device cache and triggered a refresh.")
        (λ m. m.ingest_cache_misses)
    ∷ counter (codes "device_handler_channel_create_success_total")
        (codes "Total channels auto-created by the handler.") (λ m. m.channel_create_success)
    ∷ counter (codes "device_handler_channel_create_failures_total")
        (codes "Total failed automatic channel creation attempts.") (λ m. m.channel_create_failures)
    ∷ counter (codes "device_handler_cache_sync_success_total")
        (codes "Total successful cache sync cycles, including initial sync.")
        (λ m. m.cache_sync_success)
    ∷ counter (codes "device_handler_cache_sync_failures_total")
        (codes "Total failed cache sync cycles.") (λ m. m.cache_sync_failures)
    ∷ gauge (codes "device_handler_cache_last_success_timestamp_seconds")
        (codes "Unix timestamp of the last successful cache sync.")
        (λ m. m.cache_last_success_timestamp)
    ∷ counter (codes "device_handler_publish_batches_total")
        (codes "Total successfully published telemetry batches.") (λ m. m.publish_batches)
    ∷ counter (codes "device_handler_publish_failures_total")
        (codes "Total failed telemetry batch publish attempts.") (λ m. m.publish_failures)
    ∷ counter (codes "device_handler_publish_retries_total")
        (codes "Total telemetry items requeued for retry after publish failure.")
        (λ m. m.publish_retries)
    ∷ counter (codes "device_handler_publish_dropped_items_total")
        (codes "Total telemetry items dropped after exhausting publish retries.")
        (λ m. m.publish_dropped_items)
    ∷ gauge (codes "device_handler_publish_queue_depth")
        (codes "Current number of telemetry items waiting in the publish buffer.")
        (λ m. m.publish_queue_depth)
    ∷ []

unfoldable pub register_metrics : List Metric → Registry → Registry
unfolding register
register_metrics [] r = r
register_metrics (m ∷ ms) r = register_metrics ms (register m r)

abbrev pub app_registry : Registry
app_registry = register_metrics app_metrics new_registry

-- What Handler writes: the content type and the body; none is a panic.
abbrev pub page : Option Text → Option (Text × Text)
page none = none
page (some body) = some (codes "text/plain; version=0.0.4; charset=utf-8", body)

unfoldable pub handle_metrics : Registry → AppMetrics → Option (Text × Text)
unfolding render_prometheus
handle_metrics r m = page (render_prometheus r m)
