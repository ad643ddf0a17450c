-- ===== src/Metrics.antt =====
-- internal/metrics/app_metrics.go: the counters and gauges of the service, and Inc, Add and Set of
-- internal/metrics/metrics.go. A counter is an atomic uint64 and wraps; a gauge is an int64.
pub mod App
pub mod Registry
use device_handler.Prelude.{ℕ, ◌+◌, ◌%◌, ◌^◌}
use device_handler.Time.{ℤ, pos}

pub record AppMetrics : Type 0 where
  pub ingest_requests : ℕ
  pub ingest_success : ℕ
  pub ingest_parse_failures : ℕ
  pub ingest_unsupported_devices : ℕ
  pub ingest_device_not_found : ℕ
  pub ingest_cache_misses : ℕ
  pub channel_create_success : ℕ
  pub channel_create_failures : ℕ
  pub cache_sync_success : ℕ
  pub cache_sync_failures : ℕ
  pub cache_last_success_timestamp : ℤ
  pub publish_batches : ℕ
  pub publish_failures : ℕ
  pub publish_retries : ℕ
  pub publish_dropped_items : ℕ
  pub publish_queue_depth : ℤ

abbrev pub new_app_metrics : AppMetrics
new_app_metrics = record {
  ingest_requests = 0;
  ingest_success = 0;
  ingest_parse_failures = 0;
  ingest_unsupported_devices = 0;
  ingest_device_not_found = 0;
  ingest_cache_misses = 0;
  channel_create_success = 0;
  channel_create_failures = 0;
  cache_sync_success = 0;
  cache_sync_failures = 0;
  cache_last_success_timestamp = pos 0;
  publish_batches = 0;
  publish_failures = 0;
  publish_retries = 0;
  publish_dropped_items = 0;
  publish_queue_depth = pos 0;
}

-- Counter.Add
abbrev pub add : ℕ → ℕ → ℕ
add delta value = (value + delta) % 2 ^ 64

-- Counter.Inc
abbrev pub inc : ℕ → ℕ
inc value = add 1 value
