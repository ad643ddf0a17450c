-- ===== src/Publish.antt =====
-- internal/publish/buffered.go: the buffer of telemetry, its batches, and the retries. The mutex
-- sections are the functions `enqueue`, `dequeue_ready_batch`, `handle_publish_failure` and
-- `finish_flush`; what other goroutines may do between them is the matter of Publish/Steps.antt.
-- The clock and the random bytes are arguments. Retry counts and lengths are within an int.

pub mod Backoff
pub mod Batches
pub mod Steps
pub mod Drain
pub mod Start
pub mod Jetstream
pub mod Log
pub mod Protobuf
pub mod Delivery
use device_handler.Prelude.{
  ℕ, zero, suc, ◌+◌, ◌-◌, ◌*◌, ◌^◌, Bool, true, false, ◌&&◌, ◌||◌, not, Option, none, some, List,
  [], ◌∷◌, ◌++◌, map, ltb, leb, ◌==◌, if◌then◌else◌, length, take, drop,
}
use device_handler.Time.{Time, Duration, ℤ, pos, negsuc, zero_time, after, to_signed}
use device_handler.Time
use device_handler.Text.{Text, codes, equal}
use device_handler.Metrics.{AppMetrics, inc}
use device_handler.Metrics
use device_handler.Telemetry.{DeploymentSamples, Batch}

-- config.PublishConfig: `flush_capacity` is FlushCount, and `flush_count` is what its two tests see of
-- it, for which a negative number is 0.
pub record PublishConfig : Type 0 where
  pub nats_url : Text
  pub subject : Text
  pub flush_after : Duration
  pub flush_count : ℕ
  pub flush_capacity : ℤ
  pub timeout : Duration
  pub retry_backoff : Duration
  pub max_retries : ℤ

pub record TelemetryEnvelope : Type 0 where
  pub subject : Text
  pub deployment_sample : DeploymentSamples
  pub received_at : Time

pub record BufferedItem : Type 0 where
  pub envelope : TelemetryEnvelope
  pub retry_count : ℕ
  pub not_before : Time

-- `metrics` is the one set of metrics that all parts of the service share.
pub record BufferedPublisher : Type 0 where
  pub buffer : List BufferedItem
  pub flushing : Bool
  pub metrics : AppMetrics

abbrev pub new_buffered_publisher : AppMetrics → BufferedPublisher
new_buffered_publisher metrics = record { buffer = []; flushing = false; metrics = metrics }

abbrev pub set_queue_depth : List BufferedItem → AppMetrics → AppMetrics
set_queue_depth buffer m = record m { publish_queue_depth = pos (length buffer) }

-- Enqueue; the second part tells whether it starts a flush. Its error is always nil.
unfoldable pub enqueue :
    PublishConfig → TelemetryEnvelope → BufferedPublisher → BufferedPublisher × Bool
enqueue cfg envelope p =
    let item : BufferedItem = record {
      envelope = envelope;
      retry_count = 0;
      not_before = zero_time;
    } in
    let buffer = p.buffer ++ (item ∷ []) in
    (
      record p { buffer = buffer; metrics = set_queue_depth buffer p.metrics },
      leb cfg.flush_count (length buffer) && not p.flushing,
    )

-- The loop that counts the ready items at the head of the buffer, `room` being what is left of
-- FlushCount.
unfoldable pub ready_count : Time → ℕ → List BufferedItem → ℕ
ready_count now zero items = 0
ready_count now (suc room) [] = 0
ready_count now (suc room) (x ∷ xs) =
    let rest = ready_count now room xs in if after x.not_before now then 0 else suc rest

abbrev pub samples_of : List BufferedItem → List DeploymentSamples
samples_of = map λ x. x.envelope.deployment_sample

abbrev pub subject_of : Text → List BufferedItem → Text
subject_of subject [] = subject
subject_of subject (x ∷ xs) = if equal x.envelope.subject [] then subject else x.envelope.subject

pub record Dequeued : Type 0 where
  pub items : List BufferedItem
  pub subject : Text
  pub batch : Batch

pub data Dequeue : Type 0 where
  nothing_ready : Dequeue
  no_transmission_id : Dequeue
  ready : Dequeued → Dequeue

-- What dequeueReadyBatch does once `items` are cut off the buffer and flushing is set; `id` is the
-- result of newTransmissionID.
unfoldable pub assemble :
    PublishConfig
    → Option (List ℕ)
    → List BufferedItem
    → BufferedPublisher
    → BufferedPublisher × Dequeue
assemble cfg none items p = (record p { flushing = false }, no_transmission_id)
assemble cfg (some id) items p = (
  p,
  ready (record {
    items = items;
    subject = subject_of cfg.subject items;
    batch = record {
      transmission_id = id;
      source_deployment_id = none;
      deployment_samples = samples_of items;
    };
  }),
)

abbrev pub is_nil : List BufferedItem → Bool
is_nil [] = true
is_nil (x ∷ xs) = false

unfoldable pub dequeue_ready_batch :
    PublishConfig → Time → Option (List ℕ) → BufferedPublisher → BufferedPublisher × Dequeue
unfolding ready_count assemble
dequeue_ready_batch cfg now id p =
    let count = ready_count now cfg.flush_count p.buffer in
    if p.flushing || is_nil p.buffer
    then (p, nothing_ready)
    else if count == 0
    then (p, nothing_ready)
    else let rest = drop count p.buffer in
      assemble cfg id (take count p.buffer)
        (record { buffer = rest; flushing = true; metrics = set_queue_depth rest p.metrics })

-- int64(1) << shift times base, as a Duration.
unfoldable pub backoff_delay : Duration → ℕ → Duration
backoff_delay (negsuc n) retry_count = pos 0
backoff_delay (pos n) retry_count =
    let shift = if ltb 6 (retry_count - 1) then 6 else retry_count - 1 in
    if n == 0 then pos 0 else to_signed (n * 2 ^ shift)

-- n >= limit on ints
abbrev pub at_least : ℕ → ℤ → Bool
at_least n (pos m) = leb m n
at_least n (negsuc m) = true

-- An item that has been retried as often as the configuration allows.
abbrev pub exhausted : PublishConfig → BufferedItem → Bool
exhausted cfg x = at_least x.retry_count cfg.max_retries

abbrev pub retried : PublishConfig → Time → BufferedItem → BufferedItem
retried cfg now x = record x {
  retry_count = suc x.retry_count;
  not_before = Time.add now (backoff_delay cfg.retry_backoff (suc x.retry_count));
}

unfoldable pub requeued : PublishConfig → Time → List BufferedItem → List BufferedItem
requeued cfg now [] = []
requeued cfg now (x ∷ xs) =
    let rest = requeued cfg now xs in if exhausted cfg x then rest else retried cfg now x ∷ rest

unfoldable pub dropped_count : PublishConfig → List BufferedItem → ℕ
dropped_count cfg [] = 0
dropped_count cfg (x ∷ xs) =
    let rest = dropped_count cfg xs in if exhausted cfg x then suc rest else rest

-- `if n > 0 { counter.Add(n) }`
abbrev pub add_positive : ℕ → ℕ → ℕ
add_positive n value = if ltb 0 n then Metrics.add n value else value

unfoldable pub handle_publish_failure :
    PublishConfig → Time → List BufferedItem → BufferedPublisher → BufferedPublisher
unfolding requeued dropped_count
handle_publish_failure cfg now items p =
    let buffer = requeued cfg now items ++ p.buffer in
    record {
      buffer = buffer;
      flushing = false;
      metrics = record (set_queue_depth buffer p.metrics) {
        publish_retries = add_positive (length (requeued cfg now items)) p.metrics.publish_retries;
        publish_dropped_items =
            add_positive (dropped_count cfg items) p.metrics.publish_dropped_items;
      };
    }

unfoldable pub finish_flush : BufferedPublisher → BufferedPublisher
finish_flush p = record p { flushing = false }

-- The end of flush after Publish has failed, at time `now`, and after it has succeeded.
unfoldable pub publish_failed :
    PublishConfig → Time → List BufferedItem → BufferedPublisher → BufferedPublisher
unfolding handle_publish_failure
publish_failed cfg now items p = handle_publish_failure cfg now items (record p {
  metrics = record (p.metrics) { publish_failures = inc p.metrics.publish_failures };
})

unfoldable pub publish_succeeded : BufferedPublisher → BufferedPublisher
unfolding finish_flush
publish_succeeded p =
    finish_flush (record p {
      metrics = record (p.metrics) { publish_batches = inc p.metrics.publish_batches };
    })

-- The rest of flush: `publish` is the downstream's Publish, `none` being its success and
-- `some now` its failure, with the clock of handlePublishFailure.
unfoldable pub publish_batch :
    PublishConfig → (Text → Batch → Option Time) → BufferedPublisher × Dequeue → BufferedPublisher
unfolding publish_failed publish_succeeded
publish_batch cfg publish (p, nothing_ready) = p
publish_batch cfg publish (p, no_transmission_id) = p
publish_batch cfg publish (p, ready d) = elim (publish d.subject d.batch) [
  | none ↦ publish_succeeded p
  | some now ↦ publish_failed cfg now d.items p
]

-- flush, with nothing happening between its mutex sections.
unfoldable pub flush :
    PublishConfig
    → Time
    → Option (List ℕ)
    → (Text → Batch → Option Time)
    → BufferedPublisher
    → BufferedPublisher
unfolding publish_batch
flush cfg now id publish p = publish_batch cfg publish (dequeue_ready_batch cfg now id p)
