-- ===== src/Publish/Delivery/Carried.antt =====
-- What messages of internal/publish/jetstream_publisher.go carry, read back from the wire.
use device_handler.Prelude.{
  ℕ, ◌≡◌, refl, sym, ap, ◌∙◌, Option, none, some, List, [], ◌∷◌, ◌++◌, append-nil, append_assoc,
  map, ok, arith,
}
use device_handler.Metrics.{AppMetrics}
use device_handler.Telemetry.{DeploymentSamples}
use device_handler.Telemetrypb
use device_handler.Publish.{TelemetryEnvelope, BufferedItem, samples_of, new_buffered_publisher}
use device_handler.Publish.Protobuf.Faithful.{of_batch}
use device_handler.Publish.Jetstream.{Msg, Nats}
use device_handler.Publish.Steps.{envelopes}
use device_handler.Publish.Steps.Conserve.{total}
use device_handler.Publish.Delivery.{System, begin}

-- The publisher of main, with an empty buffer.
abbrev pub launched : {W : Type 0} → AppMetrics → W → System (W × List Msg)
launched m w = begin (new_buffered_publisher m) (w, [])

-- proto.Unmarshal reads back what proto.Marshal has written.
pub record IsUnmarshal {W X : Type 0} (nats : Nats W X)
    (unmarshal : List ℕ → Option Telemetrypb.Batch) : Type 0 where
  pub reads :
      (b : Telemetrypb.Batch) (bytes : List ℕ)
      → nats.marshal b ≡ ok bytes
      → unmarshal bytes ≡ some b

abbrev pub samples_in : Option Telemetrypb.Batch → List DeploymentSamples
samples_in none = []
samples_in (some b) = (of_batch b).deployment_samples

-- The samples that messages carry.
abbrev pub carried : (List ℕ → Option Telemetrypb.Batch) → List Msg → List DeploymentSamples
carried unmarshal [] = []
carried unmarshal (m ∷ ms) = samples_in (unmarshal m.payload) ++ carried unmarshal ms

abbrev pub samples_sent : List TelemetryEnvelope → List DeploymentSamples
samples_sent = map λ e. e.deployment_sample

pub carried-append :
    (unmarshal : List ℕ → Option Telemetrypb.Batch) (ms : List Msg) (m : Msg)
    → carried unmarshal (ms ++ (m ∷ [])) ≡ carried unmarshal ms ++ samples_in (unmarshal m.payload)
carried-append unmarshal [] m = append-nil _
carried-append unmarshal (n ∷ ms) m =
    ap (λ l. samples_in (unmarshal n.payload) ++ l) (carried-append unmarshal ms m)
    ∙ sym (append_assoc (samples_in (unmarshal n.payload)) (carried unmarshal ms) _)

pub samples_of_items : (xs : List BufferedItem) → samples_sent (envelopes xs) ≡ samples_of xs
samples_of_items [] = refl
samples_of_items (x ∷ xs) = ap (λ l. x.envelope.deployment_sample ∷ l) (samples_of_items xs)

pub total-sent :
    (f : DeploymentSamples → ℕ) (es : List TelemetryEnvelope)
    → total f (samples_sent es) ≡ total (λ e. f e.deployment_sample) es
total-sent f [] = refl
total-sent f (e ∷ es) = omega (arith, total-sent f es)
