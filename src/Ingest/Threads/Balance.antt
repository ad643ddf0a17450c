-- ===== src/Ingest/Threads/Balance.antt =====
-- The state that the goroutines share, and how much was enqueued: what an access of Handle of
-- internal/ingest/service.go and a section of a flush of internal/publish/buffered.go keep.
use device_handler.Prelude.{ℕ, ◌+◌, ◌≡◌, refl, sym, ap, subst, ◌∙◌, List, [], ◌∷◌, arith}
use device_handler.Time.{Time}
use device_handler.Text.{Unicode}
use device_handler.Cache.Consistent.{IsConsistent}
use device_handler.Publish.{
  PublishConfig, TelemetryEnvelope, BufferedItem, BufferedPublisher, Dequeue, nothing_ready,
  no_transmission_id, ready,
}
use device_handler.Publish.Steps as Flow
use device_handler.Publish.Steps.{after_dequeue, after_success, after_failure}
use device_handler.Publish.Steps.Conserve.{total, total-append, IsConserved, Flushing}
use device_handler.Ingest.State.{Service}
use device_handler.Ingest.Threads.System.{Shared, service_of, share, with_flow}
use device_handler.Ingest.Threads.Kept.{Adds}

-- A flush takes in no envelope.
pub after_dequeue_accepted :
    (s : Flow.System) (r : BufferedPublisher × Dequeue) → (after_dequeue s r).accepted ≡ s.accepted
unfolding after_dequeue
after_dequeue_accepted s (p, nothing_ready) = refl
after_dequeue_accepted s (p, no_transmission_id) = refl
after_dequeue_accepted s (p, ready d) = refl

pub after_success_accepted :
    (s : Flow.System) (xs : List BufferedItem) → (after_success s xs).accepted ≡ s.accepted
unfolding after_success
after_success_accepted s [] = refl
after_success_accepted s (x ∷ xs) = refl

pub after_failure_accepted :
    (cfg : PublishConfig) (now : Time) (s : Flow.System) (xs : List BufferedItem)
    → (after_failure cfg now s xs).accepted ≡ s.accepted
unfolding after_failure
after_failure_accepted cfg now s [] = refl
after_failure_accepted cfg now s (x ∷ xs) = refl

module _ ⦃u : Unicode⦄ {W : Type 0} where
  -- The shared state is in order, `n f` being the total weight of what was enqueued.
  pub record Balanced (n : (TelemetryEnvelope → ℕ) → ℕ) (sh : Shared W) : Type 0 where
    pub consistent : IsConsistent sh.cache
    pub conserved : IsConserved sh.flow
    pub accepted : (f : TelemetryEnvelope → ℕ) → total f sh.flow.accepted ≡ n f

  pub Balanced-cong :
      (m n : (TelemetryEnvelope → ℕ) → ℕ) (sh : Shared W)
      → ((f : TelemetryEnvelope → ℕ) → m f ≡ n f)
      → Balanced m sh
      → Balanced n sh
  Balanced-cong m n sh e b = record {
    consistent = b.consistent;
    conserved = b.conserved;
    accepted = λ f. b.accepted f ∙ e f;
  }

  pub share-Balanced :
      (n : (TelemetryEnvelope → ℕ) → ℕ) (es : List TelemetryEnvelope) (sh : Shared W)
      (s : Service W)
      → Balanced n sh
      → Adds es (service_of sh) s
      → Balanced (λ f. total f es + n f) (share sh es s)
  share-Balanced n es sh s b a = record {
    consistent = a.consistent;
    conserved = record {
      busy = subst (λ x. Flushing x sh.flow.in_flight) (sym a.flushing) b.conserved.busy;
      totals =
          λ f. omega (arith, b.conserved.totals f, a.loads f, total-append f sh.flow.accepted es);
    };
    accepted = λ f. omega (arith, b.accepted f, total-append f sh.flow.accepted es);
  }

  pub flow-Balanced :
      (n : (TelemetryEnvelope → ℕ) → ℕ) (sh : Shared W) (flow : Flow.System)
      → Balanced n sh
      → IsConserved flow
      → flow.accepted ≡ sh.flow.accepted
      → Balanced n (with_flow sh flow)
  flow-Balanced n sh flow b c e = record {
    consistent = b.consistent;
    conserved = c;
    accepted = λ f. ap (total f) e ∙ b.accepted f;
  }
