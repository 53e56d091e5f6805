-- ===== src/Tests/Statuses.antt =====
-- The properties of statuses, expiry and connectors on single values.
use vega_trix.Base.{◌≡◌, refl, ◌⊎◌, ◌↔◌, ok, err, [], ◌∷◌}
use vega_trix.Domain.Error.{illegal_transition}
use vega_trix.Domain.Status.{
  PaymentStatus, AttemptStatus, transition, as_str, eq, can_transition_to,
}
use vega_trix.Domain.Status.Table.{Edge, transition-Edge}
use vega_trix.Domain.Status.Lifecycle.{Reach, here, next}
use vega_trix.Connectors.Api.{Sandbox}

transition-Edge_example :
    ((transition PaymentStatus.settled PaymentStatus.cancelled ≡ ok PaymentStatus.cancelled) ↔ (
      (PaymentStatus.settled ≡ PaymentStatus.cancelled)
      ⊎ Edge PaymentStatus.settled PaymentStatus.cancelled))
    × (¬ (
          (PaymentStatus.settled ≡ PaymentStatus.cancelled)
          ⊎ Edge PaymentStatus.settled PaymentStatus.cancelled)
        → transition PaymentStatus.settled PaymentStatus.cancelled
          ≡ err
              (illegal_transition (as_str PaymentStatus.settled) (as_str PaymentStatus.cancelled)))
transition-Edge_example = transition-Edge PaymentStatus.settled PaymentStatus.cancelled

-- A second cancellation.
cancelled_again : Reach PaymentStatus.cancelled PaymentStatus.cancelled
unfolding transition eq can_transition_to
cancelled_again = next PaymentStatus.cancelled PaymentStatus.cancelled here refl

refund_history : Reach PaymentStatus.settled PaymentStatus.refunded
unfolding transition eq can_transition_to
refund_history =
    next PaymentStatus.refund_pending PaymentStatus.refunded
      (next PaymentStatus.settled PaymentStatus.refund_pending here refl) refl

abbrev ledger : Sandbox
ledger = record {
  rows =
      record {
        connector_key = "manual-test";
        provider_reference = "ref";
        status = AttemptStatus.requires_action;
      }
      ∷ [];
  uuids = λ k. k;
  drawn = 0;
}
