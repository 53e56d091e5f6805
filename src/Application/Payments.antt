-- ===== src/Application/Payments.antt =====
-- The payment service (crates/openpay-application/src/payments.rs).
pub mod Status
pub mod Expiry
use vega_trix.Base.{
  ℕ, suc, ◌+◌, String, Bool, true, false, ◌&&◌, ◌||◌, not, Option, none, some, List, [], ◌∷◌, ◌++◌,
  Result, ok, err, is_ok, map_err, is_empty, ltb, if◌then◌else◌,
}
use vega_trix.Base.Machine.{Uuid, Instant, seconds}
use vega_trix.Domain.Error.{not_refundable}
use vega_trix.Domain.Status as Statuses
use vega_trix.Domain.Status.{PaymentStatus, account_to_account}
use vega_trix.Domain.Payment.{
  PaymentRequest, CreatePaymentCommand, TransitionPaymentCommand, expiry_target,
}
use vega_trix.Application.Ports.{
  AuditEvent, AuditMetadata, creation, change, OutboxRecord, EventPayload, IdempotencyContext,
  CreatePaymentResult, ApplicationError, domain,
}
use vega_trix.Application.Exec.{World, Exec, pure, raise, lift, query, now, draw, ◌>>=◌, ◌>>◌}
use vega_trix.Persistence.Payments.{
  get_by_id, transition_payment, create_idempotent, list_expirable_payments,
}
use vega_trix.Persistence.Merchants.{get_merchant}

-- `audit_event`
unfoldable pub audit_event :
    Uuid
    → Uuid
    → String
    → String
    → String
    → Uuid
    → Option String
    → AuditMetadata
    → Instant
    → AuditEvent
audit_event id tenant actor_type actor_id event_type resource request_id metadata t = record {
  id = id;
  tenant_id = tenant;
  actor_type = actor_type;
  actor_id = actor_id;
  event_type = event_type;
  resource_type = "payment_request";
  resource_id = resource;
  request_id = request_id;
  ip_hash = none;
  metadata_redacted = metadata;
  occurred_at = t;
}

-- `payment_outbox_with_status`
unfoldable pub payment_outbox_with_status :
    Uuid → PaymentRequest → String → PaymentStatus → Instant → OutboxRecord
payment_outbox_with_status event_id payment event_type status t = record {
  id = event_id;
  tenant_id = payment.tenant_id;
  aggregate_type = "payment_request";
  aggregate_id = payment.id;
  event_type = event_type;
  payload = record {
    id = event_id;
    event_type = event_type;
    api_version = "2026-08-18";
    created_at = t;
    payment_id = payment.id;
    merchant_order_id = payment.merchant_order_id;
    status = status;
    amount_minor = payment.amount_minor;
    currency = payment.currency;
    merchant_id = payment.merchant_id;
  };
  created_at = t;
}

-- `payment_outbox`
unfoldable pub payment_outbox : Uuid → PaymentRequest → String → Instant → OutboxRecord
unfolding payment_outbox_with_status
payment_outbox event_id payment event_type t =
    payment_outbox_with_status event_id payment event_type payment.status t

-- The command, the audit event and the outbox event that `apply_status` builds.
unfoldable pub status_command :
    PaymentRequest → PaymentStatus → String → String → String → TransitionPaymentCommand
status_command payment next actor_type actor_id event_type = record {
  tenant_id = payment.tenant_id;
  payment_id = payment.id;
  expected_version = some payment.version;
  next_status = next;
  actor_type = actor_type;
  actor_id = actor_id;
  reason = some event_type;
}

unfoldable pub status_audit :
    Uuid → PaymentRequest → PaymentStatus → String → String → String → Instant → AuditEvent
unfolding audit_event
status_audit id payment next actor_type actor_id event_type t =
    audit_event id payment.tenant_id actor_type actor_id event_type payment.id none
      (change (Statuses.as_str payment.status) (Statuses.as_str next)) t

-- `apply_status`
unfoldable pub apply_status :
    PaymentRequest → PaymentStatus → String → String → String → Exec PaymentRequest
apply_status payment next actor_type actor_id event_type = do
  t ← now
  audit_id ← draw
  event_id ← draw
  query (
      transition_payment (status_command payment next actor_type actor_id event_type) t
        (some (status_audit audit_id payment next actor_type actor_id event_type t))
        (some (payment_outbox_with_status event_id payment event_type next t)))

unfoldable pub expire_if_due : PaymentRequest → Option PaymentStatus → Exec PaymentRequest
unfolding apply_status
expire_if_due payment none = pure payment
expire_if_due payment (some next) = apply_status payment next "system" "expiry" "payment.expired"

-- `get_payment`
unfoldable pub get_payment : Uuid → Uuid → Exec PaymentRequest
unfolding expire_if_due
get_payment tenant id = do
  payment ← query (get_by_id tenant id)
  t ← now
  expire_if_due payment (expiry_target payment t)

-- `cancel_payment`
unfoldable pub cancel_payment : Uuid → Uuid → String → Exec PaymentRequest
cancel_payment tenant id actor = do
  payment ← query (get_by_id tenant id)
  lift (map_err domain (Statuses.transition payment.status PaymentStatus.cancelled))
  apply_status payment PaymentStatus.cancelled "merchant" actor "payment.cancelled"

-- The two statuses that `refund_payment` lets pass.
unfoldable pub refundable : PaymentStatus → Bool
refundable s = Statuses.eq s PaymentStatus.settled || Statuses.eq s PaymentStatus.partially_refunded

-- `refund_payment`
unfoldable pub refund_payment : Uuid → Uuid → String → Exec PaymentRequest
refund_payment tenant id actor = do
  payment ← query (get_by_id tenant id)
  if not (refundable payment.status)
      then raise (domain (not_refundable (Statuses.as_str payment.status)))
      else apply_status payment PaymentStatus.refunded "merchant" actor "payment.refunded"

-- One round of the loop of `expire_stale_payments`: whether the payment was expired.
unfoldable pub expire_one : Instant → PaymentRequest → World → Bool × World
expire_one t payment w = elim (expiry_target payment t) [
  | none ↦ (false, w)
  | some next ↦
      let (r, w') = apply_status payment next "system" "expiry" "payment.expired" w in (is_ok r, w')
]

expire_each : Instant → List PaymentRequest → ℕ → World → ℕ × World
unfolding expire_one
expire_each t [] n w = (n, w)
expire_each t (payment ∷ due) n w =
    let (done, w') = expire_one t payment w in expire_each t due (if done then n + 1 else n) w'

-- `expire_stale_payments`
unfoldable pub expire_stale_payments : ℕ → Exec ℕ
unfolding expire_each
expire_stale_payments limit = do
  t ← now
  due ← query (list_expirable_payments t limit)
  λ w. let (n, w') = expire_each t due 0 w in (ok n, w')
