-- ===== src/Domain/Payment.antt =====
-- Payments, attempts and commands (crates/openpay-domain/src/payment.rs). JSON metadata is kept as
-- its text.
pub mod Expiry
pub mod Moves
use vega_trix.Base.{
  ℕ, String, Bool, true, false, ◌&&◌, not, Option, none, some, List, Result, ok, err, ◌>>=◌, leb,
  ◌==◌, if◌then◌else◌,
}
use vega_trix.Base.Machine.{Uuid, Instant, i32_add}
use vega_trix.Domain.Error.{DomainError, tenant_mismatch, merchant_mismatch}
use vega_trix.Domain.Money.{AmountMinor, Currency}
use vega_trix.Domain.Status
use vega_trix.Domain.Status.{PaymentStatus, AttemptStatus, PaymentMethod}

pub record PaymentRequest : Type 0 where
  pub id : Uuid
  pub tenant_id : Uuid
  pub merchant_id : Uuid
  pub merchant_order_id : String
  pub amount_minor : AmountMinor
  pub currency : Currency
  pub status : PaymentStatus
  pub allowed_methods : List PaymentMethod
  pub description : Option String
  pub expires_at : Instant
  pub return_url : Option String
  pub metadata : String
  pub idempotency_key : String
  pub routing_policy_id : Option Uuid
  pub version : ℕ  -- i32
  pub created_at : Instant
  pub updated_at : Instant

-- `PaymentRequest::transition`
unfoldable pub transition :
    PaymentRequest → PaymentStatus → Instant → Result DomainError PaymentRequest
transition payment next now = do
  status ← Status.transition payment.status next
  ok (record payment { status = status; updated_at = now; version = i32_add payment.version 1 })

-- `PaymentRequest::belongs_to`
unfoldable pub belongs_to : PaymentRequest → Uuid → Uuid → Result DomainError (Unit {0})
belongs_to payment tenant merchant =
    if not (payment.tenant_id == tenant)
    then err tenant_mismatch
    else if not (payment.merchant_id == merchant)
    then err merchant_mismatch
    else ok tt

-- `PaymentRequest::is_expired`
unfoldable pub is_expired : PaymentRequest → Instant → Bool
is_expired payment now =
    leb payment.expires_at now
    && not (Status.is_terminal payment.status)
    && not (Status.is_settled_family payment.status)

-- `PaymentRequest::expiry_target`
unfoldable pub expiry_target : PaymentRequest → Instant → Option PaymentStatus
unfolding is_expired
expiry_target payment now =
    if not (is_expired payment now)
    then none
    else if Status.can_transition_to payment.status PaymentStatus.expired
    then some PaymentStatus.expired
    else none

pub record PaymentAttempt : Type 0 where
  pub id : Uuid
  pub tenant_id : Uuid
  pub payment_request_id : Uuid
  pub connector_id : Uuid
  pub connector_key : String
  pub rail_type : String
  pub provider_reference : Option String
  pub status : AttemptStatus
  pub failure_code : Option String
  pub failure_message_safe : Option String
  pub amount_minor : AmountMinor
  pub currency : Currency
  pub requested_at : Instant
  pub authorized_at : Option Instant
  pub settled_at : Option Instant
  pub created_at : Instant
  pub updated_at : Instant

pub record CreatePaymentCommand : Type 0 where
  pub tenant_id : Uuid
  pub merchant_id : Uuid
  pub merchant_order_id : String
  pub amount_minor : AmountMinor
  pub currency : Currency
  pub description : Option String
  pub allowed_methods : List PaymentMethod
  pub expires_in_seconds : ℕ  -- u32
  pub return_url : Option String
  pub metadata : String
  pub idempotency_key : String
  pub routing_policy_id : Option Uuid

pub record TransitionPaymentCommand : Type 0 where
  pub tenant_id : Uuid
  pub payment_id : Uuid
  pub expected_version : Option ℕ  -- i32
  pub next_status : PaymentStatus
  pub actor_type : String
  pub actor_id : String
  pub reason : Option String
