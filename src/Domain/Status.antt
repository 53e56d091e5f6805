-- ===== src/Domain/Status.antt =====
-- Payment and attempt statuses and their transition table (crates/openpay-domain/src/status.rs).
pub mod Table
pub mod Lifecycle
use vega_trix.Base.{
  ℕ, String, Bool, true, false, ◌||◌, Option, none, some, List, [], ◌∷◌, Result, ok, err, any, ◌==◌,
  if◌then◌else◌,
}
use vega_trix.Domain.Error.{DomainError, illegal_transition}

pub data PaymentStatus : Type 0 where
  created pending requires_action authorized processing settled failed cancelled expired :
      PaymentStatus
  refund_pending refunded partially_refunded : PaymentStatus

pub data AttemptStatus : Type 0 where
  created requires_action processing authorized settled failed cancelled expired : AttemptStatus
  ambiguous : AttemptStatus

pub data PaymentMethod : Type 0 where
  account_to_account card wallet manual : PaymentMethod

-- The discriminants that the derived `PartialEq` compares.
unfoldable pub discriminant : PaymentStatus → ℕ
discriminant PaymentStatus.created = 0
discriminant PaymentStatus.pending = 1
discriminant PaymentStatus.requires_action = 2
discriminant PaymentStatus.authorized = 3
discriminant PaymentStatus.processing = 4
discriminant PaymentStatus.settled = 5
discriminant PaymentStatus.failed = 6
discriminant PaymentStatus.cancelled = 7
discriminant PaymentStatus.expired = 8
discriminant PaymentStatus.refund_pending = 9
discriminant PaymentStatus.refunded = 10
discriminant PaymentStatus.partially_refunded = 11

unfoldable pub eq : PaymentStatus → PaymentStatus → Bool
unfolding discriminant
eq s t = discriminant s == discriminant t

unfoldable pub attempt_discriminant : AttemptStatus → ℕ
attempt_discriminant AttemptStatus.created = 0
attempt_discriminant AttemptStatus.requires_action = 1
attempt_discriminant AttemptStatus.processing = 2
attempt_discriminant AttemptStatus.authorized = 3
attempt_discriminant AttemptStatus.settled = 4
attempt_discriminant AttemptStatus.failed = 5
attempt_discriminant AttemptStatus.cancelled = 6
attempt_discriminant AttemptStatus.expired = 7
attempt_discriminant AttemptStatus.ambiguous = 8

unfoldable pub attempt_eq : AttemptStatus → AttemptStatus → Bool
unfolding attempt_discriminant
attempt_eq s t = attempt_discriminant s == attempt_discriminant t

unfoldable pub method_eq : PaymentMethod → PaymentMethod → Bool
method_eq account_to_account account_to_account = true
method_eq card card = true
method_eq wallet wallet = true
method_eq manual manual = true
method_eq _ _ = false

unfoldable pub as_str : PaymentStatus → String
as_str PaymentStatus.created = "CREATED"
as_str PaymentStatus.pending = "PENDING"
as_str PaymentStatus.requires_action = "REQUIRES_ACTION"
as_str PaymentStatus.authorized = "AUTHORIZED"
as_str PaymentStatus.processing = "PROCESSING"
as_str PaymentStatus.settled = "SETTLED"
as_str PaymentStatus.failed = "FAILED"
as_str PaymentStatus.cancelled = "CANCELLED"
as_str PaymentStatus.expired = "EXPIRED"
as_str PaymentStatus.refund_pending = "REFUND_PENDING"
as_str PaymentStatus.refunded = "REFUNDED"
as_str PaymentStatus.partially_refunded = "PARTIALLY_REFUNDED"

unfoldable pub attempt_as_str : AttemptStatus → String
attempt_as_str AttemptStatus.created = "CREATED"
attempt_as_str AttemptStatus.requires_action = "REQUIRES_ACTION"
attempt_as_str AttemptStatus.processing = "PROCESSING"
attempt_as_str AttemptStatus.authorized = "AUTHORIZED"
attempt_as_str AttemptStatus.settled = "SETTLED"
attempt_as_str AttemptStatus.failed = "FAILED"
attempt_as_str AttemptStatus.cancelled = "CANCELLED"
attempt_as_str AttemptStatus.expired = "EXPIRED"
attempt_as_str AttemptStatus.ambiguous = "AMBIGUOUS"

unfoldable pub is_terminal : PaymentStatus → Bool
is_terminal PaymentStatus.failed = true
is_terminal PaymentStatus.cancelled = true
is_terminal PaymentStatus.expired = true
is_terminal PaymentStatus.refunded = true
is_terminal _ = false

unfoldable pub is_settled_family : PaymentStatus → Bool
is_settled_family PaymentStatus.settled = true
is_settled_family PaymentStatus.refund_pending = true
is_settled_family PaymentStatus.refunded = true
is_settled_family PaymentStatus.partially_refunded = true
is_settled_family _ = false

unfoldable pub allowed_targets : PaymentStatus → List PaymentStatus
allowed_targets PaymentStatus.created = PaymentStatus.pending ∷ []
allowed_targets PaymentStatus.pending =
    PaymentStatus.requires_action ∷ PaymentStatus.processing ∷ PaymentStatus.failed
    ∷ PaymentStatus.cancelled ∷ PaymentStatus.expired ∷ []
allowed_targets PaymentStatus.requires_action =
    PaymentStatus.processing ∷ PaymentStatus.failed ∷ PaymentStatus.cancelled
    ∷ PaymentStatus.expired ∷ []
allowed_targets PaymentStatus.processing =
    PaymentStatus.authorized ∷ PaymentStatus.settled ∷ PaymentStatus.failed ∷ []
allowed_targets PaymentStatus.authorized =
    PaymentStatus.settled ∷ PaymentStatus.failed ∷ PaymentStatus.cancelled ∷ []
allowed_targets PaymentStatus.settled =
    PaymentStatus.refund_pending ∷ PaymentStatus.partially_refunded ∷ PaymentStatus.refunded ∷ []
allowed_targets PaymentStatus.refund_pending =
    PaymentStatus.refunded ∷ PaymentStatus.partially_refunded ∷ PaymentStatus.failed ∷ []
allowed_targets PaymentStatus.partially_refunded =
    PaymentStatus.refunded ∷ PaymentStatus.refund_pending ∷ []
allowed_targets PaymentStatus.failed = []
allowed_targets PaymentStatus.cancelled = []
allowed_targets PaymentStatus.expired = []
allowed_targets PaymentStatus.refunded = []

unfoldable pub can_transition_to : PaymentStatus → PaymentStatus → Bool
unfolding allowed_targets eq
can_transition_to s next = any (eq next) (allowed_targets s)

unfoldable pub transition : PaymentStatus → PaymentStatus → Result DomainError PaymentStatus
transition s next =
    if eq s next
    then ok s
    else if can_transition_to s next
    then ok next
    else err (illegal_transition (as_str s) (as_str next))

unfoldable pub webhook_event : PaymentStatus → Option String
webhook_event PaymentStatus.created = some "payment.created"
webhook_event PaymentStatus.requires_action = some "payment.requires_action"
webhook_event PaymentStatus.processing = some "payment.processing"
webhook_event PaymentStatus.pending = some "payment.processing"
webhook_event PaymentStatus.authorized = some "payment.authorized"
webhook_event PaymentStatus.settled = some "payment.settled"
webhook_event PaymentStatus.failed = some "payment.failed"
webhook_event PaymentStatus.cancelled = some "payment.cancelled"
webhook_event PaymentStatus.expired = some "payment.expired"
webhook_event PaymentStatus.refunded = some "payment.refunded"
webhook_event PaymentStatus.partially_refunded = some "payment.refunded"
webhook_event PaymentStatus.refund_pending = none

unfoldable pub into_payment_status : AttemptStatus → PaymentStatus
into_payment_status AttemptStatus.created = PaymentStatus.pending
into_payment_status AttemptStatus.requires_action = PaymentStatus.requires_action
into_payment_status AttemptStatus.processing = PaymentStatus.processing
into_payment_status AttemptStatus.authorized = PaymentStatus.authorized
into_payment_status AttemptStatus.settled = PaymentStatus.settled
into_payment_status AttemptStatus.failed = PaymentStatus.failed
into_payment_status AttemptStatus.cancelled = PaymentStatus.cancelled
into_payment_status AttemptStatus.expired = PaymentStatus.expired
into_payment_status AttemptStatus.ambiguous = PaymentStatus.processing

unfoldable pub method_as_str : PaymentMethod → String
method_as_str account_to_account = "ACCOUNT_TO_ACCOUNT"
method_as_str card = "CARD"
method_as_str wallet = "WALLET"
method_as_str manual = "MANUAL"
