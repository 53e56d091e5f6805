-- ===== src/Persistence/Mapping.antt =====
-- The texts of the status columns (crates/openpay-persistence/src/map.rs).
pub mod Rows
use vega_trix.Base.{
  ◌≡◌, ◌↔◌, refl, String, Option, none, some, List, [], ◌∷◌, Result, ok, err, arith, str_eq, eq_iff,
  if◌then◌else◌,
}
use vega_trix.Domain.Status.{
  PaymentStatus, AttemptStatus, PaymentMethod, account_to_account, card, wallet, manual, as_str,
  attempt_as_str,
}
use vega_trix.Application.Ports.{RepositoryError, infra}
use vega_trix.Domain.Webhook.{DeliveryStatus}
use vega_trix.Persistence.Webhooks.{delivery_status, parse_delivery}

-- `match` on a text with literal arms: the value of the first arm that is equal to it.
unfoldable pub matched : {A : Type 0} → String → List (String × A) → Option A
matched raw [] = none
matched raw ((text, a) ∷ arms) =
    let rest = matched raw arms in if str_eq raw text then some a else rest

abbrev pub payment_arms : List (String × PaymentStatus)
payment_arms =
    ("CREATED", PaymentStatus.created)
    ∷ ("PENDING", PaymentStatus.pending)
    ∷ ("REQUIRES_ACTION", PaymentStatus.requires_action)
    ∷ ("AUTHORIZED", PaymentStatus.authorized)
    ∷ ("PROCESSING", PaymentStatus.processing)
    ∷ ("SETTLED", PaymentStatus.settled)
    ∷ ("FAILED", PaymentStatus.failed)
    ∷ ("CANCELLED", PaymentStatus.cancelled)
    ∷ ("EXPIRED", PaymentStatus.expired)
    ∷ ("REFUND_PENDING", PaymentStatus.refund_pending)
    ∷ ("REFUNDED", PaymentStatus.refunded)
    ∷ ("PARTIALLY_REFUNDED", PaymentStatus.partially_refunded)
    ∷ []

abbrev pub attempt_arms : List (String × AttemptStatus)
attempt_arms =
    ("CREATED", AttemptStatus.created)
    ∷ ("REQUIRES_ACTION", AttemptStatus.requires_action)
    ∷ ("PROCESSING", AttemptStatus.processing)
    ∷ ("AUTHORIZED", AttemptStatus.authorized)
    ∷ ("SETTLED", AttemptStatus.settled)
    ∷ ("FAILED", AttemptStatus.failed)
    ∷ ("CANCELLED", AttemptStatus.cancelled)
    ∷ ("EXPIRED", AttemptStatus.expired)
    ∷ ("AMBIGUOUS", AttemptStatus.ambiguous)
    ∷ []

abbrev pub method_arms : List (String × PaymentMethod)
method_arms =
    ("ACCOUNT_TO_ACCOUNT", account_to_account)
    ∷ ("CARD", card)
    ∷ ("WALLET", wallet)
    ∷ ("MANUAL", manual)
    ∷ []

-- The value of a match, or the error that names the text.
abbrev pub or_unknown : {A : Type 0} → String → Option A → Result RepositoryError A
or_unknown raw none = err (infra raw)
or_unknown raw (some a) = ok a

-- `parse_payment_status`; the error keeps the text that is unknown
unfoldable pub parse_payment_status : String → Result RepositoryError PaymentStatus
parse_payment_status raw = or_unknown raw (matched raw payment_arms)

-- `parse_attempt_status`
unfoldable pub parse_attempt_status : String → Result RepositoryError AttemptStatus
parse_attempt_status raw = or_unknown raw (matched raw attempt_arms)

-- `parse_method`
unfoldable pub parse_method : String → Option PaymentMethod
parse_method raw = matched raw method_arms

-- Every arm's text is what its value prints as.
abbrev AreNames : {A : Type 0} → (A → String) → List (String × A) → Type 0
AreNames print [] = Unit
AreNames print ((text, a) ∷ arms) = (text ≡ print a) × AreNames print arms

matched-print :
    {A : Type 0} (print : A → String) (raw : String) (arms : List (String × A)) {a : A}
    → AreNames print arms
    → matched raw arms ≡ some a
    → raw ≡ print a
unfolding matched
matched-print print raw [] names h = cc
matched-print print raw ((text, b) ∷ arms) {a} names h =
    ground (arith, matched-print print raw arms {a = a} names.1, eq_iff raw text)

or_unknown-ok :
    {A : Type 0} (raw : String) (o : Option A) {a : A} → or_unknown raw o ≡ ok a → o ≡ some a
or_unknown-ok raw none h = cc
or_unknown-ok raw (some b) h = cc

pub print_payment : (s : PaymentStatus) → parse_payment_status (as_str s) ≡ ok s
unfolding parse_payment_status matched as_str
print_payment PaymentStatus.created = refl
print_payment PaymentStatus.pending = refl
print_payment PaymentStatus.requires_action = refl
print_payment PaymentStatus.authorized = refl
print_payment PaymentStatus.processing = refl
print_payment PaymentStatus.settled = refl
print_payment PaymentStatus.failed = refl
print_payment PaymentStatus.cancelled = refl
print_payment PaymentStatus.expired = refl
print_payment PaymentStatus.refund_pending = refl
print_payment PaymentStatus.refunded = refl
print_payment PaymentStatus.partially_refunded = refl

pub print_attempt : (s : AttemptStatus) → parse_attempt_status (attempt_as_str s) ≡ ok s
unfolding parse_attempt_status matched attempt_as_str
print_attempt AttemptStatus.created = refl
print_attempt _ = refl

print_delivery : (s : DeliveryStatus) → parse_delivery (delivery_status s) ≡ s
unfolding parse_delivery delivery_status
print_delivery DeliveryStatus.pending = refl
print_delivery _ = refl

-- The status columns are read back as they were written: a payment's or an attempt's text is accepted
-- exactly when it is what some status is written as, and yields that status; a delivery's status comes
-- back as itself.
pub parse_payment_status-as_str :
    (raw : String) (s : PaymentStatus) (a : AttemptStatus) (d : DeliveryStatus)
    → ((parse_payment_status raw ≡ ok s) ↔ (raw ≡ as_str s))
      × ((parse_attempt_status raw ≡ ok a) ↔ (raw ≡ attempt_as_str a))
      × (parse_delivery (delivery_status d) ≡ d)
unfolding parse_payment_status parse_attempt_status as_str attempt_as_str
parse_payment_status-as_str raw s a d = (
  (
    (λ h. matched-print as_str raw payment_arms names (or_unknown-ok raw _ h)),
    λ e. rw e (print_payment s),
  ),
  (
    (λ h. matched-print attempt_as_str raw attempt_arms attempt_names (or_unknown-ok raw _ h)),
    λ e. rw e (print_attempt a),
  ),
  print_delivery d,
)
  where
    names : AreNames as_str payment_arms
    names = (
      refl,
      (refl, (refl, (refl, (refl, (refl, (refl, (refl, (refl, (refl, (refl, (refl, tt))))))))))),
    )

    attempt_names : AreNames attempt_as_str attempt_arms
    attempt_names = (refl, (refl, (refl, (refl, (refl, (refl, (refl, (refl, (refl, tt)))))))))
