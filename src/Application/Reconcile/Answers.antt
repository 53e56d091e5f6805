-- ===== src/Application/Reconcile/Answers.antt =====
-- What a connector's answer does to a payment in PROCESSING, and which attempt is polled
-- (crates/openpay-application/src/authorize.rs).
use vega_trix.Base.{◌≡◌, inl, inr, suc, String, Bool, ap, true, false, ok, err, refl}
use vega_trix.Domain.Error.{illegal_transition}
use vega_trix.Domain.Status as Statuses
use vega_trix.Domain.Status.{PaymentStatus, AttemptStatus, into_payment_status}
use vega_trix.Domain.Status.Table.{Edge}
use vega_trix.Domain.Payment.{PaymentRequest}
use vega_trix.Domain.Payment.Moves.{Allowed, moved_to}
use vega_trix.Application.Ports.{repository, conflict, shown}
use vega_trix.Application.Exec.{World}
use vega_trix.Application.Payments.Status.{
  IsCurrent, applied, apply_status_ok, apply_status_refused,
}
use vega_trix.Application.Reconcile.{settle_with}
use vega_trix.Application.Routing.{some_of}
use vega_trix.Persistence.Payments.Rows.{IsKeyed}

-- The answers that move a payment out of PROCESSING, with the status and the webhook event they stand
-- for.
pub data IsDecisive : AttemptStatus → PaymentStatus → String → Type 0 where
  held : IsDecisive AttemptStatus.authorized PaymentStatus.authorized "payment.authorized"
  paid : IsDecisive AttemptStatus.settled PaymentStatus.settled "payment.settled"
  refused : IsDecisive AttemptStatus.failed PaymentStatus.failed "payment.failed"

-- The answers that leave it where it is.
pub data IsPending : AttemptStatus → Type 0 where
  running : IsPending AttemptStatus.processing
  unclear : IsPending AttemptStatus.ambiguous

-- The answers that a payment in PROCESSING cannot follow, with the status they are read as.
pub data IsRefused : AttemptStatus → String → Type 0 where
  new : IsRefused AttemptStatus.created "PENDING"
  payer : IsRefused AttemptStatus.requires_action "REQUIRES_ACTION"
  withdrawn : IsRefused AttemptStatus.cancelled "CANCELLED"
  late : IsRefused AttemptStatus.expired "EXPIRED"

decisive_status :
    {a : AttemptStatus} {s : PaymentStatus} {event : String}
    → IsDecisive a s event
    → into_payment_status a ≡ s
unfolding into_payment_status
decisive_status held = refl
decisive_status paid = refl
decisive_status refused = refl

decisive_event :
    {a : AttemptStatus} {s : PaymentStatus} {event : String}
    → IsDecisive a s event
    → some_of (Statuses.webhook_event s) "payment.processing" ≡ event
unfolding Statuses.webhook_event
decisive_event held = refl
decisive_event paid = refl
decisive_event refused = refl

decisive_target :
    {a : AttemptStatus} {s : PaymentStatus} {event : String}
    → IsDecisive a s event
    → Allowed PaymentStatus.processing s
decisive_target held = inr Edge.hold
decisive_target paid = inr Edge.settle
decisive_target refused = inr Edge.decline

decisive_moves :
    {a : AttemptStatus} {s : PaymentStatus} {event : String}
    → IsDecisive a s event
    → Statuses.eq s PaymentStatus.processing ≡ false
unfolding Statuses.eq
decisive_moves held = refl
decisive_moves paid = refl
decisive_moves refused = refl

pending_stays :
    {a : AttemptStatus}
    → IsPending a
    → Statuses.eq (into_payment_status a) PaymentStatus.processing ≡ true
unfolding Statuses.eq into_payment_status
pending_stays running = refl
pending_stays unclear = refl

refused_name :
    {a : AttemptStatus} {name : String}
    → IsRefused a name
    → Statuses.as_str (into_payment_status a) ≡ name
unfolding into_payment_status Statuses.as_str
refused_name new = refl
refused_name payer = refl
refused_name withdrawn = refl
refused_name late = refl

refused_moves :
    {a : AttemptStatus} {name : String}
    → IsRefused a name
    → Statuses.eq (into_payment_status a) PaymentStatus.processing ≡ false
unfolding Statuses.eq into_payment_status
refused_moves new = refl
refused_moves payer = refl
refused_moves withdrawn = refl
refused_moves late = refl

refused_illegal :
    {a : AttemptStatus} {name : String}
    → IsRefused a name
    → ¬ Allowed PaymentStatus.processing (into_payment_status a)
unfolding into_payment_status
refused_illegal new (inl e) = cc e
refused_illegal new (inr e) = elim e [ ]
refused_illegal payer (inl e) = cc e
refused_illegal payer (inr e) = elim e [ ]
refused_illegal withdrawn (inl e) = cc e
refused_illegal withdrawn (inr e) = elim e [ ]
refused_illegal late (inl e) = cc e
refused_illegal late (inr e) = elim e [ ]

same_as :
    (p : PaymentRequest) (s : PaymentStatus) {b : Bool}
    → p.status ≡ PaymentStatus.processing
    → Statuses.eq s PaymentStatus.processing ≡ b
    → Statuses.eq s p.status ≡ b
same_as p s processing e = rw processing e

settle_refused :
    (p : PaymentRequest) (a : AttemptStatus) (w : World) {name : String}
    → IsCurrent p w
    → p.status ≡ PaymentStatus.processing
    → IsRefused a name
    → settle_with p a w ≡ (
      err (repository (conflict (shown (illegal_transition "PROCESSING" name)))),
      record w { drawn = suc (suc w.drawn); read = suc w.read },
    )
unfolding settle_with Statuses.as_str
settle_refused p a w current processing r =
    let event = some_of (Statuses.webhook_event (into_payment_status a)) "payment.processing" in
    let illegal : ¬ Allowed p.status (into_payment_status a) = rw processing (refused_illegal r) in
    let e =
      apply_status_refused p (into_payment_status a) "reconciler" "worker" event w current
        illegal in
    rw (same_as p (into_payment_status a) processing (refused_moves r))
      (rw (ap Statuses.as_str processing, refused_name r) at e)

-- When a connector is polled for a payment in PROCESSING: an answer that is still processing or
-- ambiguous changes nothing; authorized, settled and failed move the payment to the status of that name
-- with the webhook event of that name; every other answer, an action that the payer must take included,
-- is refused as a conflict, and the payment stays in PROCESSING.
pub settle_with_iff :
    (p : PaymentRequest) (a : AttemptStatus) (w : World)
    → IsKeyed w.db.payments
    → IsCurrent p w
    → p.status ≡ PaymentStatus.processing
    → (IsPending a → settle_with p a w ≡ (ok p, w))
      × (((s : PaymentStatus) (event : String)
            → IsDecisive a s event
            → settle_with p a w
              ≡ (ok (moved_to p s (w.clock w.read)), applied p s "reconciler" "worker" event w))
          × ((name : String)
              → IsRefused a name
              → settle_with p a w ≡ (
                err (repository (conflict (shown (illegal_transition "PROCESSING" name)))),
                record w { drawn = suc (suc w.drawn); read = suc w.read },
              )))
unfolding settle_with
settle_with_iff p a w keyed current processing = (
  (λ pending. rw (same_as p (into_payment_status a) processing (pending_stays pending)) refl),
  (
    (λ s event d.
        rw (decisive_status d, decisive_event d, same_as p s processing (decisive_moves d))
          (apply_status_ok p s "reconciler" "worker" event w keyed current
            (rw processing (decisive_target d)))),
    (λ name r. settle_refused p a w current processing r),
  ),
)
