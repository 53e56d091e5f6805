-- ===== src/Application/Authorize/Outcome.antt =====
-- What authorising a payment does to it: `authorize_payment` on a finished payment and on a refusal of
-- the payer, and the change of status that ends it (crates/openpay-application/src/authorize.rs).
use vega_trix.Base.{refl, ◌≡◌, suc, String, Option, true, false, some, ok, err, find, arith}
use vega_trix.Base.Machine.{Uuid}
use vega_trix.Domain.Error.{illegal_transition}
use vega_trix.Domain.Status as Statuses
use vega_trix.Domain.Status.{PaymentStatus}
use vega_trix.Domain.Payment.{PaymentRequest}
use vega_trix.Domain.Payment.Moves.{Allowed, moved_to}
use vega_trix.Application.Ports.{repository, conflict, shown}
use vega_trix.Application.Exec.{World}
use vega_trix.Application.Payments.Status.{
  IsCurrent, found-IsCurrent, applied, apply_status_ok, apply_status_refused,
}
use vega_trix.Application.Payments.Expiry.{IsDue, get_payment_live}
use vega_trix.Application.Attempts.{Env, Progress}
use vega_trix.Application.Authorize.{
  PayerDecision, already_terminal, payer_rejected, reject, tried, terminal, decide, conclude,
  authorize_payment,
}
use vega_trix.Application.Routing.{some_of}
use vega_trix.Persistence.Payments.{has_id}
use vega_trix.Persistence.Payments.Rows.{IsKeyed}

terminal_not-IsDue : (p : PaymentRequest) (t : _) → terminal p.status ≡ true → ¬ IsDue p t
unfolding terminal
terminal_not-IsDue p t done due = ground arith

-- The statuses in which nothing is left to authorise.
pub data IsFinished : PaymentStatus → Type 0 where
  was_settled : IsFinished PaymentStatus.settled
  has_failed : IsFinished PaymentStatus.failed
  was_cancelled : IsFinished PaymentStatus.cancelled
  has_expired : IsFinished PaymentStatus.expired
  was_refunded : IsFinished PaymentStatus.refunded

IsFinished-terminal : {s : PaymentStatus} → IsFinished s → terminal s ≡ true
unfolding terminal
IsFinished-terminal was_settled = refl
IsFinished-terminal has_failed = refl
IsFinished-terminal was_cancelled = refl
IsFinished-terminal has_expired = refl
IsFinished-terminal was_refunded = refl

module _ (env : Env) (tenant id : Uuid) (p : PaymentRequest) (w : World)
    (found : find (has_id tenant id) w.db.payments ≡ some p) where
  -- Authorising a stored payment that is settled, failed, cancelled, expired or refunded answers with
  -- the payment as it is stored, marked as a replay, whatever the payer decides; no connector is
  -- asked and nothing is written.
  pub authorize_payment-terminal :
      IsFinished p.status
      → (decision : PayerDecision) (scenario : Option String)
      → authorize_payment env tenant id decision scenario w ≡ (
        ok (record {
          payment = p;
          connector_key = "";
          explanation = already_terminal;
          idempotent_replay = true;
        }),
        record w { read = suc w.read },
      )
  unfolding authorize_payment
  authorize_payment-terminal done decision scenario = rw (
    get_payment_live tenant id p w found
        (terminal_not-IsDue p (w.clock w.read) (IsFinished-terminal done)),
    IsFinished-terminal done,
  )

  -- When the payer rejects a stored payment that is not due and that may fail, the payment fails, with
  -- its audit and webhook events; no connector is asked.
  authorize_payment_rejected :
      IsKeyed w.db.payments
      → ¬ IsDue p (w.clock w.read)
      → terminal p.status ≡ false
      → Allowed p.status PaymentStatus.failed
      → (scenario : Option String)
      → authorize_payment env tenant id reject scenario w ≡ (
        ok (record {
          payment = moved_to p PaymentStatus.failed (w.clock (suc w.read));
          connector_key = "";
          explanation = payer_rejected;
          idempotent_replay = false;
        }),
        applied p PaymentStatus.failed "payer" "demo-wallet" "payment.failed"
            (record w { read = suc w.read }),
      )
  unfolding authorize_payment decide
  authorize_payment_rejected keyed live unfinished allowed scenario = rw (
    get_payment_live tenant id p w found live,
    unfinished,
    apply_status_ok p PaymentStatus.failed "payer" "demo-wallet" "payment.failed"
        (record w { read = suc w.read }) keyed (found-IsCurrent tenant id p w found) allowed,
  )

-- After the loop, a payment that is still as it was when the loop began takes the last status the
-- loop reached when the table allows that, with the webhook event of that status; otherwise the
-- caller gets a conflict and the tables stay as the attempts left them.
pub conclude_iff :
    (p : PaymentRequest) (progress : Progress) (w : World)
    → IsKeyed w.db.payments
    → IsCurrent p w
    → (Allowed p.status progress.last_status
        → conclude p progress w ≡ (
          ok (record {
            payment = moved_to p progress.last_status (w.clock w.read);
            connector_key = progress.last_key;
            explanation = tried progress.tried_keys;
            idempotent_replay = false;
          }),
          applied p progress.last_status "connector" progress.last_key
              (some_of (Statuses.webhook_event progress.last_status) "payment.processing")
              w,
        ))
      × (¬ Allowed p.status progress.last_status
          → conclude p progress w ≡ (
            err (
                repository (
                  conflict (
                    shown (
                      illegal_transition
                        (Statuses.as_str p.status)
                        (Statuses.as_str progress.last_status))))),
            record w { drawn = suc (suc w.drawn); read = suc w.read },
          ))
unfolding conclude
conclude_iff p progress w keyed current = (
  (λ allowed. rw (
      apply_status_ok p progress.last_status "connector" progress.last_key
        (some_of (Statuses.webhook_event progress.last_status) "payment.processing") w keyed current
        allowed)),
  (λ illegal. rw (
      apply_status_refused p progress.last_status "connector" progress.last_key
        (some_of (Statuses.webhook_event progress.last_status) "payment.processing") w current
        illegal)),
)
