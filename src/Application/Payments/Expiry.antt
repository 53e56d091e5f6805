-- ===== src/Application/Payments/Expiry.antt =====
-- Reading a payment, which expires it when it is due, and the worker's query for the due ones
-- (crates/openpay-application/src/payments.rs, crates/openpay-persistence/src/store.rs).
use vega_trix.Base.{◌≡◌, ◌≤◌, ◌⊎◌, inl, inr, suc, some, none, ok, find, arith}
use vega_trix.Base.Machine.{Uuid, Instant}
use vega_trix.Domain.Status.{PaymentStatus}
use vega_trix.Domain.Status.Table.{Edge}
use vega_trix.Domain.Payment.{PaymentRequest, expiry_target}
use vega_trix.Domain.Payment.Expiry.{expiry_target_iff}
use vega_trix.Domain.Payment.Moves.{Allowed, moved_to}
use vega_trix.Application.Exec.{World}
use vega_trix.Application.Payments.{get_payment, expire_if_due}
use vega_trix.Application.Payments.Status.{get_found, found-IsCurrent, applied, apply_status_ok}
use vega_trix.Persistence.Payments.{has_id}
use vega_trix.Persistence.Payments.Rows.{IsKeyed}

-- A payment is due: its time has come, and it is pending or waits for the payer.
abbrev pub IsDue : PaymentRequest → Instant → Type 0
IsDue p t =
    (p.expires_at ≤ t)
    × ((p.status ≡ PaymentStatus.pending) ⊎ (p.status ≡ PaymentStatus.requires_action))

expired_or_none :
    (p : PaymentRequest) (t : Instant)
    → (expiry_target p t ≡ none) ⊎ (expiry_target p t ≡ some PaymentStatus.expired)
unfolding expiry_target
expired_or_none p t = ground arith

not_due_none : (p : PaymentRequest) (t : Instant) → ¬ IsDue p t → expiry_target p t ≡ none
not_due_none p t not_due = elim (expired_or_none p t) [
  | inl e ↦ e
  | inr e ↦ absurd (not_due ((expiry_target_iff p t).0 e))
]

expire-Allowed :
    (s : PaymentStatus)
    → (s ≡ PaymentStatus.pending) ⊎ (s ≡ PaymentStatus.requires_action)
    → Allowed s PaymentStatus.expired
expire-Allowed s (inl e) = inr (rw e Edge.lapse)
expire-Allowed s (inr e) = inr (rw e Edge.run_out)

module _ (tenant id : Uuid) (p : PaymentRequest) (w : World)
    (found : find (has_id tenant id) w.db.payments ≡ some p) where
  pub get_payment_live :
      ¬ IsDue p (w.clock w.read) → get_payment tenant id w ≡ (ok p, record w { read = suc w.read })
  unfolding get_payment expire_if_due
  get_payment_live not_due =
      rw (get_found tenant id p w found, not_due_none p (w.clock w.read) not_due)

  -- Reading a stored payment that is due moves it to `EXPIRED`, with an audit event and the webhook
  -- event; any other payment is returned as it is stored, and nothing is written.
  pub get_payment_iff :
      IsKeyed w.db.payments
      → (IsDue p (w.clock w.read)
          → get_payment tenant id w ≡ (
            ok (moved_to p PaymentStatus.expired (w.clock (suc w.read))),
            applied p PaymentStatus.expired "system" "expiry" "payment.expired"
                (record w { read = suc w.read }),
          ))
        × (¬ IsDue p (w.clock w.read)
            → get_payment tenant id w ≡ (ok p, record w { read = suc w.read }))
  unfolding get_payment expire_if_due
  get_payment_iff keyed = (
    (λ due.
        rw (get_found tenant id p w found, (expiry_target_iff p (w.clock w.read)).1 due)
          (apply_status_ok p PaymentStatus.expired "system" "expiry" "payment.expired"
            (record w { read = suc w.read }) keyed (found-IsCurrent tenant id p w found)
            (expire-Allowed p.status (due.1)))),
    get_payment_live,
  )
