-- ===== src/Application/Payments/Status.antt =====
-- `apply_status`, `cancel_payment` and `refund_payment`: when they succeed and what they write
-- (crates/openpay-application/src/payments.rs).
use vega_trix.Base.{
  suc, ◌≡◌, refl, sym, ◌≢◌, ◌⊎◌, inl, inr, String, true, false, some, ok, err, arith, find,
}
use mathlib.Core.Path.{subst₂}
use vega_trix.Base.Machine.{Uuid}
use vega_trix.Domain.Error.{illegal_transition, not_refundable}
use vega_trix.Domain.Status as Statuses
use vega_trix.Domain.Status.{PaymentStatus}
use vega_trix.Domain.Status.Table.{Edge, transition-Edge}
use vega_trix.Domain.Payment.{PaymentRequest}
use vega_trix.Domain.Payment.Moves.{Allowed, moved_to}
use vega_trix.Application.Ports.{version_conflict, conflict, shown, repository, domain}
use vega_trix.Application.Exec.{World}
use vega_trix.Application.Payments.{
  apply_status, cancel_payment, refund_payment, refundable, status_command, status_audit,
  payment_outbox_with_status,
}
use vega_trix.Persistence.Payments.{has_id, get_by_id}
use vega_trix.Persistence.Payments.Rows.{IsKeyed, find_present}
use vega_trix.Persistence.Payments.Transition.{
  committed, stale_write, refused_write, transition_payment_ok,
}

-- A snapshot of a payment that is still what the tables hold.
abbrev pub IsCurrent : PaymentRequest → World → Type 0
IsCurrent p w = find (has_id p.tenant_id p.id) w.db.payments ≡ some p

-- The world after a committed change of status: one reading of the clock and two identifiers later.
abbrev pub applied : PaymentRequest → PaymentStatus → String → String → String → World → World
applied p next actor_type actor_id event w =
    let t = w.clock w.read in
    record w {
      db =
          committed p (moved_to p next t)
            (some (status_audit (w.uuids w.drawn) p next actor_type actor_id event t))
            (some (payment_outbox_with_status (w.uuids (suc w.drawn)) p event next t)) w.db;
      drawn = suc (suc w.drawn);
      read = suc w.read;
    }

module _ (p : PaymentRequest) (next : PaymentStatus) (actor_type actor_id event : String)
    (w : World) where
  -- On a current snapshot an allowed change is committed with its audit and outbox events.
  pub apply_status_ok :
      IsKeyed w.db.payments
      → IsCurrent p w
      → Allowed p.status next
      → apply_status p next actor_type actor_id event w
        ≡ (ok (moved_to p next (w.clock w.read)), applied p next actor_type actor_id event w)
  unfolding apply_status status_command
  apply_status_ok keyed current allowed = rw (
      transition_payment_ok (status_command p next actor_type actor_id event) (w.clock w.read)
        (some (status_audit (w.uuids w.drawn) p next actor_type actor_id event (w.clock w.read)))
        (some (payment_outbox_with_status (w.uuids (suc w.drawn)) p event next (w.clock w.read))) p
        w.db keyed current (ground arith) allowed)

  -- A change that the table forbids is refused as a conflict, and nothing is written.
  pub apply_status_refused :
      IsCurrent p w
      → ¬ Allowed p.status next
      → apply_status p next actor_type actor_id event w ≡ (
        err (
            repository (
              conflict
                (shown (illegal_transition (Statuses.as_str p.status) (Statuses.as_str next))))),
        record w { drawn = suc (suc w.drawn); read = suc w.read },
      )
  unfolding apply_status status_command
  apply_status_refused current illegal = rw (
      refused_write (status_command p next actor_type actor_id event) (w.clock w.read)
        (some (status_audit (w.uuids w.drawn) p next actor_type actor_id event (w.clock w.read)))
        (some (payment_outbox_with_status (w.uuids (suc w.drawn)) p event next (w.clock w.read))) p
        w.db current (ground arith) illegal)

-- A snapshot whose version is no longer the stored one is refused, and nothing is written.
apply_status_stale :
    (p q : PaymentRequest) (next : PaymentStatus) (actor_type actor_id event : String) (w : World)
    → find (has_id p.tenant_id p.id) w.db.payments ≡ some q
    → p.version ≢ q.version
    → let (r, w') = apply_status p next actor_type actor_id event w in
      (r ≡ err (repository version_conflict)) × (w'.db ≡ w.db)
unfolding apply_status status_command
apply_status_stale p q next actor_type actor_id event w held ne =
    rw
      (stale_write (status_command p next actor_type actor_id event) (w.clock w.read)
        (some (status_audit (w.uuids w.drawn) p next actor_type actor_id event (w.clock w.read)))
        (some (payment_outbox_with_status (w.uuids (suc w.drawn)) p event next (w.clock w.read))) q
        w.db held (ground arith))
      (refl, refl)

pub get_found :
    (tenant id : Uuid) (p : PaymentRequest) (w : World)
    → find (has_id tenant id) w.db.payments ≡ some p
    → get_by_id tenant id w.db ≡ (ok p, w.db)
unfolding get_by_id
get_found tenant id p w found = rw (found, get_by_id)

pub found-IsCurrent :
    (tenant id : Uuid) (p : PaymentRequest) (w : World)
    → find (has_id tenant id) w.db.payments ≡ some p
    → IsCurrent p w
found-IsCurrent tenant id p w found =
    let (same_id, same_tenant, _) = find_present tenant id w.db.payments found in
    subst₂ (λ t i. find (has_id t i) w.db.payments ≡ some p) (sym same_tenant) (sym same_id) found

abbrev pub IsRefundable : PaymentStatus → Type 0
IsRefundable s = (s ≡ PaymentStatus.settled) ⊎ (s ≡ PaymentStatus.partially_refunded)

refundable_iff : (s : PaymentStatus) → IsRefundable s → refundable s ≡ true
unfolding refundable Statuses.eq
refundable_iff s h = ground arith

not_refundable_iff : (s : PaymentStatus) → ¬ IsRefundable s → refundable s ≡ false
unfolding refundable Statuses.eq
not_refundable_iff s h = ground arith

refund-Allowed : (s : PaymentStatus) → IsRefundable s → Allowed s PaymentStatus.refunded
refund-Allowed s (inl e) = inr (rw e Edge.refund)
refund-Allowed s (inr e) = inr (rw e Edge.refund_rest)

module _ (tenant id : Uuid) (actor : String) (p : PaymentRequest) (w : World)
    (found : find (has_id tenant id) w.db.payments ≡ some p) where
  -- A stored payment is cancelled exactly when the table allows it or it is cancelled already, with an
  -- audit event and the webhook event of a cancellation; otherwise the caller learns the refused
  -- change and the world is as before.
  pub cancel_payment_iff :
      IsKeyed w.db.payments
      → (Allowed p.status PaymentStatus.cancelled
          → cancel_payment tenant id actor w ≡ (
            ok (moved_to p PaymentStatus.cancelled (w.clock w.read)),
            applied p PaymentStatus.cancelled "merchant" actor "payment.cancelled" w,
          ))
        × (¬ Allowed p.status PaymentStatus.cancelled
            → cancel_payment tenant id actor w ≡ (
              err (
                  domain (
                    illegal_transition
                      (Statuses.as_str p.status)
                      (Statuses.as_str PaymentStatus.cancelled))),
              w,
            ))
  unfolding cancel_payment
  cancel_payment_iff keyed = (
    (λ allowed.
        rw
          (
            get_found tenant id p w found,
            (transition-Edge p.status PaymentStatus.cancelled).0.1 allowed,
          )
          (apply_status_ok p PaymentStatus.cancelled "merchant" actor "payment.cancelled" w keyed
            (found-IsCurrent tenant id p w found) allowed)),
    (λ illegal. rw (
      get_found tenant id p w found,
      (transition-Edge p.status PaymentStatus.cancelled).1 illegal,
    )),
  )

  -- A refund is accepted exactly for a payment that is settled or partly refunded, and makes it
  -- refunded; any other payment is refused by its status, and nothing changes.
  pub refund_payment_iff :
      IsKeyed w.db.payments
      → (IsRefundable p.status
          → refund_payment tenant id actor w ≡ (
            ok (moved_to p PaymentStatus.refunded (w.clock w.read)),
            applied p PaymentStatus.refunded "merchant" actor "payment.refunded" w,
          ))
        × (¬ IsRefundable p.status
            → refund_payment tenant id actor w
              ≡ (err (domain (not_refundable (Statuses.as_str p.status))), w))
  unfolding refund_payment
  refund_payment_iff keyed = (
    (λ settled.
        rw (get_found tenant id p w found, refundable_iff p.status settled)
          (apply_status_ok p PaymentStatus.refunded "merchant" actor "payment.refunded" w keyed
            (found-IsCurrent tenant id p w found) (refund-Allowed p.status settled))),
    (λ other. rw (get_found tenant id p w found, not_refundable_iff p.status other)),
  )
