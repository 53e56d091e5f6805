-- ===== src/Persistence/Payments/Kept.antt =====
-- What `transition_payment` keeps on every branch (crates/openpay-persistence/src/store.rs).
use vega_trix.Base.{
  ℕ, ◌<◌, ◌≡◌, refl, ◌≢◌, inl, inr, Option, some, arith, find, Bool-cases, Option-cases,
  Result-cases,
}
use vega_trix.Base.Machine.{Uuid, Instant, i32_sub, i32_mod}
use vega_trix.Domain.Payment.{PaymentRequest, TransitionPaymentCommand, transition}
use vega_trix.Domain.Payment.Moves.{moved_to, transition_inversion}
use vega_trix.Application.Ports.{AuditEvent, OutboxRecord}
use vega_trix.Persistence.Db.{Db}
use vega_trix.Persistence.Payments.{
  has_id, stale, or_version, write_transition, transition_row, transition_payment,
}
use vega_trix.Persistence.Payments.Rows.{IsKeyed, find_present, find_others, update_where-IsKeyed}

module _ (command : TransitionPaymentCommand) (now : Instant) (audit : Option AuditEvent)
    (outbox : Option OutboxRecord) where
  write_transition-IsKeyed :
      (moved : PaymentRequest) (version : ℕ) (db : Db)
      → moved.version < i32_mod
      → IsKeyed db.payments
      → IsKeyed (write_transition moved version audit outbox db).1.payments
  unfolding write_transition
  write_transition-IsKeyed moved version db small keyed =
      ground
        (arith, update_where-IsKeyed moved.tenant_id moved.id version moved db.payments small keyed)

  write_transition_others :
      (moved : PaymentRequest) (version : ℕ) (db : Db) (t i : Uuid)
      → i ≢ moved.id
      → find (has_id t i) (write_transition moved version audit outbox db).1.payments
        ≡ find (has_id t i) db.payments
  unfolding write_transition
  write_transition_others moved version db t i ne =
      ground (arith, find_others moved.tenant_id moved.id version moved t i db.payments ne)

  -- What a change of status does to the tables, for any property of the payments that a write of the
  -- moved payment keeps.
  module _ (Q : Db → Type 0) (db : Db) where
    transition_row_keeps :
        (p : PaymentRequest)
        → Q db
        → ((moved : PaymentRequest) (version : ℕ)
            → moved ≡ moved_to p command.next_status now
            → Q (write_transition moved version audit outbox db).1)
        → Q (transition_row command now audit outbox p db).1
    unfolding transition_row
    transition_row_keeps p same written =
        elim (Bool-cases (stale command.expected_version p.version)) [
          | inl old ↦ rw old same
          | inr fits ↦ elim (Result-cases (transition p command.next_status now)) [
            | inr (e, refused) ↦ rw (fits, refused, transition_row) same
            | inl (moved, made) ↦
                rw (fits, made, transition_row)
                  (written moved (or_version command.expected_version (i32_sub moved.version 1))
                    (transition_inversion p moved command.next_status now made).1)
          ]
        ]

    pub transition_payment_keeps :
        Q db
        → ((p moved : PaymentRequest) (version : ℕ)
            → find (has_id command.tenant_id command.payment_id) db.payments ≡ some p
            → moved ≡ moved_to p command.next_status now
            → Q (write_transition moved version audit outbox db).1)
        → Q (transition_payment command now audit outbox db).1
    unfolding transition_payment
    transition_payment_keeps same written =
        elim (Option-cases (find (has_id command.tenant_id command.payment_id) db.payments)) [
          | inl absent ↦ rw (absent, transition_payment) same
          | inr (p, found) ↦
              rw (found, transition_payment)
                (transition_row_keeps p same (λ moved version. written p moved version found))
        ]

  -- Whatever the outcome, the payments keep distinct identifiers and versions of 32 bits.
  pub transition_payment-IsKeyed :
      (db : Db)
      → IsKeyed db.payments
      → IsKeyed (transition_payment command now audit outbox db).1.payments
  transition_payment-IsKeyed db keyed =
      transition_payment_keeps (λ d. IsKeyed d.payments) db keyed
        λ p moved version found same.
          write_transition-IsKeyed moved version db (rw same (omega arith)) keyed

  -- No other payment is touched.
  pub transition_payment_others :
      (db : Db) (t i : Uuid)
      → i ≢ command.payment_id
      → find (has_id t i) (transition_payment command now audit outbox db).1.payments
        ≡ find (has_id t i) db.payments
  transition_payment_others db t i ne =
      transition_payment_keeps (λ d. find (has_id t i) d.payments ≡ find (has_id t i) db.payments)
        db refl
        λ p moved version found same. write_transition_others moved version db t i (
          ground (arith, find_present command.tenant_id command.payment_id db.payments found, same))
