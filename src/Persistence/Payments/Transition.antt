-- ===== src/Persistence/Payments/Transition.antt =====
-- `transition_payment` on every branch: when it succeeds and what it writes, and that of two writers
-- from one version only the first succeeds (crates/openpay-persistence/src/store.rs).
use vega_trix.Base.{
  ℕ, ◌<◌, ◌≡◌, refl, ◌≢◌, inl, inr, true, false, Option, none, some, ◌∙◌, ok, err, arith, find,
  count, Bool-cases, Option-cases, Result-cases,
}
use vega_trix.Base.Machine.{Uuid, Instant, i32_add, i32_sub, i32_mod}
use vega_trix.Domain.Error.{illegal_transition}
use vega_trix.Domain.Status
use vega_trix.Domain.Payment.{PaymentRequest, TransitionPaymentCommand, transition}
use vega_trix.Domain.Payment.Moves.{
  Allowed, moved_to, transition-Allowed, transition_inversion, transition_refused,
}
use vega_trix.Application.Ports.{
  AuditEvent, OutboxRecord, RepositoryError, version_conflict, conflict, shown,
}
use vega_trix.Persistence.Db.{Db}
use vega_trix.Persistence.Payments.{
  has_id, at_version, with_status, update_where, insert_if, insert_audit, insert_outbox, stale,
  or_version, write_transition, transition_row, transition_payment,
}
use vega_trix.Persistence.Payments.Rows.{
  IsKeyed, find_present, count_found, find_updated, find_small,
}

-- The version that the command expects is the one that is stored, if it expects any.
abbrev pub Expects : TransitionPaymentCommand → PaymentRequest → Type 0
Expects command p = stale command.expected_version p.version ≡ false

-- The tables after the change of `p` was written.
abbrev pub committed :
    PaymentRequest → PaymentRequest → Option AuditEvent → Option OutboxRecord → Db → Db
committed p moved audit outbox db = insert_if insert_outbox outbox (
    insert_if insert_audit audit (record db {
      payments = update_where (at_version p.tenant_id p.id p.version) moved db.payments;
    }))

-- The version before the increment is found again, also where the increment wrapped round.
version_back : (v : ℕ) → v < i32_mod → i32_sub (i32_add v 1) 1 ≡ v
version_back v h = omega arith

version_moves : (v : ℕ) → i32_add v 1 ≢ v
version_moves v = omega arith

expected_version_eq :
    (expected : Option ℕ) (v : ℕ)
    → v < i32_mod
    → stale expected v ≡ false
    → or_version expected (i32_sub (i32_add v 1) 1) ≡ v
expected_version_eq none v h fits = version_back v h
expected_version_eq (some e) v h fits = ground arith

module _ (command : TransitionPaymentCommand) (now : Instant) (audit : Option AuditEvent)
    (outbox : Option OutboxRecord) where
  write_transition_ok :
      (p moved : PaymentRequest) (db : Db)
      → moved.id ≡ p.id
      → moved.tenant_id ≡ p.tenant_id
      → count (at_version p.tenant_id p.id p.version) db.payments ≡ 1
      → write_transition moved p.version audit outbox db
        ≡ (ok moved, committed p moved audit outbox db)
  unfolding write_transition
  write_transition_ok p moved db same_id same_tenant one = rw (same_id, same_tenant, one)

  transition_row_ok :
      (p : PaymentRequest) (db : Db)
      → p.version < i32_mod
      → Expects command p
      → Allowed p.status command.next_status
      → count (at_version p.tenant_id p.id p.version) db.payments ≡ 1
      → let moved = moved_to p command.next_status now in
        transition_row command now audit outbox p db ≡ (ok moved, committed p moved audit outbox db)
  unfolding transition_row
  transition_row_ok p db small fits allowed one =
      rw
        (
          fits,
          transition-Allowed p command.next_status now allowed,
          transition_row,
          expected_version_eq command.expected_version p.version small fits,
        )
        (write_transition_ok p (moved_to p command.next_status now) db refl refl one)

  -- An allowed change of a stored payment at the expected version is committed: the caller gets the
  -- payment with the next status and the next version, and the tables hold it with the audit and the
  -- outbox event.
  pub transition_payment_ok :
      (p : PaymentRequest) (db : Db)
      → IsKeyed db.payments
      → find (has_id command.tenant_id command.payment_id) db.payments ≡ some p
      → Expects command p
      → Allowed p.status command.next_status
      → let moved = moved_to p command.next_status now in
        transition_payment command now audit outbox db
        ≡ (ok moved, committed p moved audit outbox db)
  unfolding transition_payment
  transition_payment_ok p db keyed found fits allowed =
      let (same_id, same_tenant, _) =
        find_present command.tenant_id command.payment_id db.payments found in
      rw (found, transition_payment)
        (transition_row_ok p db
          (find_small command.tenant_id command.payment_id db.payments keyed found) fits allowed
          (rw (same_id, same_tenant)
            (count_found command.tenant_id command.payment_id db.payments keyed found)))

  -- A transition that fails, for whatever reason, leaves the tables as they were.
  transition_payment_atomic :
      (db : Db) {e : RepositoryError}
      → (transition_payment command now audit outbox db).0 ≡ err e
      → (transition_payment command now audit outbox db).1 ≡ db
  unfolding transition_payment transition_row write_transition
  transition_payment_atomic db h = ground arith

  transition_row_inversion :
      (p m : PaymentRequest) (db : Db)
      → (transition_row command now audit outbox p db).0 ≡ ok m
      → Expects command p
        × Allowed p.status command.next_status
        × (m ≡ moved_to p command.next_status now)
  unfolding transition_row write_transition
  transition_row_inversion p m db h = elim (Bool-cases (stale command.expected_version p.version)) [
    | inl old ↦ absurd (cc (rw old at h))
    | inr fits ↦ elim (Result-cases (transition p command.next_status now)) [
      | inr (e, refused) ↦ absurd (ground (arith, refused))
      | inl (moved, made) ↦
          let (allowed, same) = transition_inversion p moved command.next_status now made in
          let written : m ≡ moved = ground (arith, made) in (fits, allowed, written ∙ same)
    ]
  ]

  -- A transition succeeds only for a stored payment at the expected version and only by a change that
  -- is allowed, and it returns that payment with the next status and the next version.
  transition_payment_inversion :
      (m : PaymentRequest) (db : Db)
      → (transition_payment command now audit outbox db).0 ≡ ok m
      → (p : PaymentRequest) × (find (has_id command.tenant_id command.payment_id) db.payments
          ≡ some p)
        × Expects command p
        × Allowed p.status command.next_status
        × (m ≡ moved_to p command.next_status now)
  unfolding transition_payment
  transition_payment_inversion m db h =
      elim (Option-cases (find (has_id command.tenant_id command.payment_id) db.payments)) [
        | inl absent ↦ absurd (ground (arith, absent))
        | inr (p, found) ↦
            let (fits, allowed, same) =
              transition_row_inversion p m db (rw (found, transition_payment) at h) in
            (p, found, fits, allowed, same)
      ]

-- The tables after the commit hold the payment with its new columns.
pub find-committed :
    (tenant id : Uuid) (p moved : PaymentRequest) (a : Option AuditEvent) (o : Option OutboxRecord)
    (db : Db)
    → find (has_id tenant id) db.payments ≡ some p
    → find (has_id tenant id) (committed p moved a o db).payments ≡ some (with_status moved p)
unfolding insert_audit insert_outbox
find-committed tenant id p moved a o db found =
    let (same_id, same_tenant, _) = find_present tenant id db.payments found in
    ground (arith, find_updated tenant id db.payments p moved found, same_id, same_tenant)

pub stale_write :
    (command : TransitionPaymentCommand) (now : Instant) (a : Option AuditEvent)
    (o : Option OutboxRecord) (q : PaymentRequest) (db : Db)
    → find (has_id command.tenant_id command.payment_id) db.payments ≡ some q
    → stale command.expected_version q.version ≡ true
    → transition_payment command now a o db ≡ (err version_conflict, db)
unfolding transition_payment transition_row
stale_write command now a o q db found old = rw (found, transition_payment) (rw old)

pub refused_write :
    (command : TransitionPaymentCommand) (now : Instant) (a : Option AuditEvent)
    (o : Option OutboxRecord) (q : PaymentRequest) (db : Db)
    → find (has_id command.tenant_id command.payment_id) db.payments ≡ some q
    → stale command.expected_version q.version ≡ false
    → ¬ Allowed q.status command.next_status
    → transition_payment command now a o db ≡ (
      err (
          conflict (
            shown
              (illegal_transition (Status.as_str q.status) (Status.as_str command.next_status)))),
      db,
    )
unfolding transition_payment transition_row
refused_write command now a o q db found fresh illegal =
    rw (found, transition_payment)
      (rw (fresh, transition_refused q command.next_status now illegal))

-- Of two writers that read one version, the second is refused, whatever it wants to write, and
-- leaves the tables to the first.
pub transition_payment_stale :
    (first second : TransitionPaymentCommand) (now now' : Instant) (a a' : Option AuditEvent)
    (o o' : Option OutboxRecord) (p : PaymentRequest) (db : Db)
    → IsKeyed db.payments
    → first.tenant_id ≡ second.tenant_id
    → first.payment_id ≡ second.payment_id
    → find (has_id first.tenant_id first.payment_id) db.payments ≡ some p
    → first.expected_version ≡ some p.version
    → second.expected_version ≡ some p.version
    → Allowed p.status first.next_status
    → let db' = (transition_payment first now a o db).1 in
      transition_payment second now' a' o' db' ≡ (err version_conflict, db')
transition_payment_stale first second now now' a a' o o' p db keyed et ei found e1 e2 allowed =
    let moved = moved_to p first.next_status now in
    let won = transition_payment_ok first now a o p db keyed found (rw e1 (ground arith)) allowed in
    let held = find-committed first.tenant_id first.payment_id p moved a o db found in
    rw won (
      stale_write second now' a' o' (with_status moved p) (committed p moved a o db)
        (rw (← et, ← ei) held) (ground (arith, e2, version_moves p.version)))
