-- ===== src/Persistence/Payments.antt =====
-- The payment repository (crates/openpay-persistence/src/store.rs).
pub mod Rows
pub mod Transition
pub mod Kept
pub mod Idempotency
pub mod Later
pub mod Refine
use vega_trix.Base.{
  ℕ, String, Bool, true, false, ◌&&◌, ◌||◌, not, Option, none, some, List, [], ◌∷◌, ◌++◌, map,
  Result, ok, err, any, find, select, count, take, leb, ◌==◌, str_eq, if◌then◌else◌,
}
use vega_trix.Base.Int.{pos, leb_ℤ}
use vega_trix.Base.Machine.{Uuid, Instant, i32_sub}
use vega_trix.Base.Sort.{sort_by}
use vega_trix.Domain.Error.{DomainError}
use vega_trix.Domain.Status
use vega_trix.Domain.Status.{PaymentStatus, AttemptStatus}
use vega_trix.Domain.Payment.{PaymentRequest, PaymentAttempt, TransitionPaymentCommand, transition}
use vega_trix.Application.Ports.{
  AuditEvent, OutboxRecord, IdempotencyContext, CreatePaymentResult, RepositoryError, not_found,
  conflict, idempotency_mismatch, version_conflict, infra, text, shown,
}
use vega_trix.Persistence.Db.{Db, Query, IdempotencyRow, OutboxRow}

-- `WHERE id = $1 AND tenant_id = $2`
abbrev pub has_id : Uuid → Uuid → PaymentRequest → Bool
has_id tenant id p = p.id == id && p.tenant_id == tenant

-- `get_by_id`
unfoldable pub get_by_id : Uuid → Uuid → Query PaymentRequest
get_by_id tenant id db = elim (find (has_id tenant id) db.payments) [
  | some p ↦ (ok p, db)
  | none ↦ (err not_found, db)
]

-- `insert_audit_tx`
unfoldable pub insert_audit : AuditEvent → Db → Db
insert_audit event db = record db { audit_events = db.audit_events ++ event ∷ [] }

-- `insert_outbox_tx`
unfoldable pub insert_outbox : OutboxRecord → Db → Db
insert_outbox r db = record db {
  outbox_events = db.outbox_events ++ record { record_of = r; published_at = none } ∷ [];
}

abbrev pub same_key : Uuid → String → IdempotencyRow → Bool
same_key tenant key row = row.tenant_id == tenant && str_eq row.idempotency_key key

-- The index `idx_payment_idempotency`.
abbrev pub has_key : Uuid → String → PaymentRequest → Bool
has_key tenant key p = p.tenant_id == tenant && str_eq p.idempotency_key key

-- The first statement of `create_idempotent`.
unfoldable pub find_key : IdempotencyContext → Db → Option IdempotencyRow
find_key ctx db = find (same_key ctx.tenant_id ctx.key) db.idempotency_keys

-- The row of `idempotency_keys` for a new payment.
abbrev pub key_row : PaymentRequest → IdempotencyContext → IdempotencyRow
key_row payment ctx = record {
  tenant_id = ctx.tenant_id;
  idempotency_key = ctx.key;
  request_fingerprint = ctx.request_fingerprint;
  payment_id = payment.id;
  created_at = payment.created_at;
}

-- The tenant and the merchant that a row names are there.
abbrev pub refers : Uuid → Uuid → Db → Bool
refers tenant merchant db =
    any (λ t. t == tenant) db.tenants && any (λ m. m.id == merchant) db.merchants

-- The inserts of `create_idempotent`: the payment, checked by the `CHECK` on the amount, the unique index
-- and the two foreign keys, then the key, the audit event and the outbox event.
unfoldable pub insert_payment :
    PaymentRequest → IdempotencyContext → AuditEvent → OutboxRecord → Query CreatePaymentResult
unfolding insert_audit insert_outbox
insert_payment payment ctx audit outbox db =
    if leb_ℤ payment.amount_minor.get (pos 0)
    then (err (infra "amount_minor"), db)
    else if any (has_key payment.tenant_id payment.idempotency_key) db.payments
    then (err (conflict (text "idempotency")), db)
    else if not (refers payment.tenant_id payment.merchant_id db)
    then (err (infra "foreign key"), db)
    else (
      ok (record { payment = payment; replayed = false }),
      insert_outbox outbox (
          insert_audit audit (record db {
            payments = db.payments ++ payment ∷ [];
            idempotency_keys = db.idempotency_keys ++ key_row payment ctx ∷ [];
          })),
    )

abbrev pub as_replay :
    Result RepositoryError PaymentRequest × Db → Result RepositoryError CreatePaymentResult × Db
as_replay (ok stored, db) = (ok (record { payment = stored; replayed = true }), db)
as_replay (err e, db) = (err e, db)

-- What `create_idempotent` does with a key that is there: it returns the stored payment.
unfoldable pub replay_payment : IdempotencyContext → IdempotencyRow → Query CreatePaymentResult
unfolding get_by_id
replay_payment ctx row db =
    if not (str_eq row.request_fingerprint ctx.request_fingerprint)
    then (err idempotency_mismatch, db)
    else as_replay (get_by_id ctx.tenant_id row.payment_id db)

-- `create_idempotent`
unfoldable pub create_idempotent :
    PaymentRequest → IdempotencyContext → AuditEvent → OutboxRecord → Query CreatePaymentResult
create_idempotent payment ctx audit outbox db = elim (find_key ctx db) [
  | some row ↦ replay_payment ctx row db
  | none ↦ insert_payment payment ctx audit outbox db
]

abbrev pub at_version : Uuid → Uuid → ℕ → PaymentRequest → Bool
at_version tenant id version p = has_id tenant id p && p.version == version

-- The columns that the `UPDATE` of `transition_payment` sets.
abbrev pub with_status : PaymentRequest → PaymentRequest → PaymentRequest
with_status changed p = record p {
  status = changed.status;
  version = changed.version;
  updated_at = changed.updated_at;
}

abbrev pub update_where :
    (PaymentRequest → Bool) → PaymentRequest → List PaymentRequest → List PaymentRequest
update_where p changed = map (λ row. if p row then with_status changed row else row)

abbrev pub insert_if : {A : Type 0} → (A → Db → Db) → Option A → Db → Db
insert_if insert none db = db
insert_if insert (some a) db = insert a db

-- The `UPDATE` of `transition_payment` and what follows it, with the payment already moved on.
unfoldable pub write_transition :
    PaymentRequest → ℕ → Option AuditEvent → Option OutboxRecord → Query PaymentRequest
unfolding insert_audit insert_outbox
write_transition moved version audit outbox db =
    let hit = at_version moved.tenant_id moved.id version in
    if not (count hit db.payments == 1) then (err version_conflict, db) else (
      ok moved,
      insert_if insert_outbox outbox (
          insert_if insert_audit audit
            (record db { payments = update_where hit moved db.payments })),
    )

abbrev pub stale : Option ℕ → ℕ → Bool
stale none version = false
stale (some expected) version = not (version == expected)

abbrev pub or_version : Option ℕ → ℕ → ℕ
or_version none version = version
or_version (some expected) version = expected

-- `transition_payment` on the row that `SELECT ... FOR UPDATE` returned.
unfoldable pub transition_row :
    TransitionPaymentCommand
    → Instant
    → Option AuditEvent
    → Option OutboxRecord
    → PaymentRequest
    → Query PaymentRequest
transition_row command now audit outbox payment db =
    if stale command.expected_version payment.version
    then (err version_conflict, db)
    else elim (transition payment command.next_status now) [
      | err e ↦ (err (conflict (shown e)), db)
      | ok moved ↦
          write_transition moved (or_version command.expected_version (i32_sub moved.version 1))
            audit outbox db
    ]

-- `transition_payment`
unfoldable pub transition_payment :
    TransitionPaymentCommand
    → Instant
    → Option AuditEvent
    → Option OutboxRecord
    → Query PaymentRequest
transition_payment command now audit outbox db =
    elim (find (has_id command.tenant_id command.payment_id) db.payments) [
      | none ↦ (err not_found, db)
      | some payment ↦ transition_row command now audit outbox payment db
    ]

-- Equal columns, neither of them `NULL`.
abbrev pub both_eq : Option String → Option String → Bool
both_eq (some r) (some s) = str_eq r s
both_eq _ _ = false

abbrev pub same_reference : PaymentAttempt → PaymentAttempt → Bool
same_reference a b =
    str_eq a.connector_key b.connector_key && both_eq a.provider_reference b.provider_reference

-- `insert_attempt`, under the index `idx_attempt_provider_ref`
unfoldable pub insert_attempt : PaymentAttempt → Query PaymentAttempt
insert_attempt attempt db =
    if any (same_reference attempt) db.attempts
    then (err (infra "idx_attempt_provider_ref"), db)
    else (ok attempt, record db { attempts = db.attempts ++ attempt ∷ [] })

-- `list_attempts`
unfoldable pub list_attempts : Uuid → Uuid → Query (List PaymentAttempt)
unfolding sort_by
list_attempts tenant payment db = (
  ok (
      sort_by (λ a b. leb a.created_at b.created_at)
        (select (λ a. a.tenant_id == tenant && a.payment_request_id == payment) db.attempts)),
  db,
)

-- `list_expirable_payments`
unfoldable pub list_expirable_payments : Instant → ℕ → Query (List PaymentRequest)
unfolding sort_by
list_expirable_payments now limit db = (
  ok (
      take limit (
        sort_by (λ p q. leb p.expires_at q.expires_at)
          (select
            (λ p.
              leb p.expires_at now
              && (Status.eq p.status PaymentStatus.pending
                  || Status.eq p.status PaymentStatus.requires_action))
            db.payments))),
  db,
)

-- `list_by_merchant`
unfoldable pub list_by_merchant : Uuid → Uuid → ℕ → Query (List PaymentRequest)
unfolding sort_by
list_by_merchant tenant merchant limit db = (
  ok (
      take limit (
        sort_by (λ p q. leb q.created_at p.created_at)
          (select (λ p. p.tenant_id == tenant && p.merchant_id == merchant) db.payments))),
  db,
)

-- `list_for_payment`
unfoldable pub list_for_payment : Uuid → Uuid → Query (List AuditEvent)
unfolding sort_by
list_for_payment tenant payment db = (
  ok (
      sort_by (λ e f. leb e.occurred_at f.occurred_at)
        (select
          (λ e.
            e.tenant_id == tenant
            && str_eq e.resource_type "payment_request"
            && e.resource_id == payment)
          db.audit_events)),
  db,
)
