-- ===== src/Persistence/Payments/Idempotency.antt =====
-- `create_idempotent` creates at most one payment for a key, whatever the order of the statements
-- (crates/openpay-persistence/src/store.rs).
use vega_trix.Base.{
  ◌≡◌, refl, ◌≢◌, Bool, true, false, none, some, List, [], ◌∷◌, ◌++◌, ok, err, arith, any, find,
  ◌==◌, ◌||◌, eq_iff, eq_refl, if◌then◌else◌,
}
use vega_trix.Base.Int.{pos, ◌<ℤ◌}
use vega_trix.Base.Machine.{Uuid}
use vega_trix.Domain.Payment.{PaymentRequest}
use vega_trix.Application.Ports.{
  AuditEvent, OutboxRecord, IdempotencyContext, CreatePaymentResult, conflict, text,
  idempotency_mismatch,
}
use vega_trix.Persistence.Db.{Db, IdempotencyRow}
use vega_trix.Persistence.Payments.{
  insert_audit, insert_outbox, has_id, has_key, same_key, key_row, find_key, insert_payment,
  replay_payment, create_idempotent,
}

module _ {A : Type 0} where
  find-append_none :
      (p : A → Bool) (x : A) (xs : List A)
      → find p xs ≡ none
      → find p (xs ++ x ∷ []) ≡ (if p x then some x else none)
  find-append_none p x [] h = refl
  find-append_none p x (y ∷ ys) h = ground (arith, find-append_none p x ys)

  any-append_one : (p : A → Bool) (x : A) (xs : List A) → any p (xs ++ x ∷ []) ≡ (p x || any p xs)
  any-append_one p x [] = refl
  any-append_one p x (y ∷ ys) = ground (arith, any-append_one p x ys)

find_fresh :
    (tenant id : Uuid) (ps : List PaymentRequest)
    → any (λ q. q.id == id) ps ≡ false
    → find (has_id tenant id) ps ≡ none
find_fresh tenant id [] h = refl
find_fresh tenant id (q ∷ ps) h = ground (arith, find_fresh tenant id ps)

-- No two payments of one tenant have one idempotency key.
abbrev pub IsUnique : List PaymentRequest → Type 0
IsUnique [] = Unit
IsUnique (p ∷ ps) = (any (has_key p.tenant_id p.idempotency_key) ps ≡ false) × IsUnique ps

append-IsUnique :
    (x : PaymentRequest) (ps : List PaymentRequest)
    → any (has_key x.tenant_id x.idempotency_key) ps ≡ false
    → IsUnique ps
    → IsUnique (ps ++ x ∷ [])
append-IsUnique x [] new unique = (refl, tt)
append-IsUnique x (q ∷ ps) new unique = ground (
  arith,
  append-IsUnique x ps,
  any-append_one (has_key q.tenant_id q.idempotency_key) x ps,
  eq_iff q.idempotency_key x.idempotency_key,
  eq_iff x.idempotency_key q.idempotency_key,
)

module _ (payment : PaymentRequest) (ctx : IdempotencyContext) (a : AuditEvent)
    (o : OutboxRecord) where
  insert_payment-IsUnique :
      (db : Db) → IsUnique db.payments → IsUnique (insert_payment payment ctx a o db).1.payments
  unfolding insert_payment
  insert_payment-IsUnique db unique = ground (arith, append-IsUnique payment db.payments)

  -- Creating a payment, whatever the outcome, leaves at most one payment to a tenant's key.
  pub create_idempotent-IsUnique :
      (db : Db) → IsUnique db.payments → IsUnique (create_idempotent payment ctx a o db).1.payments
  unfolding create_idempotent replay_payment
  create_idempotent-IsUnique db unique = ground (arith, insert_payment-IsUnique db unique)

  -- Two requests that both found no key and then insert: the second is refused by the unique index
  -- and changes nothing, in every order of their statements.
  pub insert_payment_race :
      (other : PaymentRequest) (ctx' : IdempotencyContext) (a' : AuditEvent) (o' : OutboxRecord)
      (db : Db) {r : CreatePaymentResult}
      → other.tenant_id ≡ payment.tenant_id
      → other.idempotency_key ≡ payment.idempotency_key
      → pos 0 <ℤ other.amount_minor.get
      → (insert_payment payment ctx a o db).0 ≡ ok r
      → let db' = (insert_payment payment ctx a o db).1 in
        insert_payment other ctx' a' o' db' ≡ (err (conflict (text "idempotency")), db')
  unfolding insert_payment
  insert_payment_race other ctx' a' o' db same_tenant same_key positive won = ground (
    arith,
    any-append_one (has_key other.tenant_id other.idempotency_key) payment db.payments,
    eq_iff payment.idempotency_key other.idempotency_key,
  )

  -- A key that is stored with another fingerprint is refused, and one that is stored with the same
  -- fingerprint answers with the payment that is stored now; neither changes the tables.
  pub create_idempotent_known :
      (row : IdempotencyRow) (db : Db)
      → find_key ctx db ≡ some row
      → (row.request_fingerprint ≢ ctx.request_fingerprint
          → create_idempotent payment ctx a o db ≡ (err idempotency_mismatch, db))
        × ((stored : PaymentRequest)
            → row.request_fingerprint ≡ ctx.request_fingerprint
            → find (has_id ctx.tenant_id row.payment_id) db.payments ≡ some stored
            → create_idempotent payment ctx a o db
              ≡ (ok (record { payment = stored; replayed = true }), db))
  unfolding create_idempotent replay_payment
  create_idempotent_known row db known = (
    (λ differs. ground (arith, eq_iff row.request_fingerprint ctx.request_fingerprint)),
    (λ stored same found. ground (arith, eq_iff row.request_fingerprint ctx.request_fingerprint)),
  )

-- The tables after the inserts.
abbrev pub inserted : PaymentRequest → IdempotencyContext → AuditEvent → OutboxRecord → Db → Db
inserted payment ctx a o db = insert_outbox o (
    insert_audit a (record db {
      payments = db.payments ++ payment ∷ [];
      idempotency_keys = db.idempotency_keys ++ key_row payment ctx ∷ [];
    }))

module _ (payment : PaymentRequest) (ctx : IdempotencyContext) (a : AuditEvent) (o : OutboxRecord)
    (db : Db) (unknown : find_key ctx db ≡ none) where
  pub create_idempotent_new :
      any (λ t. t == payment.tenant_id) db.tenants ≡ true
      → any (λ m. m.id == payment.merchant_id) db.merchants ≡ true
      → pos 0 <ℤ payment.amount_minor.get
      → any (has_key payment.tenant_id payment.idempotency_key) db.payments ≡ false
      → create_idempotent payment ctx a o db
        ≡ (ok (record { payment = payment; replayed = false }), inserted payment ctx a o db)
  unfolding create_idempotent insert_payment
  create_idempotent_new tenant merchant positive free =
      ground (arith, unknown, free, tenant, merchant)

  pub find_key-inserted : find_key ctx (inserted payment ctx a o db) ≡ some (key_row payment ctx)
  unfolding find_key insert_audit insert_outbox
  find_key-inserted = ground (
    arith,
    find-append_none (same_key ctx.tenant_id ctx.key) (key_row payment ctx) db.idempotency_keys,
    unknown,
    eq_refl ctx.key,
  )

  pub find-inserted :
      payment.tenant_id ≡ ctx.tenant_id
      → any (λ q. q.id == payment.id) db.payments ≡ false
      → find (has_id ctx.tenant_id payment.id) (inserted payment ctx a o db).payments ≡ some payment
  unfolding insert_audit insert_outbox
  find-inserted et fresh = ground (
    arith,
    find-append_none (has_id ctx.tenant_id payment.id) payment db.payments,
    find_fresh ctx.tenant_id payment.id db.payments,
  )
