-- ===== src/Persistence/Payments/Later.antt =====
-- What is left of a payment's creation on all later tables (crates/openpay-persistence/src/store.rs).
use mathlib.Core.Option
use vega_trix.Base.{◌≡◌, Option, some, find}
use vega_trix.Base.Machine.{Instant}
use vega_trix.Domain.Payment.{PaymentRequest, TransitionPaymentCommand}
use vega_trix.Application.Ports.{AuditEvent, OutboxRecord, IdempotencyContext}
use vega_trix.Persistence.Db.{Db, IdempotencyRow}
use vega_trix.Persistence.Payments.{has_id, find_key, create_idempotent, transition_payment}

-- The tables after any further requests and changes of status, by whomever, and whatever else the
-- program does that leaves payments and idempotency keys alone.
pub data Later (db : Db) : Db → Type 0 where
  now : Later db db
  created :
      {d : Db} (p : PaymentRequest) (c : IdempotencyContext) (a : AuditEvent) (o : OutboxRecord)
      → Later db d
      → Later db (create_idempotent p c a o d).1
  moved :
      {d : Db} (c : TransitionPaymentCommand) (t : Instant) (a : Option AuditEvent)
      (o : Option OutboxRecord)
      → Later db d
      → Later db (transition_payment c t a o d).1
  elsewhere :
      {d : Db} (e : Db)
      → e.payments ≡ d.payments
      → e.idempotency_keys ≡ d.idempotency_keys
      → Later db d
      → Later db e

module _ (ctx : IdempotencyContext) (row : IdempotencyRow) where
  -- The key is there, and so is its payment.
  abbrev IsHeld : Db → Type 0
  IsHeld d =
      (find_key ctx d ≡ some row)
      × ((stored : PaymentRequest) × (find (has_id ctx.tenant_id row.payment_id) d.payments
            ≡ some stored))
