-- ===== src/Application/Creation/Outcome.antt =====
-- What creating a payment does (crates/openpay-application/src/payments.rs).
use vega_trix.Base.{◌≡◌, ◌≢◌, refl, true, false, Option, none, some, ok, err, find, any, ◌==◌}
use vega_trix.Base.{String}
use vega_trix.Base.Int.{pos, ◌<ℤ◌}
use vega_trix.Base.{suc}
use vega_trix.Domain.Payment.{PaymentRequest, CreatePaymentCommand}
use vega_trix.Application.Ports.{repository, idempotency_mismatch}
use vega_trix.Application.Exec.{World}
use vega_trix.Application.Payments.{payment_outbox}
use vega_trix.Application.Creation.{
  Issuer, request_fingerprint, requested, creation_audit, context_of, present, create_payment,
}
use vega_trix.Persistence.Db.{MerchantRow, IdempotencyRow}
use vega_trix.Persistence.Merchants.{get_merchant}
use vega_trix.Persistence.Payments.{has_id, has_key, find_key}
use vega_trix.Persistence.Payments.Idempotency.{
  inserted, create_idempotent_new, create_idempotent_known,
}

module _ (issuer : Issuer) (cmd : CreatePaymentCommand) (request_id : Option String) (w : World)
    (merchant : MerchantRow)
    (found : get_merchant cmd.tenant_id cmd.merchant_id w.db ≡ (ok merchant, w.db)) where
  -- A request with a new key, for an amount above zero and a known merchant of a known tenant, stores a pending
  -- payment at version 1 with its key, its audit event and the event payment.created, and then presents
  -- it, whether or not the presentation succeeds.
  pub create_payment_new :
      find_key (context_of issuer cmd) w.db ≡ none
      → any (λ t. t == cmd.tenant_id) w.db.tenants ≡ true
      → any (λ m. m.id == cmd.merchant_id) w.db.merchants ≡ true
      → any (has_key cmd.tenant_id cmd.idempotency_key) w.db.payments ≡ false
      → pos 0 <ℤ cmd.amount_minor.get
      → let t = w.clock w.read in
        let p = requested cmd (w.uuids w.drawn) t in
        create_payment issuer cmd request_id w
        ≡ present issuer p false (record w {
          db =
              inserted p
                (context_of issuer cmd)
                (creation_audit issuer.print (w.uuids (suc w.drawn)) merchant cmd p request_id t)
                (payment_outbox (w.uuids (suc (suc w.drawn))) p "payment.created" t)
                w.db;
          drawn = suc (suc (suc w.drawn));
          read = suc w.read;
        })
  unfolding create_payment requested
  create_payment_new unknown tenant known free positive =
      let t = w.clock w.read in
      let p = requested cmd (w.uuids w.drawn) t in
      rw
        (
          found,
          create_idempotent_new p (context_of issuer cmd)
              (creation_audit issuer.print (w.uuids (suc w.drawn)) merchant cmd p request_id t)
              (payment_outbox (w.uuids (suc (suc w.drawn))) p "payment.created" t) w.db unknown
              tenant known positive free,
        )
        refl

  -- A request whose key is stored with another fingerprint is refused as a mismatch; one whose key is
  -- stored with its own fingerprint presents the payment that was stored for the key, as a replay. The
  -- tables stay as they were when the request began.
  pub create_payment_known :
      (row : IdempotencyRow)
      → find_key (context_of issuer cmd) w.db ≡ some row
      → let after = record w { drawn = suc (suc (suc w.drawn)); read = suc w.read } in
        (row.request_fingerprint ≢ request_fingerprint issuer cmd
          → create_payment issuer cmd request_id w ≡ (err (repository idempotency_mismatch), after))
        × ((stored : PaymentRequest)
            → row.request_fingerprint ≡ request_fingerprint issuer cmd
            → find (has_id cmd.tenant_id row.payment_id) w.db.payments ≡ some stored
            → create_payment issuer cmd request_id w ≡ present issuer stored true after)
  unfolding create_payment
  create_payment_known row known =
      let t = w.clock w.read in
      let p = requested cmd (w.uuids w.drawn) t in
      let outcome =
        create_idempotent_known p (context_of issuer cmd)
          (creation_audit issuer.print (w.uuids (suc w.drawn)) merchant cmd p request_id t)
          (payment_outbox (w.uuids (suc (suc w.drawn))) p "payment.created" t) row w.db known in
      (
        (λ differs. rw (found, outcome.0 differs) refl),
        (λ stored same held. rw (found, outcome.1 stored same held) refl),
      )
