-- ===== src/Api/Merchant/Ownership.antt =====
-- Which merchant reaches which payment (crates/openpay-api/src/merchant.rs).
use vega_trix.Base.{ℕ, suc, ◌≡◌, ◌≢◌, refl, some, List, ok, err, arith, find}
use vega_trix.Base.Machine.{Uuid}
use vega_trix.Domain.Error.{merchant_mismatch}
use vega_trix.Domain.Status.{PaymentStatus}
use vega_trix.Domain.Payment.{PaymentRequest, belongs_to}
use vega_trix.Domain.Payment.Moves.{Allowed, moved_to}
use vega_trix.Application.Exec.{World}
use vega_trix.Application.Creation.{Issuer}
use vega_trix.Application.Payments.Status.{
  applied, IsRefundable, cancel_payment_iff, refund_payment_iff,
}
use vega_trix.Application.Payments.Expiry.{IsDue, get_payment_live}
use vega_trix.Persistence.Payments.{has_id}
use vega_trix.Persistence.Payments.Rows.{IsKeyed, find_present}
use vega_trix.Api.Error.{ApiError, problem, of_domain}
use vega_trix.Api.Auth.{AuthContext}
use vega_trix.Api.Merchant.{
  view, parse_payment_id, own_payment, get_payment, cancel_payment, refund_payment,
}

abbrev pub hidden : ApiError
hidden = problem 404 "not-found" "Not found" (of_domain merchant_mismatch)

module _ (issuer : Issuer) (auth : AuthContext) (raw : List ℕ) (merchant id : Uuid)
    (p : PaymentRequest) (w : World) where
  own_payment_iff :
      auth.merchant_id ≡ some merchant
      → p.tenant_id ≡ auth.tenant_id
      → (p.merchant_id ≡ merchant → own_payment issuer auth p ≡ ok tt)
        × (p.merchant_id ≢ merchant → own_payment issuer auth p ≡ err hidden)
  unfolding own_payment belongs_to
  own_payment_iff key same = ground (arith, key)

  -- A key of a merchant reads a payment of its tenant, which is stored and not due to expire, exactly
  -- when the payment is the merchant's own; to any other merchant it does not exist.
  pub get_payment_owned :
      parse_payment_id issuer raw ≡ ok id
      → auth.merchant_id ≡ some merchant
      → find (has_id auth.tenant_id id) w.db.payments ≡ some p
      → ¬ IsDue p (w.clock w.read)
      → (p.merchant_id ≡ merchant
          → get_payment issuer auth raw w ≡ (ok (view issuer p), record w { read = suc w.read }))
        × (p.merchant_id ≢ merchant
            → get_payment issuer auth raw w ≡ (err hidden, record w { read = suc w.read }))
  unfolding get_payment
  get_payment_owned parsed key found live =
      let same = (find_present auth.tenant_id id w.db.payments found).1 in
      let (own, foreign) = own_payment_iff key same in
      let read = get_payment_live auth.tenant_id id p w found live in
      ((λ e. rw (parsed, read, own e) refl), (λ ne. rw (parsed, read, foreign ne) refl))

  -- Cancelling and refunding do not ask whose payment it is: with the key of another merchant of the same
  -- tenant, a stored payment that can be cancelled is cancelled and one that can be refunded is refunded.
  pub cancel_payment-foreign :
      parse_payment_id issuer raw ≡ ok id
      → auth.merchant_id ≡ some merchant
      → p.merchant_id ≢ merchant
      → find (has_id auth.tenant_id id) w.db.payments ≡ some p
      → IsKeyed w.db.payments
      → (Allowed p.status PaymentStatus.cancelled
          → cancel_payment issuer auth raw w ≡ (
            ok (view issuer (moved_to p PaymentStatus.cancelled (w.clock w.read))),
            applied p PaymentStatus.cancelled "merchant" auth.actor_id "payment.cancelled" w,
          ))
        × (IsRefundable p.status
            → refund_payment issuer auth raw w ≡ (
              ok (view issuer (moved_to p PaymentStatus.refunded (w.clock w.read))),
              applied p PaymentStatus.refunded "merchant" auth.actor_id "payment.refunded" w,
            ))
  unfolding cancel_payment refund_payment
  cancel_payment-foreign parsed key foreign found keyed = (
    (λ allowed.
        rw (parsed, (cancel_payment_iff auth.tenant_id id auth.actor_id p w found keyed).0 allowed)
          refl),
    (λ refundable.
        rw
          (
            parsed,
            (refund_payment_iff auth.tenant_id id auth.actor_id p w found keyed).0 refundable,
          )
          refl),
  )
