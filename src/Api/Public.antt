-- ===== src/Api/Public.antt =====
-- The public endpoints of a payment page (crates/openpay-api/src/public.rs). A caller shows the token of
-- the QR code instead of a key.
pub mod Once
use vega_trix.Base.{
  ℕ, String, Bool, true, false, Option, none, some, List, Result, ok, err, if◌then◌else◌,
}
use vega_trix.Base.Machine.{Uuid}
use vega_trix.Base.Text.{eq_ignore_ascii_case}
use vega_trix.Domain.Payment.{PaymentRequest}
use vega_trix.Application.Ports.{ApplicationError}
use vega_trix.Application.Exec.{query, now}
use vega_trix.Application.Payments as Payments
use vega_trix.Application.Creation.{Issuer, present}
use vega_trix.Application.Claims.{VerifiedQr}
use vega_trix.Application.Qr.{verify_qr_token}
use vega_trix.Application.Attempts.{Env}
use vega_trix.Application.Authorize.{
  PayerDecision, approve, reject, AuthorizeOutcome, authorize_payment,
}
use vega_trix.Application.Reconcile.{replay_connector_callback}
use vega_trix.Persistence.Merchants.{get_merchant}
use vega_trix.Api.Http.{Http, pure, lift, service, ◌>>=◌, ◌>>◌}
use vega_trix.Api.Merchant.{parse_payment_id}

-- The bytes of `DEMO_TENANT`, read as one number.
abbrev pub demo_tenant : Uuid
demo_tenant = 0x01900000000070008000000000000001

pub record AuthorizeBody : Type 0 where
  pub token : List ℕ
  pub decision : String
  pub scenario : Option String

-- The decision that a text stands for.
unfoldable pub decision_of : String → PayerDecision
unfolding eq_ignore_ascii_case
decision_of text = if eq_ignore_ascii_case text "reject" then reject else approve

module _ (issuer : Issuer) (env : Env) where
  -- The check of the token, at the clock of the server.
  unfoldable pub verified : Uuid → List ℕ → Bool → Http VerifiedQr
  verified id token consume = do
    t ← service now
    service
        (verify_qr_token issuer.crypto issuer.uuid issuer.qr_secret token t (some id) none consume)

  -- `public_get`: the payment and the merchant's name that the answer shows
  unfoldable pub public_get : List ℕ → List ℕ → Http (PaymentRequest × String)
  public_get payment_id token = do
    id ← lift (parse_payment_id issuer payment_id)
    qr ← verified id token false
    payment ← service (Payments.get_payment qr.tenant_id qr.payment_id)
    merchant ← service (query (get_merchant payment.tenant_id payment.merchant_id))
    pure (payment, merchant.display_name)

  -- `public_authorize`
  unfoldable pub public_authorize : List ℕ → AuthorizeBody → Http AuthorizeOutcome
  public_authorize payment_id body = do
    id ← lift (parse_payment_id issuer payment_id)
    qr ← verified id body.token true
    service
        (authorize_payment env qr.tenant_id qr.payment_id (decision_of body.decision) body.scenario)

  -- The tenant that `simulate_duplicate_callback` works for.
  abbrev tenant_or_demo : Result ApplicationError PaymentRequest → Uuid
  tenant_or_demo (ok p) = p.tenant_id
  tenant_or_demo (err e) = demo_tenant

  -- `simulate_duplicate_callback`
  unfoldable pub simulate_duplicate_callback : List ℕ → Http AuthorizeOutcome
  simulate_duplicate_callback payment_id = do
    id ← lift (parse_payment_id issuer payment_id)
    λ w.
        let (found, w') = Payments.get_payment demo_tenant id w in
        service (replay_connector_callback env (tenant_or_demo found) id) w'

  -- `qr_png`: the drawing
  unfoldable pub qr_png : List ℕ → List ℕ → Http (List ℕ)
  qr_png payment_id token = do
    id ← lift (parse_payment_id issuer payment_id)
    qr ← verified id token false
    payment ← service (Payments.get_payment qr.tenant_id qr.payment_id)
    presented ← service (present issuer payment true)
    pure presented.qr_svg
