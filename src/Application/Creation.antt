-- ===== src/Application/Creation.antt =====
-- Creating a payment (crates/openpay-application/src/payments.rs). The texts of a request's answer are
-- lists of characters.
pub mod Outcome
use vega_trix.Base.{
  ℕ, ◌+◌, String, Bool, true, false, ◌&&◌, Option, none, some, List, [], ◌∷◌, ◌++◌, Result, ok, err,
  map_err, is_empty, ltb, ◌==◌, if◌then◌else◌,
}
use vega_trix.Base.Int.{ℤ}
use vega_trix.Base.Text.{codes}
use vega_trix.Base.Machine.{Uuid, Instant, seconds}
use vega_trix.Domain.Ids.{UuidText, as_prefixed}
use vega_trix.Domain.Money.{Currency}
use vega_trix.Domain.Status.{PaymentStatus, PaymentMethod, account_to_account}
use vega_trix.Domain.Routing.{max}
use vega_trix.Domain.Payment.{PaymentRequest, CreatePaymentCommand}
use vega_trix.Crypto.Library.{
  Library, CryptoError, invalid_key, signature_mismatch, expired, replay, malformed, hashing,
  encryption, decryption, invalid_master_key,
}
use vega_trix.Crypto.Qr.{pay, new_claims, encode}
use vega_trix.Application.Ports.{
  ApplicationError, connector, AuditEvent, creation, IdempotencyContext, CreatePaymentResult,
}
use vega_trix.Application.Exec.{Exec, pure, lift, query, now, draw, roll, ◌>>=◌, ◌>>◌}
use vega_trix.Application.Payments.{audit_event, payment_outbox}
use vega_trix.Persistence.Db.{MerchantRow}
use vega_trix.Persistence.Merchants.{get_merchant}
use vega_trix.Persistence.Payments.{create_idempotent}

pub record CreatedPaymentView : Type 0 where
  pub payment : PaymentRequest
  pub replayed : Bool
  pub payment_url : List ℕ
  pub qr_payload : List ℕ
  pub qr_svg : List ℕ
  pub qr_token : List ℕ

-- What the service is built with, and what it takes from other crates: the digest of the five fields
-- of a fingerprint, the printing of identifiers and the drawing of a QR code.
pub record Issuer : Type 0 where
  pub crypto : Library
  pub uuid : UuidText
  pub print : Uuid → String
  pub digest : Uuid → String → ℤ → Currency → String → String
  pub draw_svg : List ℕ → List ℕ
  pub qr_secret : List ℕ
  pub wallet_base_url : List ℕ

-- The display of an error of the crypto crate.
unfoldable pub crypto_text : CryptoError → String
crypto_text invalid_key = "invalid hmac key"
crypto_text signature_mismatch = "signature mismatch"
crypto_text expired = "token expired"
crypto_text replay = "token already used"
crypto_text malformed = "malformed token"
crypto_text hashing = "hashing failed"
crypto_text encryption = "encryption failed"
crypto_text decryption = "decryption failed"
crypto_text invalid_master_key = "invalid master key"

-- `trim_end_matches('/')`
abbrev trim_slashes : List ℕ → List ℕ
trim_slashes [] = []
trim_slashes (c ∷ s) =
    let rest = trim_slashes s in if c == b'/' && is_empty rest then [] else c ∷ rest

-- The payment that a command asks for.
unfoldable pub requested : CreatePaymentCommand → Uuid → Instant → PaymentRequest
requested cmd id t = record {
  id = id;
  tenant_id = cmd.tenant_id;
  merchant_id = cmd.merchant_id;
  merchant_order_id = cmd.merchant_order_id;
  amount_minor = cmd.amount_minor;
  currency = cmd.currency;
  status = PaymentStatus.pending;
  allowed_methods =
      if is_empty cmd.allowed_methods then account_to_account ∷ [] else cmd.allowed_methods;
  description = cmd.description;
  expires_at = t + seconds (max cmd.expires_in_seconds 30);
  return_url = cmd.return_url;
  metadata = cmd.metadata;
  idempotency_key = cmd.idempotency_key;
  routing_policy_id = cmd.routing_policy_id;
  version = 1;
  created_at = t;
  updated_at = t;
}

-- The audit event of a creation.
unfoldable pub creation_audit :
    (Uuid → String)
    → Uuid
    → MerchantRow
    → CreatePaymentCommand
    → PaymentRequest
    → Option String
    → Instant
    → AuditEvent
creation_audit print audit_id merchant cmd payment request_id t =
    audit_event audit_id cmd.tenant_id "merchant" (print merchant.id) "payment.created" payment.id
      request_id (creation payment.merchant_order_id payment.amount_minor payment.currency) t

module _ (issuer : Issuer) where
  -- `request_fingerprint`
  unfoldable pub request_fingerprint : CreatePaymentCommand → String
  request_fingerprint cmd =
      issuer.digest cmd.merchant_id cmd.merchant_order_id cmd.amount_minor.get cmd.currency
        cmd.idempotency_key

  abbrev pub context_of : CreatePaymentCommand → IdempotencyContext
  context_of cmd = record {
    tenant_id = cmd.tenant_id;
    key = cmd.idempotency_key;
    request_fingerprint = request_fingerprint cmd;
  }

  -- The view with its token.
  abbrev view_of : PaymentRequest → Bool → List ℕ → CreatedPaymentView
  view_of payment replayed token =
      let id = as_prefixed issuer.uuid pay payment.id in
      let payload = codes "openpay://v1/pay/" ++ id ++ codes "?token=" ++ token in
      record {
        payment = payment;
        replayed = replayed;
        payment_url =
            trim_slashes issuer.wallet_base_url
            ++ codes "/?payment="
            ++ id
            ++ codes "&token="
            ++ token;
        qr_payload = payload;
        qr_svg = issuer.draw_svg payload;
        qr_token = token;
      }

  -- `present`
  unfoldable pub present : PaymentRequest → Bool → Exec CreatedPaymentView
  present payment replayed = do
    nonce ← roll
    token ← lift (
        map_err (λ e. connector (crypto_text e))
          (encode issuer.crypto issuer.qr_secret (
            new_claims issuer.uuid payment.id payment.tenant_id payment.merchant_id
              payment.expires_at nonce)))
    pure (view_of payment replayed token)

  -- `create_payment`
  unfoldable pub create_payment : CreatePaymentCommand → Option String → Exec CreatedPaymentView
  create_payment cmd request_id = do
    t ← now
    merchant ← query (get_merchant cmd.tenant_id cmd.merchant_id)
    id ← draw
    audit_id ← draw
    event_id ← draw
    created ← query (
        create_idempotent (requested cmd id t) (context_of cmd)
          (creation_audit issuer.print audit_id merchant cmd (requested cmd id t) request_id t)
          (payment_outbox event_id (requested cmd id t) "payment.created" t))
    present created.payment created.replayed
