-- ===== src/Application/Claims.antt =====
-- Checking the claims of a QR token (crates/openpay-application/src/qr.rs).
use vega_trix.Base.{
  fail_if, ◌>>=◌, ◌>>◌, ℕ, not, Option, none, some, List, Result, ok, map_err, ◌==◌,
}
use vega_trix.Base.Machine.{Uuid}
use vega_trix.Domain.Ids.{UuidText, parse_prefixed}
use vega_trix.Crypto.Library.{
  QrClaims, CryptoError, invalid_key, signature_mismatch, expired, replay, malformed, hashing,
  encryption, decryption, invalid_master_key,
}
use vega_trix.Crypto.Qr.{pay, ten, mch}
use vega_trix.Application.Ports.{ApplicationError, domain, connector, forbidden}
use vega_trix.Application.Ports as Ports

pub record VerifiedQr : Type 0 where
  pub payment_id : Uuid
  pub tenant_id : Uuid
  pub merchant_id : Uuid
  pub nonce : List ℕ

-- The error that a failure of the crypto crate becomes.
unfoldable pub qr_error : CryptoError → ApplicationError
qr_error expired = Ports.expired
qr_error replay = Ports.replay
qr_error signature_mismatch = forbidden
qr_error malformed = forbidden
qr_error invalid_key = forbidden
qr_error hashing = connector "hashing failed"
qr_error encryption = connector "encryption failed"
qr_error decryption = connector "decryption failed"
qr_error invalid_master_key = connector "invalid master key"

-- The test of an expected identifier.
unfoldable pub expects : Option Uuid → Uuid → Result ApplicationError (Unit {0})
expects none id = ok tt
expects (some expected) id = fail_if (not (expected == id)) forbidden

module _ (uuid : UuidText) where
  -- What `verify_qr_token` makes of the claims before it consumes the nonce.
  unfoldable pub check_claims :
      QrClaims → Option Uuid → Option Uuid → Result ApplicationError VerifiedQr
  unfolding expects
  check_claims claims expected_payment expected_merchant = do
    payment ← map_err domain (parse_prefixed uuid pay claims.payment_id)
    tenant ← map_err domain (parse_prefixed uuid ten claims.tenant_id)
    merchant ← map_err domain (parse_prefixed uuid mch claims.merchant_id)
    expects expected_payment payment
    expects expected_merchant merchant
    ok (record {
      payment_id = payment;
      tenant_id = tenant;
      merchant_id = merchant;
      nonce = claims.nonce;
    })
