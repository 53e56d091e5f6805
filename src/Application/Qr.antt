-- ===== src/Application/Qr.antt =====
-- Verifying a QR token and consuming its nonce (crates/openpay-application/src/qr.rs).
pub mod Replay
use vega_trix.Base.{
  ℕ, ◌+◌, Bool, true, false, not, Option, none, some, List, Result, ok, err, map_err, ◌==◌,
  if◌then◌else◌,
}
use vega_trix.Base.Machine.{Uuid, Instant, seconds}
use vega_trix.Domain.Ids.{UuidText, parse_prefixed}
use vega_trix.Crypto.Library.{
  Library, QrClaims, CryptoError, invalid_key, signature_mismatch, expired, replay, malformed,
  hashing, encryption, decryption, invalid_master_key,
}
use vega_trix.Crypto.Qr.{pay, ten, mch, parse_and_verify_qr_token}
use vega_trix.Application.Ports.{ApplicationError, domain, connector, forbidden}
use vega_trix.Application.Ports as Ports
use vega_trix.Application.Exec.{Exec, pure, raise, lift, query, now, ◌>>=◌, ◌>>◌}
use vega_trix.Persistence.Nonces.{remember_nonce}
use vega_trix.Application.Claims.{VerifiedQr, qr_error, check_claims}

abbrev pub unless_used : Bool → Exec (Unit {0})
unless_used true = pure tt
unless_used false = raise Ports.replay

-- The part under `if consume`.
unfoldable pub consume_nonce : Bool → List ℕ → Exec (Unit {0})
consume_nonce false nonce = pure tt
consume_nonce true nonce = do
  t ← now
  inserted ← query (remember_nonce nonce t (t + seconds 900))
  unless_used inserted

-- What follows the check of the signature.
unfoldable pub admit : UuidText → QrClaims → Option Uuid → Option Uuid → Bool → Exec VerifiedQr
unfolding consume_nonce
admit uuid claims expected_payment expected_merchant consume = do
  verified ← lift (check_claims uuid claims expected_payment expected_merchant)
  consume_nonce consume claims.nonce
  pure verified

-- `verify_qr_token`
unfoldable pub verify_qr_token :
    Library
    → UuidText
    → List ℕ
    → List ℕ
    → Instant
    → Option Uuid
    → Option Uuid
    → Bool
    → Exec VerifiedQr
unfolding admit
verify_qr_token lib uuid secret token t expected_payment expected_merchant consume = do
  claims ← lift (map_err qr_error (parse_and_verify_qr_token lib secret token t))
  admit uuid claims expected_payment expected_merchant consume
