-- ===== src/Crypto/Qr.antt =====
-- QR tokens (crates/openpay-crypto/src/qr.rs).
pub mod Verify
use vega_trix.Base.{
  ℕ, Bool, true, false, Option, none, some, List, [], ◌∷◌, ◌++◌, map, Result, ok, err, ◌>>=◌, ◌>>◌,
  ok_or, fail_if, ltb, ◌==◌, if◌then◌else◌,
}
use vega_trix.Base.Machine.{Uuid, Instant, unix_timestamp}
use vega_trix.Domain.Ids.{UuidText, as_prefixed}
use vega_trix.Crypto.Library.{Library, QrClaims, CryptoError, malformed, expired}
use vega_trix.Crypto.Hmac.{hmac_sha256_hex, verify_hmac_sha256}

abbrev pub pay : List ℕ
pay = b'p' ∷ b'a' ∷ b'y' ∷ []

abbrev pub ten : List ℕ
ten = b't' ∷ b'e' ∷ b'n' ∷ []

abbrev pub mch : List ℕ
mch = b'm' ∷ b'c' ∷ b'h' ∷ []

-- `QrClaims::new`
unfoldable pub new_claims : UuidText → Uuid → Uuid → Uuid → Instant → List ℕ → QrClaims
new_claims uuid payment tenant merchant expires_at nonce = record {
  payment_id = as_prefixed uuid pay payment;
  tenant_id = as_prefixed uuid ten tenant;
  merchant_id = as_prefixed uuid mch merchant;
  exp = unix_timestamp expires_at;
  nonce = nonce;
  v = 1;
}

-- `str::split_once('.')`
unfoldable pub split_dot : List ℕ → Option (List ℕ × List ℕ)
split_dot [] = none
split_dot (c ∷ s) =
    let rest = split_dot s in
    if c == b'.' then some ([], s) else elim rest [ none ↦ none | some (a, b) ↦ some (c ∷ a, b) ]

module _ (lib : Library) where
  -- `QrClaims::encode`
  unfoldable pub encode : List ℕ → QrClaims → Result CryptoError (List ℕ)
  encode secret claims = do
    payload ← ok_or (lib.json_encode claims) malformed
    let b64 = lib.base64_encode payload
    sig ← hmac_sha256_hex lib secret b64
    ok (b64 ++ b'.' ∷ sig)

  -- `parse_and_verify_qr_token` once the token is split.
  unfoldable pub verify_parts : List ℕ → Instant → List ℕ × List ℕ → Result CryptoError QrClaims
  verify_parts secret now (payload_b64, sig) = do
    verify_hmac_sha256 lib secret payload_b64 sig
    json ← ok_or (lib.base64_decode payload_b64) malformed
    claims ← ok_or (lib.json_decode json) malformed
    fail_if (ltb claims.exp (unix_timestamp now)) expired
    ok claims

  -- `parse_and_verify_qr_token`
  unfoldable pub parse_and_verify_qr_token : List ℕ → List ℕ → Instant → Result CryptoError QrClaims
  unfolding verify_parts split_dot
  parse_and_verify_qr_token secret token now = do
    parts ← ok_or (split_dot token) malformed
    verify_parts secret now parts
