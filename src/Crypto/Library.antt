-- ===== src/Crypto/Library.antt =====
-- What the crate takes from its dependencies: HMAC-SHA256 (hmac, sha2), hexadecimal (hex), Base64
-- (base64) and JSON (serde_json). Texts and byte strings are lists of numbers. The claims of a QR token
-- stand here since the JSON codec is one of them.
use vega_trix.Base.{ℕ, Option, List}

pub data CryptoError : Type 0 where
  invalid_key signature_mismatch expired replay malformed hashing encryption : CryptoError
  decryption invalid_master_key : CryptoError

-- `QrClaims`: the identifiers in their printed form.
pub record QrClaims : Type 0 where
  pub payment_id : List ℕ
  pub tenant_id : List ℕ
  pub merchant_id : List ℕ
  pub exp : ℕ
  pub nonce : List ℕ
  pub v : ℕ

pub record Library : Type 0 where
  -- `Hmac::new_from_slice`, `update`, `finalize`: `none` for a key that is refused
  pub mac : List ℕ → List ℕ → Option (List ℕ)
  pub hex_encode : List ℕ → List ℕ
  pub hex_decode : List ℕ → Option (List ℕ)
  -- `URL_SAFE_NO_PAD`
  pub base64_encode : List ℕ → List ℕ
  pub base64_decode : List ℕ → Option (List ℕ)
  pub json_encode : QrClaims → Option (List ℕ)
  pub json_decode : List ℕ → Option QrClaims
