-- ===== src/Crypto/Envelope.antt =====
-- Secrets at rest (crates/openpay-crypto/src/envelope.rs). AES-256-GCM and Base64 are the crates
-- aes-gcm and base64, parameters. Texts are byte strings, except for the
-- master key.
pub mod RoundTrip
use vega_trix.Base.{
  ℕ, Bool, true, false, not, Option, none, some, List, [], ◌∷◌, ◌++◌, map, Result, ok, err, ◌>>=◌,
  ◌>>◌, ok_or, fail_if, is_empty, length, take, drop, leb, ◌==◌, if◌then◌else◌,
}
use vega_trix.Base.Text.{codes, trim, utf8}
use vega_trix.Domain.Ids.{strip_prefix}
use vega_trix.Crypto.Library.{CryptoError, malformed, invalid_master_key, encryption, decryption}

pub record Cipher : Type 0 where
  -- `STANDARD`
  pub base64_encode : List ℕ → List ℕ
  pub base64_decode : List ℕ → Option (List ℕ)
  -- `Aes256Gcm::new_from_slice` accepts the key
  pub accepts : List ℕ → Bool
  -- `encrypt` and `decrypt`, at a key, a nonce and a text
  pub seal : List ℕ → List ℕ → List ℕ → Option (List ℕ)
  pub unseal : List ℕ → List ℕ → List ℕ → Option (List ℕ)
  -- `String::from_utf8`
  pub is_utf8 : List ℕ → Bool

abbrev pub secret_ref_prefix : List ℕ
secret_ref_prefix = codes "secret://"

abbrev pub envelope_prefix : List ℕ
envelope_prefix = codes "enc:v1:"

abbrev pub nonce_len : ℕ
nonce_len = 12

abbrev pub key_len : ℕ
key_len = 32

-- `str::starts_with`
unfoldable pub starts_with : List ℕ → List ℕ → Bool
unfolding strip_prefix
starts_with s prefix = elim (strip_prefix prefix s) [ none ↦ false | some rest ↦ true ]

-- `is_secret_ref`
unfoldable pub is_secret_ref : List ℕ → Bool
unfolding starts_with
is_secret_ref value = starts_with value secret_ref_prefix

-- `is_encrypted_envelope`
unfoldable pub is_encrypted_envelope : List ℕ → Bool
unfolding starts_with
is_encrypted_envelope value = starts_with value envelope_prefix

module _ (lib : Cipher) where
  -- The Base64 form of a key, if it has the length of one.
  unfoldable pub decoded_key : List ℕ → Option (List ℕ)
  decoded_key raw = elim (lib.base64_decode raw) [
    | none ↦ none
    | some key ↦ if length key == key_len then some key else none
  ]

  -- `decode_master_key`, of a text given by its characters
  unfoldable pub decode_master_key : List ℕ → Result CryptoError (List ℕ)
  unfolding decoded_key utf8
  decode_master_key text =
      let raw : List ℕ = utf8 (trim text) in
      if is_empty raw then err invalid_master_key else elim (decoded_key raw) [
        | some key ↦ ok key
        | none ↦ if length raw == key_len then ok raw else err invalid_master_key
      ]

  -- `encrypt_secret`, at the nonce that was drawn
  unfoldable pub encrypt_secret : List ℕ → List ℕ → List ℕ → Result CryptoError (List ℕ)
  encrypt_secret nonce master_key plaintext = do
    fail_if (not (lib.accepts master_key)) invalid_master_key
    ciphertext ← ok_or (lib.seal master_key nonce plaintext) encryption
    ok (envelope_prefix ++ lib.base64_encode (nonce ++ ciphertext))

  -- `decrypt_secret` once the prefix is gone.
  unfoldable pub decrypt_payload : List ℕ → List ℕ → Result CryptoError (List ℕ)
  decrypt_payload master_key payload = do
    packed ← ok_or (lib.base64_decode payload) malformed
    fail_if (leb (length packed) nonce_len) malformed
    fail_if (not (lib.accepts master_key)) invalid_master_key
    ok_or (lib.unseal master_key (take nonce_len packed) (drop nonce_len packed)) decryption

  -- `decrypt_secret`
  unfoldable pub decrypt_secret : List ℕ → List ℕ → Result CryptoError (List ℕ)
  unfolding strip_prefix decrypt_payload
  decrypt_secret master_key encoded =
      ok_or (strip_prefix envelope_prefix encoded) malformed >>= decrypt_payload master_key

  -- `seal_if_plaintext`, at the nonce that was drawn
  unfoldable pub seal_if_plaintext : List ℕ → List ℕ → List ℕ → Result CryptoError (List ℕ)
  unfolding is_encrypted_envelope encrypt_secret
  seal_if_plaintext nonce master_key value =
      if is_encrypted_envelope value then ok value else encrypt_secret nonce master_key value

  -- The text that was decrypted.
  unfoldable pub read_utf8 : List ℕ → Result CryptoError (List ℕ)
  read_utf8 bytes = if lib.is_utf8 bytes then ok bytes else err malformed

  -- `open_secret_value`
  unfoldable pub open_secret_value : List ℕ → List ℕ → Result CryptoError (List ℕ)
  unfolding is_encrypted_envelope decrypt_secret read_utf8
  open_secret_value master_key value =
      if is_encrypted_envelope value
      then decrypt_secret master_key value >>= read_utf8
      else ok value
