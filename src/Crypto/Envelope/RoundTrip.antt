-- ===== src/Crypto/Envelope/RoundTrip.antt =====
-- Secrets that are sealed open again (crates/openpay-crypto/src/envelope.rs).
use vega_trix.Base.{
  ℕ, ◌≡◌, refl, true, false, some, List, ◌++◌, ok, arith, length, take, drop, take-append,
  drop-append, length-append, ◌<◌,
}
use vega_trix.Crypto.Envelope.{
  Cipher, is_encrypted_envelope, encrypt_secret, decrypt_payload, seal_if_plaintext, read_utf8,
  open_secret_value, envelope_prefix, nonce_len,
}

-- What the dependencies promise for one key, nonce and text: the authenticated cipher opens what it
-- sealed, Base64 decodes what it encoded.
pub record Seals (lib : Cipher) (key nonce text : List ℕ) : Type 0 where
  pub sealed : List ℕ
  pub accepted : lib.accepts key ≡ true
  pub drawn : length nonce ≡ nonce_len
  pub seals : lib.seal key nonce text ≡ some sealed
  pub tagged : 0 < length sealed
  pub unseals : lib.unseal key nonce sealed ≡ some text
  pub base64 : lib.base64_decode (lib.base64_encode (nonce ++ sealed)) ≡ some (nonce ++ sealed)
  pub utf8 : lib.is_utf8 text ≡ true

module _ (lib : Cipher) (key nonce text : List ℕ) (c : Seals lib key nonce text) where
  abbrev pub envelope_of : List ℕ
  envelope_of = envelope_prefix ++ lib.base64_encode (nonce ++ c.sealed)

  split_packed :
      (take nonce_len (nonce ++ c.sealed) ≡ nonce) × (drop nonce_len (nonce ++ c.sealed) ≡ c.sealed)
  split_packed = rw (← c.drawn) (take-append nonce c.sealed, drop-append nonce c.sealed)

  decrypt_payload_lem : decrypt_payload lib key (lib.base64_encode (nonce ++ c.sealed)) ≡ ok text
  unfolding decrypt_payload
  decrypt_payload_lem = ground (
    arith,
    c.base64,
    c.accepted,
    c.unseals,
    c.drawn,
    c.tagged,
    split_packed,
    length-append nonce c.sealed,
  )

  -- A secret that is not an envelope yet is sealed under the master key, and what was sealed opens to the
  -- secret; sealing it a second time changes nothing.
  pub open_secret_value-seal_if_plaintext :
      is_encrypted_envelope text ≡ false
      → (seal_if_plaintext lib nonce key text ≡ ok envelope_of)
        × (open_secret_value lib key envelope_of ≡ ok text)
        × ((other : List ℕ) → seal_if_plaintext lib other key envelope_of ≡ ok envelope_of)
  unfolding seal_if_plaintext encrypt_secret open_secret_value read_utf8
  open_secret_value-seal_if_plaintext plain = (
    ground (arith, plain, c.accepted, c.seals),
    ground (arith, decrypt_payload_lem, c.utf8),
    λ other. refl,
  )
