-- ===== src/Tests/Values.antt =====
-- The properties of money, identifiers, tags and tokens on concrete texts.
use vega_trix.Base.{◌≡◌, refl, ◌≤◌, ◌<◌, ℕ, some, ok, err, arith, List, [], ◌∷◌}
use vega_trix.Base.Text.{trim, is_whitespace}
use vega_trix.Base.Machine.{unix_timestamp}
use vega_trix.Domain.Ids.{UuidText}
use vega_trix.Crypto.Library.{Library, QrClaims, expired}
use vega_trix.Crypto.Qr.{encode, split_dot, parse_and_verify_qr_token}
use vega_trix.Crypto.Qr.Verify.{Codes, verify-encode, verify_sound}

-- UUIDs that print as one character.
abbrev one_letter : UuidText
one_letter = record { simple = λ id. id ∷ []; parse_str = λ s. some 66 }

abbrev sent : List ℕ
sent = 1 ∷ []

abbrev made : List ℕ
made = 2 ∷ []

abbrev claims : QrClaims
claims = record {
  payment_id = [];
  tenant_id = [];
  merchant_id = [];
  exp = 100;
  nonce = b'n' ∷ [];
  v = 1;
}

-- A toy codec: every document is the same, and a tag is the message behind the key.
abbrev toy : Library
toy = record {
  mac = λ key message. some (b'k' ∷ []);
  hex_encode = λ s. s;
  hex_decode = λ s. some s;
  base64_encode = λ s. s;
  base64_decode = λ s. some s;
  json_encode = λ c. some (b'j' ∷ []);
  json_decode = λ s. some claims;
}

trim_tag : trim (b'k' ∷ []) ≡ b'k' ∷ []
unfolding trim is_whitespace
trim_tag = refl

abbrev toy_codes : Codes toy [] claims
toy_codes = record {
  payload = b'j' ∷ [];
  tag = b'k' ∷ [];
  encodes = refl;
  decodes = refl;
  base64 = refl;
  alphabet = refl;
  signs = refl;
  hex = refl;
  hex_alphabet = trim_tag;
}

abbrev token : List ℕ
token = b'j' ∷ b'.' ∷ b'k' ∷ []

verify-encode_example :
    (unix_timestamp 5 ≤ 100
      → (encode toy [] claims ≡ ok token) × (parse_and_verify_qr_token toy [] token 5 ≡ ok claims))
    × (100 < unix_timestamp 5 → parse_and_verify_qr_token toy [] token 5 ≡ err expired)
verify-encode_example = verify-encode toy [] claims toy_codes 5

verify_sound_example :
    (payload sig json tag : List ℕ) × (split_dot token ≡ some (payload, sig))
    × (toy.mac [] payload ≡ some tag)
    × (toy.hex_decode (trim sig) ≡ some tag)
    × (toy.base64_decode payload ≡ some json)
    × (toy.json_decode json ≡ some claims)
    × (unix_timestamp 5 ≤ claims.exp)
unfolding parse_and_verify_qr_token
verify_sound_example =
    verify_sound toy [] token 5 claims
      ((verify-encode toy [] claims toy_codes 5).0 (ground arith)).1
