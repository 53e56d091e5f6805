-- ===== src/Crypto/Qr/Verify.antt =====
-- Which tokens pass: those that were signed with the secret, before they expire
-- (crates/openpay-crypto/src/qr.rs, hmac_util.rs).
use vega_trix.Base.{
  ℕ, ◌≡◌, refl, ◌≤◌, ◌<◌, Bool, true, not, some, List, [], ◌∷◌, ◌++◌, ok, err, arith, all, ◌==◌,
  ltb, ◌∙◌, ap, bind-ok, ok_or, ok_or-ok, fail_if-ok,
}
use vega_trix.Base.Machine.{Instant, unix_timestamp}
use vega_trix.Base.Text.{trim}
use vega_trix.Crypto.Library.{Library, QrClaims, expired, malformed, invalid_key}
use vega_trix.Crypto.Hmac.{hmac_sha256_hex, verify_hmac_sha256, check_tag_iff}
use vega_trix.Crypto.Qr.{split_dot, encode, verify_parts, parse_and_verify_qr_token}

abbrev pub no_dot : List ℕ → Bool
no_dot = all (λ c. not (c == b'.'))

split_dot-append : (s t : List ℕ) → no_dot s ≡ true → split_dot (s ++ b'.' ∷ t) ≡ some (s, t)
unfolding split_dot
split_dot-append [] t h = ground arith
split_dot-append (c ∷ s) t h = ground (arith, split_dot-append s t)

-- What the dependencies promise for one payload and its tag.
pub record Codes (lib : Library) (secret : List ℕ) (claims : QrClaims) : Type 0 where
  pub payload : List ℕ
  pub tag : List ℕ
  pub encodes : lib.json_encode claims ≡ some payload
  pub decodes : lib.json_decode payload ≡ some claims
  pub base64 : lib.base64_decode (lib.base64_encode payload) ≡ some payload
  pub alphabet : no_dot (lib.base64_encode payload) ≡ true
  pub signs : lib.mac secret (lib.base64_encode payload) ≡ some tag
  pub hex : lib.hex_decode (lib.hex_encode tag) ≡ some tag
  pub hex_alphabet : trim (lib.hex_encode tag) ≡ lib.hex_encode tag

-- A message's own tag is accepted in its hexadecimal form.
pub verify_hmac_complete :
    (lib : Library) (secret message tag : List ℕ)
    → lib.mac secret message ≡ some tag
    → lib.hex_decode (lib.hex_encode tag) ≡ some tag
    → trim (lib.hex_encode tag) ≡ lib.hex_encode tag
    → verify_hmac_sha256 lib secret message (lib.hex_encode tag) ≡ ok tt
unfolding verify_hmac_sha256
verify_hmac_complete lib secret message tag signs hex plain =
    rw (plain, hex, signs) ((check_tag_iff tag tag).0.1 refl)

module _ (lib : Library) (secret : List ℕ) (claims : QrClaims) (c : Codes lib secret claims) where
  abbrev pub token_of : List ℕ
  token_of = lib.base64_encode c.payload ++ b'.' ∷ lib.hex_encode c.tag

  encode_lem : encode lib secret claims ≡ ok token_of
  unfolding encode hmac_sha256_hex
  encode_lem = ground (arith, c.encodes, c.signs)

  verify_own :
      verify_hmac_sha256 lib secret (lib.base64_encode c.payload) (lib.hex_encode c.tag) ≡ ok tt
  verify_own =
      verify_hmac_complete lib secret (lib.base64_encode c.payload) c.tag c.signs c.hex
        c.hex_alphabet

  -- A token that was encoded with the secret verifies back to its claims up to the second in which it
  -- expires, and is refused as expired afterwards.
  pub verify-encode :
      (now : Instant)
      → (unix_timestamp now ≤ claims.exp
          → (encode lib secret claims ≡ ok token_of)
            × (parse_and_verify_qr_token lib secret token_of now ≡ ok claims))
        × (claims.exp < unix_timestamp now
            → parse_and_verify_qr_token lib secret token_of now ≡ err expired)
  unfolding parse_and_verify_qr_token verify_parts
  verify-encode now = (
    (λ h. (encode_lem, rw (split, verify_own, c.base64, c.decodes) (ground arith))),
    (λ h. rw (split, verify_own, c.base64, c.decodes) (ground arith)),
  )
    where
      split : split_dot token_of ≡ some (lib.base64_encode c.payload, lib.hex_encode c.tag)
      split = split_dot-append (lib.base64_encode c.payload) (lib.hex_encode c.tag) c.alphabet

verify_hmac_sound :
    (lib : Library) (secret payload sig : List ℕ)
    → verify_hmac_sha256 lib secret payload sig ≡ ok tt
    → (tag : List ℕ) × (lib.mac secret payload ≡ some tag) × (lib.hex_decode (trim sig) ≡ some tag)
unfolding verify_hmac_sha256
verify_hmac_sound lib secret payload sig h =
    let (expected, e, h1) = bind-ok (ok_or (lib.hex_decode (trim sig)) malformed) _ h in
    let (actual, a, h2) = bind-ok (ok_or (lib.mac secret payload) invalid_key) _ h1 in
    let same = (check_tag_iff actual expected).0.0 h2 in
    (expected, rw (← same) (ok_or-ok _ _ a), ok_or-ok _ _ e)

-- Whatever token verifies has a payload whose tag under the secret is the one that the token carries,
-- the payload decodes to the claims that are returned, and they have not expired.
pub verify_sound :
    (lib : Library) (secret token : List ℕ) (now : Instant) (claims : QrClaims)
    → parse_and_verify_qr_token lib secret token now ≡ ok claims
    → (payload sig json tag : List ℕ) × (split_dot token ≡ some (payload, sig))
      × (lib.mac secret payload ≡ some tag)
      × (lib.hex_decode (trim sig) ≡ some tag)
      × (lib.base64_decode payload ≡ some json)
      × (lib.json_decode json ≡ some claims)
      × (unix_timestamp now ≤ claims.exp)
unfolding parse_and_verify_qr_token
verify_sound lib secret token now claims h =
    let ((payload, sig), split, h1) = bind-ok (ok_or (split_dot token) malformed) _ h in
    let (_, signed, h2) = bind-ok (verify_hmac_sha256 lib secret payload sig) _ h1 in
    let (json, decoded, h3) = bind-ok (ok_or (lib.base64_decode payload) malformed) _ h2 in
    let (c, parsed, h4) = bind-ok (ok_or (lib.json_decode json) malformed) _ h3 in
    let (alive, same) = fail_if-ok (ltb c.exp (unix_timestamp now)) expired (ok c) h4 in
    let kept : c ≡ claims = cc same in
    let found = ok_or-ok (lib.json_decode json) malformed parsed in
    let (tag, made, sent) = verify_hmac_sound lib secret payload sig signed in
    (
      payload,
      sig,
      json,
      tag,
      ok_or-ok _ _ split,
      made,
      sent,
      ok_or-ok _ _ decoded,
      found ∙ ap some kept,
      rw (← kept) (ground arith),
    )
