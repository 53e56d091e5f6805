-- ===== src/Crypto/Webhook/RoundTrip.antt =====
-- Which webhook signatures pass (crates/openpay-crypto/src/webhook.rs).
use vega_trix.Base.{
  ℕ, suc, ◌+◌, ◌≤◌, ◌<◌, ◌^◌, ◌≡◌, refl, Bool, true, false, not, none, some, List, [], ◌∷◌, ◌++◌,
  ok, err, arith, all, ◌==◌,
}
use vega_trix.Base.Int.{ℤ, pos, negsuc}
use vega_trix.Base.Machine.{Instant, unix_timestamp}
use vega_trix.Base.Text.{trim}
use vega_trix.Domain.Ids.{strip_prefix}
use vega_trix.Crypto.Library.{Library, expired}
use vega_trix.Crypto.Hmac.{hmac_sha256_hex}
use vega_trix.Crypto.Qr.Verify.{verify_hmac_complete}
use vega_trix.Crypto.Webhook.{
  IntText, t_tag, v1_tag, split_comma, pieces, outside, read_trimmed, read_parts, signed,
  sign_webhook, verify_read, verify_webhook,
}

-- The second of the signature is not so long before 1970 that the distance to it leaves an i64.
abbrev pub IsNear : ℕ → ℤ → Type 0
IsNear now (pos t) = Unit
IsNear now (negsuc t) = now + suc t < 2 ^ 63

-- The clock is within the tolerance of the second of the signature.
abbrev pub IsWithin : ℕ → ℤ → ℕ → Type 0
IsWithin now (pos t) tolerance = (now ≤ t + tolerance) × (t ≤ now + tolerance)
IsWithin now (negsuc t) tolerance = now + suc t ≤ tolerance

outside_iff :
    (now : ℕ) (ts : ℤ) (tolerance : ℕ)
    → IsNear now ts
    → (IsWithin now ts tolerance → outside now ts tolerance ≡ false)
      × (¬ IsWithin now ts tolerance → outside now ts tolerance ≡ true)
unfolding outside
outside_iff now (pos t) tolerance near = (λ h. ground arith, λ h. ground arith)
outside_iff now (negsuc t) tolerance near = (λ h. ground arith, λ h. ground arith)

abbrev pub no_comma : List ℕ → Bool
no_comma = all (λ c. not (c == b','))

split_comma-append :
    (s t : List ℕ)
    → no_comma s ≡ true
    → split_comma (s ++ b',' ∷ t) ≡ (s, (split_comma t).0 ∷ (split_comma t).1)
unfolding split_comma
split_comma-append [] t h = ground arith
split_comma-append (c ∷ s) t h = ground (arith, split_comma-append s t)

split_comma_whole : (s : List ℕ) → no_comma s ≡ true → split_comma s ≡ (s, [])
unfolding split_comma
split_comma_whole [] h = refl
split_comma_whole (c ∷ s) h = ground (arith, split_comma_whole s)

-- What the dependencies promise for one timestamp and body: digits without a comma or spaces that are
-- read back, and a tag whose hexadecimal form is.
pub record Signs (int : IntText) (lib : Library) (secret : List ℕ) (ts : ℤ) (body : List ℕ)
    : Type 0 where
  pub tag : List ℕ
  pub parses : int.parse (int.to_string ts) ≡ some ts
  pub digits : no_comma (int.to_string ts) ≡ true
  pub plain : trim (t_tag ++ int.to_string ts) ≡ t_tag ++ int.to_string ts
  pub signs : lib.mac secret (signed int ts body) ≡ some tag
  pub hex : lib.hex_decode (lib.hex_encode tag) ≡ some tag
  pub hex_digits : no_comma (lib.hex_encode tag) ≡ true
  pub hex_plain : trim (lib.hex_encode tag) ≡ lib.hex_encode tag
  pub part_plain : trim (v1_tag ++ lib.hex_encode tag) ≡ v1_tag ++ lib.hex_encode tag

module _ (int : IntText) (lib : Library) (secret : List ℕ) (ts : ℤ) (body : List ℕ)
    (c : Signs int lib secret ts body) where
  abbrev pub header_of : List ℕ
  header_of = (t_tag ++ int.to_string ts) ++ b',' ∷ (v1_tag ++ lib.hex_encode c.tag)

  sign_webhook_lem : sign_webhook int lib secret ts body ≡ ok header_of
  unfolding sign_webhook hmac_sha256_hex
  sign_webhook_lem = ground (arith, c.signs)

  pieces_of : pieces header_of ≡ (t_tag ++ int.to_string ts) ∷ (v1_tag ++ lib.hex_encode c.tag) ∷ []
  unfolding pieces
  pieces_of = ground (
    arith,
    c.digits,
    c.hex_digits,
    split_comma-append (t_tag ++ int.to_string ts) (v1_tag ++ lib.hex_encode c.tag),
    split_comma_whole (v1_tag ++ lib.hex_encode c.tag),
  )

  read_header :
      read_parts int (none, none) (pieces header_of) ≡ (some ts, some (lib.hex_encode c.tag))
  unfolding read_parts read_trimmed strip_prefix
  read_header = rw (pieces_of, c.plain, c.part_plain, c.parses) refl

  -- A body signed at a second verifies under the same secret as long as the clock is at most the tolerance
  -- before or after that second, and is refused as expired otherwise. A second before 1970 must be less
  -- than 2^63 seconds away.
  pub verify_webhook-sign_webhook :
      (now : Instant) (tolerance : ℕ)
      → IsNear (unix_timestamp now) ts
      → (sign_webhook int lib secret ts body ≡ ok header_of)
        × (IsWithin (unix_timestamp now) ts tolerance
            → verify_webhook int lib secret header_of body now tolerance ≡ ok tt)
        × (¬ IsWithin (unix_timestamp now) ts tolerance
            → verify_webhook int lib secret header_of body now tolerance ≡ err expired)
  unfolding verify_webhook verify_read
  verify_webhook-sign_webhook now tolerance near =
      let (inside, far) = outside_iff (unix_timestamp now) ts tolerance near in
      (
        sign_webhook_lem,
        (λ h.
            rw (read_header, inside h)
              (verify_hmac_complete lib secret (signed int ts body) c.tag c.signs c.hex
                c.hex_plain)),
        (λ h. rw (read_header, far h) refl),
      )
