-- ===== src/Crypto/Webhook.antt =====
-- Webhook signatures (crates/openpay-crypto/src/webhook.rs). A header is
-- the list of its characters, a body that of its bytes; printing and
-- parsing an `i64` are the standard library's, parameters.
pub mod RoundTrip
use vega_trix.Base.{
  ℕ, suc, ◌+◌, ◌-◌, ◌^◌, Bool, true, false, ◌||◌, Option, none, some, List, [], ◌∷◌, ◌++◌, Result,
  ok, err, ◌>>=◌, ◌>>◌, ok_or, fail_if, ltb, leb, ◌==◌, if◌then◌else◌,
}
use vega_trix.Base.Int.{ℤ, pos, negsuc}
use vega_trix.Base.Machine.{Instant, unix_timestamp}
use vega_trix.Base.Text.{trim}
use vega_trix.Domain.Ids.{strip_prefix}
use vega_trix.Crypto.Library.{Library, CryptoError, malformed, expired}
use vega_trix.Crypto.Hmac.{hmac_sha256_hex, verify_hmac_sha256}

pub record IntText : Type 0 where
  -- `i64::to_string`
  pub to_string : ℤ → List ℕ
  -- `str::parse::<i64>`
  pub parse : List ℕ → Option ℤ

abbrev pub t_tag : List ℕ
t_tag = b't' ∷ b'=' ∷ []

abbrev pub v1_tag : List ℕ
v1_tag = b'v' ∷ b'1' ∷ b'=' ∷ []

-- The text up to a comma and the texts after it, as `str::split(',')` yields them.
unfoldable pub split_comma : List ℕ → List ℕ × List (List ℕ)
split_comma [] = ([], [])
split_comma (c ∷ s) =
    let (part, parts) = split_comma s in if c == b',' then ([], part ∷ parts) else (c ∷ part, parts)

-- `header.split(',')`
unfoldable pub pieces : List ℕ → List (List ℕ)
unfolding split_comma
pieces header = let (part, parts) = split_comma header in part ∷ parts

-- `(now_ts - ts).abs() > tolerance_secs` on 64 bits, as a release build computes it: both the
-- difference and the absolute value wrap round.
unfoldable pub outside : ℕ → ℤ → ℕ → Bool
outside now (pos t) tolerance = ltb tolerance (if leb t now then now - t else t - now)
outside now (negsuc t) tolerance =
    let distance : ℕ = now + suc t in
    if ltb distance (2 ^ 63)
    then ltb tolerance distance
    else if distance == 2 ^ 63
    then false
    else ltb tolerance (2 ^ 64 - distance)

module _ (int : IntText) where
  -- The timestamp and the signature that the loop over the parts has read.
  abbrev pub Parts : Type 0
  Parts = Option ℤ × Option (List ℕ)

  unfoldable pub read_trimmed : Parts → List ℕ → Parts
  unfolding strip_prefix
  read_trimmed (timestamp, signature) part = elim (strip_prefix t_tag part) [
    | some t ↦ (int.parse t, signature)
    | none ↦ elim (strip_prefix v1_tag part) [
      | some v ↦ (timestamp, some v)
      | none ↦ (timestamp, signature)
    ]
  ]

  -- One round of the loop.
  abbrev pub read_part : Parts → List ℕ → Parts
  read_part read part = read_trimmed read (trim part)

  unfoldable pub read_parts : Parts → List (List ℕ) → Parts
  unfolding read_trimmed
  read_parts read [] = read
  read_parts read (part ∷ parts) = read_parts (read_part read part) parts

  -- The bytes that are signed.
  abbrev pub signed : ℤ → List ℕ → List ℕ
  signed timestamp raw_body = int.to_string timestamp ++ b'.' ∷ raw_body

  module _ (lib : Library) where
    -- `sign_webhook`
    unfoldable pub sign_webhook : List ℕ → ℤ → List ℕ → Result CryptoError (List ℕ)
    sign_webhook secret timestamp raw_body = do
      sig ← hmac_sha256_hex lib secret (signed timestamp raw_body)
      ok ((t_tag ++ int.to_string timestamp) ++ b',' ∷ (v1_tag ++ sig))

    -- `verify_webhook` once the header is read.
    unfoldable pub verify_read :
        List ℕ → Parts → List ℕ → Instant → ℕ → Result CryptoError (Unit {0})
    verify_read secret (timestamp, signature) raw_body now tolerance = do
      ts ← ok_or timestamp malformed
      sig ← ok_or signature malformed
      fail_if (outside (unix_timestamp now) ts tolerance) expired
      verify_hmac_sha256 lib secret (signed ts raw_body) sig

    -- `verify_webhook`
    unfoldable pub verify_webhook :
        List ℕ → List ℕ → List ℕ → Instant → ℕ → Result CryptoError (Unit {0})
    unfolding verify_read read_parts pieces
    verify_webhook secret header raw_body now tolerance =
        verify_read secret (read_parts (none, none) (pieces header)) raw_body now tolerance
