-- ===== src/Crypto/Hmac.antt =====
-- Signing and the comparison in constant time (crates/openpay-crypto/src/hmac_util.rs).
use Prim.Native.Nat.{bit_or, bit_xor}
use vega_trix.Base.{
  ℕ, ◌≡◌, refl, ◌≢◌, ◌↔◌, not, List, [], ◌∷◌, Result, ok, err, ◌>>=◌, ok_or, length, ◌==◌, arith,
  if◌then◌else◌,
}
use vega_trix.Base.Bits.{bit_xor_zero, bit_xor_self, bit_or_zero}
use vega_trix.Base.Text.{trim}
use vega_trix.Crypto.Library.{Library, CryptoError, invalid_key, malformed, signature_mismatch}

-- The loop `diff |= a ^ b` over the zipped bytes.
fold_diff : ℕ → List ℕ → List ℕ → ℕ
fold_diff diff (a ∷ s) (b ∷ t) = fold_diff (bit_or diff (bit_xor a b)) s t
fold_diff diff _ _ = diff

-- The two tests of `verify_hmac_sha256` on the tags.
unfoldable pub check_tag : List ℕ → List ℕ → Result CryptoError (Unit {0})
unfolding fold_diff
check_tag actual expected =
    if not (length actual == length expected)
    then err signature_mismatch
    else if fold_diff 0 actual expected == 0
    then ok tt
    else err signature_mismatch

fold_diff_zero :
    (diff : ℕ) (s t : List ℕ) → length s ≡ length t → fold_diff diff s t ≡ 0 → (diff ≡ 0) × (s ≡ t)
unfolding fold_diff
fold_diff_zero diff [] [] e h = (h, refl)
fold_diff_zero diff [] (b ∷ t) e h = absurd (omega arith)
fold_diff_zero diff (a ∷ s) [] e h = absurd (omega arith)
fold_diff_zero diff (a ∷ s) (b ∷ t) e h =
    let (d, rest) = fold_diff_zero (bit_or diff (bit_xor a b)) s t (omega arith) h in
    let (d0, x0) = bit_or_zero diff (bit_xor a b) d in (d0, cc (rest, bit_xor_zero a b x0))

fold_diff_self : (s : List ℕ) → fold_diff 0 s s ≡ 0
unfolding fold_diff
fold_diff_self [] = refl
fold_diff_self (a ∷ s) = rw (bit_xor_self a) (fold_diff_self s)

-- The comparison accepts exactly the equal tags, and refuses all others as a mismatch.
pub check_tag_iff :
    (actual expected : List ℕ)
    → ((check_tag actual expected ≡ ok tt) ↔ (actual ≡ expected))
      × (actual ≢ expected → check_tag actual expected ≡ err signature_mismatch)
unfolding check_tag
check_tag_iff actual expected =
    (((λ h. accepted h), λ e. rw e (ground (arith, fold_diff_self expected))), λ ne. refused ne)
  where
    accepted : check_tag actual expected ≡ ok tt → actual ≡ expected
    accepted h = (fold_diff_zero 0 actual expected (ground arith) (ground arith)).1

    refused : actual ≢ expected → check_tag actual expected ≡ err signature_mismatch
    refused ne = ground (
      arith,
      λ (e : length actual ≡ length expected) (z : fold_diff 0 actual expected ≡ 0).
          ne (fold_diff_zero 0 actual expected e z).1,
    )

module _ (lib : Library) where
  -- `hmac_sha256`
  unfoldable pub hmac_sha256 : List ℕ → List ℕ → Result CryptoError (List ℕ)
  hmac_sha256 secret message = ok_or (lib.mac secret message) invalid_key

  -- `hmac_sha256_hex`
  unfoldable pub hmac_sha256_hex : List ℕ → List ℕ → Result CryptoError (List ℕ)
  unfolding hmac_sha256
  hmac_sha256_hex secret message = do tag ← hmac_sha256 secret message; ok (lib.hex_encode tag)

  -- `verify_hmac_sha256`
  unfoldable pub verify_hmac_sha256 : List ℕ → List ℕ → List ℕ → Result CryptoError (Unit {0})
  unfolding hmac_sha256
  verify_hmac_sha256 secret message expected_hex = do
    expected ← ok_or (lib.hex_decode (trim expected_hex)) malformed
    actual ← hmac_sha256 secret message
    check_tag actual expected
