-- ===== src/Application/Qr/Replay.antt =====
-- A consumed token is refused from then on (crates/openpay-application/src/qr.rs).
use vega_trix.Base.{
  ◌≢◌, ℕ, ◌≡◌, ap, sym, ◌∙◌, true, false, Option, some, none, List, [], ◌∷◌, ◌++◌, ok, arith,
  any-more, Bool-cases, Result-cases, inl, inr,
}
use vega_trix.Base.Machine.{Uuid, Instant}
use vega_trix.Base.Text.{text_eq, text_eq_refl}
use vega_trix.Domain.Ids.{UuidText}
use vega_trix.Crypto.Library.{Library, QrClaims}
use vega_trix.Crypto.Qr.{split_dot, parse_and_verify_qr_token}
use vega_trix.Crypto.Qr.Verify.{verify_sound}
use vega_trix.Application.Exec.{World}
use vega_trix.Application.Claims.{VerifiedQr, check_claims}
use vega_trix.Application.Qr.{consume_nonce, verify_qr_token, admit}
use vega_trix.Persistence.Db.{NonceRow}
use vega_trix.Persistence.Nonces.{is_used, remember_nonce}

used_after :
    (nonce : List ℕ) (row : NonceRow) (rows : List NonceRow)
    → text_eq row.nonce nonce ≡ true
    → is_used nonce (rows ++ row ∷ []) ≡ true
used_after nonce row [] same = ground arith
used_after nonce row (r ∷ rows) same = ground (arith, used_after nonce row rows same)

first_or : List ℕ → Option (List ℕ × List ℕ) → List ℕ
first_or d (some (p, s)) = p
first_or d none = d

agree :
    (lib : Library) (p s p' s' j j' : List ℕ) (c c' : QrClaims) (parts : Option (List ℕ × List ℕ))
    → parts ≡ some (p, s)
    → parts ≡ some (p', s')
    → lib.base64_decode p ≡ some j
    → lib.base64_decode p' ≡ some j'
    → lib.json_decode j ≡ some c
    → lib.json_decode j' ≡ some c'
    → c ≡ c'
unfolding first_or
agree lib p s p' s' j j' c c' parts h h' d d' e e' =
    let same_payload : p ≡ p' = ap (λ (o : Option (List ℕ × List ℕ)). first_or p o) (sym h ∙ h') in
    let same_json : j ≡ j' = cc (sym d ∙ ap lib.base64_decode same_payload ∙ d') in
    cc (sym e ∙ ap lib.json_decode same_json ∙ e')

-- The claims of a token do not depend on when it is read.
same_claims :
    (lib : Library) (secret token : List ℕ) (t t' : Instant) (c c' : QrClaims)
    → parse_and_verify_qr_token lib secret token t ≡ ok c
    → parse_and_verify_qr_token lib secret token t' ≡ ok c'
    → c ≡ c'
same_claims lib secret token t t' c c' h h' =
    let (payload, sig, json, tag, split, _, _, decoded, parsed, _) =
      verify_sound lib secret token t c h in
    let (payload', sig', json', tag', split', _, _, decoded', parsed', _) =
      verify_sound lib secret token t' c' h' in
    agree lib payload sig payload' sig' json json' c c' (split_dot token) split split' decoded
      decoded' parsed parsed'

admit_used :
    (uuid : UuidText) (claims : QrClaims) (payment merchant : Option Uuid) (w : World)
    {v : VerifiedQr}
    → (admit uuid claims payment merchant true w).0 ≡ ok v
    → (is_used claims.nonce w.db.nonces ≡ false)
      × (is_used claims.nonce (admit uuid claims payment merchant true w).1.db.nonces ≡ true)
unfolding admit consume_nonce remember_nonce
admit_used uuid claims payment merchant w h =
    elim (Result-cases (check_claims uuid claims payment merchant)) [
      | inr (e, bad) ↦ absurd (ground (arith, bad, h))
      | inl (v, good) ↦ elim (Bool-cases (is_used claims.nonce w.db.nonces)) [
        | inl used ↦ absurd (ground (arith, good, used, h))
        | inr fresh ↦ (
          fresh,
          rw (good, fresh) (used_after claims.nonce _ w.db.nonces (text_eq_refl claims.nonce)),
        )
      ]
    ]

verify_used :
    (lib : Library) (uuid : UuidText) (secret token : List ℕ) (t : Instant)
    (payment merchant : Option Uuid) (w : World) {v : VerifiedQr}
    → (verify_qr_token lib uuid secret token t payment merchant true w).0 ≡ ok v
    → (c : QrClaims) × (parse_and_verify_qr_token lib secret token t ≡ ok c)
      × (is_used c.nonce w.db.nonces ≡ false)
      × (is_used c.nonce
            (verify_qr_token lib uuid secret token t payment merchant true w).1.db.nonces
          ≡ true)
unfolding verify_qr_token
verify_used lib uuid secret token t payment merchant w h =
    elim (Result-cases (parse_and_verify_qr_token lib secret token t)) [
      | inr (e, bad) ↦ absurd (ground (arith, bad, h))
      | inl (c, good) ↦
          let (fresh, used) =
            admit_used uuid c payment merchant w (rw (good, verify_qr_token) at h) in
          (c, good, fresh, rw good used)
    ]

-- A token that was verified and consumed is never verified and consumed again: on tables whose nonces are
-- those that the first call left and any others consumed since, a later call fails, at whatever time
-- and whatever payment and merchant it expects.
pub verify_qr_token_once :
    (lib : Library) (uuid : UuidText) (secret token : List ℕ) (t t' : Instant)
    (payment merchant payment' merchant' : Option Uuid) (w later : World) (more : List NonceRow)
    (v v' : VerifiedQr)
    → (verify_qr_token lib uuid secret token t payment merchant true w).0 ≡ ok v
    → later.db.nonces
      ≡ (verify_qr_token lib uuid secret token t payment merchant true w).1.db.nonces ++ more
    → (verify_qr_token lib uuid secret token t' payment' merchant' true later).0 ≢ ok v'
verify_qr_token_once lib uuid secret token t t' payment merchant payment' merchant' w later more v
      v' first kept second =
    let (c, parsed, _, used) = verify_used lib uuid secret token t payment merchant w first in
    let (c', parsed', fresh, _) =
      verify_used lib uuid secret token t' payment' merchant' later second in
    let same = same_claims lib secret token t t' c c' parsed parsed' in
    let still : is_used c'.nonce later.db.nonces ≡ true =
      rw (← same, kept) (any-more (λ row. text_eq row.nonce c.nonce) _ more used) in
    cc (sym still ∙ fresh)
