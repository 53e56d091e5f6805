-- ===== src/Tests/Tokens.antt =====
-- A token that is presented twice.
use vega_trix.Base.{ℕ, true, false, ◌≢◌, refl, none, some, List, [], ◌∷◌, ◌++◌, ok}
use vega_trix.Base.Text.{trim, is_whitespace}
use vega_trix.Crypto.Hmac.{verify_hmac_sha256, check_tag}
use vega_trix.Persistence.Nonces.{remember_nonce}
use vega_trix.Domain.Ids.{UuidText, parse_prefixed}
use vega_trix.Crypto.Library.{Library, QrClaims}
use vega_trix.Crypto.Qr.{parse_and_verify_qr_token}
use vega_trix.Application.Claims.{VerifiedQr, check_claims}
use vega_trix.Application.Qr.{verify_qr_token}
use vega_trix.Application.Qr.Replay.{verify_qr_token_once}
use vega_trix.Application.Exec.{World}
use vega_trix.Application.Creation.{Issuer}
use vega_trix.Application.Authorize.{already_terminal}
use vega_trix.Api.Public.{AuthorizeBody, verified, public_authorize}
use vega_trix.Api.Merchant.{parse_payment_id}
use vega_trix.Api.Public.Once.{public_authorize_once}
use vega_trix.Persistence.Db.{NonceRow}
use vega_trix.Tests.Creations.{issuer}
use vega_trix.Tests.Data.{coffee, noon, env}

abbrev one_letter : UuidText
one_letter = record { simple = λ id. id ∷ []; parse_str = λ s. some 66 }

abbrev ticket_claims : QrClaims
ticket_claims = record {
  payment_id = b'p' ∷ b'a' ∷ b'y' ∷ b'_' ∷ b'B' ∷ [];
  tenant_id = b't' ∷ b'e' ∷ b'n' ∷ b'_' ∷ b'B' ∷ [];
  merchant_id = b'm' ∷ b'c' ∷ b'h' ∷ b'_' ∷ b'B' ∷ [];
  exp = 100;
  nonce = b'n' ∷ [];
  v = 1;
}

abbrev pub toy : Library
toy = record {
  mac = λ key message. some (b'k' ∷ []);
  hex_encode = λ s. s;
  hex_decode = λ s. some s;
  base64_encode = λ s. s;
  base64_decode = λ s. some s;
  json_encode = λ c. some (b'j' ∷ []);
  json_decode = λ s. some ticket_claims;
}

abbrev ticket : List ℕ
ticket = b'j' ∷ b'.' ∷ b'k' ∷ []

abbrev admitted : VerifiedQr
admitted = record { payment_id = 66; tenant_id = 66; merchant_id = 66; nonce = b'n' ∷ [] }

-- The world after a first call, and after another token was consumed.
abbrev stamped : World
stamped = (verify_qr_token toy one_letter [] ticket 5 none none true noon).1

abbrev other_nonce : NonceRow
other_nonce = record { nonce = b'o' ∷ []; consumed_at = 6; expires_at = 100 }

abbrev crowded : World
crowded = record stamped {
  db = record stamped.db { nonces = stamped.db.nonces ++ other_nonce ∷ [] };
}

verify_qr_token_once_example :
    (verify_qr_token toy one_letter [] ticket 6 (some 66) none true crowded).0 ≢ ok admitted
unfolding verify_qr_token check_claims parse_and_verify_qr_token verify_hmac_sha256 check_tag trim
    is_whitespace parse_prefixed remember_nonce
verify_qr_token_once_example =
    verify_qr_token_once toy one_letter [] ticket 5 6 none none (some 66) none noon crowded
      (other_nonce ∷ []) admitted admitted refl refl

abbrev kiosk : Issuer
kiosk = record issuer { crypto = toy; uuid = one_letter; qr_secret = [] }

abbrev scan : AuthorizeBody
scan = record { token = ticket; decision = "approve"; scenario = none }

-- The world after a call of the endpoint: the token passed, and the call failed, since there is no
-- payment of that name; then another token was consumed.
abbrev scanned : World
scanned = (public_authorize kiosk env ticket_claims.payment_id scan noon).1

abbrev busy : World
busy = record scanned { db = record scanned.db { nonces = scanned.db.nonces ++ other_nonce ∷ [] } }

public_authorize_once_example :
    (public_authorize kiosk env ticket_claims.payment_id scan busy).0
    ≢ ok (record {
      payment = coffee;
      connector_key = "bank";
      explanation = already_terminal;
      idempotent_replay = false;
    })
unfolding parse_payment_id verified verify_qr_token check_claims parse_and_verify_qr_token
    verify_hmac_sha256 check_tag trim is_whitespace parse_prefixed remember_nonce
public_authorize_once_example =
    public_authorize_once kiosk env 66 ticket_claims.payment_id ticket_claims.payment_id scan scan
      noon busy (other_nonce ∷ []) admitted _ refl refl refl refl
