-- ===== src/Tests/Callers.antt =====
-- The API on concrete inputs: callers, merchants and the store as a map.
use vega_trix.Base.{
  ℕ, ◌≤◌, ◌≡◌, ◌≢◌, ◌↔◌, refl, String, true, false, Option, none, some, List, [], ◌∷◌, ◌++◌, ok,
  err, arith, map, ◌+◌, ◌==◌, str_eq, if◌then◌else◌,
}
use vega_trix.Base.Machine.{seconds, unix_timestamp}
use vega_trix.Base.Text.{codes}
use vega_trix.Domain.Ids.{as_prefixed, parse_prefixed, strip_prefix}
use vega_trix.Domain.Status.{PaymentStatus}
use vega_trix.Domain.Payment.Moves.{Allowed, moved_to}
use vega_trix.Application.Ports.{ApiKeyRecord}
use vega_trix.Application.Exec.{World}
use vega_trix.Application.Creation.{Issuer}
use vega_trix.Application.Payments.Status.{applied, IsRefundable}
use vega_trix.Persistence.Accounts.{find_by_fingerprint}
use vega_trix.Persistence.Payments.{transition_payment}
use vega_trix.Persistence.Payments.Rows.{IsKeyed}
use vega_trix.Persistence.Payments.Refine.{Step, view, transition_payment-Step}
use vega_trix.Api.Error.{unauthorized}
use vega_trix.Api.Auth.{
  AuthContext, AuthLibrary, JwtConfig, JwtClaims, claims_of, scopes_for_role, issue_tokens,
  from_request_parts, refresh, authenticate_api_key, admit_key,
}
use vega_trix.Api.Auth.Sessions.{
  Encodes, issue_tokens-accepted, key_holder, authenticate_api_key_guard,
}
use vega_trix.Api.Merchant as Merchant
use vega_trix.Api.Merchant.{parse_payment_id, get_payment, cancel_payment, refund_payment}
use vega_trix.Api.Merchant.Ownership.{hidden, get_payment_owned, cancel_payment-foreign}
use vega_trix.Crypto.Envelope.{starts_with}
use vega_trix.Tests.Data.{coffee, shop, noon, cancel_command}
use vega_trix.Tests.Store.{shop-IsKeyed}
use vega_trix.Tests.Creations.{issuer}

-- A key of the merchant 4, who did not sell the coffee.
abbrev stranger : AuthContext
stranger = record {
  tenant_id = 7;
  merchant_id = some 4;
  actor_id = "key-4";
  role = "merchant";
  scopes = [];
}

abbrev till : Issuer
till = record issuer { uuid = record { simple = λ id. id ∷ []; parse_str = λ s. some 1 } }

abbrev pay_one : List ℕ
pay_one = codes "pay_1"

parsed_one : parse_payment_id till pay_one ≡ ok 1
unfolding parse_payment_id parse_prefixed
parsed_one = refl

get_payment_owned_example :
    (◌≡◌ {A = ℕ} 3 4
      → get_payment till stranger pay_one noon
        ≡ (ok (Merchant.view till coffee), record noon { read = 501 }))
    × (◌≢◌ {A = ℕ} 3 4
        → get_payment till stranger pay_one noon ≡ (err hidden, record noon { read = 501 }))
get_payment_owned_example =
    get_payment_owned till stranger pay_one 4 1 coffee noon parsed_one refl refl (omega arith)

cancel_payment-foreign_example :
    (Allowed PaymentStatus.pending PaymentStatus.cancelled
      → cancel_payment till stranger pay_one noon ≡ (
        ok (Merchant.view till (moved_to coffee PaymentStatus.cancelled 500)),
        applied coffee PaymentStatus.cancelled "merchant" "key-4" "payment.cancelled" noon,
      ))
    × (IsRefundable PaymentStatus.pending
        → refund_payment till stranger pay_one noon ≡ (
          ok (Merchant.view till (moved_to coffee PaymentStatus.refunded 500)),
          applied coffee PaymentStatus.refunded "merchant" "key-4" "payment.refunded" noon,
        ))
cancel_payment-foreign_example =
    cancel_payment-foreign till stranger pay_one 4 1 coffee noon parsed_one refl (ground arith) refl
      shop-IsKeyed

transition_payment-Step_example :
    let (r, db') = transition_payment cancel_command 50 none none shop in
    Step cancel_command 50 (view shop) r (view db') × IsKeyed db'.payments
transition_payment-Step_example =
    transition_payment-Step cancel_command 50 none none shop shop-IsKeyed

abbrev session : String → ℕ → JwtClaims
session typ exp = record {
  sub = "u";
  tenant_id = codes "ten_" ++ 7 ∷ [];
  role = "admin";
  typ = typ;
  exp = exp;
  iat = 0;
}

-- Tokens are their first letters.
abbrev read_token : List ℕ → Option JwtClaims
read_token [] = none
read_token (c ∷ s) =
    if c == b'a' then some (session "access" 900) else some (session "refresh" 604800)

abbrev guard : AuthLibrary
guard = record {
  uuid = record { simple = λ id. id ∷ []; parse_str = λ s. some 7 };
  sha256_hex = λ key. "digest";
  verify_secret = λ key hash. true;
  encode = λ secret claims. some (if str_eq claims.typ "access" then b'a' ∷ [] else b'r' ∷ []);
  decode = λ t secret token. read_token token;
}

abbrev secrets : JwtConfig
secrets = record { jwt_access_secret = 1 ∷ []; jwt_refresh_secret = 2 ∷ [] }

access_token :
    Encodes guard (1 ∷ []) (b'a' ∷ []) (claims_of guard "u" 7 "admin" "access" 900 (noon.clock 500))
unfolding claims_of as_prefixed starts_with strip_prefix
access_token = record { encodes = refl; decodes = λ t alive. refl; no_key = refl }

refresh_token :
    Encodes guard
      (2 ∷ [])
      (b'r' ∷ [])
      (claims_of guard "u" 7 "admin" "refresh" 604800 (noon.clock 500))
unfolding claims_of as_prefixed starts_with strip_prefix
refresh_token = record { encodes = refl; decodes = λ t alive. refl; no_key = refl }

abbrev pub user : AuthContext
user = record {
  tenant_id = 7;
  merchant_id = none;
  actor_id = "u";
  role = "admin";
  scopes = scopes_for_role "admin";
}

abbrev soon : World
soon = record noon { read = 501 }

issue_tokens-accepted_example :
    (issue_tokens guard secrets "u" 7 "admin" noon ≡ (ok (b'a' ∷ [], b'r' ∷ []), soon))
    × (unix_timestamp 500 ≤ unix_timestamp (500 + seconds 900)
        → from_request_parts guard secrets (some (codes "Bearer " ++ b'a' ∷ [])) noon
          ≡ (ok user, soon))
    × (unix_timestamp 500 ≤ unix_timestamp (500 + seconds 604800)
        → refresh guard secrets (b'r' ∷ []) noon ≡ issue_tokens guard secrets "u" 7 "admin" soon)
    × (unix_timestamp 500 ≤ unix_timestamp (500 + seconds 900)
        → ◌≡◌ {A = List ℕ} (2 ∷ []) (1 ∷ [])
        → refresh guard secrets (b'a' ∷ []) noon ≡ (err (unauthorized "wrong token type"), soon))
issue_tokens-accepted_example =
    issue_tokens-accepted guard secrets "u" "admin" 7 noon noon (b'a' ∷ []) (b'r' ∷ []) access_token
      refresh_token refl

abbrev door_key : ApiKeyRecord
door_key = record {
  id = "key-3";
  tenant_id = 7;
  merchant_id = some 3;
  name = "till";
  hash = "hash";
  fingerprint = "digest";
  scopes = "payments" ∷ [];
  revoked = false;
}

abbrev staffed : World
staffed = record noon {
  db = record shop { api_keys = record { key = door_key; created_at = 0 } ∷ [] };
}

abbrev cashier : AuthContext
cashier = record {
  tenant_id = 7;
  merchant_id = some 3;
  actor_id = "key-3";
  role = "merchant";
  scopes = map codes ("payments" ∷ []);
}

authenticate_api_key_guard_example :
    ((authenticate_api_key guard (codes "opk_1") staffed).1 ≡ staffed)
    × (((authenticate_api_key guard (codes "opk_1") staffed).0 ≡ ok cashier) ↔ (
        (key : ApiKeyRecord) × ((find_by_fingerprint "digest" staffed.db).0 ≡ ok (some key))
        × (key.revoked ≡ false)
        × (true ≡ true)
        × (cashier ≡ key_holder guard key)))
authenticate_api_key_guard_example =
    authenticate_api_key_guard guard (codes "opk_1") staffed cashier

cashier_enters : (authenticate_api_key guard (codes "opk_1") staffed).0 ≡ ok cashier
unfolding find_by_fingerprint authenticate_api_key admit_key
cashier_enters = refl
