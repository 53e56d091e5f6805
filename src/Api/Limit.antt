-- ===== src/Api/Limit.antt =====
-- The limits on requests (crates/openpay-api/src/middleware/mod.rs). The counter in Redis is a
-- parameter: what an increment answers, if there is a connection at all.
pub mod Window
use vega_trix.Base.{
  ℕ, String, Bool, true, false, not, ◌&&◌, ◌||◌, Option, none, some, List, Result, ok, err, ltb,
  if◌then◌else◌, max,
}
use vega_trix.Base.Text.{codes}
use vega_trix.Domain.Ids.{strip_prefix}
use vega_trix.Crypto.Envelope.{starts_with}
use vega_trix.Api.Auth.{AuthLibrary, decode_as}
use vega_trix.Application.Exec.{World}

pub data LimitDecision : Type 0 where
  allowed over backend_unavailable : LimitDecision

-- What becomes of a request.
pub data Fate : Type 0 where
  run too_many_requests limiter_unavailable : Fate

-- What the increment answered: no connection, an error, or the new count.
pub data Counter : Type 0 where
  unconnected failing : Counter
  counted : ℕ → Counter

-- `enforce`
unfoldable pub enforce : ℕ → Counter → LimitDecision
enforce limit unconnected = backend_unavailable
enforce limit failing = backend_unavailable
enforce limit (counted n) = if ltb (max limit 1) n then over else allowed

-- `rate_limit`
unfoldable pub rate_limit : LimitDecision → Fate
rate_limit allowed = run
rate_limit backend_unavailable = run
rate_limit over = too_many_requests

-- `rate_limit_authenticated`
unfoldable pub rate_limit_authenticated : Bool → LimitDecision → Fate
rate_limit_authenticated production allowed = run
rate_limit_authenticated production over = too_many_requests
rate_limit_authenticated production backend_unavailable =
    if production then limiter_unavailable else run

-- The key of a counter by its parts; the text of an address is kept as it is printed.
pub data LimitKey : Type 0 where
  by_ip by_key : String → LimitKey
  by_tenant : List ℕ → LimitKey
  by_token : String → LimitKey

module _ (lib : AuthLibrary) (secret : List ℕ) (ip : String) where
  -- The key of a bearer token, at the clock of the world.
  unfoldable pub token_key : List ℕ → World → LimitKey
  token_key token w =
      if starts_with token (codes "opk_")
      then by_key (lib.sha256_hex token)
      else elim (decode_as lib "access" secret token w).0 [
        | ok claims ↦ by_tenant claims.tenant_id
        | err e ↦ by_token (lib.sha256_hex token)
      ]

  -- `merchant_limit_key`, at the Authorization header
  unfoldable pub merchant_limit_key : Option (List ℕ) → World → LimitKey
  unfolding token_key
  merchant_limit_key none w = by_ip ip
  merchant_limit_key (some header) w = elim (strip_prefix (codes "Bearer ") header) [
    | none ↦ by_ip ip
    | some token ↦ token_key token w
  ]
