-- ===== src/Api/Auth.antt =====
-- Who calls (crates/openpay-api/src/auth.rs and the two guards of admin.rs). JSON web tokens, Argon2 and
-- the digest of a key are the crates jsonwebtoken, argon2 and sha2, parameters.
pub mod Sessions
use vega_trix.Base.{
  ℕ, ◌+◌, String, Bool, true, false, not, ◌||◌, Option, none, some, List, [], ◌∷◌, map, Result, ok,
  err, ok_or, map_err, any, is_empty, str_eq, if◌then◌else◌,
}
use vega_trix.Base.Machine.{Uuid, Instant, seconds, unix_timestamp}
use vega_trix.Base.Text.{codes, text_eq, to_lower, trim}
use vega_trix.Domain.Ids.{UuidText, strip_prefix, as_prefixed, parse_prefixed}
use vega_trix.Crypto.Qr.{ten}
use vega_trix.Crypto.Envelope.{starts_with}
use vega_trix.Application.Ports.{ApiKeyRecord, AuthUser}
use vega_trix.Application.Exec.{query, now}
use vega_trix.Persistence.Accounts.{find_by_fingerprint, find_by_email}
use vega_trix.Api.Error.{ApiError, problem, unauthorized, said}
use vega_trix.Api.Http.{Http, pure, raise, lift, service, ◌>>=◌, ◌>>◌}

pub record AuthContext : Type 0 where
  pub tenant_id : Uuid
  pub merchant_id : Option Uuid
  pub actor_id : String
  pub role : String
  pub scopes : List (List ℕ)

pub record JwtClaims : Type 0 where
  pub sub : String
  pub tenant_id : List ℕ
  pub role : String
  pub typ : String
  pub exp : ℕ
  pub iat : ℕ

pub record AuthLibrary : Type 0 where
  pub uuid : UuidText
  -- `sha256_hex` of a key
  pub sha256_hex : List ℕ → String
  -- `verify_secret`; an unreadable hash counts as a wrong one
  pub verify_secret : List ℕ → String → Bool
  -- `jsonwebtoken::encode` and `decode` at a secret; `decode` also compares `exp` with the clock
  pub encode : List ℕ → JwtClaims → Option (List ℕ)
  pub decode : Instant → List ℕ → List ℕ → Option JwtClaims

-- The two secrets of `AppConfig`.
pub record JwtConfig : Type 0 where
  pub jwt_access_secret : List ℕ
  pub jwt_refresh_secret : List ℕ

-- `scopes_for_role`
unfoldable pub scopes_for_role : String → List (List ℕ)
scopes_for_role role =
    let name : List ℕ = map to_lower (trim (codes role)) in if is_empty name then [] else name ∷ []

-- `require_admin`
unfoldable pub require_admin : AuthContext → Result ApiError (Unit {0})
require_admin auth =
    if str_eq auth.role "admin" || any (λ s. text_eq s (codes "admin")) auth.scopes
    then ok tt
    else err (problem 403 "forbidden" "Forbidden" (said "admin role required"))

module _ (lib : AuthLibrary) where
  -- The claims of the two tokens that are issued.
  unfoldable pub claims_of : String → Uuid → String → String → ℕ → Instant → JwtClaims
  claims_of user tenant role typ lifetime t = record {
    sub = user;
    tenant_id = as_prefixed lib.uuid ten tenant;
    role = role;
    typ = typ;
    exp = unix_timestamp (t + seconds lifetime);
    iat = unix_timestamp t;
  }

  abbrev no_token : ApiError
  no_token = problem 500 "auth" "Auth error" (said "token")

  -- `issue_tokens`
  unfoldable pub issue_tokens : JwtConfig → String → Uuid → String → Http (List ℕ × List ℕ)
  issue_tokens config user tenant role = do
    t ← service now
    access ← lift (
        ok_or (lib.encode config.jwt_access_secret (claims_of user tenant role "access" 900 t))
          no_token)
    refresh ← lift (
        ok_or (lib.encode config.jwt_refresh_secret (claims_of user tenant role "refresh" 604800 t))
          no_token)
    pure (access, refresh)

  -- `decode_access` and `decode_refresh`, which differ in the type that they ask for
  unfoldable pub decode_as : String → List ℕ → List ℕ → Http JwtClaims
  decode_as typ secret token = do
    t ← service now
    claims ← lift (ok_or (lib.decode t secret token) (unauthorized "invalid token"))
    if str_eq claims.typ typ then pure claims else raise (unauthorized "wrong token type")

  -- What `authenticate_api_key` makes of the record that it found.
  unfoldable pub admit_key : List ℕ → ApiKeyRecord → Result ApiError AuthContext
  admit_key token key =
      if key.revoked
      then err (unauthorized "revoked key")
      else if not (lib.verify_secret token key.hash)
      then err (unauthorized "invalid key")
      else ok (record {
        tenant_id = key.tenant_id;
        merchant_id = key.merchant_id;
        actor_id = key.id;
        role = "merchant";
        scopes = map codes key.scopes;
      })

  -- `authenticate_api_key`
  unfoldable pub authenticate_api_key : List ℕ → Http AuthContext
  authenticate_api_key token = do
    found ← service (query (find_by_fingerprint (lib.sha256_hex token)))
    key ← lift (ok_or found (unauthorized "unknown key"))
    lift (admit_key token key)

  abbrev parse_tenant : List ℕ → Result ApiError Uuid
  parse_tenant text = map_err (λ e. unauthorized "tenant") (parse_prefixed lib.uuid ten text)

  -- The caller that a token of a session names.
  unfoldable pub authenticate_user : JwtConfig → List ℕ → Http AuthContext
  authenticate_user config token = do
    claims ← decode_as "access" config.jwt_access_secret token
    tenant ← lift (parse_tenant claims.tenant_id)
    pure (record {
      tenant_id = tenant;
      merchant_id = none;
      actor_id = claims.sub;
      role = claims.role;
      scopes = scopes_for_role claims.role;
    })

  -- `from_request_parts`, at the Authorization header
  unfoldable pub from_request_parts : JwtConfig → Option (List ℕ) → Http AuthContext
  from_request_parts config authorization = do
    header ← lift (ok_or authorization (unauthorized "missing bearer"))
    token ← lift (ok_or (strip_prefix (codes "Bearer ") header) (unauthorized "bearer"))
    if starts_with token (codes "opk_")
        then authenticate_api_key token
        else authenticate_user config token

  -- `login`: the pair of tokens; the other fields of the answer are constants of the server
  unfoldable pub login : JwtConfig → String → List ℕ → Http (List ℕ × List ℕ)
  login config email password = do
    found ← service (query (find_by_email email))
    user ← lift (ok_or found (unauthorized "invalid credentials"))
    if not (lib.verify_secret password user.password_hash)
        then raise (unauthorized "invalid credentials")
        else issue_tokens config user.id user.tenant_id user.role

  -- `refresh`
  unfoldable pub refresh : JwtConfig → List ℕ → Http (List ℕ × List ℕ)
  refresh config token = do
    claims ← decode_as "refresh" config.jwt_refresh_secret token
    tenant ← lift (parse_tenant claims.tenant_id)
    issue_tokens config claims.sub tenant claims.role
