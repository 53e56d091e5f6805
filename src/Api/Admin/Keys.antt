-- ===== src/Api/Admin/Keys.antt =====
-- The API keys of a tenant (crates/openpay-api/src/admin.rs, crates/openpay-crypto/src/secrets.rs).
pub mod Cycle
pub mod Revocation
use vega_trix.Base.{
  ℕ, String, Bool, true, false, ◌||◌, Option, none, some, List, [], ◌∷◌, Result, ok, err, ok_or,
  length, is_empty, ltb, if◌then◌else◌,
}
use vega_trix.Base.Machine.{Uuid}
use vega_trix.Base.Text.{codes, as_bytes, trim_text}
use vega_trix.Domain.Ids.{as_prefixed, parse_prefixed}
use vega_trix.Application.Ports.{ApiKeyRecord}
use vega_trix.Application.Exec.{query, draw, now}
use vega_trix.Persistence.Accounts as Accounts
use vega_trix.Persistence.Settings as Settings
use vega_trix.Api.Error.{ApiError, problem, said}
use vega_trix.Api.Http.{Http, pure, raise, lift, service, ◌>>=◌, ◌>>◌}
use vega_trix.Api.Auth.{AuthContext, require_admin}
use vega_trix.Api.Admin.{AdminEnv, refused, drawn_bytes, merchant_of, generate}

-- The prefix of `ApiKeyId`.
abbrev key_prefix : List ℕ
key_prefix = b'k' ∷ b'e' ∷ b'y' ∷ []

pub record CreateApiKeyBody : Type 0 where
  pub name : String
  pub merchant_id : Option (List ℕ)

-- The answer of `create_api_key`, with the secret that is shown once.
pub record CreatedKey : Type 0 where
  pub id : Uuid
  pub name : String
  pub merchant_id : Uuid
  pub secret : List ℕ

-- The name, if it has 1 to 128 bytes.
unfoldable pub checked_name : String → Result ApiError String
checked_name raw =
    let name : String = trim_text raw in
    if is_empty (as_bytes name) || ltb 128 (length (as_bytes name))
    then refused "name must be 1–128 characters"
    else ok name

module _ (env : AdminEnv) where
  -- `list_api_keys`: the records whose fields the answer shows
  unfoldable pub list_api_keys : AuthContext → Http (List ApiKeyRecord)
  list_api_keys auth = do
    lift (require_admin auth)
    service (query (Accounts.list_api_keys auth.tenant_id))

  -- The record of a new key.
  unfoldable pub new_key : AuthContext → CreatedKey → String → ApiKeyRecord
  new_key auth made hash = record {
    id = env.print_uuid made.id;
    tenant_id = auth.tenant_id;
    merchant_id = some made.merchant_id;
    name = made.name;
    hash = hash;
    fingerprint = env.auth.sha256_hex made.secret;
    scopes = "merchant" ∷ [];
    revoked = false;
  }

  -- `hash_secret`, at a salt that is drawn
  unfoldable pub hashed : List ℕ → Http String
  hashed plaintext = do
    k ← drawn_bytes
    lift (
        ok_or (env.hash_secret k plaintext)
          (problem 500 "internal" "Internal error" (said "could not hash api key")))

  -- `insert` of the record, and the answer
  unfoldable pub save_key : AuthContext → String → CreatedKey → Http CreatedKey
  save_key auth hash made = do
    t ← service now
    service (query (Accounts.insert_key (new_key auth made hash) t))
    pure made

  -- `create_api_key` once the body is checked.
  unfoldable pub store_key : AuthContext → String → Uuid → Http CreatedKey
  store_key auth name merchant = do
    plaintext ← generate env "opk_"
    hash ← hashed plaintext
    id ← service draw
    save_key auth hash (record { id = id; name = name; merchant_id = merchant; secret = plaintext })

  -- `create_api_key`
  unfoldable pub create_api_key : AuthContext → CreateApiKeyBody → Http CreatedKey
  create_api_key auth body = do
    lift (require_admin auth)
    name ← lift (checked_name body.name)
    merchant ← merchant_of env auth body.merchant_id
    store_key auth name merchant

  -- `parse_api_key_uuid`: the prefixed form, or a UUID
  unfoldable pub parse_api_key_uuid : List ℕ → Result ApiError Uuid
  parse_api_key_uuid raw = elim (parse_prefixed env.auth.uuid key_prefix raw) [
    | ok id ↦ ok id
    | err _ ↦ elim (env.auth.uuid.parse_str raw) [
      | some id ↦ ok id
      | none ↦ refused "invalid api key id"
    ]
  ]

  -- The answer of `revoke_api_key`.
  unfoldable pub revoked_answer : Bool → Result ApiError (Unit {0})
  revoked_answer true = ok tt
  revoked_answer false =
      err (problem 404 "not-found" "Not found" (said "api key not found or already revoked"))

  -- `revoke_api_key`
  unfoldable pub revoke_api_key : AuthContext → List ℕ → Http (Unit {0})
  revoke_api_key auth key_id = do
    lift (require_admin auth)
    id ← lift (parse_api_key_uuid key_id)
    updated ← service (query (Settings.revoke_api_key auth.tenant_id (env.print_uuid id)))
    lift (revoked_answer updated)
