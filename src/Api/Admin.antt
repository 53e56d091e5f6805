-- ===== src/Api/Admin.antt =====
-- What the endpoints of the administration share (crates/openpay-api/src/admin.rs). Random bytes,
-- password hashes, the form of a UUID, the order of texts in the database and the reading of a URL are
-- other crates' and the database's, parameters.
pub mod Keys
pub mod Hooks
pub mod Connectors
pub mod Operator
pub mod Payments
use vega_trix.Base.{
  ℕ, suc, String, Bool, Option, none, some, List, ◌++◌, Result, ok, map_err, str_eq,
}
use vega_trix.Base.Machine.{Uuid}
use vega_trix.Base.Text.{codes}
use vega_trix.Domain.Ids.{parse_prefixed}
use vega_trix.Crypto.Qr.{mch}
use vega_trix.Crypto.Envelope.{Cipher, decode_master_key, seal_if_plaintext}
use vega_trix.Application.Exec.{World, query}
use vega_trix.Persistence.Admin.{first_merchant_id}
use vega_trix.Api.Error.{ApiError, problem, validation, of_domain, said}
use vega_trix.Api.Http.{Http, pure, lift, service, ◌>>=◌, ◌>>◌}
use vega_trix.Api.Auth.{AuthContext, AuthLibrary}

-- The parts of a URL that are looked at.
pub record Uri : Type 0 where
  pub scheme : Option (List ℕ)
  pub host : Option (List ℕ)

pub record AdminEnv : Type 0 where
  pub auth : AuthLibrary
  pub cipher : Cipher
  -- `ENCRYPTION_MASTER_KEY`, by its characters
  pub encryption_master_key : List ℕ
  -- the k-th random bytes: in hexadecimal, as a nonce of the cipher, and as the salt of a hash
  pub hex_bytes : ℕ → List ℕ
  pub aead_nonce : ℕ → List ℕ
  pub hash_secret : ℕ → List ℕ → Option String
  -- `Uuid::to_string`
  pub print_uuid : Uuid → String
  -- the order of texts in the database
  pub collate : String → String → Bool
  -- `Uri::from_str`
  pub parse_uri : List ℕ → Option Uri

-- A text that the checks refuse.
abbrev pub refused : {A : Type 0} → String → Result ApiError A
refused why = Result.err (validation (said why))

-- The number of the random bytes that are drawn.
abbrev pub drawn_bytes : Http ℕ
drawn_bytes w = (ok w.rolled, record w { rolled = suc w.rolled })

module _ (env : AdminEnv) where
  -- `parse` of an identifier with the prefix of its type
  unfoldable pub parse_id : List ℕ → List ℕ → Result ApiError Uuid
  parse_id prefix raw =
      map_err (λ e. validation (of_domain e)) (parse_prefixed env.auth.uuid prefix raw)

  -- The merchant of a new key or endpoint: the one that is named, or the tenant's first.
  unfoldable pub merchant_of : AuthContext → Option (List ℕ) → Http Uuid
  merchant_of auth (some raw) = lift (parse_id mch raw)
  merchant_of auth none = service (query (first_merchant_id auth.tenant_id))

  -- `generate_api_key` and `generate_webhook_secret`, at their prefix
  unfoldable pub generate : String → Http (List ℕ)
  generate prefix = do k ← drawn_bytes; pure (codes prefix ++ env.hex_bytes k)

  -- `seal_connector_ref`
  unfoldable pub seal_connector_ref : List ℕ → Http (List ℕ)
  seal_connector_ref plaintext = do
    key ← lift (
        map_err
          (λ e.
            problem 422 "crypto" "Encryption unavailable"
              (said "ENCRYPTION_MASTER_KEY is not usable"))
          (decode_master_key env.cipher env.encryption_master_key))
    k ← drawn_bytes
    lift (
        map_err (λ e. problem 500 "internal" "Internal error" (said "could not encrypt secret"))
          (seal_if_plaintext env.cipher (env.aead_nonce k) key plaintext))
