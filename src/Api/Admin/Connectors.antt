-- ===== src/Api/Admin/Connectors.antt =====
-- The connectors of a tenant (crates/openpay-api/src/admin.rs). A reference is checked by its characters
-- and kept by its bytes.
pub mod Sealed
use vega_trix.Base.{
  ℕ, String, Bool, true, false, not, ◌&&◌, ◌||◌, Option, none, some, List, [], ◌∷◌, map, Result, ok,
  err, ◌>>=◌ as and_then, ◌>>◌ as and_also, all, fail_if, length, is_empty, ltb, leb, ◌==◌, str_eq,
  if◌then◌else◌,
}
use vega_trix.Base.Text.{codes, to_lower, trim, utf8, is_alphabetic}
use vega_trix.Domain.Ids.{strip_prefix}
use vega_trix.Crypto.Library.{CryptoError}
use vega_trix.Crypto.Envelope.{
  Cipher, starts_with, is_secret_ref, is_encrypted_envelope, decode_master_key, open_secret_value,
}
use vega_trix.Config.{contains}
use vega_trix.Application.Exec.{query}
use vega_trix.Persistence.Db.{ConnectorRow}
use vega_trix.Persistence.Admin.{list_connectors_admin, update_connector_admin}
use vega_trix.Api.Error.{ApiError}
use vega_trix.Api.Http.{Http, pure, lift, service, ◌>>=◌, ◌>>◌}
use vega_trix.Api.Auth.{AuthContext, require_admin}
use vega_trix.Api.Admin.{AdminEnv, refused, seal_connector_ref}

-- `looks_like_live_psp`
unfoldable pub looks_like_live_psp : List ℕ → Bool
looks_like_live_psp value =
    let v : List ℕ = map to_lower value in
    contains v (codes "sk_live")
    || contains v (codes "rk_live")
    || contains v (codes "sk_test")
    || (contains v (codes "stripe") && (contains v (codes "sk_") || contains v (codes "rk_")))

-- `char::is_ascii_alphanumeric`, or an underscore
abbrev pub is_name_char : ℕ → Bool
is_name_char c = is_alphabetic c || (leb b'0' c && leb c b'9') || c == b'_'

-- `env:` and the name of a variable
unfoldable pub is_env_ref : List ℕ → Bool
is_env_ref value = elim (strip_prefix (codes "env:") value) [
  | none ↦ false
  | some rest ↦ not (is_empty rest) && all is_name_char rest
]

-- `validate_connector_ref`
unfoldable pub validate_connector_ref : List ℕ → Result ApiError (Unit {0})
validate_connector_ref value =
    if looks_like_live_psp value
    then refused "live PSP credentials cannot be set from the dashboard"
    else if (is_secret_ref value && ltb (length (codes "secret://")) (length (utf8 value)))
        || is_env_ref value
    then ok tt
    else refused "use secret://… or env:VAR_NAME; this UI does not configure live Stripe"

-- The new status, as whether it is `enabled`.
abbrev pub parse_connector_status : Option String → Result ApiError (Option Bool)
parse_connector_status none = ok none
parse_connector_status (some raw) =
    if str_eq raw "enabled" || str_eq raw "active"
    then ok (some true)
    else if str_eq raw "disabled"
    then ok (some false)
    else refused "unknown connector status"

pub record ConnectorPatch : Type 0 where
  pub status : Option String
  pub configuration_ref : Option (List ℕ)

abbrev hidden : List ℕ
hidden = codes "********"

-- What an opened reference may show.
unfoldable pub shown_plain : List ℕ → String × List ℕ
shown_plain plain =
    if starts_with plain (codes "secret://") || starts_with plain (codes "env:")
    then ("encrypted_ref", plain)
    else ("encrypted", hidden)

-- What an envelope shows.
abbrev shown_opened : Result CryptoError (List ℕ) → String × List ℕ
shown_opened (ok plain) = shown_plain plain
shown_opened (err e) = ("encrypted", codes "enc:v1:********")

module _ (env : AdminEnv) where
  -- `redact_configuration_ref`
  unfoldable pub redact_configuration_ref : List ℕ → String × List ℕ
  redact_configuration_ref stored =
      if is_encrypted_envelope stored
      then shown_opened (
          and_then (decode_master_key env.cipher env.encryption_master_key)
            λ key. open_secret_value env.cipher key stored)
      else if is_secret_ref stored
      then ("secret_ref", stored)
      else if starts_with stored (codes "env:")
      then ("env_ref", stored)
      else ("opaque", hidden)

  -- A new reference, checked and sealed; an empty one changes nothing.
  unfoldable pub sealed_ref : Option (List ℕ) → Http (Option (List ℕ))
  sealed_ref none = pure none
  sealed_ref (some raw) =
      let trimmed : List ℕ = trim raw in
      if is_empty trimmed then pure none else (do
        lift (validate_connector_ref trimmed)
        refer ← seal_connector_ref env (utf8 trimmed)
        pure (some refer))

  -- `connectors`: the rows with the kind and the display of their references
  unfoldable pub connectors : AuthContext → Http (List (ConnectorRow × (String × List ℕ)))
  connectors auth = do
    lift (require_admin auth)
    rows ← service (query (list_connectors_admin env.collate auth.tenant_id))
    pure (map (λ row. (row, redact_configuration_ref row.configuration_ref)) rows)

  -- The call of the store in `update_connector`, and the answer.
  unfoldable pub store_connector :
      AuthContext → String → Option Bool → Option (List ℕ) → Http (ConnectorRow × (String × List ℕ))
  store_connector auth key status refer = do
    row ← service (query (update_connector_admin auth.tenant_id key status refer))
    pure (row, redact_configuration_ref row.configuration_ref)

  -- `update_connector`
  unfoldable pub update_connector :
      AuthContext → String → ConnectorPatch → Http (ConnectorRow × (String × List ℕ))
  update_connector auth key body = do
    lift (require_admin auth)
    status ← lift (parse_connector_status body.status)
    refer ← sealed_ref body.configuration_ref
    store_connector auth key status refer
