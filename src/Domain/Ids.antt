-- ===== src/Domain/Ids.antt =====
-- Prefixed identifiers and checked keys (crates/openpay-domain/src/ids.rs). Texts are lists of
-- characters; the printing and parsing of UUIDs is the uuid crate's, a parameter.
pub mod RoundTrip
use vega_trix.Base.{
  ℕ, String, Bool, true, false, ◌||◌, ◌&&◌, Option, none, some, List, [], ◌∷◌, ◌++◌, Result, ok,
  err, length, is_empty, ltb, ◌==◌, if◌then◌else◌,
}
use vega_trix.Base.Machine.{Uuid}
use vega_trix.Domain.Error.{DomainError, invalid_id}

pub record UuidText : Type 0 where
  -- `Uuid::as_simple`
  pub simple : Uuid → List ℕ
  -- `Uuid::parse_str`
  pub parse_str : List ℕ → Option Uuid

-- `str::strip_prefix`
unfoldable pub strip_prefix : List ℕ → List ℕ → Option (List ℕ)
strip_prefix [] s = some s
strip_prefix (c ∷ p) [] = none
strip_prefix (c ∷ p) (d ∷ s) = let rest = strip_prefix p s in if c == d then rest else none

module _ (uuid : UuidText) where
  -- `as_prefixed`, at the prefix of the identifier's type
  unfoldable pub as_prefixed : List ℕ → Uuid → List ℕ
  as_prefixed prefix id = prefix ++ b'_' ∷ uuid.simple id

  -- What is left of the text to parse as a UUID. Its length is measured in bytes; a text of other
  -- than ASCII characters is no UUID either way.
  unfoldable pub uuid_part : List ℕ → List ℕ → Option (List ℕ)
  unfolding strip_prefix
  uuid_part prefix raw = elim (strip_prefix (prefix ++ b'_' ∷ []) raw) [
    | some rest ↦ some rest
    | none ↦ if length raw == 32 || length raw == 36 then some raw else none
  ]

  parsed : List ℕ → List ℕ → Option (List ℕ) → Result DomainError Uuid
  parsed prefix raw none = err (invalid_id prefix raw)
  parsed prefix raw (some part) = elim (uuid.parse_str part) [
    | some id ↦ ok id
    | none ↦ err (invalid_id prefix raw)
  ]

  -- `parse_prefixed`
  unfoldable pub parse_prefixed : List ℕ → List ℕ → Result DomainError Uuid
  unfolding parsed uuid_part
  parse_prefixed prefix raw = parsed prefix raw (uuid_part prefix raw)

-- The test of `IdempotencyKey::new` and `MerchantOrderId::new` (at 128) and `ConnectorKey::new` (at
-- 64), on the bytes of the text.
unfoldable pub checked_key : {E : Type 0} → ℕ → E → List ℕ → Result E (List ℕ)
checked_key limit e value = if is_empty value || ltb limit (length value) then err e else ok value
