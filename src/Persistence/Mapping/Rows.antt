-- ===== src/Persistence/Mapping/Rows.antt =====
-- The rows of payments and attempts (crates/openpay-persistence/src/map.rs, and the columns that the
-- INSERT statements of store.rs bind). A JSON column of strings is those strings, if it is an array of
-- strings. The text of an error is the column it is about.
pub mod RoundTrip
use mathlib.Core.Option
use vega_trix.Base.{
  ℕ, String, Option, none, some, List, [], ◌∷◌, map, Result, ok, err, map_err, ◌>>=◌,
}
use vega_trix.Base.Int.{ℤ}
use vega_trix.Base.Machine.{Uuid, Instant}
use vega_trix.Base.Text.{as_bytes}
use vega_trix.Domain.Error.{DomainError, invalid_idempotency_key, invalid_merchant_order_id}
use vega_trix.Domain.Ids.{checked_key}
use vega_trix.Domain.Money as Money
use vega_trix.Domain.Money.{new_amount, from_str}
use vega_trix.Domain.Status.{PaymentMethod, as_str, attempt_as_str, method_as_str}
use vega_trix.Domain.Payment.{PaymentRequest, PaymentAttempt}
use vega_trix.Application.Ports.{RepositoryError, infra}
use vega_trix.Persistence.Mapping.{parse_payment_status, parse_attempt_status, parse_method}

pub record PaymentRow : Type 0 where
  pub id : Uuid
  pub tenant_id : Uuid
  pub merchant_id : Uuid
  pub merchant_order_id : String
  pub amount_minor : ℤ
  pub currency : List ℕ
  pub status : String
  pub allowed_methods : Option (List String)
  pub description : Option String
  pub expires_at : Instant
  pub return_url : Option String
  pub metadata : String
  pub idempotency_key : String
  pub routing_policy_id : Option Uuid
  pub version : ℕ
  pub created_at : Instant
  pub updated_at : Instant

pub record AttemptRow : Type 0 where
  pub id : Uuid
  pub tenant_id : Uuid
  pub payment_request_id : Uuid
  pub connector_id : Uuid
  pub connector_key : String
  pub rail_type : String
  pub provider_reference : Option String
  pub status : String
  pub failure_code : Option String
  pub failure_message_safe : Option String
  pub amount_minor : ℤ
  pub currency : List ℕ
  pub requested_at : Instant
  pub authorized_at : Option Instant
  pub settled_at : Option Instant
  pub created_at : Instant
  pub updated_at : Instant

-- `methods_json`
unfoldable pub methods_json : List PaymentMethod → List String
methods_json methods = map method_as_str methods

-- `filter_map` with `parse_method`
unfoldable pub known_methods : List String → List PaymentMethod
known_methods [] = []
known_methods (raw ∷ raws) =
    let rest = known_methods raws in elim (parse_method raw) [ none ↦ rest | some m ↦ m ∷ rest ]

-- `unwrap_or_default`
abbrev pub or_no_strings : Option (List String) → List String
or_no_strings none = []
or_no_strings (some raws) = raws

-- A value of the domain that a column does not hold.
abbrev pub column : {A : Type 0} → String → Result DomainError A → Result RepositoryError A
column name = map_err (λ e. infra name)

-- `TryFrom<PaymentRow>`
unfoldable pub read_payment : PaymentRow → Result RepositoryError PaymentRequest
read_payment row = do
  order ←
      column "merchant_order_id"
        (checked_key 128 invalid_merchant_order_id (as_bytes row.merchant_order_id))
  amount ← column "amount_minor" (new_amount row.amount_minor)
  currency ← column "currency" (from_str row.currency)
  status ← parse_payment_status row.status
  key ←
      column "idempotency_key"
        (checked_key 128 invalid_idempotency_key (as_bytes row.idempotency_key))
  ok (record {
    id = row.id;
    tenant_id = row.tenant_id;
    merchant_id = row.merchant_id;
    merchant_order_id = row.merchant_order_id;
    amount_minor = amount;
    currency = currency;
    status = status;
    allowed_methods = known_methods (or_no_strings row.allowed_methods);
    description = row.description;
    expires_at = row.expires_at;
    return_url = row.return_url;
    metadata = row.metadata;
    idempotency_key = row.idempotency_key;
    routing_policy_id = row.routing_policy_id;
    version = row.version;
    created_at = row.created_at;
    updated_at = row.updated_at;
  })

-- `TryFrom<AttemptRow>`
unfoldable pub read_attempt : AttemptRow → Result RepositoryError PaymentAttempt
read_attempt row = do
  status ← parse_attempt_status row.status
  amount ← column "amount_minor" (new_amount row.amount_minor)
  currency ← column "currency" (from_str row.currency)
  ok (record {
    id = row.id;
    tenant_id = row.tenant_id;
    payment_request_id = row.payment_request_id;
    connector_id = row.connector_id;
    connector_key = row.connector_key;
    rail_type = row.rail_type;
    provider_reference = row.provider_reference;
    status = status;
    failure_code = row.failure_code;
    failure_message_safe = row.failure_message_safe;
    amount_minor = amount;
    currency = currency;
    requested_at = row.requested_at;
    authorized_at = row.authorized_at;
    settled_at = row.settled_at;
    created_at = row.created_at;
    updated_at = row.updated_at;
  })

-- The rows that the database keeps, at what a TIMESTAMPTZ column makes of an instant: the documented
-- resolution of such a column is a microsecond.
module _ (to_column : Instant → Instant) where
  -- What the INSERT of `create_idempotent` binds.
  unfoldable pub payment_row : PaymentRequest → PaymentRow
  payment_row p = record {
    id = p.id;
    tenant_id = p.tenant_id;
    merchant_id = p.merchant_id;
    merchant_order_id = p.merchant_order_id;
    amount_minor = p.amount_minor.get;
    currency = Money.as_str p.currency;
    status = as_str p.status;
    allowed_methods = some (methods_json p.allowed_methods);
    description = p.description;
    expires_at = to_column p.expires_at;
    return_url = p.return_url;
    metadata = p.metadata;
    idempotency_key = p.idempotency_key;
    routing_policy_id = p.routing_policy_id;
    version = p.version;
    created_at = to_column p.created_at;
    updated_at = to_column p.updated_at;
  }

  -- What the INSERT of `insert_attempt` binds.
  unfoldable pub attempt_row : PaymentAttempt → AttemptRow
  attempt_row a = record {
    id = a.id;
    tenant_id = a.tenant_id;
    payment_request_id = a.payment_request_id;
    connector_id = a.connector_id;
    connector_key = a.connector_key;
    rail_type = a.rail_type;
    provider_reference = a.provider_reference;
    status = attempt_as_str a.status;
    failure_code = a.failure_code;
    failure_message_safe = a.failure_message_safe;
    amount_minor = a.amount_minor.get;
    currency = Money.as_str a.currency;
    requested_at = to_column a.requested_at;
    authorized_at = Option.map to_column a.authorized_at;
    settled_at = Option.map to_column a.settled_at;
    created_at = to_column a.created_at;
    updated_at = to_column a.updated_at;
  }
