-- ===== src/Application/Ports.antt =====
-- The data that crosses the ports and the errors of both layers
-- (crates/openpay-application/src/ports.rs and payments.rs, crates/openpay-domain/src/audit.rs).
use vega_trix.Base.{String, Bool, Option, List}
use vega_trix.Base.Int.{ℤ}
use vega_trix.Base.Machine.{Uuid, Instant}
use vega_trix.Domain.Error.{DomainError}
use vega_trix.Domain.Money.{AmountMinor, Currency}
use vega_trix.Domain.Status.{PaymentStatus, PaymentMethod}
use vega_trix.Domain.Payment.{PaymentRequest}

-- The text of an error: a literal, or the display of a domain error.
pub data Message : Type 0 where
  text : String → Message
  shown : DomainError → Message

pub data RepositoryError : Type 0 where
  not_found : RepositoryError
  conflict : Message → RepositoryError
  idempotency_mismatch : RepositoryError
  version_conflict : RepositoryError
  infra : String → RepositoryError

pub data ApplicationError : Type 0 where
  domain : DomainError → ApplicationError
  repository : RepositoryError → ApplicationError
  routing : String → ApplicationError
  forbidden expired replay : ApplicationError
  connector : String → ApplicationError

pub record IdempotencyContext : Type 0 where
  pub tenant_id : Uuid
  pub key : String
  pub request_fingerprint : String

pub record CreatePaymentResult : Type 0 where
  pub payment : PaymentRequest
  pub replayed : Bool

-- The two JSON documents that the payment service records with an event.
pub data AuditMetadata : Type 0 where
  creation : String → AmountMinor → Currency → AuditMetadata
  change : (from to : String) → AuditMetadata

pub record AuditEvent : Type 0 where
  pub id : Uuid
  pub tenant_id : Uuid
  pub actor_type : String
  pub actor_id : String
  pub event_type : String
  pub resource_type : String
  pub resource_id : Uuid
  pub request_id : Option String
  pub ip_hash : Option String
  pub metadata_redacted : AuditMetadata
  pub occurred_at : Instant

-- The JSON document of `payment_outbox_with_status`, field by field.
pub record EventPayload : Type 0 where
  pub id : Uuid
  pub event_type : String
  pub api_version : String
  pub created_at : Instant
  pub payment_id : Uuid
  pub merchant_order_id : String
  pub status : PaymentStatus
  pub amount_minor : AmountMinor
  pub currency : Currency
  pub merchant_id : Uuid

pub record OutboxRecord : Type 0 where
  pub id : Uuid
  pub tenant_id : Uuid
  pub aggregate_type : String
  pub aggregate_id : Uuid
  pub event_type : String
  pub payload : EventPayload
  pub created_at : Instant

pub data ConnectorHealth : Type 0 where
  healthy degraded unhealthy unknown : ConnectorHealth

pub record ConnectorSnapshot : Type 0 where
  pub key : String
  pub health : ConnectorHealth
  pub methods : List PaymentMethod
  pub priority : ℤ
  pub enabled : Bool

pub record ApiKeyRecord : Type 0 where
  pub id : String
  pub tenant_id : Uuid
  pub merchant_id : Option Uuid
  pub name : String
  pub hash : String
  pub fingerprint : String
  pub scopes : List String
  pub revoked : Bool

pub record AuthUser : Type 0 where
  pub id : String
  pub tenant_id : Uuid
  pub email : String
  pub password_hash : String
  pub role : String
