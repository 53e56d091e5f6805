-- ===== src/Persistence/Db.antt =====
-- The tables, as lists of rows in insertion order (migrations/0001_init.sql and
-- 0002_sandbox_connector_state.sql), and a query as a function of them. A statement that breaks a
-- constraint fails, and a failed transaction leaves the tables as they were. Identifiers are drawn
-- as fresh UUIDs, so the primary keys on them never clash.
use vega_trix.Base.{ℕ, String, Option, List, Result}
use vega_trix.Base.Machine.{Uuid, Instant}
use vega_trix.Domain.Status.{AttemptStatus}
use vega_trix.Domain.Payment.{PaymentRequest, PaymentAttempt}
use vega_trix.Domain.Routing.{RoutingPolicy}
use vega_trix.Application.Ports.{
  AuditEvent, OutboxRecord, ConnectorSnapshot, RepositoryError, EventPayload, ApiKeyRecord,
  AuthUser,
}
use vega_trix.Domain.Webhook.{WebhookEndpoint, WebhookDelivery}

pub record IdempotencyRow : Type 0 where
  pub tenant_id : Uuid
  pub idempotency_key : String
  pub request_fingerprint : String
  pub payment_id : Uuid
  pub created_at : Instant

pub record OutboxRow : Type 0 where
  pub record_of : OutboxRecord
  pub published_at : Option Instant

pub record NonceRow : Type 0 where
  pub nonce : List ℕ
  pub consumed_at : Instant
  pub expires_at : Instant

-- A row of `connectors`. What the catalogue reads of the columns status, health_status, capabilities
-- and priority is kept as it is read; `capabilities` is the JSON text of the column.
pub record ConnectorRow : Type 0 where
  pub id : Uuid
  pub tenant_id : Option Uuid
  pub snapshot : ConnectorSnapshot
  pub name : String
  pub connector_type : String
  pub configuration_ref : List ℕ
  pub capabilities : String

pub record MerchantRow : Type 0 where
  pub id : Uuid
  pub tenant_id : Uuid
  pub display_name : String
  pub created_at : Instant

pub record SandboxRow : Type 0 where
  pub connector_key : String
  pub provider_reference : String
  pub status : AttemptStatus

-- A row of `webhook_deliveries`; the payload `none` is JSON's null.
pub record DeliveryRow : Type 0 where
  pub delivery : WebhookDelivery
  pub payload : Option EventPayload

pub record SettingsRow : Type 0 where
  pub tenant_id : Uuid
  pub settings : String
  pub updated_at : Instant

pub record ApiKeyRow : Type 0 where
  pub key : ApiKeyRecord
  pub created_at : Instant

pub record Db : Type 0 where
  pub tenants : List Uuid
  pub merchants : List MerchantRow
  pub payments : List PaymentRequest
  pub idempotency_keys : List IdempotencyRow
  pub audit_events : List AuditEvent
  pub outbox_events : List OutboxRow
  pub attempts : List PaymentAttempt
  pub nonces : List NonceRow
  pub connectors : List ConnectorRow
  pub policies : List RoutingPolicy
  pub sandbox : List SandboxRow
  pub webhook_endpoints : List WebhookEndpoint
  pub webhook_deliveries : List DeliveryRow
  pub tenant_settings : List SettingsRow
  pub api_keys : List ApiKeyRow
  pub users : List AuthUser

-- A query or a transaction.
abbrev pub Query : Type 0 → Type 0
Query A = Db → Result RepositoryError A × Db
