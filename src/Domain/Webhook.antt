-- ===== src/Domain/Webhook.antt =====
-- Webhook endpoints and deliveries (crates/openpay-domain/src/webhook.rs).
use vega_trix.Base.{ℕ, String, Option, List}
use vega_trix.Base.Machine.{Uuid, Instant}

pub data WebhookEndpointStatus : Type 0 where
  active disabled : WebhookEndpointStatus

pub data DeliveryStatus : Type 0 where
  pending delivered retrying dead_lettered : DeliveryStatus

-- The URL is kept as its characters. `failure_count` is a column that only counts up from 0.
pub record WebhookEndpoint : Type 0 where
  pub id : Uuid
  pub tenant_id : Uuid
  pub merchant_id : Uuid
  pub url : List ℕ
  pub event_types : List String
  pub signing_secret_ref : List ℕ
  pub status : WebhookEndpointStatus
  pub failure_count : ℕ
  pub created_at : Instant
  pub updated_at : Instant

-- `attempt_count` is the bit pattern of an `i32`.
pub record WebhookDelivery : Type 0 where
  pub id : Uuid
  pub webhook_endpoint_id : Uuid
  pub event_id : Uuid
  pub payload_version : String
  pub status : DeliveryStatus
  pub attempt_count : ℕ
  pub next_retry_at : Option Instant
  pub response_code : Option ℕ
  pub last_error_safe : Option String
  pub created_at : Instant
  pub updated_at : Instant
