-- ===== src/Domain/Error.antt =====
-- crates/openpay-domain/src/error.rs
use vega_trix.Base.{ℕ, String, List}

pub data DomainError : Type 0 where
  invalid_id : (prefix value : List ℕ) → DomainError
  invalid_currency : List ℕ → DomainError
  invalid_amount : DomainError
  invalid_idempotency_key : DomainError
  invalid_merchant_order_id : DomainError
  invalid_connector_id : DomainError
  illegal_transition : (from to : String) → DomainError
  not_refundable : String → DomainError
  not_cancellable : String → DomainError
  tenant_mismatch : DomainError
  merchant_mismatch : DomainError
  token_binding_mismatch : DomainError
  validation : String → DomainError
