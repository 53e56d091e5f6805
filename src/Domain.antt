-- ===== src/Domain.antt =====
-- The domain crate (crates/openpay-domain/src).
pub mod Error
pub mod Status
pub mod Money
pub mod Routing
pub mod Ids
pub mod Payment
pub mod Webhook
