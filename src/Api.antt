-- ===== src/Api.antt =====
-- The HTTP API (crates/openpay-api/src).
pub mod Error
pub mod Http
pub mod Auth
pub mod Merchant
pub mod Public
pub mod Sandbox
pub mod Admin
pub mod Limit
