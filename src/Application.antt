-- ===== src/Application.antt =====
-- The application crate (crates/openpay-application/src).
pub mod Ports
pub mod Exec
pub mod Payments
pub mod Routing
pub mod Attempts
pub mod Authorize
pub mod Reconcile
pub mod Claims
pub mod Creation
pub mod Qr
