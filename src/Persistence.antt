-- ===== src/Persistence.antt =====
-- The PostgreSQL store (crates/openpay-persistence/src, migrations/*.sql).
pub mod Db
pub mod Payments
pub mod Merchants
pub mod Catalog
pub mod Nonces
pub mod Webhooks
pub mod Outbox
pub mod Accounts
pub mod Settings
pub mod Admin
pub mod Sealing
pub mod Mapping
