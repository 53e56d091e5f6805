-- ===== src/Crypto.antt =====
-- The crypto crate (crates/openpay-crypto/src).
pub mod Library
pub mod Hmac
pub mod Qr
pub mod Webhook
pub mod Envelope
