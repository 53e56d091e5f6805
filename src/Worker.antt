-- ===== src/Worker.antt =====
-- The worker (crates/openpay-worker/src/lib.rs).
pub mod Net
pub mod Circuit
pub mod Publish
pub mod Deliver
pub mod Send
