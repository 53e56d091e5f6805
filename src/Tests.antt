-- ===== src/Tests.antt =====
-- Runs on concrete data: a small database, the environment of the connectors, and the properties
-- applied to them.
pub mod Data
mod Statuses
mod Store
mod Service
mod Values
mod Routes
mod Tokens
mod Creations
mod Nets
mod Hooks
mod Callers
mod Limits
mod Rows
mod Desk
mod Operators
mod Lab
