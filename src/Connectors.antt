-- ===== src/Connectors.antt =====
-- The connector crates: the interface (crates/openpay-connectors/src/lib.rs) and the connectors that
-- ship with the program, over the shared attempt ledger (crates/openpay-connectors/src/sandbox.rs,
-- crates/openpay-persistence/src/sandbox.rs).
pub mod Api
pub mod Ledger
pub mod MockInstant
pub mod ManualTest
pub mod OpenBankingStub
