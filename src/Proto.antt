-- ===== src/Proto.antt =====
-- crates/chuk-train-proto: the types and constants of the training domain.
pub mod Constants
pub mod Run
pub mod Lease
pub mod Ledger
pub mod Role
pub mod Keys
