-- ===== src/Api.antt =====
-- crates/chuk-train-controlplane/src/api: the HTTP interface.
pub mod Answers
pub mod Middleware
pub mod Access
pub mod Leases
pub mod Router
pub mod Keeps
pub mod LeaseTasks
pub mod Tables
pub mod Ceiling
pub mod Revocation
pub mod Guards
pub mod Minting
