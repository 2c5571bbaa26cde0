-- ===== src/Leases.antt =====
-- crates/chuk-train-controlplane/src/lease.rs: the lease manager, over any provider.
pub mod Manager
pub mod Teardown
pub mod Spending
pub mod Passes
pub mod Rules
pub mod Verify
pub mod Rows
pub mod Turns
pub mod Wall
pub mod Reconcile
pub mod Within
pub mod Provision
pub mod Extend
