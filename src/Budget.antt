-- ===== src/Budget.antt =====
-- crates/chuk-train-controlplane/src/budget.rs: spending caps. Times are in milliseconds from 1970 on.
pub mod Calendar
pub mod Caps
pub mod Approval
pub mod Report
