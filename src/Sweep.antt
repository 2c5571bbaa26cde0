-- ===== src/Sweep.antt =====
-- crates/chuk-train-controlplane/src/sweep.rs: the fan-out of a sweep.
pub mod Expand
pub mod Assignments
pub mod Choices
pub mod Paths
