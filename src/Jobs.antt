-- ===== src/Jobs.antt =====
-- crates/chuk-train-controlplane/src/jobspec.rs and crates/chuk-compute-wire/src/job.rs: the batch job that a
-- run becomes.
pub mod Spec
