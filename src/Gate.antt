-- ===== src/Gate.antt =====
-- crates/chuk-train-controlplane/src/gate.rs: gate expressions, their closed grammar and evaluation.
pub mod Expr
pub mod Parse
pub mod Evaluate
pub mod Stall
