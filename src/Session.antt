-- ===== src/Session.antt =====
-- crates/chuk-train-controlplane/src/ws.rs: the session of a worker, from its Hello to the end.
pub mod Admission
pub mod Handshake
pub mod Rows
pub mod Identity
