-- ===== src/Auth.antt =====
-- crates/chuk-train-controlplane/src/auth.rs: the sign-in of the dashboard.
pub mod Cookies
pub mod SignIn
pub mod Sessions
