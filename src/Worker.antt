-- ===== src/Worker.antt =====
-- crates/chuk-compute-worker/src: the numbering and the replay of a worker's events.
pub mod Outbox
pub mod Delivery
pub mod Backoff
