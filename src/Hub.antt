-- ===== src/Hub.antt =====
-- crates/chuk-train-controlplane/src/hub: live worker connections and the scheduler. Each handler is
-- one action on the hub's state, taken as a whole: the interleavings of two handlers at an `await`
-- are not modelled.
pub mod State
pub mod Keeps
pub mod RunRows
pub mod PumpRows
pub mod GateRows
pub mod MessageRows
pub mod Marks
pub mod Replay
pub mod Lifecycle
pub mod Machine
pub mod Cancel
pub mod Detach
pub mod Links
pub mod Assemble
pub mod Schedule
pub mod Connection
pub mod Control
pub mod Messages
pub mod Checkpoints
pub mod Steps
pub mod Submit
pub mod Numbering
pub mod SweepRows
pub mod Concurrency
pub mod Blocked
