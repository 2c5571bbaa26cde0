-- ===== src/Proto/Run.antt =====
-- crates/chuk-train-proto/src/domain.rs, manifest.rs and wire.rs: the domain types. Times
-- are natural numbers of milliseconds (`UnixSeconds` is an `f64` of seconds); ids are texts.
use chuk_mcp_training.Base.{ℕ, String, Bool, true, false, Option, List, Table}
use chuk_mcp_training.Base.Int.{ℤ}

pub data RunState : Type 0 where
  queued assigned running completed failed cancelled : RunState

unfoldable pub is_terminal : RunState → Bool
is_terminal completed = true
is_terminal failed = true
is_terminal cancelled = true
is_terminal _ = false

pub data EventKind : Type 0 where
  created queued assigned running completed failed cancelled : EventKind
  checkpoint sliced resumed gate_evaluated : EventKind

-- `From<RunState>`
unfoldable pub event_of : RunState → EventKind
event_of RunState.queued = EventKind.queued
event_of RunState.assigned = EventKind.assigned
event_of RunState.running = EventKind.running
event_of RunState.completed = EventKind.completed
event_of RunState.failed = EventKind.failed
event_of RunState.cancelled = EventKind.cancelled

pub data WorkerState : Type 0 where
  connected disconnected : WorkerState

pub data LeaseState : Type 0 where
  active draining destroyed : LeaseState

pub record CodeRef : Type 0 where
  pub name : String
  pub sha : String

pub record DataRef : Type 0 where
  pub dataset : String
  pub plan : Option String

pub record ShellSpec : Type 0 where
  pub command : String
  pub timeout_s : ℕ

-- The fields that dispatch, lineage and sweeps read. `overrides` is the JSON object of the source,
-- its values as JSON texts. `artifacts_in`, `checkpoint` and `links` are passed on unread.
pub record TrainSpec : Type 0 where
  pub code : CodeRef
  pub entrypoint : String
  pub config : Option String
  pub overrides : Table String
  pub data_ref : Option DataRef
  pub seed : Option ℤ
  pub arch : Option String
  pub timeout_s : ℕ

pub data RunSpec : Type 0 where
  shell : ShellSpec → RunSpec
  train : TrainSpec → RunSpec

pub record Hardware : Type 0 where
  pub host : String
  pub os : String
  pub gpu : Option String
  pub vram_mb : Option ℕ
  pub driver : Option String

pub record CheckpointMeta : Type 0 where
  pub step : ℕ
  pub seed : Option ℤ
  pub arch : Option String
  pub code : Option CodeRef
  pub config_hash : Option String
  pub tokenizer_hash : Option String
  pub parent_checkpoint : Option String
  pub datasets : List String
  pub dataset_sha : Option String
  pub plan_sha : Option String
  pub run_id : Option String
  pub slices : List (ℕ × ℕ)

pub data GateAction : Type 0 where
  record_only stop_run : GateAction
