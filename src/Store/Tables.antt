-- ===== src/Store/Tables.antt =====
-- The tables (store/mod.rs and the schema of store/sqlite/mod.rs), with the columns that the modelled
-- code reads. `runs`, `events` and `checkpoints` stand newest first.
use chuk_mcp_training.Base.{ℕ, String, Bool, Option, List, Table}
use chuk_mcp_training.Base.Int.{ℤ}
use chuk_mcp_training.Base.Float.{F64}
use chuk_mcp_training.Proto.Run.{
  RunState, EventKind, RunSpec, TrainSpec, WorkerState, Hardware, CheckpointMeta, GateAction,
}
use chuk_mcp_training.Gate.Expr.{Detail}
use chuk_mcp_training.Proto.Lease.{Lease}
use chuk_mcp_training.Proto.Role.{User, ApiKey}
use chuk_mcp_training.Proto.Ledger.{LedgerEntry, Budget}

-- RunRecord, its summary in line
pub record Run : Type 0 where
  pub id : String
  pub name : String
  pub spec : RunSpec
  pub state : RunState
  pub worker_id : Option String
  pub exit_code : Option ℤ
  pub experiment_ref : Option String
  pub created_by : Option String
  pub sweep_id : Option String
  pub created_at : ℕ
  pub updated_at : ℕ

-- A row of `workers`, without the lease and the age that a read adds.
pub record Worker : Type 0 where
  pub id : String
  pub labels : List String
  pub hardware : Hardware
  pub state : WorkerState
  pub current_run : Option String
  pub joined_at : ℕ
  pub last_seen : ℕ

-- What an event's JSON detail holds.
pub data Datum : Type 0 where
  text : String → Datum
  int : ℤ → Datum
  number : ℕ → Datum
  flag : Bool → Datum
  reason : Detail → Datum

pub record Event : Type 0 where
  pub run_id : String
  pub ts : ℕ
  pub event : EventKind
  pub detail : Table Datum

-- SweepRow, its JSON texts as the values that they hold
pub record SweepRow : Type 0 where
  pub id : String
  pub name : String
  pub template : TrainSpec
  pub axes : Table (List String)
  pub concurrency : ℕ
  pub created_by : Option String
  pub created_at : ℕ

pub record GateInfo : Type 0 where
  pub scope : String
  pub scope_id : String
  pub name : String
  pub expr : String
  pub action : GateAction
  pub created_at : ℕ
  pub tripped : Option Bool
  pub last_value : Option F64
  pub evaluated_at : Option ℕ
  pub detail : Option Detail

pub record MetricRow : Type 0 where
  pub run_id : String
  pub step : ℕ
  pub key : String
  pub value : Option F64
  pub ts : ℕ

pub record LogRow : Type 0 where
  pub run_id : String
  pub ts : ℕ
  pub line : String

pub record CheckpointInfo : Type 0 where
  pub run_id : String
  pub step : ℕ
  pub uri : String
  pub model_hash : String
  pub info : CheckpointMeta

pub record CodeUnit : Type 0 where
  pub name : String
  pub sha : String
  pub entrypoints : Table String

pub record WorkerToken : Type 0 where
  pub id : String
  pub worker_id : String
  pub name : String
  pub prefix : String
  pub token_hash : String
  pub created_at : ℕ
  pub last_used_at : Option ℕ
  pub revoked_at : Option ℕ

pub record JoinToken : Type 0 where
  pub id : String
  pub worker_id : String
  pub token_hash : String
  pub created_at : ℕ
  pub expires_at : ℕ
  pub used_at : Option ℕ

pub record Sample : Type 0 where
  pub worker_id : String
  pub ts : ℕ
  pub values : Table F64

pub record Store : Type 0 where
  pub runs : List Run
  pub workers : List Worker
  pub leases : List Lease
  pub events : List Event
  pub sweeps : List SweepRow
  pub gates : List GateInfo
  pub metrics : List MetricRow
  pub logs : List LogRow
  pub checkpoints : List CheckpointInfo
  pub code_units : List CodeUnit
  pub worker_tokens : List WorkerToken
  pub join_tokens : List JoinToken
  pub samples : List Sample
  pub ledger : List LedgerEntry
  pub budgets : List Budget
  pub users : List User
  pub api_keys : List ApiKey
  pub run_seq : ℕ
