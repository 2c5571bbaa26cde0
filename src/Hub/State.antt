-- ===== src/Hub/State.antt =====
-- hub/mod.rs: the state of the hub, and actions on it. An action that fails keeps what it wrote.
use chuk_mcp_training.Base.{
  ℕ, String, Bool, true, false, Option, none, some, List, [], ◌∷◌, ◌++◌, Table, get, put,
  if◌then◌else◌,
}
use chuk_mcp_training.Base.Int.{ℤ}
use chuk_mcp_training.Base.Float.{F64}
use chuk_mcp_training.Proto.Run.{RunState, RunSpec, ShellSpec, TrainSpec, CheckpointMeta, DataRef}
use chuk_mcp_training.Grant.{Grant}
use chuk_mcp_training.Sweep.Expand.{SweepError}
use chuk_mcp_training.Store.Tables.{Store}

abbrev pub Bytes : Type 0
Bytes = List ℕ

-- What chuk-datasets resolves a reference to. A shard with no location has no uri.
pub record Shard : Type 0 where
  pub uri : Option String
  pub sha256 : String

pub record Resolved : Type 0 where
  pub content_sha : String
  pub plan_sha : Option String
  pub shards : List Shard

-- What the hub takes from code outside the repository: random tokens, the hash, the JSON codecs of a
-- sidecar and of an override, the number parser, the clock as an `f64`, the dataset service (`none`
-- when it is not configured) and whether the experiments mirror is configured.
pub record Env : Type 0 where
  pub uuid : ℕ → String
  pub sha256_hex : Bytes → String
  pub decode_meta : Bytes → Option CheckpointMeta
  pub encode_meta : CheckpointMeta → Bytes
  pub as_i64 : String → Option ℤ
  pub artifact_uri : String → String
  pub parse_f64 : String → Option F64
  pub seconds : ℕ → F64
  pub cutoff_of : F64 → F64 → F64
  pub datasets : Option (DataRef → Option Resolved)
  pub experiments : Bool

-- jobspec.rs builds a `wire::Job` of these; the job is kept as what it is built of.
pub record ShardInput : Type 0 where
  pub uri : String
  pub sha256 : String

pub record DataStaging : Type 0 where
  pub content_sha : String
  pub plan_sha : Option String
  pub shards : List ShardInput

pub record ResumeStaging : Type 0 where
  pub model_uri : String
  pub meta_uri : String

pub record TrainStaging : Type 0 where
  pub entrypoint_cmd : String
  pub code_unit_uri : String
  pub grant : String
  pub resume : Option ResumeStaging
  pub data_staging : Option DataStaging

pub data Job : Type 0 where
  shell_job : String → ShellSpec → Job
  train_job : String → TrainSpec → TrainStaging → Job

-- The messages that the hub sends to a worker (CpToWorker).
pub data CpToWorker : Type 0 where
  assign_job : Job → CpToWorker
  cancel : String → CpToWorker
  drain : F64 → CpToWorker

-- The sender half of a worker's queue: whether the receiver lives, and what was sent, oldest first.
pub record Link : Type 0 where
  pub is_open : Bool
  pub sent : List CpToWorker

pub record ResumeState : Type 0 where
  pub from_step : ℕ
  pub base_slices : List (ℕ × ℕ)

pub record DataState : Type 0 where
  pub content_sha : String
  pub plan_sha : Option String
  pub dataset_label : String

-- What the mirror is told (hub/mirror.rs).
pub data Report : Type 0 where
  report_created : String → RunSpec → Option String → Report
  report_state : String → RunState → Report
  report_checkpoint : String → ℕ → String → CheckpointMeta → Report

pub record Hub : Type 0 where
  pub store : Store
  pub blobs : Table Bytes
  pub grants : Table Grant
  pub minted : ℕ
  pub links : Table Link
  pub resume_state : Table ResumeState
  pub data_state : Table DataState
  pub high_water : Table ℕ
  pub reports : List Report

-- Why a handler fails.
pub data Error : Type 0 where
  code_unit_not_registered entrypoint_not_in_manifest datasets_not_configured : Error
  dataset_not_resolved shard_without_location no_such_run already_terminal : Error
  not_terminal checkpoint_model_missing : Error
  sweep_refused : SweepError → Error

pub data Result {ℓ} (A : Type ℓ) : Type ℓ where
  ok : A → Result A
  err : Error → Result A

abbrev pub Action : Type 0 → Type 0
Action A = Hub → Result A × Hub

abbrev pub and_then : {A B : Type 0} → Result A × Hub → (A → Action B) → Result B × Hub
and_then (ok a, h) f = f a h
and_then (err e, h) f = (err e, h)

infixl 5 ◌>>=◌ ◌>>◌
unfoldable pub ◌>>=◌ : {A B : Type 0} → Action A → (A → Action B) → Action B
◌>>=◌ m f h = and_then (m h) f

unfoldable pub ◌>>◌ : {B : Type 0} → Action (Unit {0}) → Action B → Action B
m >> k = m >>= λ _. k

unfoldable pub pure : {A : Type 0} → A → Action A
pure a h = (ok a, h)

unfoldable pub fail : {A : Type 0} → Error → Action A
fail e h = (err e, h)

unfoldable pub asks : {A : Type 0} → (Hub → A) → Action A
asks f h = (ok (f h), h)

unfoldable pub update : (Hub → Hub) → Action (Unit {0})
update f h = (ok tt, f h)

-- `with_context` on an option
unfoldable pub or_fail : {A : Type 0} → Error → Option A → Action A
or_fail e none = fail e
or_fail e (some a) = pure a

-- a change of the store alone
unfoldable pub update_store : (Store → Store) → Action (Unit {0})
update_store f = update (λ h. record h { store = f h.store })

-- Hub::send_to, also `tx.send` under the lock of `pump`
unfoldable pub deliver : String → CpToWorker → Option Link → Action Bool
deliver id msg none h = (ok false, h)
deliver id msg (some link) h =
    if link.is_open
    then (
      ok true,
      record h { links = put id (record link { sent = link.sent ++ msg ∷ [] }) h.links },
    )
    else (ok false, h)

unfoldable pub send_to : String → CpToWorker → Action Bool
send_to id msg h = deliver id msg (get id h.links) h

-- Hub::resume_high_water
unfoldable pub resume_high_water : String → Hub → ℕ
resume_high_water id h = elim (get id h.high_water) [ none ↦ 0 | some seq ↦ seq ]
