-- ===== src/Jobs/Spec.antt =====
-- jobspec.rs: shell_job and train_job, and the wire's job.
use Prim.Native.String.{◌++◌}
use chuk_mcp_training.Base.{
  ℕ, suc, String, Bool, true, false, Option, none, some, List, [], ◌∷◌, Table, get, map,
}
use chuk_mcp_training.Base.Int.{ℤ, pos, negsuc}
use chuk_mcp_training.Base.Decimal.{show_ℕ}
use chuk_mcp_training.Proto.Run.{ShellSpec, TrainSpec}
use chuk_mcp_training.Proto.Keys.{checkpoint_model_file, checkpoint_meta_file}
use chuk_mcp_training.Hub.State.{ShardInput, DataStaging, ResumeStaging, TrainStaging}

-- InputArtifact
pub record InputArtifact : Type 0 where
  pub uri : String
  pub dest : String
  pub sha256 : Option String
  pub unpack : Bool

-- UploadPolicy
pub data UploadPolicy : Type 0 where
  on_exit on_appearance stream : UploadPolicy

-- OutputRule
pub record OutputRule : Type 0 where
  pub class : String
  pub glob : String
  pub upload : UploadPolicy
  pub key_prefix : String
  pub ready_marker : Option String

-- wire::Job, without the fields that base_job leaves empty: service, needs, campaign and placement
pub record WireJob : Type 0 where
  pub id : String
  pub template : String
  pub command : List String
  pub env : Table String
  pub inputs : List InputArtifact
  pub outputs : List OutputRule
  pub metrics_file : Option String
  pub max_runtime_secs : Option ℕ
  pub term_grace_secs : ℕ
  pub grant : Option String

-- DEFAULT_TERM_GRACE_SECS
abbrev pub default_term_grace_secs : ℕ
default_term_grace_secs = 30

-- sandboxed, with SANDBOX_PLACEHOLDER
unfoldable pub sandboxed : String → String
sandboxed rel = "${SANDBOX}" ++ ("/" ++ rel)

-- base_job
unfoldable pub base_job : String → String → List String → ℕ → WireJob
base_job run_id template command timeout_s = record {
  id = run_id;
  template = template;
  command = command;
  env = [];
  inputs = [];
  outputs = [];
  metrics_file = none;
  max_runtime_secs = some timeout_s;
  term_grace_secs = default_term_grace_secs;
  grant = none;
}

-- shell_job
unfoldable pub shell_job : String → ShellSpec → WireJob
unfolding base_job
shell_job run_id spec =
    base_job run_id "shell" ("/bin/sh" ∷ "-c" ∷ spec.command ∷ []) spec.timeout_s

-- i64's print
unfoldable pub show_ℤ : ℤ → String
show_ℤ (pos n) = show_ℕ n
show_ℤ (negsuc n) = "-" ++ show_ℕ (suc n)

-- `unwrap_or_default()` of a text
unfoldable pub or_empty : Option String → String
or_empty none = ""
or_empty (some s) = s

-- The config's path in the unit.
unfoldable pub config_path : Option String → String
unfolding sandboxed
config_path none = ""
config_path (some rel) = sandboxed ("unit/" ++ rel)

-- `train.seed.or_else(|| train.overrides.get("seed").and_then(Value::as_i64))`
unfoldable pub seed_of : (String → Option ℤ) → TrainSpec → Option ℤ
seed_of as_i64 train = elim (train.seed) [
  | some s ↦ some s
  | none ↦ elim (get "seed" train.overrides) [ none ↦ none | some v ↦ as_i64 v ]
]

-- overrides_json, `print` the codec of an object
unfoldable pub overrides_json : (Table String → String) → Table String → String
overrides_json print [] = "{}"
overrides_json print (x ∷ xs) = print (x ∷ xs)

unfoldable pub resume_dir : Option ResumeStaging → String
unfolding sandboxed
resume_dir none = ""
resume_dir (some r) = sandboxed "resume"

unfoldable pub seed_text : Option ℤ → String
unfolding show_ℤ
seed_text none = ""
seed_text (some s) = show_ℤ s

unfoldable pub dataset_text : Option DataStaging → String
dataset_text none = ""
dataset_text (some d) = d.content_sha

unfoldable pub plan_text : Option DataStaging → String
unfolding or_empty
plan_text none = ""
plan_text (some d) = or_empty d.plan_sha

-- The staged files of a resume, and of the shards.
unfoldable pub resume_inputs : Option ResumeStaging → List InputArtifact
unfolding sandboxed
resume_inputs none = []
resume_inputs (some r) =
    record {
      uri = r.model_uri;
      dest = sandboxed ("resume/" ++ checkpoint_model_file);
      sha256 = none;
      unpack = false;
    }
    ∷ record {
      uri = r.meta_uri;
      dest = sandboxed ("resume/" ++ checkpoint_meta_file);
      sha256 = none;
      unpack = false;
    }
    ∷ []

unfoldable pub shard_input : ShardInput → InputArtifact
unfolding sandboxed
shard_input shard = record {
  uri = shard.uri;
  dest = sandboxed ("data/" ++ shard.sha256);
  sha256 = some shard.sha256;
  unpack = false;
}

unfoldable pub data_inputs : Option DataStaging → List InputArtifact
unfolding shard_input
data_inputs none = []
data_inputs (some d) = map shard_input d.shards

-- pushed one after another
abbrev pub pushed : List InputArtifact → List InputArtifact → List InputArtifact
pushed [] more = more
pushed (x ∷ xs) more = x ∷ pushed xs more

-- train_inputs
unfoldable pub train_inputs : TrainStaging → List InputArtifact
unfolding resume_inputs data_inputs sandboxed
train_inputs staging =
    record { uri = staging.code_unit_uri; dest = sandboxed "unit"; sha256 = none; unpack = true }
    ∷ pushed (resume_inputs staging.resume) (data_inputs staging.data_staging)

-- The one output rule of a train job.
unfoldable pub checkpoint_rule : String → OutputRule
unfolding sandboxed
checkpoint_rule run_id = record {
  class = "checkpoint";
  glob = sandboxed "ckpt/step_*";
  upload = on_appearance;
  key_prefix = "ckpt-hot/" ++ run_id;
  ready_marker = some ".ready";
}

module _ (as_i64 : String → Option ℤ) (print : Table String → String) where
  -- script_environment
  unfoldable pub script_environment : String → TrainSpec → TrainStaging → Table String
  unfolding sandboxed config_path seed_of overrides_json resume_dir seed_text dataset_text plan_text
  script_environment run_id train staging =
      ("CHUK_RUN_ID", run_id)
      ∷ ("CHUK_CONFIG", config_path train.config)
      ∷ ("CHUK_OVERRIDES", overrides_json print train.overrides)
      ∷ ("CHUK_METRICS", sandboxed "metrics.jsonl")
      ∷ ("CHUK_CKPT_DIR", sandboxed "ckpt")
      ∷ ("CHUK_RESUME_CKPT", resume_dir staging.resume)
      ∷ ("CHUK_SEED", seed_text (seed_of as_i64 train))
      ∷ ("CHUK_DATASET", dataset_text staging.data_staging)
      ∷ ("CHUK_PLAN", plan_text staging.data_staging)
      ∷ []

  -- train_job
  unfoldable pub train_job : String → TrainSpec → TrainStaging → WireJob
  unfolding base_job sandboxed script_environment train_inputs checkpoint_rule
  train_job run_id train staging =
      record (base_job run_id "train"
        ("/bin/sh"
          ∷ "-c"
          ∷ ("cd " ++ (sandboxed "unit" ++ (" && " ++ staging.entrypoint_cmd)))
          ∷ [])
        train.timeout_s) {
          env = script_environment run_id train staging;
          inputs = train_inputs staging;
          outputs = checkpoint_rule run_id ∷ [];
          metrics_file = some (sandboxed "metrics.jsonl");
          grant = some staging.grant;
        }
