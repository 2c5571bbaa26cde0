-- ===== src/Hub/Checkpoints.antt =====
-- hub/messages.rs: the ingestion of a checkpoint and the completion of its sidecar.
use chuk_mcp_training.Base.{
  ℕ, String, Option, none, some, List, [], ◌∷◌, ◌++◌, get, put, ltb, if◌then◌else◌,
}
use chuk_mcp_training.Base.Int.{ℤ}
use chuk_mcp_training.Base.Text.{strip_prefix, rsplit_once}
use chuk_mcp_training.Base.Decimal.{parse_u64}
use chuk_mcp_training.Proto.Run.{EventKind, shell, train, CheckpointMeta}
use chuk_mcp_training.Proto.Keys.{
  checkpoint_dir, checkpoint_file, checkpoint_model_file, checkpoint_meta_file,
}
use chuk_mcp_training.Store.Tables.{Run, text, number, CheckpointInfo}
use chuk_mcp_training.Store.Runs.{run, add_event}
use chuk_mcp_training.Store.Policy.{record_checkpoint, latest_checkpoint}
use chuk_mcp_training.Hub.State.{
  Env, Bytes, Hub, ResumeState, DataState, report_checkpoint, Action, checkpoint_model_missing,
  ◌>>=◌, ◌>>◌, pure, asks, update, update_store, or_fail,
}

-- step_from_uri
unfoldable pub step_from_uri : String → Option ℕ
step_from_uri uri =
    elim (strip_prefix "step_" (elim (rsplit_once b'/' uri) [ none ↦ uri | some p ↦ p.1 ])) [
      | none ↦ none
      | some digits ↦ parse_u64 digits
    ]

abbrev pub default_meta : CheckpointMeta
default_meta = record {
  step = 0;
  seed = none;
  arch = none;
  code = none;
  config_hash = none;
  tokenizer_hash = none;
  parent_checkpoint = none;
  datasets = [];
  dataset_sha = none;
  plan_sha = none;
  run_id = none;
  slices = [];
}

-- `a.or_else(|| b)`
abbrev pub or_else {ℓ} : {A : Type ℓ} → Option A → Option A → Option A
or_else none b = b
or_else (some a) b = some a

-- Lineage that the run's spec supplies where the sidecar has none.
unfoldable pub fill_from_run : (String → Option ℤ) → Option Run → CheckpointMeta → CheckpointMeta
fill_from_run as_i64 none m = m
fill_from_run as_i64 (some r) m = elim r.spec [
  | shell spec ↦ m
  | train spec ↦ record m {
    code = or_else m.code (some spec.code);
    seed =
        or_else m.seed (
          or_else spec.seed (elim (get "seed" spec.overrides) [ none ↦ none | some v ↦ as_i64 v ]));
    arch = or_else m.arch spec.arch;
  }
]

-- The parent is the latest checkpoint on record, if it is an earlier one.
unfoldable pub fill_parent : String → ℕ → Option CheckpointInfo → CheckpointMeta → CheckpointMeta
fill_parent run_id step none m = m
fill_parent run_id step (some prev) m =
    if ltb prev.step step
    then record m {
      parent_checkpoint = or_else m.parent_checkpoint (some (checkpoint_dir run_id prev.step));
    }
    else m

abbrev pub no_resume : ResumeState
no_resume = record { from_step = 0; base_slices = [] }

-- This session's slice, after those that the resume point carries.
unfoldable pub slices_of : ℕ → Option ResumeState → List (ℕ × ℕ)
slices_of step none = (0, step) ∷ []
slices_of step (some r) = r.base_slices ++ (r.from_step, step) ∷ []

-- The resolved dataset overrides what the sidecar says.
unfoldable pub fill_data : Option DataState → CheckpointMeta → CheckpointMeta
fill_data none m = m
fill_data (some d) m = record m {
  dataset_sha = some d.content_sha;
  plan_sha = d.plan_sha;
  datasets = d.dataset_label ∷ [];
}

module _ (env : Env) (at : ℕ) where
  -- The trainer's sidecar, or an empty one.
  unfoldable pub sidecar : Option Bytes → CheckpointMeta
  sidecar none = default_meta
  sidecar (some bytes) = elim (env.decode_meta bytes) [ none ↦ default_meta | some m ↦ m ]

  -- Hub::complete_meta
  unfoldable pub complete_meta : String → ℕ → Hub → CheckpointMeta
  complete_meta run_id step h =
      let read = sidecar (get (checkpoint_file run_id step checkpoint_meta_file) h.blobs) in
      let named = record read { step = step; run_id = some run_id } in
      let filled = fill_from_run env.as_i64 (run run_id h.store) named in
      let linked = fill_parent run_id step (latest_checkpoint run_id h.store) filled in
      fill_data (get run_id h.data_state)
        (record linked { slices = slices_of step (get run_id h.resume_state) })

  -- mirror_checkpoint
  unfoldable pub mirror_checkpoint : String → ℕ → String → CheckpointMeta → Action (Unit {0})
  mirror_checkpoint run_id step uri m =
      if env.experiments
      then update
          (λ h. record h { reports = h.reports ++ report_checkpoint run_id step uri m ∷ [] })
      else pure tt

  -- `ingest_checkpoint` from the step on
  unfoldable pub ingest_step : String → ℕ → Action (Unit {0})
  ingest_step run_id step = do
    found ← asks (λ h. get (checkpoint_file run_id step checkpoint_model_file) h.blobs)
    model ← or_fail checkpoint_model_missing found
    m ← asks (complete_meta run_id step)
    update (λ h. record h {
      blobs = put (checkpoint_file run_id step checkpoint_meta_file) (env.encode_meta m) h.blobs;
    })
    uri ← pure (env.artifact_uri (checkpoint_dir run_id step))
    update_store (record_checkpoint run_id step uri (env.sha256_hex model) m)
    update_store (
        add_event at run_id EventKind.checkpoint (
          ("step", number step)
          ∷ ("uri", text uri)
          ∷ ("model_hash", text (env.sha256_hex model))
          ∷ []))
    mirror_checkpoint run_id step uri m

  -- A uri with no step is passed over.
  unfoldable pub ingest_uri : String → Option ℕ → Action (Unit {0})
  ingest_uri run_id none = pure tt
  ingest_uri run_id (some step) = ingest_step run_id step

  -- Hub::ingest_checkpoint
  unfoldable pub ingest_checkpoint : String → String → Action (Unit {0})
  ingest_checkpoint run_id uri = ingest_uri run_id (step_from_uri uri)
