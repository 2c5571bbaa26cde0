-- ===== src/Hub/Assemble.antt =====
-- hub/schedule.rs: the assembly of a run's job, with its grant, its resume point and its dataset.
use Prim.Native.String.{◌++◌}
use chuk_mcp_training.Base.{ℕ, suc, String, Option, none, some, List, [], ◌∷◌, get, put}
use chuk_mcp_training.Base.Text.{rsplit_once}
use chuk_mcp_training.Proto.Run.{EventKind, RunSpec, shell, train, TrainSpec, DataRef}
use chuk_mcp_training.Proto.Keys.{
  code_unit_tarball, checkpoint_file, checkpoint_model_file, checkpoint_meta_file,
}
use chuk_mcp_training.Grant.{mint}
use chuk_mcp_training.Store.Tables.{number, CheckpointInfo}
use chuk_mcp_training.Store.Runs.{add_event}
use chuk_mcp_training.Store.Policy.{latest_checkpoint, code_unit}
use chuk_mcp_training.Hub.State.{
  Env, Shard, Resolved, ShardInput, DataStaging, ResumeStaging, Job, shell_job, train_job,
  ResumeState, Action, ok, code_unit_not_registered, entrypoint_not_in_manifest,
  datasets_not_configured, dataset_not_resolved, shard_without_location, ◌>>=◌, ◌>>◌, pure, asks,
  update, update_store, or_fail,
}

-- dataset_label: of the reference only the name before the last `@` survives
unfoldable pub dataset_label : String → String → String
dataset_label asked content_sha = elim (rsplit_once b'@' asked) [
  | some p ↦ p.0 ++ ("@sha256:" ++ content_sha)
  | none ↦ "sha256:" ++ content_sha
]

-- The shards with their uris, if all have one.
unfoldable pub located : List Shard → Option (List ShardInput)
located [] = some []
located (x ∷ xs) = elim x.uri [
  | none ↦ none
  | some uri ↦ elim (located xs) [
    | none ↦ none
    | some rest ↦ some (record { uri = uri; sha256 = x.sha256 } ∷ rest)
  ]
]

unfoldable pub staging_of : Resolved → List ShardInput → DataStaging
staging_of r shards = record { content_sha = r.content_sha; plan_sha = r.plan_sha; shards = shards }

-- Where a run resumes from, and the slices that its next checkpoints extend.
unfoldable pub resume_point : Option CheckpointInfo → ResumeState
resume_point none = record { from_step = 0; base_slices = [] }
resume_point (some c) = record { from_step = c.step; base_slices = c.info.slices }

unfoldable pub resume_staging : String → Option CheckpointInfo → Option ResumeStaging
resume_staging run_id none = none
resume_staging run_id (some c) = some (record {
  model_uri = checkpoint_file run_id c.step checkpoint_model_file;
  meta_uri = checkpoint_file run_id c.step checkpoint_meta_file;
})

module _ (env : Env) (at : ℕ) where
  -- Hub::resolve_data
  unfoldable pub resolve_data : String → Option DataRef → Action (Option DataStaging)
  resolve_data run_id none = pure none
  resolve_data run_id (some asked) = do
    datasets ← or_fail datasets_not_configured env.datasets
    resolved ← or_fail dataset_not_resolved (datasets asked)
    shards ← or_fail shard_without_location (located resolved.shards)
    update (λ h. record h {
      data_state =
          put run_id
            (record {
              content_sha = resolved.content_sha;
              plan_sha = resolved.plan_sha;
              dataset_label = dataset_label asked.dataset resolved.content_sha;
            })
            h.data_state;
    })
    pure (some (staging_of resolved shards))

  -- GrantTable::mint on the hub's table
  unfoldable pub mint_grant : String → TrainSpec → Action String
  mint_grant run_id spec h =
      let (grants, token) = mint at (env.uuid h.minted) run_id spec.code h.grants in
      (ok token, record h { grants = grants; minted = suc h.minted })

  unfoldable pub resumed_event : String → Option CheckpointInfo → Action (Unit {0})
  resumed_event run_id none = pure tt
  resumed_event run_id (some c) =
      update_store (add_event at run_id EventKind.resumed (("from_step", number c.step) ∷ []))

  -- Hub::assemble_train_job
  unfoldable pub assemble_train_job : String → TrainSpec → Action Job
  assemble_train_job run_id spec = do
    found ← asks (λ h. code_unit spec.code.name spec.code.sha h.store)
    code ← or_fail code_unit_not_registered found
    entrypoint_cmd ← or_fail entrypoint_not_in_manifest (get spec.entrypoint code.entrypoints)
    grant ← mint_grant run_id spec
    latest ← asks (λ h. latest_checkpoint run_id h.store)
    update (λ h. record h { resume_state = put run_id (resume_point latest) h.resume_state })
    resumed_event run_id latest
    data_staging ← resolve_data run_id spec.data_ref
    pure (
        train_job run_id spec (record {
          entrypoint_cmd = entrypoint_cmd;
          code_unit_uri = code_unit_tarball spec.code.name spec.code.sha;
          grant = grant;
          resume = resume_staging run_id latest;
          data_staging = data_staging;
        }))

  -- Hub::assemble_job
  unfoldable pub assemble_job : String → RunSpec → Action Job
  assemble_job run_id (shell spec) = pure (shell_job run_id spec)
  assemble_job run_id (train spec) = assemble_train_job run_id spec
