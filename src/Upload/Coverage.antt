-- ===== src/Upload/Coverage.antt =====
-- A job's grant covers what the job reads and writes (jobspec.rs, grant.rs and upload.rs together).
use Prim.Native.String.{◌++◌}
use mathlib.Core.Option.{some-injective}
use chuk_mcp_training.Base.{
  ℕ, String, ◌≡◌, refl, subst, Table, map, true, Option, none, some, List, [], ◌∷◌, All, IsIn,
  All-IsIn, put,
}
use chuk_mcp_training.Base.Int.{ℤ}
use chuk_mcp_training.Proto.Run.{TrainSpec, CodeRef}
use chuk_mcp_training.Proto.Keys.{
  code_unit_tarball, checkpoint_model_file, checkpoint_meta_file, is_safe_key,
}
use chuk_mcp_training.Grant.{Grant, may_write, may_read}
use chuk_mcp_training.Store.Tables.{CheckpointInfo}
use chuk_mcp_training.Hub.State.{Bytes, Hub, TrainStaging, DataStaging, ShardInput}
use chuk_mcp_training.Hub.Assemble.{resume_staging}
use chuk_mcp_training.Jobs.Spec.{
  InputArtifact, OutputRule, train_job, train_inputs, resume_inputs, data_inputs, shard_input,
  pushed, checkpoint_rule,
}
use chuk_mcp_training.Upload.{
  created, found, get_artifact, put_artifact, authorize, upload, fetch, upload_by, fetch_by,
}
use chuk_mcp_training.Upload.Keys.{
  checkpoint_key, output_key, may_write-hot, may_read-hot, may_read-tarball,
}

-- What the hub stages for a train run (Hub::assemble_train_job).
abbrev pub staged :
    String → TrainSpec → String → String → Option CheckpointInfo → Option DataStaging → TrainStaging
staged run_id spec entrypoint_cmd token latest shards = record {
  entrypoint_cmd = entrypoint_cmd;
  code_unit_uri = code_unit_tarball spec.code.name spec.code.sha;
  grant = token;
  resume = resume_staging run_id latest;
  data_staging = shards;
}

module _ (at : ℕ) (header : Option String) (h : Hub) (g : Grant)
    (authorized : (authorize at header h).1 ≡ some g) where
  -- A key that the grant may read is answered from the store, and one that it may write is stored.
  abbrev Served : String → Type 0
  Served key = (fetch at header key h).1 ≡ found (get_artifact key (authorize at header h).0)

  fetch-Served : (key : String) → may_read g key ≡ true → Served key
  unfolding fetch fetch_by
  fetch-Served key e = by_grant (authorize at header h) authorized
    where
      by_grant :
          (x : Hub × Option Grant)
          → x.1 ≡ some g
          → (fetch_by key x).1 ≡ found (get_artifact key x.0)
      by_grant (k, none) f = absurd cc
      by_grant (k, some other) f = rw (some-injective _ _ f) (rw e refl)

  abbrev Stored : String → Type 0
  Stored key =
      (body : Bytes)
      → upload at header key body h ≡ (
        record ((authorize at header h).0) { blobs = put key body (authorize at header h).0.blobs },
        created,
      )

  upload-Stored : (key : String) → is_safe_key key ≡ true → may_write g key ≡ true → Stored key
  unfolding upload upload_by put_artifact
  upload-Stored key safe e body = by_grant (authorize at header h) authorized
    where
      by_grant :
          (x : Hub × Option Grant)
          → x.1 ≡ some g
          → upload_by key body x ≡ (record (x.0) { blobs = put key body x.0.blobs }, created)
      by_grant (k, none) f = absurd cc
      by_grant (k, some other) f = rw (some-injective _ _ f) (rw (e, safe) refl)

  pushed-All :
      (P : InputArtifact → Type 0) (xs ys : List InputArtifact)
      → All P xs
      → All P ys
      → All P (pushed xs ys)
  pushed-All P [] ys p q = q
  pushed-All P (x ∷ xs) ys p q = (p.0, pushed-All P xs ys p.1 q)

  -- An input that is a key of the store, not a shard with its own location and hash.
  abbrev FromStore : InputArtifact → Type 0
  FromStore i = i.sha256 ≡ none → is_safe_key i.uri ≡ true → Served i.uri

  shards-FromStore : (shards : List ShardInput) → All FromStore (map shard_input shards)
  unfolding shard_input
  shards-FromStore [] = tt
  shards-FromStore (x ∷ xs) = ((λ e safe. absurd cc), shards-FromStore xs)

  data-FromStore : (o : Option DataStaging) → All FromStore (data_inputs o)
  unfolding data_inputs
  data-FromStore none = tt
  data-FromStore (some d) = shards-FromStore d.shards

  resume-FromStore :
      (latest : Option CheckpointInfo)
      → All FromStore (resume_inputs (resume_staging g.run_id latest))
  unfolding resume_inputs resume_staging
  resume-FromStore none = tt
  resume-FromStore (some c) = (
    (λ e safe.
        fetch-Served _
          (may_read-hot g _ _ (checkpoint_key g.run_id c.step checkpoint_model_file) safe)),
    (
      (λ e safe.
          fetch-Served _
            (may_read-hot g _ _ (checkpoint_key g.run_id c.step checkpoint_meta_file) safe)),
      tt,
    ),
  )

  tarball-Served :
      (c : CodeRef)
      → g.code ≡ c
      → is_safe_key (code_unit_tarball c.name c.sha) ≡ true
      → Served (code_unit_tarball c.name c.sha)
  tarball-Served c e =
      subst
        (λ c.
          is_safe_key (code_unit_tarball c.name c.sha) ≡ true
          → Served (code_unit_tarball c.name c.sha))
        e (λ safe. fetch-Served _ (may_read-tarball g safe))

  -- A grant of the run and its code covers the job that the hub assembles for the run: an input of the job
  -- without a hash of its own, so not a shard of a dataset, that is a safe key of the store is answered from
  -- the store, and what is sent under the prefix of an output rule, as a safe key, is stored.
  pub train_job-Covered :
      (as_i64 : String → Option ℤ) (print : Table String → String) (spec : TrainSpec)
      (cmd token : String) (latest : Option CheckpointInfo) (shards : Option DataStaging)
      (i : InputArtifact) (o : OutputRule) (rel : String) (body : Bytes)
      → g.code ≡ spec.code
      → IsIn i
          (train_job as_i64 print g.run_id spec
            (staged g.run_id spec cmd token latest shards)).inputs
      → i.sha256 ≡ none
      → is_safe_key i.uri ≡ true
      → IsIn o
          (train_job as_i64 print g.run_id spec
            (staged g.run_id spec cmd token latest shards)).outputs
      → is_safe_key (o.key_prefix ++ ("/" ++ rel)) ≡ true
      → ((fetch at header i.uri h).1 ≡ found (get_artifact i.uri (authorize at header h).0))
        × (upload at header (o.key_prefix ++ ("/" ++ rel)) body h ≡ (
          record ((authorize at header h).0) {
            blobs = put (o.key_prefix ++ ("/" ++ rel)) body (authorize at header h).0.blobs;
          },
          created,
        ))
  unfolding train_job train_inputs checkpoint_rule
  train_job-Covered as_i64 print spec cmd token latest shards i o rel body same m none_of safe n
        fits =
      (
        All-IsIn FromStore i
            ((train_job as_i64 print g.run_id spec
              (staged g.run_id spec cmd token latest shards)).inputs)
            (
              (λ e safe. tarball-Served spec.code same safe),
              pushed-All FromStore _ _ (resume-FromStore latest) (data-FromStore shards),
            )
            m none_of safe,
        All-IsIn
            (λ o.
              is_safe_key (o.key_prefix ++ ("/" ++ rel)) ≡ true
              → Stored (o.key_prefix ++ ("/" ++ rel)))
            o
            ((train_job as_i64 print g.run_id spec
              (staged g.run_id spec cmd token latest shards)).outputs)
            (
              (λ safe. upload-Stored _ safe (may_write-hot g _ rel (output_key g.run_id rel) safe)),
              tt,
            )
            n fits body,
      )
