-- ===== src/Examples/Uploads.antt =====
-- The theorem of Upload/Coverage at a grant of a run that resumes.
use chuk_mcp_training.Base.{◌≡◌, refl, none, some, [], ◌∷◌, true, get, put, inl}
use chuk_mcp_training.Base.Text.{strip_prefix, split}
use chuk_mcp_training.Proto.Run.{TrainSpec}
use chuk_mcp_training.Proto.Keys.{code_unit_tarball, is_safe_key}
use chuk_mcp_training.Grant.{Grant}
use chuk_mcp_training.Hub.State.{Hub}
use chuk_mcp_training.Jobs.Spec.{checkpoint_rule, train_job, train_inputs}
use chuk_mcp_training.Upload.{authorize, fetch, upload, found, get_artifact, created}
use chuk_mcp_training.Upload.Coverage.{train_job-Covered}
use chuk_mcp_training.Examples.HubData.{hub}

abbrev spec : TrainSpec
spec = record {
  code = record { name = "unit"; sha = "abc" };
  entrypoint = "main";
  config = none;
  overrides = [];
  data_ref = none;
  seed = none;
  arch = none;
  timeout_s = 600;
}

abbrev grant : Grant
grant = record { run_id = "r1"; code = spec.code; expires = 100 }

abbrev granting : Hub
granting = record hub { grants = ("grant-1", grant) ∷ [] }

authorized : (authorize 5 (some "Bearer grant-1") granting).1 ≡ some grant
unfolding authorize strip_prefix get
authorized = refl

train_job-Covered_example :
    ((fetch 5 (some "Bearer grant-1") "artifacts/code/unit/abc/unit.tar.zst" granting).1
      ≡ found (get_artifact "artifacts/code/unit/abc/unit.tar.zst" granting))
    × (upload 5 (some "Bearer grant-1") "ckpt-hot/r1/step_5/model.safetensors" (1 ∷ []) granting ≡ (
      record granting {
        blobs = put "ckpt-hot/r1/step_5/model.safetensors" (1 ∷ []) granting.blobs;
      },
      created,
    ))
unfolding authorize strip_prefix get code_unit_tarball is_safe_key split checkpoint_rule train_job
    train_inputs
train_job-Covered_example =
    train_job-Covered 5 (some "Bearer grant-1") granting grant authorized (λ s. none) (λ t. "") spec
      "python main.py" "grant-1" none none
      (record {
        uri = "artifacts/code/unit/abc/unit.tar.zst";
        dest = "${SANDBOX}/unit";
        sha256 = none;
        unpack = true;
      })
      (checkpoint_rule "r1") "step_5/model.safetensors" (1 ∷ []) refl (inl refl) refl refl
      (inl refl) refl
