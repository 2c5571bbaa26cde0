-- ===== src/Examples/Keys.antt =====
-- The theorem of Hub/Steps at a concrete key.
use chuk_mcp_training.Base.{◌≡◌, some, arith}
use chuk_mcp_training.Proto.Keys.{checkpoint_dir}
use chuk_mcp_training.Hub.Checkpoints.{step_from_uri}
use chuk_mcp_training.Hub.Steps.{step_from_uri-checkpoint_dir}

step_from_uri-checkpoint_dir_example : step_from_uri (checkpoint_dir "exec-1" 500) ≡ some 500
step_from_uri-checkpoint_dir_example = step_from_uri-checkpoint_dir "exec-1" 500 (omega arith)
