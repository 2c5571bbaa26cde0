-- ===== src/Proto/Keys.antt =====
-- crates/chuk-train-proto/src/keys.rs: the layout of the artifact store's keys.
use Prim.Native.String.{◌++◌}
use text.Mathlib.Text.{starts_with}
use chuk_mcp_training.Base.{ℕ, String, ◌==◌, Bool, not, ◌&&◌, ◌||◌, any}
use chuk_mcp_training.Base.Text.{split}
use chuk_mcp_training.Base.Decimal.{show_ℕ}

-- code_unit_dir
unfoldable pub code_unit_dir : String → String → String
code_unit_dir name sha = "artifacts/code/" ++ (name ++ ("/" ++ sha))

-- code_unit_tarball
unfoldable pub code_unit_tarball : String → String → String
unfolding code_unit_dir
code_unit_tarball name sha = code_unit_dir name sha ++ "/unit.tar.zst"

-- checkpoint_dir
unfoldable pub checkpoint_dir : String → ℕ → String
checkpoint_dir run_id step = "ckpt-hot/" ++ (run_id ++ ("/step_" ++ show_ℕ step))

-- checkpoint_file
unfoldable pub checkpoint_file : String → ℕ → String → String
unfolding checkpoint_dir
checkpoint_file run_id step filename = checkpoint_dir run_id step ++ ("/" ++ filename)

abbrev pub checkpoint_model_file : String
checkpoint_model_file = "model.safetensors"

abbrev pub checkpoint_meta_file : String
checkpoint_meta_file = "meta.json"

-- is_safe_key
unfoldable pub is_safe_key : String → Bool
is_safe_key key =
    not (key == "")
    && not (starts_with key "/")
    && not (any (λ seg. seg == "" || seg == "." || seg == "..") (split b'/' key))
