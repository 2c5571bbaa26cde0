-- ===== src/Grant.antt =====
-- crates/chuk-train-controlplane/src/grant.rs: run-scoped upload and read capabilities. The token's
-- random part is an argument of `mint`; `Instant::now()` is the argument `at`.
pub mod Scope
pub mod Tokens
use Prim.Native.String.{◌++◌}
use text.Mathlib.Text.{starts_with}
use chuk_mcp_training.Base.{
  ℕ, ◌+◌, String, ◌==◌, Bool, false, not, ◌&&◌, ◌||◌, Option, none, some, List, [], ◌∷◌, Table, get,
  put, del, keep, any, ltb, if◌then◌else◌,
}
use chuk_mcp_training.Proto.Constants.{upload_grant_ttl}
use chuk_mcp_training.Proto.Run.{CodeRef}
use chuk_mcp_training.Proto.Keys.{is_safe_key, code_unit_dir}

pub record Grant : Type 0 where
  pub run_id : String
  pub code : CodeRef
  pub expires : ℕ

-- Grant::is_valid
unfoldable pub is_valid : ℕ → Grant → Bool
is_valid at g = ltb at g.expires

-- Grant::run_prefixes
unfoldable pub run_prefixes : Grant → List String
run_prefixes g =
    ("runs/" ++ (g.run_id ++ "/"))
    ∷ ("ckpt-hot/" ++ (g.run_id ++ "/"))
    ∷ ("ckpt-final/" ++ (g.run_id ++ "/"))
    ∷ []

-- Grant::may_write
unfoldable pub may_write : Grant → String → Bool
unfolding run_prefixes
may_write g key = is_safe_key key && any (λ p. starts_with key p) (run_prefixes g)

-- Grant::may_read
unfoldable pub may_read : Grant → String → Bool
unfolding run_prefixes
may_read g key =
    if not (is_safe_key key)
    then false
    else any (λ p. starts_with key p) (run_prefixes g)
      || starts_with key (code_unit_dir g.code.name g.code.sha ++ "/")

-- GrantTable::mint, with the table and the token
unfoldable pub mint : ℕ → String → String → CodeRef → Table Grant → Table Grant × String
mint at random run_id code t =
    let token = "grant-" ++ random in
    (put token (record { run_id = run_id; code = code; expires = at + upload_grant_ttl }) t, token)

-- GrantTable::resolve: an expired grant is dropped
unfoldable pub resolve : ℕ → String → Table Grant → Table Grant × Option Grant
unfolding is_valid
resolve at token t = elim (get token t) [
  | none ↦ (t, none)
  | some g ↦ if is_valid at g then (t, some g) else (del token t, none)
]

-- GrantTable::revoke_run
unfoldable pub revoke_run : String → Table Grant → Table Grant
revoke_run run_id t = keep (λ e. not (e.1.run_id == run_id)) t
