-- ===== src/Grant/Tokens.antt =====
-- The table of tokens (grant.rs: mint, resolve and revoke_run).
use Prim.Native.String.{◌++◌}
use chuk_mcp_training.Base.{
  ℕ, ◌+◌, String, ◌==◌, ◌≡◌, none, some, Table, Unique, arith, put, get-put, get-del, get-keep,
  eq_iff, ltb, not, if◌then◌else◌,
}
use chuk_mcp_training.Proto.Constants.{upload_grant_ttl}
use chuk_mcp_training.Proto.Run.{CodeRef}
use chuk_mcp_training.Grant.{Grant, mint, resolve, revoke_run, is_valid}

resolve-put :
    (later : ℕ) (fresh token : String) (g : Grant) (t : Table Grant)
    → (resolve later token (put fresh g t)).1 ≡ (
        if fresh == token
        then (if ltb later g.expires then some g else none)
        else (resolve later token t).1)
unfolding resolve is_valid
resolve-put later fresh token g t = ground (arith, get-put fresh token g t, eq_iff fresh token)

module _ (at later : ℕ) (random run_id : String) (code : CodeRef) (t : Table Grant) where
  -- After a mint, the new token resolves to a grant of its run and code until its time to live has
  -- passed and to nothing from then on; every other token resolves as it did before.
  pub resolve-mint :
      (token : String)
      → (resolve later token (mint at random run_id code t).0).1 ≡ (
          if (mint at random run_id code t).1 == token
          then (if ltb later (at + upload_grant_ttl)
              then some (record { run_id = run_id; code = code; expires = at + upload_grant_ttl })
              else none)
          else (resolve later token t).1)
  unfolding mint
  resolve-mint token = resolve-put later ("grant-" ++ random) token _ t

module _ (at : ℕ) (run_id : String) (t : Table Grant) (unique : Unique t) where
  -- After a run's grants are revoked, a token resolves to what it resolved to before, unless that was a
  -- grant of the run: then it resolves to nothing.
  pub resolve-revoke_run :
      (token : String)
      → (resolve at token (revoke_run run_id t)).1 ≡ elim (resolve at token t).1 [
        | none ↦ none
        | some g ↦ if g.run_id == run_id then none else some g
      ]
  unfolding resolve revoke_run is_valid
  resolve-revoke_run token = ground (arith, get-keep (λ g. not (g.run_id == run_id)) token t unique)

-- An expired grant is gone once it was asked for: no later lookup of its token, at any time, finds it,
-- and a lookup changes no other token.
pub resolve-resolve :
    (at later : ℕ) (token j : String) (t : Table Grant)
    → (resolve later j (resolve at token t).0).1 ≡ (
        if token == j
        then elim (resolve at token t).1 [ none ↦ none | some g ↦ (resolve later j t).1 ]
        else (resolve later j t).1)
unfolding resolve is_valid
resolve-resolve at later token j t = ground (arith, get-del token j t, eq_iff token j)
