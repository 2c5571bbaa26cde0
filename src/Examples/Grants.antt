-- ===== src/Examples/Grants.antt =====
-- The theorems of Grant/Scope and Grant/Tokens at concrete grants.
use chuk_mcp_training.Base.{
  ◌≡◌, refl, ◌==◌, ◌+◌, none, some, true, Unique, get, [], ◌∷◌, Table, ltb, if◌then◌else◌,
}
use chuk_mcp_training.Base.Text.{all_chars, split}
use chuk_mcp_training.Proto.Constants.{upload_grant_ttl}
use chuk_mcp_training.Proto.Keys.{is_safe_key}
use chuk_mcp_training.Proto.Run.{CodeRef}
use chuk_mcp_training.Grant.{Grant, mint, resolve, revoke_run, may_write, run_prefixes}
use chuk_mcp_training.Grant.Scope.{is_segment, may_write-disjoint}
use chuk_mcp_training.Grant.Tokens.{resolve-mint, resolve-revoke_run, resolve-resolve}

abbrev code : CodeRef
code = record { name = "trainer"; sha = "ab" }

abbrev first_grant : Grant
first_grant = record { run_id = "exec-1"; code = code; expires = 10 }

abbrev renewed_grant : Grant
renewed_grant = record { run_id = "exec-1"; code = code; expires = 20 }

abbrev tokens : Table Grant
tokens = ("grant-a", first_grant) ∷ ("grant-b", renewed_grant) ∷ []

first_is_segment : is_segment "exec-1" ≡ true
unfolding all_chars
first_is_segment = refl

first_writes : may_write first_grant "ckpt-hot/exec-1/step_5" ≡ true
unfolding may_write is_safe_key run_prefixes split
first_writes = refl

renewed_writes : may_write renewed_grant "ckpt-hot/exec-1/step_5" ≡ true
unfolding may_write is_safe_key run_prefixes split
renewed_writes = refl

may_write-disjoint_example : first_grant.run_id ≡ renewed_grant.run_id
may_write-disjoint_example =
    may_write-disjoint first_grant renewed_grant "ckpt-hot/exec-1/step_5" first_is_segment
      first_is_segment first_writes renewed_writes

resolve-mint_example : (resolve 7 "grant-c" (mint 5 "c" "exec-2" code tokens).0).1 ≡ (
    if (mint 5 "c" "exec-2" code tokens).1 == "grant-c"
    then (if ltb 7 (5 + upload_grant_ttl)
        then some (record { run_id = "exec-2"; code = code; expires = 5 + upload_grant_ttl })
        else none)
    else (resolve 7 "grant-c" tokens).1)
resolve-mint_example = resolve-mint 5 7 "c" "exec-2" code tokens "grant-c"

tokens-Unique : Unique tokens
unfolding get
tokens-Unique = (refl, (refl, tt))

resolve-revoke_run_example :
    (resolve 5 "grant-a" (revoke_run "exec-1" tokens)).1 ≡ elim (resolve 5 "grant-a" tokens).1 [
      | none ↦ none
      | some g ↦ if g.run_id == "exec-1" then none else some g
    ]
resolve-revoke_run_example = resolve-revoke_run 5 "exec-1" tokens tokens-Unique "grant-a"

resolve-resolve_example : (resolve 5 "grant-a" (resolve 12 "grant-a" tokens).0).1 ≡ (
    if "grant-a" == "grant-a"
    then elim (resolve 12 "grant-a" tokens).1 [
      | none ↦ none
      | some g ↦ (resolve 5 "grant-a" tokens).1
    ]
    else (resolve 5 "grant-a" tokens).1)
resolve-resolve_example = resolve-resolve 12 5 "grant-a" "grant-a" tokens
