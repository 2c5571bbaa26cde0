-- ===== src/Store/Tokens.antt =====
-- store/sqlite/tokens.rs: join tokens, used once, and persistent worker tokens.
use mathlib.Core.List.{reverse}
use chuk_mcp_training.Base.{
  ℕ, String, ◌==◌, Bool, true, false, not, ◌&&◌, Option, none, some, List, [], ◌∷◌, ◌++◌, find, ltb,
  modify,
}
use chuk_mcp_training.Store.Tables.{WorkerToken, JoinToken, Store}

abbrev pub is_null {ℓ} : {A : Type ℓ} → Option A → Bool
is_null none = true
is_null (some x) = false

-- create_join_token
unfoldable pub create_join_token : ℕ → String → String → String → ℕ → Store → Store
create_join_token at id worker_id token_hash expires_at s = record s {
  join_tokens =
      s.join_tokens
      ++ record {
        id = id;
        worker_id = worker_id;
        token_hash = token_hash;
        created_at = at;
        expires_at = expires_at;
        used_at = none;
      }
        ∷ [];
}

-- The WHERE clause of the update of `resolve_join_token`.
abbrev pub is_usable : ℕ → String → JoinToken → Bool
is_usable at token_hash t =
    (t.token_hash == token_hash) && (is_null t.used_at && ltb at t.expires_at)

-- The WHERE clause of its query.
abbrev pub is_used : String → JoinToken → Bool
is_used token_hash t = (t.token_hash == token_hash) && not (is_null t.used_at)

-- Its answer where no row was updated.
unfoldable pub recalled : Option JoinToken → Option (String × Bool)
recalled none = none
recalled (some t) = some (t.worker_id, false)

-- Its body, by the row that is updated.
unfoldable pub consumed : String → ℕ → Option JoinToken → Store → Store × Option (String × Bool)
unfolding recalled
consumed token_hash at (some t) s = (
  record s {
    join_tokens =
        modify (is_usable at token_hash) (λ x. record x { used_at = some at }) s.join_tokens;
  },
  some (t.worker_id, true),
)
consumed token_hash at none s = (s, recalled (find (is_used token_hash) s.join_tokens))

-- resolve_join_token: the worker of the token, and whether this was its first use
unfoldable pub resolve_join_token : String → ℕ → Store → Store × Option (String × Bool)
unfolding consumed
resolve_join_token token_hash at s =
    consumed token_hash at (find (is_usable at token_hash) s.join_tokens) s

-- create_worker_token
unfoldable pub create_worker_token : ℕ → String → String → String → String → String → Store → Store
create_worker_token at id worker_id name prefix token_hash s = record s {
  worker_tokens =
      s.worker_tokens
      ++ record {
        id = id;
        worker_id = worker_id;
        name = name;
        prefix = prefix;
        token_hash = token_hash;
        created_at = at;
        last_used_at = none;
        revoked_at = none;
      }
        ∷ [];
}

-- list_worker_tokens, newest first; the hash is not shown
unfoldable pub list_worker_tokens : Store → List WorkerToken
list_worker_tokens s = reverse s.worker_tokens

-- resolve_worker_token
unfoldable pub resolve_worker_token : String → Store → Option WorkerToken
resolve_worker_token token_hash s =
    find (λ t. (t.token_hash == token_hash) && is_null t.revoked_at) s.worker_tokens

abbrev pub is_unrevoked : String → WorkerToken → Bool
is_unrevoked id t = (t.id == id) && is_null t.revoked_at

-- revoke_worker_token, and whether a row changed
unfoldable pub revoke_worker_token : ℕ → String → Store → Store × Bool
revoke_worker_token at id s = (
  record s {
    worker_tokens =
        modify (is_unrevoked id) (λ t. record t { revoked_at = some at }) s.worker_tokens;
  },
  elim (find (is_unrevoked id) s.worker_tokens) [ none ↦ false | some t ↦ true ],
)

-- touch_worker_token
unfoldable pub touch_worker_token : String → ℕ → Store → Store
touch_worker_token id at s = record s {
  worker_tokens =
      modify (λ t. t.id == id) (λ t. record t { last_used_at = some at }) s.worker_tokens;
}
