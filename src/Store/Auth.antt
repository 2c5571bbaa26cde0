-- ===== src/Store/Auth.antt =====
-- store/sqlite/auth.rs: users and API keys. The rows stand in the order in which they were written.
use Prim.Native.String.{compare}
use mathlib.Core.List.{reverse}
use chuk_mcp_training.Base.{
  ℕ, String, ◌==◌, Bool, not, ◌&&◌, Option, none, some, List, [], ◌∷◌, ◌++◌, map, find, any, keep,
  modify, Ordering, if◌then◌else◌,
}
use chuk_mcp_training.Proto.Role.{Role, read, User, ApiKeyInfo, ApiKey}
use chuk_mcp_training.Proto.Constants.{default_team_id}
use chuk_mcp_training.Store.Tables.{Store}
use chuk_mcp_training.Store.Tokens.{is_null}

-- INSERT … ON CONFLICT(email) DO UPDATE: `change` of the row of the email, or a new row.
unfoldable pub upsert : String → (User → User) → User → List User → List User
upsert email change row users =
    if any (λ u. u.email == email) users
    then modify (λ u. u.email == email) change users
    else users ++ row ∷ []

-- upsert_user
unfoldable pub upsert_user : ℕ → String → String → Role → Store → Store
unfolding upsert
upsert_user at email team_id role s = record s {
  users =
      upsert email (λ u. record u { team_id = team_id; role = role })
        (record {
          email = email;
          team_id = team_id;
          role = role;
          created_at = at;
          experiments_api_key_encrypted = none;
        })
        s.users;
}

-- get_user
unfoldable pub get_user : String → Store → Option User
get_user email s = find (λ u. u.email == email) s.users

-- ORDER BY email
unfoldable pub insert_by_email : User → List User → List User
insert_by_email u [] = u ∷ []
insert_by_email u (v ∷ vs) =
    let rest = insert_by_email u vs in
    elim (compare v.email u.email) [ Ordering.gt ↦ u ∷ v ∷ vs | _ ↦ v ∷ rest ]

unfoldable pub sort_by_email : List User → List User
unfolding insert_by_email
sort_by_email [] = []
sort_by_email (u ∷ us) = insert_by_email u (sort_by_email us)

-- list_users
unfoldable pub list_users : String → Store → List User
unfolding sort_by_email
list_users team_id s = sort_by_email (keep (λ u. u.team_id == team_id) s.users)

-- remove_user
unfoldable pub remove_user : String → Store → Store
remove_user email s = record s { users = keep (λ u. not (u.email == email)) s.users }

-- set_user_experiments_key
unfoldable pub set_user_experiments_key : ℕ → String → Option String → Store → Store
unfolding upsert
set_user_experiments_key at email encrypted s = record s {
  users =
      upsert email (λ u. record u { experiments_api_key_encrypted = encrypted })
        (record {
          email = email;
          team_id = default_team_id;
          role = read;
          created_at = at;
          experiments_api_key_encrypted = encrypted;
        })
        s.users;
}

-- user_experiments_key
unfoldable pub user_experiments_key : String → Store → Option String
user_experiments_key email s = elim (find (λ u. u.email == email) s.users) [
  | none ↦ none
  | some u ↦ u.experiments_api_key_encrypted
]

-- create_api_key
unfoldable pub create_api_key : String → ApiKeyInfo → Store → Store
create_api_key key_hash info s = record s {
  api_keys = s.api_keys ++ record { key_hash = key_hash; info = info } ∷ [];
}

-- list_api_keys, newest first
unfoldable pub list_api_keys : String → Store → List ApiKeyInfo
list_api_keys team_id s =
    reverse (map (λ k. k.info) (keep (λ k. k.info.team_id == team_id) s.api_keys))

-- The WHERE clause of revoke_api_key.
abbrev pub is_live_key : String → ApiKey → Bool
is_live_key id k = (k.info.id == id) && is_null k.info.revoked_at

-- revoke_api_key, and whether a row changed
unfoldable pub revoke_api_key : ℕ → String → Store → Store × Bool
revoke_api_key at id s = (
  record s {
    api_keys =
        modify (is_live_key id) (λ k. record k { info = record (k.info) { revoked_at = some at } })
          s.api_keys;
  },
  any (is_live_key id) s.api_keys,
)

-- resolve_api_key
unfoldable pub resolve_api_key : String → Store → Option ApiKeyInfo
resolve_api_key key_hash s =
    elim (find (λ k. (k.key_hash == key_hash) && is_null k.info.revoked_at) s.api_keys) [
      | none ↦ none
      | some k ↦ some k.info
    ]

-- touch_api_key
unfoldable pub touch_api_key : String → ℕ → Store → Store
touch_api_key id at s = record s {
  api_keys =
      modify (λ k. k.info.id == id)
        (λ k. record k { info = record (k.info) { last_used_at = some at } }) s.api_keys;
}
