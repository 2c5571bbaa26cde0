-- ===== src/Api/Access.antt =====
-- api/access.rs: users, API keys, worker tokens and the keys of the experiments server.
use Prim.Native.String.{◌++◌}
use chuk_mcp_training.Base.{
  ℕ, String, ◌==◌, Bool, not, ◌&&◌, Option, none, some, List, keep, find, ltb, if◌then◌else◌,
}
use chuk_mcp_training.Base.Text.{trim, take_chars}
use chuk_mcp_training.Proto.Constants.{api_key_prefix, worker_token_prefix}
use chuk_mcp_training.Proto.Role.{Role, admin, level, as_str, User, ApiKeyInfo}
use chuk_mcp_training.Store.Tables.{Store, WorkerToken}
use chuk_mcp_training.Store.Tokens.{
  is_null, create_worker_token, list_worker_tokens, revoke_worker_token,
}
use chuk_mcp_training.Store.Auth.{
  upsert_user, list_users, remove_user, list_api_keys, create_api_key, revoke_api_key,
  set_user_experiments_key, user_experiments_key,
}
use chuk_mcp_training.Leases.Manager.{Outside}
use chuk_mcp_training.Leases.Spending.{generate_with_prefix}
use chuk_mcp_training.Api.Answers.{
  forbidden, bad_request, not_found, service_unavailable, text, AuthContext, may, Handler, ◌>>=◌,
  ◌>>◌, reply, refuse, asks, reads, writes, call, refuse_if, require_role,
}
use chuk_mcp_training.Api.Middleware.{master_token_sentinel}

-- UpsertUserRequest
pub record UpsertUserRequest : Type 0 where
  pub email : String
  pub role : Role

-- CreateApiKeyRequest
pub record CreateApiKeyRequest : Type 0 where
  pub name : String
  pub role : Role

-- CreatedApiKey
pub record CreatedApiKey : Type 0 where
  pub key : String
  pub info : ApiKeyInfo

-- CreatedWorkerToken, its info without the times
pub record CreatedWorkerToken : Type 0 where
  pub token : String
  pub id : String
  pub worker_id : String
  pub name : String
  pub prefix : String

-- The answer of whoami
pub record Whoami : Type 0 where
  pub role : String
  pub team_id : String
  pub subject : String
  pub experiments_key_set : Bool

-- `request.role > ctx.role`
unfoldable pub is_above : Role → Role → Bool
is_above role ceiling = ltb (level ceiling) (level role)

-- The keys that a caller sees.
unfoldable pub visible : AuthContext → List ApiKeyInfo → List ApiKeyInfo
unfolding may
visible ctx keys = if may ctx admin then keys else keep (λ k. k.created_by == ctx.subject) keys

-- An answer by whether a row was changed.
abbrev pub changed : {W : Type 0} → Bool → Handler W (Unit {0})
changed b = if b then reply tt else refuse not_found (text "no such run")

module _ {W : Type 0} (out : Outside W) where
  -- the clock
  unfoldable pub now : Handler W ℕ
  now = asks (λ g. out.now g.world)

  -- a statement of the store at the time of the clock
  unfoldable pub execute : {A : Type 0} → (ℕ → Store → Store × A) → Handler W A
  unfolding now
  execute statement = now >>= λ at. writes (statement at)

module _ {W : Type 0} (out : Outside W) (ctx : AuthContext) where
  -- list_users
  unfoldable pub list_users_handler : Handler W (List User)
  list_users_handler = require_role ctx admin >> reads (list_users ctx.team_id)

  module _ (to_lowercase : String → String) where
    -- upsert_user
    unfoldable pub upsert_user_handler : UpsertUserRequest → Handler W (Unit {0})
    unfolding trim is_above execute
    upsert_user_handler request = do
      require_role ctx admin
      refuse_if (is_above request.role ctx.role) bad_request
          (text "cannot grant a role above your own")
      refuse_if (to_lowercase (trim request.email) == "") bad_request (text "email required")
      execute out (λ at s.
          (upsert_user at (to_lowercase (trim request.email)) ctx.team_id request.role s, tt))

    -- remove_user
    unfoldable pub remove_user_handler : String → Handler W (Unit {0})
    unfolding trim
    remove_user_handler email = do
      require_role ctx admin
      refuse_if (to_lowercase (trim email) == ctx.subject) bad_request
          (text "cannot remove yourself")
      writes (λ s. (remove_user (to_lowercase (trim email)) s, tt))

  -- list_api_keys
  unfoldable pub list_api_keys_handler : Handler W (List ApiKeyInfo)
  unfolding visible
  list_api_keys_handler = reads (λ s. visible ctx (list_api_keys ctx.team_id s))

  -- The info of a new key.
  unfoldable pub new_key : CreateApiKeyRequest → String → String → ℕ → ApiKeyInfo
  unfolding trim
  new_key request prefix id at = record {
    id = id;
    team_id = ctx.team_id;
    created_by = ctx.subject;
    name = trim request.name;
    prefix = prefix;
    role = request.role;
    created_at = at;
    last_used_at = none;
    revoked_at = none;
  }

  -- create_api_key past its guards
  unfoldable pub mint_key : CreateApiKeyRequest → Handler W CreatedApiKey
  unfolding generate_with_prefix new_key execute
  mint_key request = do
    generated ← call (generate_with_prefix out api_key_prefix)
    id ← call out.uuid
    execute out (λ at s. (
      create_api_key generated.2 (new_key request generated.1 id at) s,
      record { key = generated.0; info = new_key request generated.1 id at },
    ))

  -- create_api_key
  unfoldable pub create_api_key_handler : CreateApiKeyRequest → Handler W CreatedApiKey
  unfolding trim is_above mint_key
  create_api_key_handler request = do
    refuse_if (is_above request.role ctx.role) forbidden
        (text "cannot grant a key a role above your own")
    refuse_if (trim request.name == "") bad_request (text "key name required")
    mint_key request

  -- revoke_api_key once the key is looked up
  unfoldable pub revoke_found : String → Option ApiKeyInfo → Handler W (Unit {0})
  unfolding may execute
  revoke_found id none = refuse not_found (text "no such run")
  revoke_found id (some key) = do
    refuse_if (not (may ctx admin) && not (key.created_by == ctx.subject)) forbidden
        (text "you can only revoke keys you created")
    revoked ← execute out (λ at. revoke_api_key at id)
    changed revoked

  -- revoke_api_key
  unfoldable pub revoke_api_key_handler : String → Handler W (Unit {0})
  unfolding revoke_found
  revoke_api_key_handler id = do
    keys ← reads (list_api_keys ctx.team_id)
    revoke_found id (find (λ k. k.id == id) keys)

  -- list_worker_tokens
  unfoldable pub list_worker_tokens_handler : Handler W (List WorkerToken)
  list_worker_tokens_handler = require_role ctx admin >> reads list_worker_tokens

  -- create_worker_token
  unfoldable pub create_worker_token_handler : String → Handler W CreatedWorkerToken
  unfolding trim take_chars generate_with_prefix execute
  create_worker_token_handler name = do
    require_role ctx admin
    refuse_if (trim name == "") bad_request (text "worker token name required")
    generated ← call (generate_with_prefix out worker_token_prefix)
    worker ← call out.uuid
    id ← call out.uuid
    execute out (λ at s. (
      create_worker_token at id ("w-" ++ take_chars 8 worker) (trim name) generated.1 generated.2 s,
      record {
        token = generated.0;
        id = id;
        worker_id = "w-" ++ take_chars 8 worker;
        name = trim name;
        prefix = generated.1;
      },
    ))

  -- revoke_worker_token
  unfoldable pub revoke_worker_token_handler : String → Handler W (Unit {0})
  unfolding execute
  revoke_worker_token_handler id = do
    require_role ctx admin
    revoked ← execute out (λ at. revoke_worker_token at id)
    changed revoked

  -- whoami
  unfoldable pub whoami : Handler W Whoami
  unfolding as_str
  whoami = reads (λ s. record {
    role = as_str ctx.role;
    team_id = ctx.team_id;
    subject = ctx.subject;
    experiments_key_set = not (is_null (user_experiments_key ctx.owner_email s));
  })

  -- The two guards of the linking of a key: a configured cipher, and a caller that is a user.
  unfoldable pub may_link : Option String → Handler W String
  may_link none =
      refuse service_unavailable (text "CHUK_EXPERIMENTS_KEY_ENCRYPTION_KEY not configured")
  may_link (some cipher) =
      refuse_if (ctx.owner_email == master_token_sentinel) bad_request (
        text
          "the shared master token has no per-user identity to link a key against — sign in or use a scoped API key")
      >> reply cipher

  -- set_experiments_key, `encrypt` the cipher of crypto.rs
  unfoldable pub set_experiments_key :
      (String → String → W → W × String) → Option String → String → Handler W (Unit {0})
  unfolding trim may_link execute
  set_experiments_key encrypt encryption_key api_key = do
    cipher ← may_link encryption_key
    refuse_if (trim api_key == "") bad_request (text "api_key required")
    encrypted ← call (encrypt cipher (trim api_key))
    execute out (λ at s. (set_user_experiments_key at ctx.owner_email (some encrypted) s, tt))

  -- clear_experiments_key
  unfoldable pub clear_experiments_key : Option String → Handler W (Unit {0})
  unfolding may_link execute
  clear_experiments_key encryption_key = do
    may_link encryption_key
    execute out (λ at s. (set_user_experiments_key at ctx.owner_email none s, tt))
