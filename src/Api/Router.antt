-- ===== src/Api/Router.antt =====
-- main.rs: the routes of api/access.rs and api/leases.rs, behind require_bearer.
use chuk_mcp_training.Base.Float.{F64}
use chuk_mcp_training.Base.{String, Option, none, some, List, [], ◌∷◌}
use chuk_mcp_training.Proto.Lease.{Lease}
use chuk_mcp_training.Proto.Ledger.{Budget}
use chuk_mcp_training.Proto.Role.{User, ApiKeyInfo}
use chuk_mcp_training.Store.Tables.{Store, WorkerToken}
use chuk_mcp_training.Budget.Report.{SpendReport}
use chuk_mcp_training.Auth.Cookies.{Codec, Settings}
use chuk_mcp_training.Leases.Manager.{ProvisionRequest, Outside, VerifyPolicy, Config, Manager}
use chuk_mcp_training.Leases.Teardown.{TeardownResult}
use chuk_mcp_training.Leases.Spending.{ProvisionResult}
use chuk_mcp_training.Api.Answers.{unauthorized, text, AuthContext, Handler, ◌>>=◌, reply, refuse}
use chuk_mcp_training.Api.Middleware.{Headers, resolve_auth}
use chuk_mcp_training.Api.Access.{
  UpsertUserRequest, CreateApiKeyRequest, CreatedApiKey, CreatedWorkerToken, Whoami,
  list_users_handler, upsert_user_handler, remove_user_handler, list_api_keys_handler,
  create_api_key_handler, revoke_api_key_handler, list_worker_tokens_handler,
  create_worker_token_handler, revoke_worker_token_handler, whoami, set_experiments_key,
  clear_experiments_key,
}
use chuk_mcp_training.Api.Leases.{
  ExtendLeaseRequest, TeardownRequest, SetBudgetRequest, ColabCell, lease_status, list_budgets,
  delete_budget_handler, provision_handler, extend_lease_handler, teardown_handler, colab_cell,
  spend_status, set_budget_handler,
}

-- A route with what its extractors hand to the handler.
pub data Route : Type 0 where
  get_users get_apikeys get_worker_tokens get_me delete_experiments_key get_budgets : Route
  post_users : UpsertUserRequest → Route
  post_apikeys : CreateApiKeyRequest → Route
  delete_user delete_apikey post_worker_tokens delete_worker_token put_experiments_key :
      String → Route
  get_lease delete_budgets : String → Route
  post_provision : ProvisionRequest → Route
  post_extend : String → ExtendLeaseRequest → Route
  post_teardown : String → TeardownRequest → Route
  get_spend : Option String → Route
  post_budgets : SetBudgetRequest → Route
  get_colab_cell : Option F64 → Option String → Route

-- The body of a response.
pub data Body : Type 0 where
  ok : Body
  user_list : List User → Body
  key_list : List ApiKeyInfo → Body
  token_list : List WorkerToken → Body
  created_key : CreatedApiKey → Body
  created_token : CreatedWorkerToken → Body
  me : Whoami → Body
  provisioned : ProvisionResult → Body
  lease_row : Lease → Body
  torn_down : TeardownResult → Body
  budget_list : List Budget → Body
  budget_row : Budget → Body
  spending : SpendReport → Body
  cell : ColabCell → Body

-- What the handlers share: the configuration and the codecs, and the cipher of crypto.rs.
pub record App (W : Type 0) : Type 1 where
  pub out : Outside W
  pub codec : Codec
  pub settings : Settings
  pub config : Config
  pub verify : VerifyPolicy
  pub encrypt : String → String → W → W × String

-- A request: its headers and its route.
pub record Request : Type 0 where
  pub headers : Headers
  pub route : Route

module _ {W : Type 0} (app : App W) where
  abbrev wrap : {A : Type 0} → (A → Body) → Handler W A → Handler W Body
  wrap body handler = handler >>= λ a. reply (body a)

  abbrev done_ok : Handler W (Unit {0}) → Handler W Body
  done_ok = wrap (λ u. ok)

  -- The handler of a route.
  unfoldable pub handle : AuthContext → Route → Handler W Body
  handle ctx get_users = wrap user_list (list_users_handler app.out ctx)
  handle ctx get_apikeys = wrap key_list (list_api_keys_handler app.out ctx)
  handle ctx get_worker_tokens = wrap token_list (list_worker_tokens_handler app.out ctx)
  handle ctx get_me = wrap me (whoami app.out ctx)
  handle ctx delete_experiments_key =
      done_ok (clear_experiments_key app.out ctx app.settings.key_encryption_key)
  handle ctx get_budgets = wrap budget_list list_budgets
  handle ctx (post_users request) =
      done_ok (upsert_user_handler app.out ctx app.codec.to_lowercase request)
  handle ctx (post_apikeys request) = wrap created_key (create_api_key_handler app.out ctx request)
  handle ctx (delete_user email) =
      done_ok (remove_user_handler app.out ctx app.codec.to_lowercase email)
  handle ctx (delete_apikey id) = done_ok (revoke_api_key_handler app.out ctx id)
  handle ctx (post_worker_tokens name) =
      wrap created_token (create_worker_token_handler app.out ctx name)
  handle ctx (delete_worker_token id) = done_ok (revoke_worker_token_handler app.out ctx id)
  handle ctx (put_experiments_key api_key) =
      done_ok (set_experiments_key app.out ctx app.encrypt app.settings.key_encryption_key api_key)
  handle ctx (get_lease worker_id) = wrap lease_row (lease_status worker_id)
  handle ctx (delete_budgets scope) = done_ok (delete_budget_handler ctx scope)
  handle ctx (post_provision request) =
      wrap provisioned (provision_handler app.out app.config ctx request)
  handle ctx (post_extend worker_id request) =
      wrap lease_row (extend_lease_handler app.out ctx worker_id request)
  handle ctx (post_teardown worker_id request) =
      wrap torn_down (teardown_handler app.out app.verify ctx worker_id request)
  handle ctx (get_spend period) = wrap spending (spend_status app.out period)
  handle ctx (post_budgets request) = wrap budget_row (set_budget_handler app.out ctx request)
  handle ctx (get_colab_cell lease_min labels) =
      wrap cell
        (colab_cell app.out app.settings.public_url app.config.drain_window_min lease_min labels)

  -- The credentials of a request.
  unfoldable pub authenticate : Headers → Manager W → Store × Option AuthContext
  unfolding resolve_auth
  authenticate headers g =
      resolve_auth app.codec app.settings app.out.hash_token (app.out.now g.world) headers
        g.hub.store

  -- A request past the resolution of its credentials.
  unfoldable pub admitted : Route → Option AuthContext → Handler W Body
  unfolding handle
  admitted route none = refuse unauthorized (text "bad or missing bearer token")
  admitted route (some ctx) = handle ctx route

  -- require_bearer, and the handler behind it
  unfoldable pub serve : Request → Handler W Body
  unfolding authenticate admitted
  serve request g =
      admitted request.route (authenticate request.headers g).1
        (record g { hub = record (g.hub) { store = (authenticate request.headers g).0 } })

  -- Requests one after another.
  unfoldable pub serve_all : List Request → Manager W → Manager W
  unfolding serve
  serve_all [] g = g
  serve_all (request ∷ requests) g = serve_all requests (serve request g).0
