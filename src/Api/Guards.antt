-- ===== src/Api/Guards.antt =====
-- The role that a route asks for (require_role in api/access.rs and api/leases.rs).
use Prim.Native.String.{◌++◌}
use chuk_mcp_training.Base.{false, ◌≡◌, refl, subst, Option, none, some}
use chuk_mcp_training.Proto.Role.{Role, write, admin, as_str}
use chuk_mcp_training.Leases.Manager.{Manager}
use chuk_mcp_training.Api.Answers.{
  forbidden, text, error, AuthContext, may, Handler, ◌>>=◌, ◌>>◌, reply, refuse, require_role,
}
use chuk_mcp_training.Api.Access.{
  list_users_handler, upsert_user_handler, remove_user_handler, list_worker_tokens_handler,
  create_worker_token_handler, revoke_worker_token_handler,
}
use chuk_mcp_training.Api.Leases.{
  delete_budget_handler, provision_handler, extend_lease_handler, teardown_handler,
  set_budget_handler,
}
use chuk_mcp_training.Api.Router.{
  Route, get_users, get_apikeys, get_worker_tokens, get_me, delete_experiments_key, get_budgets,
  post_users, post_apikeys, delete_user, delete_apikey, post_worker_tokens, delete_worker_token,
  put_experiments_key, get_lease, delete_budgets, post_provision, post_extend, post_teardown,
  get_spend, post_budgets, get_colab_cell, Body, App, handle,
}

-- The least role of a route, where it has one.
abbrev pub min_role : Route → Option Role
min_role get_users = some admin
min_role get_worker_tokens = some admin
min_role (post_users request) = some admin
min_role (delete_user email) = some admin
min_role (post_worker_tokens name) = some admin
min_role (delete_worker_token id) = some admin
min_role (delete_budgets scope) = some admin
min_role (post_budgets request) = some admin
min_role (post_provision request) = some write
min_role (post_extend worker_id request) = some write
min_role (post_teardown worker_id request) = some write
min_role _ = none

module _ {W : Type 0} (app : App W) (ctx : AuthContext) where
  -- A guard of the role that comes first ends the handler.
  require_role-stops :
      {A B : Type 0} (min : Role) (m : Handler W A) (body : A → B) (g : Manager W)
      → may ctx min ≡ false
      → ((require_role ctx min >> m) >>= λ a. reply (body a)) g
        ≡ (g, error forbidden (text ("requires " ++ as_str min ++ " role")))
  unfolding require_role ◌>>◌ ◌>>=◌ refuse
  require_role-stops min m body g e = rw e refl

  -- A handler that refuses a caller below a role.
  abbrev Refused : Option Role → Handler W Body → Type 0
  Refused none m = Unit
  Refused (some min) m =
      (g : Manager W)
      → may ctx min ≡ false
      → m g ≡ (g, error forbidden (text ("requires " ++ as_str min ++ " role")))

  handle-Refused : (route : Route) → Refused (min_role route) (handle app ctx route)
  unfolding handle list_users_handler upsert_user_handler remove_user_handler
      list_worker_tokens_handler create_worker_token_handler revoke_worker_token_handler
      delete_budget_handler set_budget_handler provision_handler extend_lease_handler
      teardown_handler
  handle-Refused get_users = require_role-stops admin _ _
  handle-Refused get_worker_tokens = require_role-stops admin _ _
  handle-Refused (post_users q) = require_role-stops admin _ _
  handle-Refused (delete_user q) = require_role-stops admin _ _
  handle-Refused (post_worker_tokens q) = require_role-stops admin _ _
  handle-Refused (delete_worker_token q) = require_role-stops admin _ _
  handle-Refused (delete_budgets q) = require_role-stops admin _ _
  handle-Refused (post_budgets q) = require_role-stops admin _ _
  handle-Refused (post_provision q) = require_role-stops write _ _
  handle-Refused (post_extend w q) = require_role-stops write _ _
  handle-Refused (post_teardown w q) = require_role-stops write _ _
  handle-Refused get_apikeys = tt
  handle-Refused get_me = tt
  handle-Refused delete_experiments_key = tt
  handle-Refused get_budgets = tt
  handle-Refused (post_apikeys q) = tt
  handle-Refused (delete_apikey q) = tt
  handle-Refused (put_experiments_key q) = tt
  handle-Refused (get_lease q) = tt
  handle-Refused (get_spend q) = tt
  handle-Refused (get_colab_cell q r) = tt

  -- A caller below the least role of a route is answered with 403 and the role, and nothing is changed: no
  -- row, no instance, no message.
  pub handle-forbidden :
      (route : Route) (min : Role) (g : Manager W)
      → min_role route ≡ some min
      → may ctx min ≡ false
      → handle app ctx route g ≡ (g, error forbidden (text ("requires " ++ as_str min ++ " role")))
  handle-forbidden route min g e =
      subst (λ o. Refused o (handle app ctx route)) e (handle-Refused route) g
