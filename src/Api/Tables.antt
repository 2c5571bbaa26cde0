-- ===== src/Api/Tables.antt =====
-- What the routes do to the tables of users and API keys: a predicate that their statements keep, within
-- the guards of the handlers, is kept by every route.
use chuk_mcp_training.Base.Float.{F64, is_finite, lt_f64}
use chuk_mcp_training.Base.Doubles.{zero_f64}
use chuk_mcp_training.Base.{
  not, ◌||◌, ℕ, String, ◌==◌, Bool, true, false, ◌≡◌, refl, Option, none, some, List, any, inl, inr,
  Bool-cases,
}
use chuk_mcp_training.Proto.Lease.{Lease}
use chuk_mcp_training.Proto.Ledger.{Budget}
use chuk_mcp_training.Proto.Role.{Role, write, admin, User, ApiKeyInfo, ApiKey}
use chuk_mcp_training.Store.Tables.{Store}
use chuk_mcp_training.Store.Auth.{
  upsert_user, remove_user, create_api_key, revoke_api_key, set_user_experiments_key,
}
use chuk_mcp_training.Store.Ledger.{set_budget, delete_budget}
use chuk_mcp_training.Store.Tokens.{create_worker_token, revoke_worker_token}
use chuk_mcp_training.Api.Answers.{AuthContext, Handler, ◌>>=◌, reply}
use chuk_mcp_training.Api.Access.{
  now, UpsertUserRequest, CreateApiKeyRequest, is_above, changed, upsert_user_handler,
  remove_user_handler, list_users_handler, list_api_keys_handler, mint_key, create_api_key_handler,
  revoke_found, revoke_api_key_handler, list_worker_tokens_handler, create_worker_token_handler,
  revoke_worker_token_handler, whoami, may_link, set_experiments_key, clear_experiments_key,
}
use chuk_mcp_training.Api.Leases.{
  SetBudgetRequest, ExtendLeaseRequest, or_no_lease, valid_cap, lease_status, deleted,
  delete_budget_handler, provision_handler, extend_lease_handler, teardown_handler, colab_cell,
  spend_status, set_budget_handler, list_budgets,
}
use chuk_mcp_training.Api.Router.{
  Route, get_users, get_apikeys, get_worker_tokens, get_me, delete_experiments_key, get_budgets,
  post_users, post_apikeys, delete_user, delete_apikey, post_worker_tokens, delete_worker_token,
  put_experiments_key, get_lease, delete_budgets, post_provision, post_extend, post_teardown,
  get_spend, post_budgets, get_colab_cell, Body, App, handle,
}
use chuk_mcp_training.Api.Keeps.{
  Holds, Keeps, Keeps-bind, Keeps-then, Keeps-reply, Keeps-refuse, Keeps-asks, Keeps-reads,
  Keeps-writes, Keeps-call, Keeps-refuse_if, Keeps-require_role, Keeps-execute, Keeps-run,
}
use chuk_mcp_training.Api.LeaseTasks.{
  TaskKeeps-mint_join_token, TaskKeeps-provision, TaskKeeps-extend, TaskKeeps-teardown,
}

module _ {W : Type 0} (app : App W) (R : List User → List ApiKey → Type 0) (ctx : AuthContext) where
  -- The statements of the caller's routes keep the predicate, with roles no higher than the caller's and ids
  -- of the generator.
  pub record Closed : Type 0 where
    pub upserted :
        (at : ℕ) (email : String) (role : Role)
        → is_above role ctx.role ≡ false
        → (s : Store) → Holds R s
        → Holds R (upsert_user at email ctx.team_id role s)
    pub removed : (email : String) (s : Store) → Holds R s → Holds R (remove_user email s)
    pub linked :
        (at : ℕ) (key : Option String) (s : Store)
        → Holds R s
        → Holds R (set_user_experiments_key at ctx.owner_email key s)
    pub created :
        (w : W) (hash : String) (info : ApiKeyInfo)
        → is_above info.role ctx.role ≡ false
        → info.id ≡ (app.out.uuid w).1
        → (s : Store) → Holds R s
        → Holds R (create_api_key hash info s)
    pub revoked :
        (at : ℕ) (id : String) (s : Store) → Holds R s → Holds R (revoke_api_key at id s).0

  module _ (closed : Closed) where
    Keeps-changed : (b : Bool) → Keeps R {W = W} (changed b)
    Keeps-changed true = Keeps-reply R tt
    Keeps-changed false = Keeps-refuse R _ _

    Keeps-upsert_user :
        (request : UpsertUserRequest)
        → Keeps R (upsert_user_handler app.out ctx app.codec.to_lowercase request)
    unfolding upsert_user_handler
    Keeps-upsert_user request = Keeps-then R _ _ (Keeps-require_role R ctx admin) (
        Keeps-refuse_if R _ _ _ _ (λ low.
          Keeps-refuse_if R _ _ _ _
            (λ e. Keeps-execute R app.out _ (λ at. closed.upserted at _ request.role low))))

    Keeps-remove_user :
        (email : String) → Keeps R (remove_user_handler app.out ctx app.codec.to_lowercase email)
    unfolding remove_user_handler
    Keeps-remove_user email =
        Keeps-then R _ _ (Keeps-require_role R ctx admin)
          (Keeps-refuse_if R _ _ _ _ (λ e. Keeps-writes R _ (closed.removed _)))

    Keeps-create_api_key :
        (request : CreateApiKeyRequest) → Keeps R (create_api_key_handler app.out ctx request)
    unfolding create_api_key_handler mint_key
    Keeps-create_api_key request = Keeps-refuse_if R _ _ _ _ (λ low. Keeps-refuse_if R _ _ _ _ (λ e.
        Keeps-call R _ _ (λ v.
          Keeps-call R _ _ (λ w. Keeps-execute R app.out _ (λ at. closed.created w _ _ low refl)))))

    Keeps-revoke_found :
        (id : String) (o : Option ApiKeyInfo) → Keeps R (revoke_found app.out ctx id o)
    unfolding revoke_found
    Keeps-revoke_found id none = Keeps-refuse R _ _
    Keeps-revoke_found id (some key) = Keeps-refuse_if R _ _ _ _ (λ e.
        Keeps-bind R _ _ (Keeps-execute R app.out _ (λ at. closed.revoked at id)) Keeps-changed)

    Keeps-revoke_api_key : (id : String) → Keeps R (revoke_api_key_handler app.out ctx id)
    unfolding revoke_api_key_handler
    Keeps-revoke_api_key id = Keeps-bind R _ _ (Keeps-reads R _) (λ keys. Keeps-revoke_found id _)

    Keeps-create_worker_token :
        (name : String) → Keeps R (create_worker_token_handler app.out ctx name)
    unfolding create_worker_token_handler create_worker_token
    Keeps-create_worker_token name = Keeps-then R _ _ (Keeps-require_role R ctx admin) (
        Keeps-refuse_if R _ _ _ _ (λ e. Keeps-call R _ _ (λ u.
          Keeps-call R _ _ (λ v. Keeps-call R _ _ (λ w. Keeps-execute R app.out _ (λ at s h. h))))))

    Keeps-revoke_worker_token : (id : String) → Keeps R (revoke_worker_token_handler app.out ctx id)
    unfolding revoke_worker_token_handler revoke_worker_token
    Keeps-revoke_worker_token id =
        Keeps-then R _ _ (Keeps-require_role R ctx admin)
          (Keeps-bind R _ _ (Keeps-execute R app.out _ (λ at s h. h)) Keeps-changed)

    Keeps-may_link : (o : Option String) → Keeps R {W = W} (may_link app.out ctx o)
    unfolding may_link
    Keeps-may_link none = Keeps-refuse R _ _
    Keeps-may_link (some cipher) = Keeps-refuse_if R _ _ _ _ (λ e. Keeps-reply R cipher)

    Keeps-set_experiments_key :
        (o : Option String) (key : String)
        → Keeps R (set_experiments_key app.out ctx app.encrypt o key)
    unfolding set_experiments_key
    Keeps-set_experiments_key o key = Keeps-bind R _ _ (Keeps-may_link o) (λ cipher.
        Keeps-refuse_if R _ _ _ _
          (λ e. Keeps-call R _ _ (λ w. Keeps-execute R app.out _ (λ at. closed.linked at _))))

    Keeps-clear_experiments_key :
        (o : Option String) → Keeps R (clear_experiments_key app.out ctx o)
    unfolding clear_experiments_key
    Keeps-clear_experiments_key o =
        Keeps-then R _ _ (Keeps-may_link o)
          (Keeps-execute R app.out _ (λ at. closed.linked at none))

    Keeps-or_no_lease : (o : Option Lease) → Keeps R {W = W} (or_no_lease o)
    unfolding or_no_lease
    Keeps-or_no_lease none = Keeps-refuse R _ _
    Keeps-or_no_lease (some l) = Keeps-reply R l

    Keeps-deleted : (scope : String) (b : Bool) → Keeps R {W = W} (deleted scope b)
    unfolding deleted
    Keeps-deleted scope true = Keeps-reply R tt
    Keeps-deleted scope false = Keeps-refuse R _ _

    Keeps-valid_cap : (amount : F64) → Keeps R {W = W} (valid_cap amount)
    unfolding valid_cap
    Keeps-valid_cap amount = elim (Bool-cases (not (is_finite amount) || lt_f64 amount zero_f64)) [
      | inl e ↦ rw (e, valid_cap) (Keeps-refuse R _ _)
      | inr e ↦ rw (e, valid_cap) (Keeps-reply R amount)
    ]

    Holds-set_budget : (b : Budget) (s : Store) → Holds R s → Holds R (set_budget b s)
    unfolding set_budget
    Holds-set_budget b s h = elim (Bool-cases (any (λ x. x.scope == b.scope) s.budgets)) [
      | inl e ↦ rw e h
      | inr e ↦ rw e h
    ]

    Keeps-set_budget :
        (request : SetBudgetRequest) → Keeps R (set_budget_handler app.out ctx request)
    unfolding set_budget_handler now
    Keeps-set_budget request = Keeps-then R _ _ (Keeps-require_role R ctx admin) (
        Keeps-refuse_if R _ _ _ _ (λ e. Keeps-refuse_if R _ _ _ _ (λ f.
          Keeps-bind R _ _ (Keeps-valid_cap request.cap) (λ cap.
            Keeps-bind R _ _ (Keeps-asks R _)
              (λ at. Keeps-writes R _ (λ s h. Holds-set_budget _ s h))))))

    Keeps-wrap :
        {A : Type 0} (body : A → Body) (m : Handler W A)
        → Keeps R m
        → Keeps R (m >>= λ a. reply (body a))
    Keeps-wrap body m h = Keeps-bind R _ _ h (λ a. Keeps-reply R _)

    Keeps-spend_status : (period : Option String) → Keeps R (spend_status app.out period)
    unfolding spend_status now
    Keeps-spend_status period =
        Keeps-refuse_if R _ _ _ _ (λ e. Keeps-bind R _ _ (Keeps-asks R _) (λ at. Keeps-reads R _))

    Keeps-colab_cell :
        (lease_min : Option F64) (labels : Option String)
        → Keeps R (
            colab_cell app.out app.settings.public_url app.config.drain_window_min lease_min labels)
    unfolding colab_cell
    Keeps-colab_cell lease_min labels = Keeps-call R _ _ (λ w.
        Keeps-bind R _ _ (Keeps-run R _ (TaskKeeps-mint_join_token app.out _))
          (λ token. Keeps-reply R _))

    Keeps-extend_lease :
        (worker_id : String) (request : ExtendLeaseRequest)
        → Keeps R (extend_lease_handler app.out ctx worker_id request)
    unfolding extend_lease_handler
    Keeps-extend_lease worker_id request = Keeps-then R _ _ (Keeps-require_role R ctx write) (
        Keeps-bind R _ _ (Keeps-run R _ (TaskKeeps-extend app.out worker_id _ _)) Keeps-or_no_lease)

    -- Every route keeps it.
    pub Keeps-handle : (route : Route) → Keeps R (handle app ctx route)
    unfolding handle list_users_handler list_api_keys_handler list_worker_tokens_handler whoami
        list_budgets lease_status delete_budget_handler delete_budget provision_handler
        teardown_handler
    Keeps-handle get_users =
        Keeps-wrap _ _ (Keeps-then R _ _ (Keeps-require_role R ctx admin) (Keeps-reads R _))
    Keeps-handle get_apikeys = Keeps-wrap _ _ (Keeps-reads R _)
    Keeps-handle get_worker_tokens =
        Keeps-wrap _ _ (Keeps-then R _ _ (Keeps-require_role R ctx admin) (Keeps-reads R _))
    Keeps-handle get_me = Keeps-wrap _ _ (Keeps-reads R _)
    Keeps-handle delete_experiments_key = Keeps-wrap _ _ (Keeps-clear_experiments_key _)
    Keeps-handle get_budgets = Keeps-wrap _ _ (Keeps-reads R _)
    Keeps-handle (post_users request) = Keeps-wrap _ _ (Keeps-upsert_user request)
    Keeps-handle (post_apikeys request) = Keeps-wrap _ _ (Keeps-create_api_key request)
    Keeps-handle (delete_user email) = Keeps-wrap _ _ (Keeps-remove_user email)
    Keeps-handle (delete_apikey id) = Keeps-wrap _ _ (Keeps-revoke_api_key id)
    Keeps-handle (post_worker_tokens name) = Keeps-wrap _ _ (Keeps-create_worker_token name)
    Keeps-handle (delete_worker_token id) = Keeps-wrap _ _ (Keeps-revoke_worker_token id)
    Keeps-handle (put_experiments_key key) = Keeps-wrap _ _ (Keeps-set_experiments_key _ key)
    Keeps-handle (get_lease worker_id) =
        Keeps-wrap _ _ (Keeps-bind R _ _ (Keeps-reads R _) Keeps-or_no_lease)
    Keeps-handle (delete_budgets scope) = Keeps-wrap _ _ (
        Keeps-then R _ _ (Keeps-require_role R ctx admin)
          (Keeps-bind R _ _ (Keeps-writes R _ (λ s h. h)) (Keeps-deleted scope)))
    Keeps-handle (post_provision request) = Keeps-wrap _ _ (
        Keeps-then R _ _ (Keeps-require_role R ctx write)
          (Keeps-run R _ (TaskKeeps-provision app.out app.config request)))
    Keeps-handle (post_extend worker_id request) =
        Keeps-wrap _ _ (Keeps-extend_lease worker_id request)
    Keeps-handle (post_teardown worker_id request) = Keeps-wrap _ _ (
        Keeps-then R _ _ (Keeps-require_role R ctx write)
          (Keeps-run R _ (TaskKeeps-teardown app.out app.verify worker_id _)))
    Keeps-handle (get_spend period) = Keeps-wrap _ _ (Keeps-spend_status period)
    Keeps-handle (post_budgets request) = Keeps-wrap _ _ (Keeps-set_budget request)
    Keeps-handle (get_colab_cell lease_min labels) =
        Keeps-wrap _ _ (Keeps-colab_cell lease_min labels)
