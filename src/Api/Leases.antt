-- ===== src/Api/Leases.antt =====
-- api/leases.rs: provisioning, leases, spend and budgets.
use Prim.Native.String.{◌++◌}
use chuk_mcp_training.Base.{◌||◌, String, Bool, not, Option, none, some, List, if◌then◌else◌}
use chuk_mcp_training.Base.Text.{take_chars}
use chuk_mcp_training.Proto.Lease.{Lease}
use chuk_mcp_training.Proto.Ledger.{Budget}
use chuk_mcp_training.Base.Float.{F64, is_finite, lt_f64}
use chuk_mcp_training.Base.Doubles.{zero_f64}
use chuk_mcp_training.Proto.Role.{write, admin}
use chuk_mcp_training.Store.Fleet.{lease, live_leases}
use chuk_mcp_training.Store.Ledger.{ledger_entries, budgets, set_budget, delete_budget}
use chuk_mcp_training.Budget.Caps.{validate_scope, validate_period}
use chuk_mcp_training.Budget.Report.{SpendReport, report}
use chuk_mcp_training.Leases.Manager.{
  ProvisionRequest, Outside, VerifyPolicy, Config, Manager, Outcome, done, failed, Task,
}
use chuk_mcp_training.Leases.Teardown.{TeardownResult, teardown}
use chuk_mcp_training.Leases.Spending.{ProvisionResult, provision, extend, mint_join_token}
use chuk_mcp_training.Api.Answers.{
  bad_request, not_found, text, bad_scope, bad_period, no_budget, lease_failed, Answer, json, error,
  AuthContext, Handler, ◌>>=◌, ◌>>◌, reply, refuse, reads, writes, call, refuse_if, require_role,
}
use chuk_mcp_training.Api.Access.{now}

-- ExtendLeaseRequest, TeardownRequest
pub record ExtendLeaseRequest : Type 0 where
  pub minutes : F64
  pub reason : String

pub record TeardownRequest : Type 0 where
  pub force : Bool

-- SetBudgetRequest
pub record SetBudgetRequest : Type 0 where
  pub scope : String
  pub cap : F64
  pub period : Option String

-- What a cell of Colab is filled in with.
pub record ColabCell : Type 0 where
  pub url : String
  pub token : String
  pub worker_id : String
  pub labels : String
  pub lease_flags : Option (F64 × F64)

-- `period.unwrap_or_else(DEFAULT_BUDGET_PERIOD)`
unfoldable pub period_or_default : Option String → String
period_or_default none = "month"
period_or_default (some period) = period

-- `params.labels.unwrap_or_else(DEFAULT_COLAB_LABELS)`
unfoldable pub labels_or_default : Option String → String
labels_or_default none = "colab,t4"
labels_or_default (some labels) = labels

module _ {W : Type 0} where
  -- What a handler makes of a task of the lease manager.
  abbrev pub answered : {A : Type 0} → Manager W × Outcome A → Manager W × Answer A
  answered (g, done a) = (g, json a)
  answered (g, failed e) = (g, error bad_request (lease_failed e))

  unfoldable pub run : {A : Type 0} → Task W A → Handler W A
  run task g = answered (task g)

  -- a lease, or "no lease"
  unfoldable pub or_no_lease : Option Lease → Handler W Lease
  or_no_lease none = refuse not_found (text "no lease")
  or_no_lease (some l) = reply l

  -- the cap, where it is a number and not negative
  unfoldable pub valid_cap : F64 → Handler W F64
  unfolding is_finite lt_f64
  valid_cap amount =
      if not (is_finite amount) || lt_f64 amount zero_f64
      then refuse bad_request (text "cap must be a non-negative number")
      else reply amount

  -- lease_status
  unfoldable pub lease_status : String → Handler W Lease
  unfolding or_no_lease lease
  lease_status worker_id = reads (lease worker_id) >>= or_no_lease

  -- list_budgets
  unfoldable pub list_budgets : Handler W (List Budget)
  list_budgets = reads budgets

  -- delete_budget by whether there was one
  unfoldable pub deleted : String → Bool → Handler W (Unit {0})
  deleted scope b = if b then reply tt else refuse not_found (no_budget scope)

  -- delete_budget
  unfoldable pub delete_budget_handler : AuthContext → String → Handler W (Unit {0})
  unfolding deleted
  delete_budget_handler ctx scope = do
    require_role ctx admin
    was ← writes (delete_budget scope)
    deleted scope was

module _ {W : Type 0} (out : Outside W) where
  -- provision
  unfoldable pub provision_handler :
      Config → AuthContext → ProvisionRequest → Handler W ProvisionResult
  unfolding run
  provision_handler config ctx request =
      require_role ctx write >> run (provision out config request)

  -- extend_lease
  unfoldable pub extend_lease_handler : AuthContext → String → ExtendLeaseRequest → Handler W Lease
  unfolding run or_no_lease
  extend_lease_handler ctx worker_id request = do
    require_role ctx write
    extended ← run (extend out worker_id request.minutes request.reason)
    or_no_lease extended

  -- teardown
  unfoldable pub teardown_handler :
      VerifyPolicy → AuthContext → String → TeardownRequest → Handler W TeardownResult
  unfolding run
  teardown_handler verify ctx worker_id request =
      require_role ctx write >> run (teardown out verify worker_id (not request.force))

  -- colab_cell; the minting, a statement of the store, does not fail
  unfoldable pub colab_cell : String → F64 → Option F64 → Option String → Handler W ColabCell
  unfolding run take_chars labels_or_default
  colab_cell public_url drain_window_min lease_min labels = do
    id ← call out.uuid
    token ← run (mint_join_token out ("colab-" ++ take_chars 8 id))
    reply (record {
      url = public_url;
      token = token;
      worker_id = "colab-" ++ take_chars 8 id;
      labels = labels_or_default labels;
      lease_flags = elim lease_min [ none ↦ none | some m ↦ some (m, drain_window_min) ];
    })

  -- spend_status
  unfoldable pub spend_status : Option String → Handler W SpendReport
  unfolding period_or_default validate_period now report
  spend_status period = do
    refuse_if (not (validate_period (period_or_default period))) bad_request
        (bad_period (period_or_default period))
    at ← now out
    reads (λ s. report (budgets s) (ledger_entries s) (live_leases s) (period_or_default period) at)

  -- set_budget
  unfoldable pub set_budget_handler : AuthContext → SetBudgetRequest → Handler W Budget
  unfolding period_or_default validate_scope validate_period valid_cap now
  set_budget_handler ctx request = do
    require_role ctx admin
    refuse_if (not (validate_scope request.scope)) bad_request (bad_scope request.scope)
    refuse_if (not (validate_period (period_or_default request.period))) bad_request
        (bad_period (period_or_default request.period))
    cap ← valid_cap request.cap
    at ← now out
    writes (λ s.
        let budget : Budget = record {
          scope = request.scope;
          cap = cap;
          period = period_or_default request.period;
          updated_at = at;
        } in
        (set_budget budget s, budget))
