-- ===== src/Budget/Report.antt =====
-- budget.rs: the estimate of a run's cost and the spend report.
use Prim.Native.String.{compare, ◌++◌}
use chuk_mcp_training.Base.{
  ℕ, String, ◌==◌, Bool, true, false, ◌&&◌, Option, none, some, List, [], ◌∷◌, map, find, keep, any,
  Ordering, if◌then◌else◌,
}
use chuk_mcp_training.Base.Float.{F64}
use chuk_mcp_training.Base.Doubles.{sub_f64, mul_f64, div_by, max_f64, whole, zero_f64}
use chuk_mcp_training.Proto.Lease.{Lease}
use chuk_mcp_training.Proto.Ledger.{LedgerEntry, Budget}
use chuk_mcp_training.Budget.Caps.{budget_provider, period_start, spent, committed}

-- The fold of estimate_run_cost
unfoldable pub max_price_hr : F64 → List Lease → F64
unfolding max_f64
max_price_hr acc [] = acc
max_price_hr acc (l ∷ ls) = max_price_hr (max_f64 acc l.price_hr) ls

-- estimate_run_cost
unfoldable pub estimate_run_cost : List Lease → ℕ → F64
unfolding max_price_hr mul_f64 whole div_by
estimate_run_cost live timeout_s =
    div_by (mul_f64 (max_price_hr zero_f64 live) (whole timeout_s)) 3600

pub record SpendLine : Type 0 where
  pub provider : String
  pub committed : F64
  pub spent : F64
  pub cap : Option F64
  pub headroom : Option F64

pub record SpendReport : Type 0 where
  pub period : String
  pub lines : List SpendLine
  pub total_committed : F64
  pub total_spent : F64
  pub global_cap : Option F64
  pub global_headroom : Option F64

-- The order of texts
abbrev pub is_before : String → String → Bool
is_before q p = elim (compare q p) [ Ordering.lt ↦ true | _ ↦ false ]

-- Before the first member that is not smaller, in the order of a BTreeSet.
unfoldable pub place : String → List String → List String
place p [] = p ∷ []
place p (q ∷ qs) = let rest = place p qs in if is_before q p then q ∷ rest else p ∷ q ∷ qs

-- BTreeSet::insert
unfoldable pub insert : String → List String → List String
unfolding place
insert p s = if any (λ q. q == p) s then s else place p s

-- BTreeSet::extend
unfoldable pub extend_set : List String → List String → List String
unfolding insert
extend_set [] s = s
extend_set (p ∷ ps) s = extend_set ps (insert p s)

-- The providers of the ends of leases, and those of the budgets.
unfoldable pub ended_providers : List LedgerEntry → List String
ended_providers ledger = map (λ e. e.provider) (keep (λ e. e.event == "lease_end") ledger)

unfoldable pub budgeted_providers : List Budget → List String
unfolding budget_provider
budgeted_providers [] = []
budgeted_providers (b ∷ bs) =
    let rest = budgeted_providers bs in
    elim (budget_provider b.scope) [ none ↦ rest | some name ↦ name ∷ rest ]

unfoldable pub reported : List Budget → List LedgerEntry → List Lease → List String
unfolding extend_set ended_providers budgeted_providers
reported budgets ledger live =
    extend_set (budgeted_providers budgets)
      (extend_set (ended_providers ledger) (extend_set (map (λ l. l.provider) live) []))

-- The cap of the scope's budget for the period.
unfoldable pub cap_of : String → String → List Budget → Option F64
cap_of scope period budgets =
    elim (find (λ b. (b.scope == scope) && (b.period == period)) budgets) [
      | none ↦ none
      | some b ↦ some b.cap
    ]

-- `cap - spent - committed`
unfoldable pub headroom_of : Option F64 → F64 → F64 → Option F64
unfolding sub_f64
headroom_of none out pledged = none
headroom_of (some cap) out pledged = some (sub_f64 (sub_f64 cap out) pledged)

-- The line of a provider
unfoldable pub line_of :
    List Budget → List LedgerEntry → List Lease → String → ℕ → String → SpendLine
unfolding period_start spent committed cap_of headroom_of
line_of budgets ledger live period now provider = record {
  provider = provider;
  committed = committed live (some provider);
  spent = spent ledger (some provider) (period_start period now);
  cap = cap_of ("provider:" ++ provider) period budgets;
  headroom =
      headroom_of (cap_of ("provider:" ++ provider) period budgets)
        (spent ledger (some provider) (period_start period now)) (committed live (some provider));
}

-- report
unfoldable pub report : List Budget → List LedgerEntry → List Lease → String → ℕ → SpendReport
unfolding reported line_of period_start spent committed cap_of headroom_of
report budgets ledger live period now = record {
  period = period;
  lines = map (line_of budgets ledger live period now) (reported budgets ledger live);
  total_committed = committed live none;
  total_spent = spent ledger none (period_start period now);
  global_cap = cap_of "global" period budgets;
  global_headroom =
      headroom_of (cap_of "global" period budgets) (spent ledger none (period_start period now))
        (committed live none);
}
