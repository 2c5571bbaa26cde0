-- ===== src/Budget/Caps.antt =====
-- budget.rs: scopes, periods, what is spent and committed, and the check of a candidate's cost.
use chuk_mcp_training.Base.{
  ℕ, String, ◌==◌, Bool, true, false, not, ◌&&◌, ◌||◌, Option, none, some, List, [], ◌∷◌, leb, keep,
  map, if◌then◌else◌,
}
use chuk_mcp_training.Base.Float.{F64, lt_f64}
use chuk_mcp_training.Base.Doubles.{add_f64, sum_f64}
use chuk_mcp_training.Base.Text.{strip_prefix}
use chuk_mcp_training.Proto.Lease.{Lease, projected_cost}
use chuk_mcp_training.Proto.Ledger.{LedgerEntry, Budget}
use chuk_mcp_training.Budget.Calendar.{month_start}

pub record Breach : Type 0 where
  pub scope : String
  pub period : String
  pub cap : F64
  pub projected : F64

-- budget_provider
unfoldable pub budget_provider : String → Option String
budget_provider scope = strip_prefix "provider:" scope

-- validate_scope
unfoldable pub validate_scope : String → Bool
unfolding budget_provider
validate_scope scope =
    if scope == "global"
    then true
    else elim (budget_provider scope) [ none ↦ false | some name ↦ not (name == "") ]

-- validate_period
unfoldable pub validate_period : String → Bool
validate_period period = (period == "month") || (period == "all")

-- period_start
unfoldable pub period_start : String → ℕ → Option ℕ
unfolding month_start
period_start period now = if period == "month" then some (month_start now) else none

-- `provider.is_none_or(|p| x == p)`
abbrev pub of_provider : Option String → String → Bool
of_provider none x = true
of_provider (some p) x = x == p

-- `since.is_none_or(|s| ts >= s)`
abbrev pub is_since : Option ℕ → ℕ → Bool
is_since none ts = true
is_since (some s) ts = leb s ts

-- The ends of leases that a scope counts.
abbrev pub counts : Option String → Option ℕ → LedgerEntry → Bool
counts provider since e =
    (e.event == "lease_end") && is_since since e.ts && of_provider provider e.provider

-- spent
unfoldable pub spent : List LedgerEntry → Option String → Option ℕ → F64
unfolding sum_f64
spent ledger provider since = sum_f64 (map (λ e. e.cost) (keep (counts provider since) ledger))

-- committed
unfoldable pub committed : List Lease → Option String → F64
unfolding sum_f64 projected_cost
committed live provider =
    sum_f64 (map projected_cost (keep (λ l. of_provider provider l.provider) live))

-- `budget.scope == BUDGET_SCOPE_GLOBAL || scope_provider == Some(provider)`
unfoldable pub applies : Budget → String → Bool
unfolding budget_provider
applies b provider =
    (b.scope == "global")
    || (elim (budget_provider b.scope) [ none ↦ false | some p ↦ p == provider ])

-- What a budget's cap would have to cover.
unfoldable pub projected : List LedgerEntry → List Lease → F64 → ℕ → Budget → F64
unfolding budget_provider period_start spent committed add_f64
projected ledger live candidate now b =
    add_f64
      (add_f64 (spent ledger (budget_provider b.scope) (period_start b.period now))
        (committed live (budget_provider b.scope)))
      candidate

-- evaluate
unfoldable pub evaluate :
    List Budget → List LedgerEntry → List Lease → String → F64 → ℕ → Option Breach
unfolding applies projected lt_f64
evaluate [] ledger live provider candidate now = none
evaluate (b ∷ bs) ledger live provider candidate now =
    let rest = evaluate bs ledger live provider candidate now in
    if applies b provider && lt_f64 b.cap (projected ledger live candidate now b)
    then some (record {
      scope = b.scope;
      period = b.period;
      cap = b.cap;
      projected = projected ledger live candidate now b;
    })
    else rest
