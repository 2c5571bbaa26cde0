-- ===== src/Store/Ledger.antt =====
-- store/sqlite/ledger.rs: the ledger, oldest first, and the budgets.
use chuk_mcp_training.Base.{
  String, ◌==◌, Bool, not, List, [], ◌∷◌, ◌++◌, keep, any, modify, if◌then◌else◌,
}
use chuk_mcp_training.Proto.Ledger.{LedgerEntry, Budget}
use chuk_mcp_training.Store.Tables.{Store}

-- ledger_append
unfoldable pub ledger_append : LedgerEntry → Store → Store
ledger_append entry s = record s { ledger = s.ledger ++ entry ∷ [] }

-- ledger_entries
unfoldable pub ledger_entries : Store → List LedgerEntry
ledger_entries s = s.ledger

abbrev pub has_scope : String → Budget → Bool
has_scope scope b = b.scope == scope

-- set_budget: an upsert
unfoldable pub set_budget : Budget → Store → Store
set_budget b s =
    if any (has_scope b.scope) s.budgets
    then record s { budgets = modify (has_scope b.scope) (λ x. b) s.budgets }
    else record s { budgets = s.budgets ++ b ∷ [] }

-- delete_budget, and whether a row went
unfoldable pub delete_budget : String → Store → Store × Bool
delete_budget scope s = (
  record s { budgets = keep (λ b. not (has_scope scope b)) s.budgets },
  any (has_scope scope) s.budgets,
)

-- budgets, in the order of the rows where the source sorts by scope
unfoldable pub budgets : Store → List Budget
budgets s = s.budgets
