-- ===== src/Proto/Ledger.antt =====
-- crates/chuk-train-proto/src/lease.rs and budget.rs: the rows of the ledger and of the budgets.
use chuk_mcp_training.Base.{ℕ, String}
use chuk_mcp_training.Base.Float.{F64}

pub record LedgerEntry : Type 0 where
  pub ts : ℕ
  pub worker_id : String
  pub provider : String
  pub event : String
  pub minutes : F64
  pub cost : F64

pub record Budget : Type 0 where
  pub scope : String
  pub cap : F64
  pub period : String
  pub updated_at : ℕ
