-- ===== src/Gate/Expr.antt =====
-- The expressions and verdicts of gate.rs. A verdict's `detail` is the text's contents: the `format!`
-- of it is not modelled.
use chuk_mcp_training.Base.{ℕ, String, Bool, Option}
use chuk_mcp_training.Base.Float.{F64, le_f64, lt_f64}

pub data CmpOp : Type 0 where
  gt ge lt le : CmpOp

-- CmpOp::apply
unfoldable pub apply_op : CmpOp → F64 → F64 → Bool
unfolding le_f64 lt_f64
apply_op gt left right = lt_f64 right left
apply_op ge left right = le_f64 right left
apply_op lt left right = lt_f64 left right
apply_op le left right = le_f64 left right

pub data GateExpr : Type 0 where
  is_nan : String → GateExpr
  no_improve : String → F64 → GateExpr
  threshold : String → CmpOp → F64 → GateExpr

-- GateExpr::key
unfoldable pub key_of : GateExpr → String
key_of (is_nan key) = key
key_of (no_improve key window_min) = key
key_of (threshold key op value) = key

pub data Detail : Type 0 where
  not_finite : String → Detail
  finite_value : String → F64 → Detail
  compared : String → F64 → CmpOp → F64 → Bool → Detail
  short_history : String → F64 → Detail
  best_values : String → F64 → F64 → F64 → Detail
  no_observations : String → Detail

pub record Verdict : Type 0 where
  pub tripped : Bool
  pub last_value : Option F64
  pub detail : Detail

-- MetricObservation of store/mod.rs, its time in milliseconds
pub record MetricObservation : Type 0 where
  pub ts : ℕ
  pub value : F64
