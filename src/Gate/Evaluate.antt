-- ===== src/Gate/Evaluate.antt =====
-- gate.rs: `evaluate`, a function of the metric's history.
use chuk_mcp_training.Base.{ℕ, true, false, Option, none, some, List, [], ◌∷◌, keep, if◌then◌else◌}
use chuk_mcp_training.Base.Float.{F64, infinity, le_f64, lt_f64, min_f64, is_finite, is_infinite}
use chuk_mcp_training.Gate.Expr.{
  apply_op, GateExpr, is_nan, no_improve, threshold, not_finite, finite_value, compared,
  short_history, best_values, no_observations, Verdict, MetricObservation,
}

-- `fold(f64::INFINITY, f64::min)` over the values
unfoldable pub best : F64 → List MetricObservation → F64
unfolding min_f64
best acc [] = acc
best acc (o ∷ os) = best (min_f64 acc o.value) os

unfoldable pub last : List MetricObservation → Option MetricObservation
last [] = none
last (o ∷ os) = elim (last os) [ none ↦ some o | some x ↦ some x ]

abbrev value_of : Option MetricObservation → Option F64
value_of none = none
value_of (some o) = some o.value

-- `seconds` is a time as the `f64` that the source keeps, and `cutoff_of now window_min` stands for
-- `now - window_min * SECS_PER_MIN`, with the machine's rounding.
module _ (seconds : ℕ → F64) (cutoff_of : F64 → F64 → F64) where
  unfoldable pub evaluate : GateExpr → List MetricObservation → ℕ → Verdict
  unfolding best last apply_op is_finite is_infinite le_f64 lt_f64
  evaluate (is_nan key) history now = elim (last history) [
    | none ↦ record { tripped = false; last_value = none; detail = no_observations key }
    | some o ↦
        if is_finite o.value
        then record {
          tripped = false;
          last_value = some o.value;
          detail = finite_value key o.value;
        }
        else record { tripped = true; last_value = some o.value; detail = not_finite key }
  ]
  evaluate (threshold key op value) history now = elim (last history) [
    | none ↦ record { tripped = false; last_value = none; detail = no_observations key }
    | some o ↦ record {
      tripped = apply_op op o.value value;
      last_value = some o.value;
      detail = compared key o.value op value (apply_op op o.value value);
    }
  ]
  evaluate (no_improve key window_min) history now =
      let cutoff = cutoff_of (seconds now) window_min in
      let best_before = best infinity (keep (λ o. lt_f64 (seconds o.ts) cutoff) history) in
      let best_within = best infinity (keep (λ o. le_f64 cutoff (seconds o.ts)) history) in
      if is_infinite best_before
      then record {
        tripped = false;
        last_value = value_of (last history);
        detail = short_history key window_min;
      }
      else record {
        tripped = le_f64 best_before best_within;
        last_value = value_of (last history);
        detail = best_values key window_min best_within best_before;
      }
