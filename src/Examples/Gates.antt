-- ===== src/Examples/Gates.antt =====
-- The theorem of Gate/Stall at a concrete history.
use chuk_mcp_training.Base.{ℕ, ◌≡◌, refl, List, [], ◌∷◌, true, any}
use chuk_mcp_training.Base.Int.{pos}
use chuk_mcp_training.Base.Float.{F64, fin, nan, le_f64, lt_f64, is_finite}
use chuk_mcp_training.Gate.Expr.{no_improve, MetricObservation}
use chuk_mcp_training.Gate.Evaluate.{evaluate}
use chuk_mcp_training.Gate.Stall.{is_unbeaten, before_window, in_window, evaluate-no_improve}

abbrev history : List MetricObservation
history =
    record { ts = 1; value = fin (pos 4) }
    ∷ record { ts = 2; value = fin (pos 3) }
    ∷ record { ts = 8; value = nan }
    ∷ record { ts = 9; value = fin (pos 5) }
    ∷ []

abbrev seconds : ℕ → F64
seconds t = fin (pos t)

-- The window of these examples starts at five.
abbrev cutoff : F64 → F64 → F64
cutoff now w = fin (pos 5)

evaluate-no_improve_example :
    (evaluate seconds cutoff (no_improve "loss" (fin (pos 1))) history 9).tripped
    ≡ any
        (λ o.
          is_unbeaten
            (before_window seconds cutoff (fin (pos 1)) 9 history)
            (in_window seconds cutoff (fin (pos 1)) 9 history)
            o.value)
        (before_window seconds cutoff (fin (pos 1)) 9 history)
evaluate-no_improve_example = evaluate-no_improve seconds cutoff (fin (pos 1)) 9 "loss" history

stalled :
    any
      (λ o.
        is_unbeaten
          (before_window seconds cutoff (fin (pos 1)) 9 history)
          (in_window seconds cutoff (fin (pos 1)) 9 history)
          o.value)
      (before_window seconds cutoff (fin (pos 1)) 9 history)
    ≡ true
unfolding is_unbeaten le_f64 lt_f64 is_finite
stalled = refl
