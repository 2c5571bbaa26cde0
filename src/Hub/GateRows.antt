-- ===== src/Hub/GateRows.antt =====
-- Rules for predicates on the rows of the runs under an operator's stop and the gates that stop runs
-- (hub/control.rs).
use chuk_mcp_training.Base.{
  ℕ, String, ◌≡◌, refl, Bool, true, Option, none, some, List, [], ◌∷◌, modify-All,
}
use chuk_mcp_training.Base.Int.{ℤ}
use chuk_mcp_training.Proto.Run.{RunState, cancelled, is_terminal}
use chuk_mcp_training.Proto.Constants.{exit_code_cancelled}
use chuk_mcp_training.Gate.Expr.{GateExpr, Detail}
use chuk_mcp_training.Gate.Parse.{Parsed, parsed, refused}
use chuk_mcp_training.Store.Tables.{Run, Datum, GateInfo, Store}
use chuk_mcp_training.Store.Runs.{moved, transition, add_event}
use chuk_mcp_training.Store.Policy.{record_gate_result}
use chuk_mcp_training.Hub.State.{Env, Action, update_store}
use chuk_mcp_training.Hub.Keeps.{
  Keeps, Keeps-update, Keeps-update_store, Keeps-pure, Keeps-fail, Keeps-bind, Keeps-then, Keeps-if,
  Keeps-asks, Keeps-or_fail,
}
use chuk_mcp_training.Hub.RunRows.{Rows, free_worker-Kept, send_to-Kept}
use chuk_mcp_training.Hub.PumpRows.{Movable, pump-Rows}
use chuk_mcp_training.Hub.Control.{
  mirror_state, cancel_now, signal_or_cancel, stop_run, ignore_error, is_live, trip_event, enforce,
  judge, evaluate_gate, evaluate_each, evaluate_gates,
}

abbrev pub Endable : (Run → Type 0) → Type 0
Endable Q =
    (x : Run) (at : ℕ) (state : RunState) (w : Option String) (c : Option ℤ)
    → is_terminal state ≡ true
    → Q x
    → Q (moved at state w c x)

-- A change of the store that leaves the runs alone.
module _ {Q : Run → Type 0} where
  pub other_table-Rows :
      (f : Store → Store) → ((s : Store) → (f s).runs ≡ s.runs) → Keeps (Rows Q) (update_store f)
  other_table-Rows f same = Keeps-update_store f λ h p. record { all = rw (same h.store) p.all }

  pub ignore_error-Rows :
      (m : Action (Unit {0})) → Keeps (Rows Q) m → Keeps (Rows Q) (ignore_error m)
  unfolding ignore_error
  ignore_error-Rows m k = record { at = k.at }

module _ {Q : Run → Type 0} (env : Env) (at : ℕ) where
  pub mirror_state-Rows :
      (run_id : String) (s : RunState) → Keeps (Rows Q) (mirror_state env at run_id s)
  unfolding mirror_state
  mirror_state-Rows run_id s =
      Keeps-if env.experiments _ _ (Keeps-update _ λ h p. record { all = p.all }) (Keeps-pure tt)

module _ {Q : Run → Type 0} (movable : Movable Q) (endable : Endable Q) (env : Env) (at : ℕ) where
  pub end-Rows :
      (run_id : String) (state : RunState) (w : Option String) (c : Option ℤ)
      (d : List (String × Datum))
      → is_terminal state ≡ true
      → Keeps (Rows Q) (update_store (transition at run_id state w c d))
  unfolding transition add_event
  end-Rows run_id state w c d t = Keeps-update_store _ λ h p. record {
    all = modify-All Q _ _ (λ x e hx. endable x at state w c t hx) h.store.runs p.all;
  }

  pub cancel_now-Rows :
      (run_id : String) (w : Option String) → Keeps (Rows Q) (cancel_now env at run_id w)
  unfolding cancel_now is_terminal
  cancel_now-Rows run_id w = Keeps-then _ _ (Keeps-update _ λ h p. record { all = p.all }) (
      Keeps-then _ _ (end-Rows run_id cancelled none (some exit_code_cancelled) _ refl) (
        Keeps-then _ _ (mirror_state-Rows env at run_id cancelled) (
          Keeps-then _ _ (Keeps-update _ λ h p. record { all = p.all })
            (Keeps-then _ _ (free_worker-Kept w) (pump-Rows movable env at)))))

  pub signal_or_cancel-Rows :
      (run_id : String) (w : Option String) → Keeps (Rows Q) (signal_or_cancel env at run_id w)
  unfolding signal_or_cancel
  signal_or_cancel-Rows run_id none = cancel_now-Rows run_id none
  signal_or_cancel-Rows run_id (some id) =
      Keeps-bind _ _ (send_to-Kept id _)
        λ delivered. Keeps-if delivered _ _ (Keeps-pure tt) (cancel_now-Rows run_id (some id))

  pub stop_run-Rows : (run_id : String) → Keeps (Rows Q) (stop_run env at run_id)
  unfolding stop_run
  stop_run-Rows run_id = Keeps-bind _ _ (Keeps-asks _) λ found.
      Keeps-bind _ _ (Keeps-or_fail _ _) λ r.
        Keeps-if (is_terminal r.state) _ _ (Keeps-fail _) (signal_or_cancel-Rows run_id r.worker_id)

  enforce-Rows : (run_id : String) (b : Bool) → Keeps (Rows Q) (enforce env at run_id b)
  unfolding enforce
  enforce-Rows run_id b =
      Keeps-if b _ _
        (Keeps-bind _ _ (Keeps-asks _) λ found.
          Keeps-if (is_live found) _ _ (ignore_error-Rows _ (stop_run-Rows run_id)) (Keeps-pure tt))
        (Keeps-pure tt)

  trip_event-Rows :
      (run_id : String) (g : GateInfo) (d : Detail) (b : Bool)
      → Keeps (Rows Q) (trip_event env at run_id g d b)
  unfolding trip_event add_event
  trip_event-Rows run_id g d b = Keeps-if b _ _ (other_table-Rows _ λ s. refl) (Keeps-pure tt)

  evaluate_gate-Rows :
      (run_id : String) (g : GateInfo) (e : Parsed GateExpr)
      → Keeps (Rows Q) (evaluate_gate env at run_id g e)
  unfolding evaluate_gate judge record_gate_result
  evaluate_gate-Rows run_id g (refused e) = Keeps-pure g
  evaluate_gate-Rows run_id g (parsed e) = Keeps-bind _ _ (Keeps-asks _) λ history.
      Keeps-bind _ _ (Keeps-pure _) λ verdict. Keeps-then _ _ (other_table-Rows _ λ s. refl) (
        Keeps-then _ _ (trip_event-Rows run_id g verdict.detail _)
          (Keeps-then _ _ (enforce-Rows run_id _) (Keeps-pure _)))

  evaluate_each-Rows :
      (run_id : String) (gs : List GateInfo) → Keeps (Rows Q) (evaluate_each env at run_id gs)
  unfolding evaluate_each
  evaluate_each-Rows run_id [] = record { at = λ h p. p }
  evaluate_each-Rows run_id (g ∷ gs) = record {
    at =
        (Keeps-bind _ _ (evaluate_gate-Rows run_id g _)
          λ refreshed. Keeps-bind _ _ (evaluate_each-Rows run_id gs) λ rest. Keeps-pure _).at;
  }

  pub evaluate_gates-Rows : (run_id : String) → Keeps (Rows Q) (evaluate_gates env at run_id)
  unfolding evaluate_gates
  evaluate_gates-Rows run_id =
      Keeps-bind _ _ (Keeps-asks _) λ registered. evaluate_each-Rows run_id registered
