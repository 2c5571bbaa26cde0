-- ===== src/Hub/Control.antt =====
-- hub/control.rs: gate evaluation, cancel and resume.
use chuk_mcp_training.Base.{
  ℕ, String, Bool, true, false, not, ◌&&◌, Option, none, some, List, [], ◌∷◌, ◌++◌, del,
  if◌then◌else◌,
}
use chuk_mcp_training.Proto.Constants.{exit_code_cancelled, gate_scope_run}
use chuk_mcp_training.Proto.Run.{
  RunSpec, RunState, queued, cancelled, EventKind, is_terminal, GateAction, record_only,
  stop_run as stops_run,
}
use chuk_mcp_training.Grant.{revoke_run}
use chuk_mcp_training.Gate.Expr.{GateExpr, key_of, Detail}
use chuk_mcp_training.Gate.Parse.{Parsed, parsed, refused, parse}
use chuk_mcp_training.Gate.Evaluate.{evaluate}
use chuk_mcp_training.Store.Tables.{Run, text, flag, reason, GateInfo}
use chuk_mcp_training.Store.Runs.{run, transition, add_event}
use chuk_mcp_training.Store.Policy.{gates, record_gate_result, metric_history}
use chuk_mcp_training.Hub.State.{
  Env, report_state, report_created, cancel, Action, ok, no_such_run, already_terminal,
  not_terminal, ◌>>=◌, ◌>>◌, pure, fail, asks, update, update_store, or_fail, send_to,
}
use chuk_mcp_training.Hub.Schedule.{free_worker, pump}

-- The text of an action.
unfoldable pub action_text : GateAction → String
action_text record_only = "record"
action_text stops_run = "stop_run"

unfoldable pub stops : GateAction → Bool
stops record_only = false
stops stops_run = true

-- `info.tripped != Some(true)`
unfoldable pub not_yet_tripped : GateInfo → Bool
not_yet_tripped g = elim g.tripped [ none ↦ true | some t ↦ not t ]

-- `run.is_some_and(|run| !run.summary.state.is_terminal())`
unfoldable pub is_live : Option Run → Bool
is_live none = false
is_live (some r) = not (is_terminal r.state)

-- A result that is logged and dropped; what was written before the failure stays.
unfoldable pub ignore_error : Action (Unit {0}) → Action (Unit {0})
ignore_error m h = (ok tt, (m h).1)

module _ (env : Env) (at : ℕ) where
  -- mirror_state
  unfoldable pub mirror_state : String → RunState → Action (Unit {0})
  mirror_state run_id state =
      if env.experiments
      then update (λ h. record h { reports = h.reports ++ report_state run_id state ∷ [] })
      else pure tt

  -- mirror_created
  unfoldable pub mirror_created : String → RunSpec → Option String → Action (Unit {0})
  mirror_created run_id spec experiment_ref =
      if env.experiments
      then update
          (λ h. record h { reports = h.reports ++ report_created run_id spec experiment_ref ∷ [] })
      else pure tt

  -- Hub::cancel_now
  unfoldable pub cancel_now : String → Option String → Action (Unit {0})
  cancel_now run_id worker_id = do
    update (λ h. record h { grants = revoke_run run_id h.grants })
    update_store (
        transition at run_id cancelled none (some exit_code_cancelled)
          (("reason", text "operator_cancel") ∷ []))
    mirror_state run_id cancelled
    update (λ h. record h { resume_state = del run_id h.resume_state })
    update_store (free_worker worker_id)
    pump env at

  -- `stop_run` prefers to signal the worker.
  unfoldable pub signal_or_cancel : String → Option String → Action (Unit {0})
  signal_or_cancel run_id none = cancel_now run_id none
  signal_or_cancel run_id (some id) = do
    delivered ← send_to id (cancel run_id)
    if delivered then pure tt else cancel_now run_id (some id)

  -- Hub::stop_run
  unfoldable pub stop_run : String → Action (Unit {0})
  stop_run run_id = do
    found ← asks (λ h. run run_id h.store)
    r ← or_fail no_such_run found
    if is_terminal r.state then fail already_terminal else signal_or_cancel run_id r.worker_id

  unfoldable pub requeue : String → Action (Unit {0})
  requeue run_id = do
    update_store (transition at run_id queued none none (("reason", text "operator_resume") ∷ []))
    pump env at

  -- Hub::resume_run
  unfoldable pub resume_run : String → Action (Unit {0})
  resume_run run_id = do
    found ← asks (λ h. run run_id h.store)
    r ← or_fail no_such_run found
    if is_terminal r.state then requeue run_id else fail not_terminal

  -- The event of a verdict that flips to tripped.
  unfoldable pub trip_event : String → GateInfo → Detail → Bool → Action (Unit {0})
  trip_event run_id info detail newly_tripped =
      if newly_tripped
      then update_store (
          add_event at run_id EventKind.gate_evaluated (
            ("gate", text info.name)
            ∷ ("expr", text info.expr)
            ∷ ("tripped", flag true)
            ∷ ("action", text (action_text info.action))
            ∷ ("detail", reason detail)
            ∷ []))
      else pure tt

  -- A watchdog stops its run on every evaluation while it is tripped.
  unfoldable pub enforce : String → Bool → Action (Unit {0})
  enforce run_id must_stop =
      if must_stop
      then (do
        found ← asks (λ h. run run_id h.store)
        if is_live found then ignore_error (stop_run run_id) else pure tt)
      else pure tt

  -- The rest of the loop's body, the expression being parsed.
  unfoldable pub judge : String → GateInfo → GateExpr → Action GateInfo
  judge run_id info expr = do
    history ← asks (λ h. metric_history run_id (key_of expr) h.store)
    verdict ← pure (evaluate env.seconds env.cutoff_of expr history at)
    update_store (
        record_gate_result gate_scope_run run_id info.name verdict.tripped verdict.last_value
          verdict.detail at)
    trip_event run_id info verdict.detail (verdict.tripped && not_yet_tripped info)
    enforce run_id (verdict.tripped && stops info.action)
    pure (record info {
      tripped = some verdict.tripped;
      last_value = verdict.last_value;
      evaluated_at = some at;
      detail = some verdict.detail;
    })

  -- A stored expression that no longer parses is passed over.
  unfoldable pub evaluate_gate : String → GateInfo → Parsed GateExpr → Action GateInfo
  evaluate_gate run_id info (refused e) = pure info
  evaluate_gate run_id info (parsed expr) = judge run_id info expr

  unfoldable pub evaluate_each : String → List GateInfo → Action (List GateInfo)
  evaluate_each run_id [] h = (ok [], h)
  evaluate_each run_id (info ∷ infos) h =
      (evaluate_gate run_id info (parse env.parse_f64 info.expr) >>= λ refreshed.
      evaluate_each run_id infos >>= λ rest. pure (refreshed ∷ rest))
        h

  -- Hub::evaluate_gates
  unfoldable pub evaluate_gates : String → Action (List GateInfo)
  evaluate_gates run_id = do
    registered ← asks (λ h. gates gate_scope_run run_id h.store)
    evaluate_each run_id registered
