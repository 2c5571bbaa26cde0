-- ===== src/Hub/Messages.antt =====
-- hub/messages.rs: the dispatcher of a worker's messages and the end of a run.
use chuk_mcp_training.Base.{
  ℕ, zero, suc, String, ◌==◌, Bool, false, Option, none, some, [], ◌∷◌, Table, get, put, del, leb,
  if◌then◌else◌,
}
use chuk_mcp_training.Base.Int.{ℤ, pos, negsuc}
use chuk_mcp_training.Base.Float.{F64}
use chuk_mcp_training.Proto.Constants.{exit_code_agent_error, exit_code_cancelled}
use chuk_mcp_training.Proto.Run.{RunState, running, completed, failed, cancelled}
use chuk_mcp_training.Wire.{
  KillReason, wall, max_runtime, cancel, drain, oom_guard, WorkerToCp, hello, heartbeat,
  job_started, job_exited, job_killed, service_ready, log, metric, artifact, drained,
}
use chuk_mcp_training.Grant.{revoke_run}
use chuk_mcp_training.Store.Runs.{transition, transition_if_live, append_log}
use chuk_mcp_training.Store.Fleet.{worker_seen, set_worker_run, record_worker_samples}
use chuk_mcp_training.Store.Policy.{append_metrics}
use chuk_mcp_training.Hub.State.{Env, Action, ok, ◌>>=◌, ◌>>◌, pure, asks, update, update_store}
use chuk_mcp_training.Hub.Schedule.{pump}
use chuk_mcp_training.Hub.Control.{mirror_state, ignore_error, evaluate_gates}
use chuk_mcp_training.Hub.Checkpoints.{ingest_checkpoint}

-- event_seq: the sequence number of a streamed message
unfoldable pub event_seq : WorkerToCp → Option ℕ
event_seq (hello token) = none
event_seq heartbeat = none
event_seq (job_started seq job_id) = some seq
event_seq (job_exited seq job_id code) = some seq
event_seq (job_killed seq job_id reason) = some seq
event_seq (service_ready seq job_id ports) = some seq
event_seq (log seq job_id line) = some seq
event_seq (metric seq none step values) = none
event_seq (metric seq (some job_id) step values) = some seq
event_seq (artifact seq job_id class uri) = some seq
event_seq drained = none

-- kill_reason_state
unfoldable pub kill_reason_state : KillReason → RunState × ℤ
kill_reason_state cancel = (cancelled, exit_code_cancelled)
kill_reason_state wall = (failed, exit_code_agent_error)
kill_reason_state max_runtime = (failed, exit_code_agent_error)
kill_reason_state drain = (failed, exit_code_agent_error)
kill_reason_state oom_guard = (failed, exit_code_agent_error)

-- The state that an exit code ends a run in.
unfoldable pub exit_state : ℤ → RunState
exit_state (pos zero) = completed
exit_state (pos (suc n)) = failed
exit_state (negsuc n) = failed

-- `hw.get(worker_id).is_some_and(|&cur| seq <= cur)`
unfoldable pub is_duplicate : ℕ → Option ℕ → Bool
is_duplicate seq none = false
is_duplicate seq (some cur) = leb seq cur

module _ (env : Env) (at : ℕ) where
  -- Hub::finish_run
  unfoldable pub finish_run : String → String → RunState → ℤ → Action (Unit {0})
  finish_run id run_id state code = do
    update (λ h. record h { grants = revoke_run run_id h.grants })
    update_store (transition at run_id state (some id) (some code) [])
    mirror_state env at run_id state
    update (λ h. record h { resume_state = del run_id h.resume_state })
    update_store (set_worker_run id none)
    pump env at

  -- The state and the verdict of `transition_if_live`.
  unfoldable pub start_if_live : String → String → Action Bool
  start_if_live id run_id h =
      let (store, applied) = transition_if_live at run_id running (some id) h.store in
      (ok applied, record h { store = store })

  -- The arm of `JobStarted`
  unfoldable pub job_started_arm : String → String → Action (Unit {0})
  job_started_arm id run_id = do
    applied ← start_if_live id run_id
    if applied then mirror_state env at run_id running else pure tt

  -- The arm of a job's own metric
  unfoldable pub metric_arm : String → Option ℕ → Table F64 → Action (Unit {0})
  metric_arm run_id none values = pure tt
  metric_arm run_id (some step) values = do
    update_store (append_metrics at run_id step values)
    ignore_error (evaluate_gates env at run_id >>= λ refreshed. pure tt)

  -- `values.is_empty()`
  unfoldable pub host_sample : String → Table F64 → Action (Unit {0})
  host_sample id [] = pure tt
  host_sample id (v ∷ values) = update_store (record_worker_samples at id (v ∷ values))

  -- The `match` of `on_message`
  unfoldable pub handle : String → WorkerToCp → Action (Unit {0})
  handle id (hello token) = pure tt
  handle id heartbeat = pure tt
  handle id (log seq job_id line) = update_store (append_log at job_id line)
  handle id (metric seq (some job_id) step values) = metric_arm job_id step values
  handle id (metric seq none step values) = host_sample id values
  handle id (artifact seq job_id class uri) =
      if class == "checkpoint" then ingest_checkpoint env at job_id uri else pure tt
  handle id (job_started seq job_id) = job_started_arm id job_id
  handle id (job_exited seq job_id code) = finish_run id job_id (exit_state code) code
  handle id (job_killed seq job_id reason) =
      finish_run id job_id (kill_reason_state reason).0 (kill_reason_state reason).1
  handle id (service_ready seq job_id ports) = pure tt
  handle id drained = pure tt

  -- The dedup of `on_message`: a streamed event at or below the high water is dropped.
  unfoldable pub handle_once : String → WorkerToCp → Option ℕ → Action (Unit {0})
  handle_once id msg none = handle id msg
  handle_once id msg (some seq) = do
    seen ← asks (λ h. is_duplicate seq (get id h.high_water))
    if seen
        then pure tt
        else (update (λ h. record h { high_water = put id seq h.high_water }) >> handle id msg)

  -- Hub::on_message
  unfoldable pub on_message : String → WorkerToCp → Action (Unit {0})
  on_message id msg = do update_store (worker_seen at id); handle_once id msg (event_seq msg)
