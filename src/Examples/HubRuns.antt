-- ===== src/Examples/HubRuns.antt =====
-- The theorems of Hub/Lifecycle, Hub/Cancel and Hub/Detach at concrete hubs.
use chuk_mcp_training.Base.{◌≡◌, refl, false, none, some, [], ◌∷◌, get, modify}
use chuk_mcp_training.Base.Int.{pos}
use chuk_mcp_training.Proto.Run.{is_terminal, queued, disconnected}
use chuk_mcp_training.Wire.{job_started, job_exited, job_killed, oom_guard, leased}
use chuk_mcp_training.Store.Tables.{Run}
use chuk_mcp_training.Store.Runs.{run}
use chuk_mcp_training.Store.Fleet.{WorkerInfo, worker, worker_left, lease, heartbeat_age_of}
use chuk_mcp_training.Hub.State.{ok}
use chuk_mcp_training.Hub.RunRows.{Rows}
use chuk_mcp_training.Hub.Messages.{on_message, is_duplicate, exit_state, kill_reason_state}
use chuk_mcp_training.Hub.Control.{stop_run}
use chuk_mcp_training.Hub.Connection.{detach}
use chuk_mcp_training.Hub.Machine.{Led, on_message-Led}
use chuk_mcp_training.Hub.Lifecycle.{Terminated, EndedAs, on_message-Terminated, on_message-EndedAs}
use chuk_mcp_training.Hub.Cancel.{is_reachable, CancelledRow, stop_run-CancelledRow}
use chuk_mcp_training.Hub.Detach.{Requeued, detach-Requeued}
use chuk_mcp_training.Examples.HubData.{env, hub, unlinked, run_in, worker_on}
use chuk_mcp_training.Base.{All, true, ◌==◌, if◌then◌else◌, arith}
use chuk_mcp_training.Wire.{log}
use chuk_mcp_training.Store.Fleet.{worker_seen}
use chuk_mcp_training.Hub.State.{resume_high_water, Hub}
use chuk_mcp_training.Hub.Messages.{event_seq}
use chuk_mcp_training.Hub.Replay.{
  receive, mark_after, on_message-replay, resume_high_water-on_message,
}

hub-Terminated : Rows (Terminated "done") hub
unfolding is_terminal
hub-Terminated = record { all = ((λ e. e), ((λ e. e), ((λ e. refl), tt))) }

on_message-Terminated_example :
    Rows (Terminated "done") (on_message env 5 "w" (job_started 9 "done") hub).1
on_message-Terminated_example =
    on_message-Terminated env 5 "w" (job_started 9 "done") "done" hub hub-Terminated

fresh_seq : is_duplicate 9 (get "w" hub.high_water) ≡ false
unfolding is_duplicate get
fresh_seq = refl

on_message-EndedAs_example :
    Rows
      (EndedAs "busy" "w" (exit_state (pos 0)) (pos 0))
      (on_message env 5 "w" (job_exited 9 "busy" (pos 0)) hub).1
    × Rows
        (EndedAs "busy" "w" (kill_reason_state oom_guard).0 (kill_reason_state oom_guard).1)
        (on_message env 5 "w" (job_killed 9 "busy" oom_guard) hub).1
on_message-EndedAs_example = on_message-EndedAs env 5 "w" "busy" 9 hub fresh_seq (pos 0) oom_guard

abbrev next_run : Run
next_run = run_in "next" queued (some "w")

next_found : run "next" hub.store ≡ some next_run
unfolding run
next_found = refl

next_live : is_terminal next_run.state ≡ false
unfolding is_terminal
next_live = refl

next_unreachable : is_reachable next_run.worker_id unlinked ≡ false
unfolding is_reachable get
next_unreachable = refl

stop_run-CancelledRow_example : Rows (CancelledRow "next") (stop_run env 5 "next" unlinked).1
stop_run-CancelledRow_example =
    stop_run-CancelledRow env 5 "next" next_run unlinked next_found next_live next_unreachable

abbrev busy_worker : WorkerInfo
busy_worker = record {
  row = record (worker_on "w" (some "busy")) { state = disconnected };
  lease = none;
  heartbeat_age = 0;
}

worker_found : worker 5 "w" (worker_left "w" hub.store) ≡ some busy_worker
unfolding worker worker_left lease heartbeat_age_of modify
worker_found = refl

busy_holds : busy_worker.current_run ≡ some "busy"
busy_holds = refl

detach-Requeued_example : All (Requeued 5 "busy") (detach env 5 "w" leased hub).1.store.runs
detach-Requeued_example = detach-Requeued env 5 "w" "busy" hub busy_worker worker_found busy_holds

abbrev replayed_hub : Hub
replayed_hub =
    receive env ((6, ("w", log 10 "busy" "line")) ∷ [])
      (on_message env 5 "w" (job_exited 9 "busy" (pos 0)) hub).1

nine_is_numbered : event_seq (job_exited 9 "busy" (pos 0)) ≡ some 9
unfolding event_seq
nine_is_numbered = refl

five_is_numbered : event_seq (job_started 5 "next") ≡ some 5
unfolding event_seq
five_is_numbered = refl

on_message-replay_example :
    on_message env 7 "w" (job_started 5 "next") replayed_hub
    ≡ (ok tt, record replayed_hub { store = worker_seen 7 "w" replayed_hub.store })
on_message-replay_example =
    on_message-replay env 5 7 "w" (job_exited 9 "busy" (pos 0)) (job_started 5 "next") 5 9 hub
      nine_is_numbered five_is_numbered ((6, ("w", log 10 "busy" "line")) ∷ []) replayed_hub
      (omega arith) refl

resume_high_water-on_message_example :
    resume_high_water "w" (on_message env 5 "w" (job_started 9 "busy") hub).1 ≡ (
      if "w" == "w"
      then mark_after (event_seq (job_started 9 "busy")) (resume_high_water "w" hub)
      else resume_high_water "w" hub)
resume_high_water-on_message_example =
    resume_high_water-on_message env 5 "w" (job_started 9 "busy") hub "w"

next_is_queued : Rows (λ x. (x.id == "next") ≡ true → x.state ≡ queued) hub
next_is_queued = record { all = ((λ e. absurd cc), ((λ e. refl), ((λ e. absurd cc), tt))) }

on_message-Led_example :
    Rows (Led "next" queued) (on_message env 5 "w" (job_started 9 "next") hub).1
on_message-Led_example =
    on_message-Led "next" queued env 5 "w" (job_started 9 "next") hub next_is_queued
