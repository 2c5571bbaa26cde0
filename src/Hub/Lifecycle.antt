-- ===== src/Hub/Lifecycle.antt =====
-- The end of a run under the handlers of hub/messages.rs.
use chuk_mcp_training.Base.{
  ℕ, String, ◌==◌, ◌≡◌, refl, ap, subst, true, false, none, some, List, All, modify, All-modify,
  get, eq_iff,
}
use chuk_mcp_training.Base.Int.{ℤ}
use chuk_mcp_training.Proto.Run.{RunState, is_terminal}
use chuk_mcp_training.Wire.{KillReason, WorkerToCp, job_exited, job_killed}
use chuk_mcp_training.Store.Tables.{Run}
use chuk_mcp_training.Store.Runs.{has_id, moved, transition, add_event, coalesce}
use chuk_mcp_training.Hub.State.{Env, Hub, ◌>>=◌, ◌>>◌, asks, update, update_store}
use chuk_mcp_training.Hub.Keeps.{Keeps-then, Keeps-update}
use chuk_mcp_training.Hub.RunRows.{Rows, set_worker_run-Kept}
use chuk_mcp_training.Hub.PumpRows.{Movable, pump-Rows}
use chuk_mcp_training.Hub.MessageRows.{
  Startable, on_message-Rows, exit_state-terminal, kill_reason_state-terminal,
}
use chuk_mcp_training.Hub.GateRows.{Endable, mirror_state-Rows}
use chuk_mcp_training.Hub.Messages.{
  exit_state, kill_reason_state, is_duplicate, on_message, handle_once, handle, event_seq,
  finish_run,
}

-- The rows of a run are in a terminal state.
abbrev pub Terminated : String → Run → Type 0
Terminated run_id x = (x.id == run_id) ≡ true → is_terminal x.state ≡ true

Terminated-movable : (run_id : String) → Movable (Terminated run_id)
unfolding is_terminal moved
Terminated-movable run_id y x at state w was hy same to hx e =
    absurd (cc (hy (subst (λ i. (i == run_id) ≡ true) ((eq_iff x.id y.id).0 same) e), was))

Terminated-endable : (run_id : String) → Endable (Terminated run_id)
unfolding moved
Terminated-endable run_id x at state w c t hx e = t

Terminated-startable : (run_id : String) → Startable (Terminated run_id)
unfolding moved
Terminated-startable run_id x at w live hx e = absurd (cc (hx e))

-- A run that has ended stays ended, whatever message any worker sends, whether the handler succeeds or
-- fails: if every row of the run is terminal before the message, every row of it is terminal after.
pub on_message-Terminated :
    (env : Env) (at : ℕ) (id : String) (msg : WorkerToCp) (run_id : String) (h : Hub)
    → Rows (Terminated run_id) h
    → Rows (Terminated run_id) (on_message env at id msg h).1
on_message-Terminated env at id msg run_id h p =
    (on_message-Rows (Terminated-movable run_id) (Terminated-endable run_id) env at
        (Terminated-startable run_id) id msg).at
      h p

-- The row that the end of a run leaves.
abbrev pub EndedAs : String → String → RunState → ℤ → Run → Type 0
EndedAs run_id id state code x =
    (x.id == run_id) ≡ true
    → (x.state ≡ state) × (x.exit_code ≡ some code) × (x.worker_id ≡ some id)

module _ (run_id id : String) (state : RunState) (code : ℤ) (t : is_terminal state ≡ true) where
  EndedAs-movable : Movable (EndedAs run_id id state code)
  unfolding is_terminal moved
  EndedAs-movable y x at s w was hy same to hx e = absurd (
      cc (
        (hy (subst (λ i. (i == run_id) ≡ true) ((eq_iff x.id y.id).0 same) e)).0,
        t,
        ap is_terminal was,
      ))

  end-All :
      (at : ℕ) (xs : List Run)
      → All
          (EndedAs run_id id state code)
          (modify (has_id run_id) (moved at state (some id) (some code)) xs)
  unfolding moved coalesce
  end-All at =
      All-modify (EndedAs run_id id state code) (has_id run_id) _ (λ x e same. (refl, refl, refl))
        (λ x e same. absurd (cc (e, same)))

  finish_run-Ended :
      (env : Env) (at : ℕ) (h : Hub)
      → Rows (EndedAs run_id id state code) (finish_run env at id run_id state code h).1
  unfolding finish_run transition add_event update_store update ◌>>◌ ◌>>=◌
  finish_run-Ended env at h =
      (Keeps-then _ _ (mirror_state-Rows env at run_id state) (
          Keeps-then _ _ (Keeps-update _ λ g p. record { all = p.all })
            (Keeps-then _ _ (set_worker_run-Kept id none) (pump-Rows EndedAs-movable env at)))).at
        _ (record { all = end-All at h.store.runs })

module _ (env : Env) (at : ℕ) (id job : String) (seq : ℕ) (h : Hub)
    (fresh : is_duplicate seq (get id h.high_water) ≡ false) where
  -- A report of a job's exit or kill that is not a replay ends its run: every row of the run is then
  -- completed, failed or cancelled as the code or the reason says, with that exit code and the worker.
  pub on_message-EndedAs :
      (code : ℤ) (reason : KillReason)
      → Rows
          (EndedAs job id (exit_state code) code)
          (on_message env at id (job_exited seq job code) h).1
        × Rows
            (EndedAs job id (kill_reason_state reason).0 (kill_reason_state reason).1)
            (on_message env at id (job_killed seq job reason) h).1
  unfolding on_message handle_once handle event_seq update_store update asks ◌>>◌ ◌>>=◌
  on_message-EndedAs code reason = rw fresh (
    finish_run-Ended job id (exit_state code) code (exit_state-terminal code) env at _,
    finish_run-Ended job id (kill_reason_state reason).0 (kill_reason_state reason).1
        (kill_reason_state-terminal reason) env at _,
  )
