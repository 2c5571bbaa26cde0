-- ===== src/Hub/Detach.antt =====
-- The end of a worker's session (hub/connection.rs).
use chuk_mcp_training.Base.{
  ℕ, String, ◌==◌, ◌≡◌, refl, ◌⊎◌, inl, inr, true, none, some, All, All-modify, modify-All, del,
  Option, List,
}
use chuk_mcp_training.Proto.Run.{RunState, queued, assigned}
use chuk_mcp_training.Wire.{leased}
use chuk_mcp_training.Store.Tables.{Run, Datum}
use chuk_mcp_training.Store.Runs.{has_id, moved, transition, add_event, coalesce}
use chuk_mcp_training.Store.Fleet.{WorkerInfo, worker, worker_left}
use chuk_mcp_training.Hub.State.{Env, Hub, asks, update, update_store, ◌>>=◌, ◌>>◌}
use chuk_mcp_training.Hub.Keeps.{Keeps, Keeps-then, Keeps-update_store}
use chuk_mcp_training.Hub.RunRows.{Tables, Kept, set_worker_run-Kept}
use chuk_mcp_training.Hub.PumpRows.{pump-Kept}
use chuk_mcp_training.Hub.Schedule.{pump}
use chuk_mcp_training.Hub.Connection.{detach, requeue_unless_persistent, requeue_current}

-- The rows of a run have been moved at a time, into the queue or on to a worker.
abbrev pub Requeued : ℕ → String → Run → Type 0
Requeued at run_id x =
    (x.id == run_id) ≡ true → ((x.state ≡ queued) ⊎ (x.state ≡ assigned)) × (x.updated_at ≡ at)

abbrev RequeuedTables : ℕ → String → Tables
RequeuedTables at run_id runs seq sweeps = All (Requeued at run_id) runs

move-Requeued :
    (at : ℕ) (run_id : String) (r : Run) (state : RunState) (w : Option String)
    (d : List (String × Datum))
    → (state ≡ assigned) ⊎ (state ≡ queued)
    → Keeps (Kept (RequeuedTables at run_id)) (update_store (transition at r.id state w none d))
unfolding transition add_event moved
move-Requeued at run_id r state w d to = Keeps-update_store _ λ h p. record {
  all =
      modify-All (Requeued at run_id) (has_id r.id) (moved at state w none)
        (λ x e hx t. (either to, refl)) h.store.runs p.all;
}
  where
    either : (state ≡ assigned) ⊎ (state ≡ queued) → (state ≡ queued) ⊎ (state ≡ assigned)
    either (inl e) = inr e
    either (inr e) = inl e

pump-Requeued :
    (env : Env) (at : ℕ) (run_id : String) → Keeps (Kept (RequeuedTables at run_id)) (pump env at)
pump-Requeued env at run_id =
    pump-Kept (λ r. RequeuedTables at run_id) (λ h r e p. p) (λ h r p. p) env at
      (move-Requeued at run_id)

requeue_current-Requeued :
    (env : Env) (at : ℕ) (id run_id : String) (w : WorkerInfo) (h : Hub)
    → w.current_run ≡ some run_id
    → Kept (RequeuedTables at run_id) ((requeue_current env at id (some w) >> pump env at) h).1
unfolding requeue_current transition add_event update_store update moved coalesce ◌>>◌ ◌>>=◌
requeue_current-Requeued env at id run_id w h e =
    rw (e, requeue_current)
      ((Keeps-then _ _ (set_worker_run-Kept id none) (pump-Requeued env at run_id)).at _ (record {
        all =
            All-modify (Requeued at run_id) (has_id run_id) _ (λ x t same. (inl refl, refl))
              (λ x t same. absurd (cc (t, same))) h.store.runs;
      }))

-- The hub once `detach` has dropped the link and marked the worker as gone.
abbrev pub departed : String → Hub → Hub
departed id h = record h { links = del id h.links; store = worker_left id h.store }

module _ (env : Env) (at : ℕ) (id run_id : String) (h : Hub) where
  -- When the session of a leased worker ends, every row of the run that the worker held is queued or
  -- assigned, and its last update has the time of that end: a row that was updated earlier, assigned or
  -- running, is not left as it was.
  pub detach-Requeued :
      (w : WorkerInfo)
      → worker at id (worker_left id h.store) ≡ some w
      → w.current_run ≡ some run_id
      → All (Requeued at run_id) (detach env at id leased h).1.store.runs
  unfolding detach requeue_unless_persistent asks update_store update ◌>>◌ ◌>>=◌
  detach-Requeued w found holds =
      rw found (requeue_current-Requeued env at id run_id w (departed id h) holds).all
