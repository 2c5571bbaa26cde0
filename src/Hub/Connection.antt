-- ===== src/Hub/Connection.antt =====
-- hub/connection.rs: attach, detach, and the reaper of workers whose heartbeat is lost.
use chuk_mcp_training.Base.{
  ℕ, String, Bool, true, false, ◌&&◌, Option, none, some, List, [], ◌∷◌, put, del, leb,
  if◌then◌else◌,
}
use chuk_mcp_training.Proto.Constants.{heartbeat_preempt_timeout}
use chuk_mcp_training.Proto.Run.{queued, WorkerState, connected, disconnected, Hardware}
use chuk_mcp_training.Wire.{WorkerClass, leased, persistent}
use chuk_mcp_training.Grant.{revoke_run}
use chuk_mcp_training.Store.Tables.{text}
use chuk_mcp_training.Store.Runs.{transition}
use chuk_mcp_training.Store.Fleet.{
  WorkerInfo, worker, fleet, worker_joined, worker_left, worker_is_persistent, set_worker_run,
}
use chuk_mcp_training.Hub.State.{
  Env, Link, Action, ok, ◌>>=◌, ◌>>◌, pure, asks, update, update_store,
}
use chuk_mcp_training.Hub.Schedule.{pump}

abbrev pub is_connected : WorkerState → Bool
is_connected connected = true
is_connected disconnected = false

-- should_reap
unfoldable pub should_reap : WorkerInfo → ℕ → Bool
should_reap w preempt_after = is_connected w.state && leb preempt_after w.heartbeat_age

module _ (env : Env) (at : ℕ) where
  -- Hub::attach, with the fresh channel of the session
  unfoldable pub attach : String → Link → List String → Hardware → Action (Unit {0})
  attach id link labels hardware = do
    update_store (worker_joined at id labels hardware)
    update (λ h. record h { links = put id link h.links })
    pump env at

  -- The requeueing half of `detach`.
  unfoldable pub requeue_current : String → Option WorkerInfo → Action (Unit {0})
  requeue_current id none = pure tt
  requeue_current id (some w) = elim w.current_run [
    | none ↦ pure tt
    | some run_id ↦ do
      update (λ h. record h { grants = revoke_run run_id h.grants })
      update_store
          (transition at run_id queued none none (("reason", text "worker_disconnected") ∷ []))
      update_store (set_worker_run id none)
  ]

  unfoldable pub requeue_unless_persistent : String → WorkerClass → Action (Unit {0})
  requeue_unless_persistent id persistent = pure tt
  requeue_unless_persistent id leased = do
    w ← asks (λ h. worker at id h.store)
    requeue_current id w

  -- Hub::detach
  unfoldable pub detach : String → WorkerClass → Action (Unit {0})
  detach id class = do
    update (λ h. record h { links = del id h.links })
    update_store (worker_left id)
    requeue_unless_persistent id class
    pump env at

  -- One worker of the sweep.
  unfoldable pub reap : ℕ → WorkerInfo → Action (Unit {0})
  reap preempt_after w =
      if should_reap w preempt_after
      then (do
        is_persistent ← asks (λ h. worker_is_persistent w.id h.store)
        detach w.id (if is_persistent then persistent else leased))
      else pure tt

  unfoldable pub reap_each : ℕ → List WorkerInfo → Action (Unit {0})
  reap_each preempt_after [] h = (ok tt, h)
  reap_each preempt_after (w ∷ ws) h = (reap preempt_after w >> reap_each preempt_after ws) h

  -- Hub::reap_stale_workers_older_than
  unfoldable pub reap_stale_workers_older_than : ℕ → Action (Unit {0})
  reap_stale_workers_older_than preempt_after = do
    workers ← asks (λ h. fleet at h.store)
    reap_each preempt_after workers

  -- Hub::reap_stale_workers
  unfoldable pub reap_stale_workers : Action (Unit {0})
  reap_stale_workers = reap_stale_workers_older_than heartbeat_preempt_timeout
