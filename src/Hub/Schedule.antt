-- ===== src/Hub/Schedule.antt =====
-- hub/schedule.rs: the FIFO scheduler and the reaper of assignments that were never confirmed.
use mathlib.Core.List.{reverse}
use chuk_mcp_training.Base.{
  ℕ, ◌+◌, String, Bool, true, false, not, ◌&&◌, Option, none, some, List, [], ◌∷◌, Table, del, find,
  map, ltb, leb, if◌then◌else◌,
}
use chuk_mcp_training.Proto.Constants.{
  heartbeat_timeout, assignment_stuck_timeout, queue_scan_limit,
}
use chuk_mcp_training.Proto.Run.{queued, assigned, LeaseState, active, draining, destroyed}
use chuk_mcp_training.Grant.{revoke_run}
use chuk_mcp_training.Store.Tables.{Run, text, Store}
use chuk_mcp_training.Store.Runs.{runs_in_state, run, sweep, sweep_active_children, transition}
use chuk_mcp_training.Store.Fleet.{WorkerInfo, worker, set_worker_run}
use chuk_mcp_training.Hub.State.{
  Env, assign_job, Action, ok, ◌>>=◌, ◌>>◌, pure, asks, update, update_store, send_to,
}
use chuk_mcp_training.Hub.Assemble.{assemble_job}

abbrev pub is_draining : LeaseState → Bool
is_draining draining = true
is_draining active = false
is_draining destroyed = false

-- eligible_for_assignment
unfoldable pub eligible_for_assignment : WorkerInfo → ℕ → Bool
eligible_for_assignment w unreachable_after =
    (elim w.current_run [ none ↦ true | some r ↦ false ])
    && not (elim w.lease [ none ↦ false | some l ↦ is_draining l.state ])
    && leb w.heartbeat_age unreachable_after

-- The test of `next_assignable_queued`: a child waits while its sweep has its number of children.
unfoldable pub held_back : Store → Run → Bool
held_back s r = elim r.sweep_id [
  | none ↦ false
  | some i ↦ elim (sweep i s) [
    | none ↦ false
    | some row ↦ ltb 0 row.concurrency && leb row.concurrency (sweep_active_children i s)
  ]
]

-- next_assignable_queued
unfoldable pub next_assignable_queued : Store → Option Run
next_assignable_queued s =
    elim (find (λ r. not (held_back s r)) (reverse (runs_in_state queued queue_scan_limit s))) [
      | none ↦ none
      | some r ↦ run r.id s
    ]

-- `links.remove` for each closed link
unfoldable pub drop_links {ℓ} : {A : Type ℓ} → List String → Table A → Table A
drop_links [] t = t
drop_links (id ∷ ids) t = drop_links ids (del id t)

unfoldable pub free_worker : Option String → Store → Store
free_worker none s = s
free_worker (some id) s = set_worker_run id none s

-- What one worker's turn in a pass of `pump` came to.
pub data Turn : Type 0 where
  skipped queue_empty assigned_run link_closed : Turn

module _ (env : Env) (at : ℕ) where
  -- The send failed: the run goes back to the queue.
  unfoldable pub requeue_unsent : String → Run → Action Turn
  requeue_unsent id r = do
    update (λ h. record h { grants = revoke_run r.id h.grants })
    update_store (transition at r.id queued none none (("reason", text "send_failed") ∷ []))
    update_store (set_worker_run id none)
    pure link_closed

  -- The loop's body from the job on.
  unfoldable pub assign : String → Run → Action Turn
  assign id r = do
    job ← assemble_job env at r.id r.spec
    update_store (transition at r.id assigned (some id) none [])
    update_store (set_worker_run id (some r.id))
    delivered ← send_to id (assign_job job)
    if delivered then pure assigned_run else requeue_unsent id r

  -- The oldest run that may be assigned, if there is one, for a worker that may have it.
  unfoldable pub offer : String → Option Run → Action Turn
  offer id none h = (ok queue_empty, h)
  offer id (some r) h = assign id r h

  unfoldable pub consider : String → Option WorkerInfo → Action Turn
  consider id none h = (ok skipped, h)
  consider id (some w) h =
      if eligible_for_assignment w heartbeat_timeout
      then offer id (next_assignable_queued h.store) h
      else (ok skipped, h)

  -- The body of the loop over the links.
  unfoldable pub turn : String → Action Turn
  turn id h = consider id (worker at id h.store) h

  -- Where the loop goes after a turn.
  unfoldable pub after_turn :
      (List String → Action (List String)) → String → List String → Turn → Action (List String)
  after_turn rest id dead skipped h = rest dead h
  after_turn rest id dead queue_empty h = (ok dead, h)
  after_turn rest id dead assigned_run h = rest dead h
  after_turn rest id dead link_closed h = rest (id ∷ dead) h

  -- The loop over the workers that have a link, with the links that were found closed.
  unfoldable pub pump_links : List String → List String → Action (List String)
  pump_links [] dead h = (ok dead, h)
  pump_links (id ∷ ids) dead h = (turn id >>= after_turn (pump_links ids) id dead) h

  -- Hub::pump
  unfoldable pub pump : Action (Unit {0})
  pump h =
      (pump_links (map (λ l. l.0) h.links) [] >>= λ dead.
      update (λ g. record g { links = drop_links dead g.links }))
        h

  -- One run of reap_stuck_assignments
  unfoldable pub requeue_stuck : ℕ → Run → Action (Unit {0})
  requeue_stuck max_age r = if ltb at (r.updated_at + max_age) then pure tt else do
    update (λ h. record h { grants = revoke_run r.id h.grants })
    update_store (free_worker r.worker_id)
    update_store
        (transition at r.id queued none none (("reason", text "assignment_timed_out") ∷ []))

  unfoldable pub each_stuck : ℕ → List Run → Action (Unit {0})
  each_stuck max_age [] h = (ok tt, h)
  each_stuck max_age (r ∷ rs) h = (requeue_stuck max_age r >> each_stuck max_age rs) h

  -- Hub::reap_stuck_assignments_older_than
  unfoldable pub reap_stuck_assignments_older_than : ℕ → Action (Unit {0})
  reap_stuck_assignments_older_than max_age = do
    stuck ← asks (λ h. runs_in_state assigned queue_scan_limit h.store)
    each_stuck max_age stuck
    pump

  -- Hub::reap_stuck_assignments
  unfoldable pub reap_stuck_assignments : Action (Unit {0})
  reap_stuck_assignments = reap_stuck_assignments_older_than assignment_stuck_timeout
