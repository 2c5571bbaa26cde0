-- ===== src/Hub/PumpRows.antt =====
-- Rules for predicates on the rows of the runs under a pass of the scheduler (hub/schedule.rs: pump).
use chuk_mcp_training.Base.{
  ℕ, String, ◌==◌, ◌≡◌, refl, subst, ◌⊎◌, inl, inr, true, Option, none, some, List, [], ◌∷◌,
  Bool-cases, All, modify-All,
}
use chuk_mcp_training.Proto.Constants.{heartbeat_timeout}
use chuk_mcp_training.Proto.Run.{RunState, queued, assigned}
use chuk_mcp_training.Store.Tables.{Run, Datum}
use chuk_mcp_training.Store.Runs.{moved, transition, add_event, has_id}
use chuk_mcp_training.Store.Fleet.{WorkerInfo}
use chuk_mcp_training.Hub.State.{Env, Hub, Action, update_store}
use chuk_mcp_training.Hub.Keeps.{
  Keeps, Keeps-update, Keeps-update_store, Keeps-pure, Keeps-bind, Keeps-then, Keeps-if,
}
use chuk_mcp_training.Hub.Schedule.{
  eligible_for_assignment, next_assignable_queued, Turn, requeue_unsent, assign, offer, consider,
  turn, after_turn, pump_links, pump, skipped, queue_empty, assigned_run, link_closed,
}
use chuk_mcp_training.Hub.RunRows.{
  Tables, Kept, Rows, next_assignable_source, set_worker_run-Kept, send_to-Kept, assemble_job-Kept,
}

-- What `pump` may do to a row: where a queued row satisfies `Q`, the rows of its id keep `Q` when
-- they are assigned or put back.
abbrev pub Movable : (Run → Type 0) → Type 0
Movable Q =
    (y x : Run) (at : ℕ) (state : RunState) (w : Option String)
    → y.state ≡ queued
    → Q y
    → (x.id == y.id) ≡ true
    → (state ≡ assigned) ⊎ (state ≡ queued)
    → Q x
    → Q (moved at state w none x)

-- A pass keeps a predicate where, for a run that is picked, another predicate carries it through the
-- moves of that run.
module _ {R : Tables} (Pick : Run → Tables)
    (source : (h : Hub) (r : Run)
      → next_assignable_queued h.store ≡ some r
      → Kept R h
      → Kept (Pick r) h)
    (leave : (h : Hub) (r : Run) → Kept (Pick r) h → Kept R h) (env : Env) (at : ℕ)
    (move : (r : Run) (state : RunState) (w : Option String) (d : List (String × Datum))
      → (state ≡ assigned) ⊎ (state ≡ queued)
      → Keeps (Kept (Pick r)) (update_store (transition at r.id state w none d))) where
  assign-Kept : (id : String) (r : Run) → Keeps (Kept (Pick r)) (assign env at id r)
  unfolding assign requeue_unsent
  assign-Kept id r = Keeps-bind _ _ (assemble_job-Kept env at r.id r.spec) λ job.
      Keeps-then _ _ (move r assigned (some id) [] (inl refl)) (
        Keeps-then _ _ (set_worker_run-Kept id (some r.id)) (
          Keeps-bind _ _ (send_to-Kept id _) λ delivered. Keeps-if delivered _ _ (Keeps-pure _) (
            Keeps-then _ _ (Keeps-update _ λ h p. record { all = p.all }) (
              Keeps-then _ _ (move r queued none _ (inr refl))
                (Keeps-then _ _ (set_worker_run-Kept id none) (Keeps-pure _))))))

  offer-Kept :
      (id : String) (o : Option Run) (h : Hub)
      → next_assignable_queued h.store ≡ o
      → Kept R h
      → Kept R (offer env at id o h).1
  unfolding offer
  offer-Kept id none h e p = p
  offer-Kept id (some r) h e p = leave _ r ((assign-Kept id r).at h (source h r e p))

  consider-Kept : (id : String) (o : Option WorkerInfo) → Keeps (Kept R) (consider env at id o)
  unfolding consider
  consider-Kept id none = record { at = λ h p. p }
  consider-Kept id (some w) = record {
    at = λ h p. elim (Bool-cases (eligible_for_assignment w heartbeat_timeout)) [
      | inl t ↦ rw t (offer-Kept id _ h refl p)
      | inr t ↦ rw t p
    ];
  }

  after_turn-Kept :
      {rest : List String → Action (List String)}
      → ((dead : List String) → Keeps (Kept R) (rest dead))
      → (id : String) (dead : List String) (t : Turn)
      → Keeps (Kept R) (after_turn env at rest id dead t)
  unfolding after_turn
  after_turn-Kept k id dead skipped = record { at = λ h p. (k dead).at h p }
  after_turn-Kept k id dead queue_empty = record { at = λ h p. p }
  after_turn-Kept k id dead assigned_run = record { at = λ h p. (k dead).at h p }
  after_turn-Kept k id dead link_closed = record { at = λ h p. (k (id ∷ dead)).at h p }

  turn-Kept : (id : String) → Keeps (Kept R) (turn env at id)
  unfolding turn
  turn-Kept id = record { at = λ h p. (consider-Kept id _).at h p }

  pump_links-Kept : (ids dead : List String) → Keeps (Kept R) (pump_links env at ids dead)
  unfolding pump_links
  pump_links-Kept [] dead = record { at = λ h p. p }
  pump_links-Kept (id ∷ ids) dead = record {
    at = (Keeps-bind _ _ (turn-Kept id) (after_turn-Kept (pump_links-Kept ids) id dead)).at;
  }

  pub pump-Kept : Keeps (Kept R) (pump env at)
  unfolding pump
  pump-Kept = record {
    at = λ h p.
        (Keeps-bind _ _ (pump_links-Kept _ [])
            λ dead. Keeps-update _ λ g q. record { all = q.all }).at
          h p;
  }

-- A predicate on rows, from the queued row that a pick has the id of.
module _ {Q : Run → Type 0} (movable : Movable Q) (env : Env) (at : ℕ) where
  abbrev PickOf : Run → Tables
  PickOf r runs seq sweeps = ((y : Run) × (y.state ≡ queued) × Q y × (r.id ≡ y.id)) × All Q runs

  move-Rows :
      (r : Run) (state : RunState) (w : Option String) (d : List (String × Datum))
      → (state ≡ assigned) ⊎ (state ≡ queued)
      → Keeps (Kept (PickOf r)) (update_store (transition at r.id state w none d))
  unfolding transition add_event
  move-Rows r state w d to = Keeps-update_store _ λ h p.
      let (y, was, hy, same) = p.all.0 in
      record {
        all = (
          p.all.0,
          modify-All Q (has_id r.id) (moved at state w none)
              (λ x e hx.
                movable y x at state w was hy (subst (λ i. (x.id == i) ≡ true) same e) to hx)
              h.store.runs p.all.1,
        );
      }

  pub pump-Rows : Keeps (Rows Q) (pump env at)
  pump-Rows =
      pump-Kept PickOf
        (λ h r e p. record { all = (next_assignable_source Q h.store r p.all e, p.all) })
        (λ h r p. record { all = p.all.1 }) env at move-Rows
