-- ===== src/Hub/Blocked.antt =====
-- A pass of the scheduler whose next run cannot be assembled (hub/schedule.rs: pump).
use chuk_mcp_training.Base.{
  ℕ, String, ◌≡◌, refl, ◌⊎◌, inl, inr, Option, none, some, List, [], ◌∷◌, Bool-cases,
}
use chuk_mcp_training.Proto.Constants.{heartbeat_timeout}
use chuk_mcp_training.Store.Tables.{Run}
use chuk_mcp_training.Store.Fleet.{WorkerInfo, worker}
use chuk_mcp_training.Hub.State.{Env, Hub, Error, Result, ok, err, Action, and_then, ◌>>=◌, update}
use chuk_mcp_training.Hub.RunRows.{Tables, assemble_job-Kept}
use chuk_mcp_training.Hub.Assemble.{assemble_job}
use chuk_mcp_training.Hub.Schedule.{
  skipped, eligible_for_assignment, next_assignable_queued, assign, offer, consider, turn,
  after_turn, pump_links, pump,
}

and_then-err :
    {A B : Type 0} (x : Result A × Hub) (f : A → Action B) (e : Error)
    → x.0 ≡ err e
    → and_then x f ≡ (err e, x.1)
and_then-err (ok a, h) f e same = absurd cc
and_then-err (err d, h) f e same = cc

module _ (env : Env) (at : ℕ) (h : Hub) (r : Run) (e : Error)
    (next : next_assignable_queued h.store ≡ some r)
    (failed : (assemble_job env at r.id r.spec h).0 ≡ err e) where
  -- The hub once the assembly has failed.
  abbrev stopped : Hub
  stopped = (assemble_job env at r.id r.spec h).1

  abbrev SameRuns : Tables
  SameRuns runs seq sweeps = runs ≡ h.store.runs

  stopped-runs : stopped.store.runs ≡ h.store.runs
  stopped-runs =
      ((assemble_job-Kept {R = SameRuns} env at r.id r.spec).at h (record { all = refl })).all

  consider-blocked :
      (id : String) (o : Option WorkerInfo)
      → (consider env at id o h ≡ (ok skipped, h)) ⊎ (consider env at id o h ≡ (err e, stopped))
  unfolding consider offer assign ◌>>=◌
  consider-blocked id none = inl refl
  consider-blocked id (some w) = elim (Bool-cases (eligible_for_assignment w heartbeat_timeout)) [
    | inl t ↦ inr (rw t (rw (next, offer) (and_then-err _ _ e failed)))
    | inr t ↦ inl (rw t refl)
  ]

  pump_links-blocked :
      (ids dead : List String) → (pump_links env at ids dead h).1.store.runs ≡ h.store.runs
  unfolding pump_links turn after_turn ◌>>=◌
  pump_links-blocked [] dead = refl
  pump_links-blocked (id ∷ ids) dead = elim (consider-blocked id (worker at id h.store)) [
    | inl same ↦ rw same (pump_links-blocked ids dead)
    | inr same ↦ rw same stopped-runs
  ]

  finish :
      (x : Result (List String) × Hub) (f : List String → Hub → Hub)
      → ((dead : List String) (k : Hub) → (f dead k).store.runs ≡ k.store.runs)
      → x.1.store.runs ≡ h.store.runs
      → (and_then x (λ dead. update (f dead))).1.store.runs ≡ h.store.runs
  unfolding update
  finish (ok dead, k) f same p = rw (same dead k) p
  finish (err d, k) f same p = p

  -- A run that cannot be assembled blocks the queue: while it is the next that may be assigned, a pass
  -- leaves every run as it is, whatever workers are linked and free and whatever runs wait behind it.
  pub pump-blocked : (pump env at h).1.store.runs ≡ h.store.runs
  unfolding pump ◌>>=◌
  pump-blocked = finish _ _ (λ dead k. refl) (pump_links-blocked _ [])
