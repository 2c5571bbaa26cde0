-- ===== src/Hub/RunRows.antt =====
-- Rules for predicates on the rows of the runs under the scheduler (hub/schedule.rs).
use mathlib.Core.List.{reverse}
use chuk_mcp_training.Base.{
  ℕ, String, ◌==◌, ◌≡◌, refl, inl, inr, Bool, true, not, Option, none, some, List, All, All-reverse,
  All-take, All-keep, find, find-All, find_test, modify-All, Bool-cases, Option-cases, eq_iff,
}
use chuk_mcp_training.Proto.Constants.{queue_scan_limit}
use chuk_mcp_training.Proto.Run.{RunState, queued, RunSpec, shell, train, TrainSpec, DataRef}
use chuk_mcp_training.Store.Tables.{Run, Datum, CheckpointInfo, SweepRow, Store}
use chuk_mcp_training.Store.Runs.{
  has_id, moved, transition, add_event, run, runs_in_state, state_eq,
}
use chuk_mcp_training.Store.Fleet.{set_worker_run}
use chuk_mcp_training.Hub.State.{Env, Hub, Link, CpToWorker, update_store, send_to, deliver, pure}
use chuk_mcp_training.Hub.Keeps.{
  Keeps, Keeps-update, Keeps-update_store, Keeps-pure, Keeps-bind, Keeps-then, Keeps-asks,
  Keeps-or_fail,
}
use chuk_mcp_training.Hub.Assemble.{
  assemble_job, assemble_train_job, mint_grant, resumed_event, resolve_data,
}
use chuk_mcp_training.Hub.Schedule.{held_back, next_assignable_queued, free_worker}

-- A predicate on the rows of the runs, the counter of their ids and the rows of the sweeps.
abbrev pub Tables : Type 1
Tables = List Run → ℕ → List SweepRow → Type 0

pub record Kept (R : Tables) (h : Hub) : Type 0 where
  pub all : R h.store.runs h.store.run_seq h.store.sweeps

-- Every row satisfies `Q`.
abbrev pub Rows : (Run → Type 0) → Hub → Type 0
Rows Q = Kept (λ runs seq sweeps. All Q runs)

pub state_eq_queued : (s : RunState) → state_eq s queued ≡ true → s ≡ queued
unfolding state_eq
state_eq_queued queued e = refl
state_eq_queued _ e = cc

-- The page that the scheduler walks, oldest first.
abbrev pub page : Store → List Run
page s = reverse (runs_in_state queued queue_scan_limit s)

-- It holds queued rows.
pub page-All :
    (Q : Run → Type 0) (s : Store)
    → All Q s.runs
    → All (λ x. Q x × (state_eq x.state queued ≡ true)) (page s)
unfolding runs_in_state
page-All Q s all =
    All-reverse (λ x. Q x × (state_eq x.state queued ≡ true)) _
      (All-take (λ x. Q x × (state_eq x.state queued ≡ true)) queue_scan_limit _
        (All-keep Q (λ x. state_eq x.state queued) s.runs all))

abbrev pub is_free : Store → Run → Bool
is_free s x = not (held_back s x)

-- The summary that a pick is fetched by.
pub pick_cases :
    (s : Store) (r : Run)
    → next_assignable_queued s ≡ some r
    → (y : Run) × (find (is_free s) (page s) ≡ some y) × (run y.id s ≡ some r)
unfolding next_assignable_queued
pick_cases s r e = elim (Option-cases (find (is_free s) (page s))) [
  | inl missing ↦ absurd (cc (rw (missing, next_assignable_queued) at e))
  | inr (y, found) ↦ (y, found, (rw (found, next_assignable_queued) at e))
]

-- The run that the scheduler picks: a queued row has its id.
pub next_assignable_source :
    (Q : Run → Type 0) (s : Store) (r : Run)
    → All Q s.runs
    → next_assignable_queued s ≡ some r
    → (y : Run) × (y.state ≡ queued) × Q y × (r.id ≡ y.id)
unfolding run
next_assignable_source Q s r all e =
    let (y, found, fetched) = pick_cases s r e in
    let holds =
      find-All (λ x. Q x × (state_eq x.state queued ≡ true)) (is_free s) (page s) y
        (page-All Q s all) found in
    (
      y,
      state_eq_queued y.state holds.1,
      holds.0,
      (eq_iff r.id y.id).0 (find_test (has_id y.id) s.runs r fetched),
    )

module _ {Q : Run → Type 0} where
  pub transition-Rows :
      (at : ℕ) (run_id : String) (state : RunState) (w : Option String) (d : List (String × Datum))
      → ((x : Run) → (x.id == run_id) ≡ true → Q x → Q (moved at state w none x))
      → Keeps (Rows Q) (update_store (transition at run_id state w none d))
  unfolding transition add_event
  transition-Rows at run_id state w d step =
      Keeps-update_store _ λ h p. record { all = modify-All Q _ _ step h.store.runs p.all }

module _ {R : Tables} where
  pub set_worker_run-Kept :
      (id : String) (r : Option String) → Keeps (Kept R) (update_store (set_worker_run id r))
  unfolding set_worker_run
  set_worker_run-Kept id r = Keeps-update_store _ λ h p. record { all = p.all }

  deliver-Kept :
      (id : String) (msg : CpToWorker) (l : Option Link) (h : Hub)
      → Kept R h
      → Kept R (deliver id msg l h).1
  unfolding deliver pure
  deliver-Kept id msg none h p = p
  deliver-Kept id msg (some l) h p = elim (Bool-cases l.is_open) [
    | inl e ↦ rw e (record { all = p.all })
    | inr e ↦ rw e p
  ]

  pub send_to-Kept : (id : String) (msg : CpToWorker) → Keeps (Kept R) (send_to id msg)
  unfolding send_to
  send_to-Kept id msg = record { at = λ h p. deliver-Kept id msg _ h p }

  pub free_worker-Kept : (w : Option String) → Keeps (Kept R) (update_store (free_worker w))
  unfolding free_worker set_worker_run
  free_worker-Kept none = Keeps-update_store _ λ h p. p
  free_worker-Kept (some id) = Keeps-update_store _ λ h p. record { all = p.all }

  resumed_event-Kept :
      (env : Env) (at : ℕ) (run_id : String) (c : Option CheckpointInfo)
      → Keeps (Kept R) (resumed_event env at run_id c)
  unfolding resumed_event add_event
  resumed_event-Kept env at run_id none = Keeps-pure tt
  resumed_event-Kept env at run_id (some c) = Keeps-update_store _ λ h p. record { all = p.all }

  resolve_data-Kept :
      (env : Env) (at : ℕ) (run_id : String) (d : Option DataRef)
      → Keeps (Kept R) (resolve_data env at run_id d)
  unfolding resolve_data
  resolve_data-Kept env at run_id none = Keeps-pure none
  resolve_data-Kept env at run_id (some d) = Keeps-bind _ _ (Keeps-or_fail _ _) λ datasets.
      Keeps-bind _ _ (Keeps-or_fail _ _) λ resolved.
        Keeps-bind _ _ (Keeps-or_fail _ _)
          λ shards. Keeps-then _ _ (Keeps-update _ λ h p. record { all = p.all }) (Keeps-pure _)

  mint_grant-Kept :
      (env : Env) (at : ℕ) (run_id : String) (t : TrainSpec)
      → Keeps (Kept R) (mint_grant env at run_id t)
  unfolding mint_grant
  mint_grant-Kept env at run_id t = record { at = λ h p. record { all = p.all } }

  -- Assembling a job changes no row.
  pub assemble_job-Kept :
      (env : Env) (at : ℕ) (run_id : String) (spec : RunSpec)
      → Keeps (Kept R) (assemble_job env at run_id spec)
  unfolding assemble_job assemble_train_job
  assemble_job-Kept env at run_id (shell spec) = Keeps-pure _
  assemble_job-Kept env at run_id (train spec) = Keeps-bind _ _ (Keeps-asks _) λ found.
      Keeps-bind _ _ (Keeps-or_fail _ _) λ code. Keeps-bind _ _ (Keeps-or_fail _ _) λ cmd.
        Keeps-bind _ _ (mint_grant-Kept env at run_id spec) λ grant.
          Keeps-bind _ _ (Keeps-asks _) λ latest.
            Keeps-then _ _ (Keeps-update _ λ h p. record { all = p.all }) (
              Keeps-then _ _ (resumed_event-Kept env at run_id latest)
                (Keeps-bind _ _ (resolve_data-Kept env at run_id spec.data_ref) λ d. Keeps-pure _))
