-- ===== src/Hub/Numbering.antt =====
-- The ids of the runs over submissions (hub/submit.rs with the counter of store/sqlite/runs.rs).
use chuk_mcp_training.Base.{
  ℕ, suc, ◌<◌, ◌/◌, String, ◌≡◌, refl, sym, ◌∙◌, ◌⊎◌, inl, inr, Bool, true, false, Option, none,
  some, List, [], ◌∷◌, map, All, Distinct, arith, if◌then◌else◌, modify, Bool-cases,
}
use chuk_mcp_training.Proto.Run.{RunState, RunSpec, TrainSpec, train}
use chuk_mcp_training.Store.Tables.{Run, Datum}
use chuk_mcp_training.Store.Ids.{new_run_id}
use chuk_mcp_training.Store.RunIds.{new_run_id-seq}
use chuk_mcp_training.Store.Runs.{
  has_id, moved, transition, add_event, insert_run, next_run_seq, create_run, create_sweep,
}
use chuk_mcp_training.Sweep.Expand.{Assignment, Axes, Expanded, expanded, refused}
use chuk_mcp_training.Hub.State.{Env, Hub, update_store}
use chuk_mcp_training.Hub.Keeps.{
  Keeps, Keeps-update, Keeps-update_store, Keeps-pure, Keeps-fail, Keeps-bind, Keeps-then, Keeps-if,
}
use chuk_mcp_training.Hub.RunRows.{Tables, Kept}
use chuk_mcp_training.Hub.PumpRows.{pump-Kept}
use chuk_mcp_training.Hub.Schedule.{pump}
use chuk_mcp_training.Hub.Control.{mirror_created}
use chuk_mcp_training.Hub.Submit.{
  SweepSpec, returning, or_refuse, submit, create_children, submit_sweep,
}

-- The rows' ids are numbered below the counter, the newest highest.
abbrev pub Numbered : List Run → ℕ → Type 0
Numbered [] seq = Unit {0}
Numbered (r ∷ rs) seq =
    (at : ℕ) × (k : ℕ) × (k < seq) × (r.id ≡ new_run_id at (suc k)) × Numbered rs k

abbrev NumberedTables : Tables
NumberedTables runs seq sweeps = Numbered runs seq

Numbered-below :
    (at k seq : ℕ) (id : String) (rs : List Run)
    → id ≡ new_run_id at k
    → seq < k
    → Numbered rs seq
    → All (λ y. ¬ (id ≡ y)) (map (λ r. r.id) rs)
Numbered-below at k seq id [] e h n = tt
Numbered-below at k seq id (r ∷ rs) e h (t, j, below, same, rest) = (
  (λ f.
      let twice = new_run_id-seq at k t (suc j) (sym e ∙ f ∙ same) in
      absurd (omega (arith, twice, h, below))),
  Numbered-below at k j id rs e (omega (arith, h, below)) rest,
)

Numbered-Distinct : (rs : List Run) (seq : ℕ) → Numbered rs seq → Distinct (map (λ r. r.id) rs)
Numbered-Distinct [] seq n = tt
Numbered-Distinct (r ∷ rs) seq (at, k, below, same, rest) =
    (Numbered-below at (suc k) k r.id rs same (omega arith) rest, Numbered-Distinct rs k rest)

-- A transition changes no id.
modify-Numbered :
    (p : Run → Bool) (f : Run → Run)
    → ((x : Run) → (f x).id ≡ x.id)
    → (rs : List Run) (seq : ℕ) → Numbered rs seq
    → Numbered (modify p f rs) seq
unfolding modify
modify-Numbered p f same [] seq n = tt
modify-Numbered p f same (r ∷ rs) seq (at, k, below, e, rest) =
    (at, k, below, id_of (Bool-cases (p r)) ∙ e, modify-Numbered p f same rs k rest)
  where
    id_of : (p r ≡ true) ⊎ (p r ≡ false) → (if p r then f r else r).id ≡ r.id
    id_of (inl t) = rw t (same r)
    id_of (inr t) = rw t refl

move-Numbered :
    (at : ℕ) (r : Run) (state : RunState) (w : Option String) (d : List (String × Datum))
    → Keeps (Kept NumberedTables) (update_store (transition at r.id state w none d))
unfolding transition add_event moved
move-Numbered at r state w d = Keeps-update_store _ λ h p. record {
  all =
      modify-Numbered (has_id r.id) (moved at state w none) (λ x. refl) h.store.runs h.store.run_seq
        p.all;
}

pump-Numbered : (env : Env) (at : ℕ) → Keeps (Kept NumberedTables) (pump env at)
pump-Numbered env at =
    pump-Kept (λ r. NumberedTables) (λ h r e p. p) (λ h r p. p) env at
      (λ r state w d to. move-Numbered at r state w d)

Numbered-suc : (rs : List Run) (seq : ℕ) → Numbered rs seq → Numbered rs (suc seq)
Numbered-suc [] seq n = tt
Numbered-suc (r ∷ rs) seq (at, k, below, same, rest) = (at, k, omega (arith, below), same, rest)

create_run-Numbered :
    (at : ℕ) (name : String) (spec : RunSpec) (experiment_ref created_by sweep_id : Option String)
    → Keeps
        (Kept NumberedTables)
        (returning (create_run at name spec experiment_ref created_by sweep_id))
unfolding returning create_run insert_run next_run_seq add_event
create_run-Numbered at name spec experiment_ref created_by sweep_id = record {
  at = λ h p. record { all = (at / 1000, h.store.run_seq, omega arith, refl, p.all) };
}

create_sweep-Numbered :
    (at : ℕ) (name : String) (template : TrainSpec) (axes : Axes) (concurrency : ℕ)
    (created_by : Option String)
    → Keeps
        (Kept NumberedTables)
        (returning (create_sweep at name template axes concurrency created_by))
unfolding returning create_sweep next_run_seq
create_sweep-Numbered at name template axes concurrency created_by = record {
  at = λ h p. record { all = Numbered-suc h.store.runs h.store.run_seq p.all };
}

module _ (env : Env) where
  mirror_created-Numbered :
      (at : ℕ) (run_id : String) (spec : RunSpec) (experiment_ref : Option String)
      → Keeps (Kept NumberedTables) (mirror_created env at run_id spec experiment_ref)
  unfolding mirror_created
  mirror_created-Numbered at run_id spec experiment_ref =
      Keeps-if env.experiments _ _ (Keeps-update _ λ h p. record { all = p.all }) (Keeps-pure tt)

  submit-Numbered :
      (at : ℕ) (name : String) (spec : RunSpec) (experiment_ref created_by : Option String)
      → Keeps (Kept NumberedTables) (submit env at name spec experiment_ref created_by)
  unfolding submit
  submit-Numbered at name spec experiment_ref created_by =
      Keeps-bind _ _ (create_run-Numbered at name spec experiment_ref created_by none) λ run_id.
        Keeps-then _ _ (mirror_created-Numbered at run_id spec experiment_ref)
          (Keeps-then _ _ (pump-Numbered env at) (Keeps-pure run_id))

  create_children-Numbered :
      (at : ℕ) (name : String) (created_by : Option String) (sweep_id : String) (i : ℕ)
      (children : List (Assignment × TrainSpec))
      → Keeps (Kept NumberedTables) (create_children env at name created_by sweep_id i children)
  unfolding create_children
  create_children-Numbered at name created_by sweep_id i [] = record { at = λ h p. p }
  create_children-Numbered at name created_by sweep_id i (child ∷ children) = record {
    at =
        (Keeps-bind _ _ (create_run-Numbered at _ (train child.1) none created_by (some sweep_id))
          λ run_id.
            Keeps-bind _ _ (create_children-Numbered at name created_by sweep_id (suc i) children)
              λ rest. Keeps-pure _).at;
  }

  or_refuse-Numbered : (e : Expanded) → Keeps (Kept NumberedTables) (or_refuse e)
  unfolding or_refuse
  or_refuse-Numbered (expanded children) = Keeps-pure children
  or_refuse-Numbered (refused e) = Keeps-fail _

  submit_sweep-Numbered :
      (at : ℕ) (name : String) (spec : SweepSpec) (created_by : Option String)
      → Keeps (Kept NumberedTables) (submit_sweep env at name spec created_by)
  unfolding submit_sweep
  submit_sweep-Numbered at name spec created_by = Keeps-bind _ _ (or_refuse-Numbered _) λ children.
      Keeps-bind _ _ (create_sweep-Numbered at name _ _ _ created_by) λ sweep_id.
        Keeps-bind _ _ (create_children-Numbered at name created_by sweep_id 0 children)
          λ run_ids. Keeps-then _ _ (pump-Numbered env at) (Keeps-pure _)

-- A request of an operator.
pub data Submission : Type 0 where
  one_run : String → RunSpec → Option String → Option String → Submission
  one_sweep : String → SweepSpec → Option String → Submission

-- The hub after one submission, and after a sequence of them, each at its time.
unfoldable pub submit_one : Env → ℕ → Submission → Hub → Hub
unfolding submit submit_sweep
submit_one env at (one_run name spec experiment_ref created_by) h =
    (submit env at name spec experiment_ref created_by h).1
submit_one env at (one_sweep name spec created_by) h =
    (submit_sweep env at name spec created_by h).1

unfoldable pub submit_all : Env → List (ℕ × Submission) → Hub → Hub
unfolding submit_one
submit_all env [] h = h
submit_all env (x ∷ xs) h = submit_all env xs (submit_one env x.0 x.1 h)

submit_one-Numbered :
    (env : Env) (at : ℕ) (x : Submission) (h : Hub)
    → Kept NumberedTables h
    → Kept NumberedTables (submit_one env at x h)
unfolding submit_one
submit_one-Numbered env at (one_run name spec experiment_ref created_by) h p =
    (submit-Numbered env at name spec experiment_ref created_by).at h p
submit_one-Numbered env at (one_sweep name spec created_by) h p =
    (submit_sweep-Numbered env at name spec created_by).at h p

submit_all-Numbered :
    (env : Env) (xs : List (ℕ × Submission)) (h : Hub)
    → Kept NumberedTables h
    → Kept NumberedTables (submit_all env xs h)
unfolding submit_all
submit_all-Numbered env [] h p = p
submit_all-Numbered env (x ∷ xs) h p =
    submit_all-Numbered env xs _ (submit_one-Numbered env x.0 x.1 h p)

-- Runs have ids of their own: where the ids of the rows are numbered below the counter, no two rows have
-- the same id after any submissions of runs and sweeps, at whatever times, whether each succeeds or fails,
-- and the ids stay numbered below the counter.
pub submit_all-Distinct :
    (env : Env) (xs : List (ℕ × Submission)) (h : Hub)
    → Numbered h.store.runs h.store.run_seq
    → Distinct (map (λ r. r.id) (submit_all env xs h).store.runs)
      × Numbered (submit_all env xs h).store.runs (submit_all env xs h).store.run_seq
submit_all-Distinct env xs h n =
    let kept = submit_all-Numbered env xs h (record { all = n }) in
    (Numbered-Distinct _ _ kept.all, kept.all)
