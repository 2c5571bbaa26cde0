-- ===== src/Hub/Submit.antt =====
-- hub/submit.rs: the submission of single runs and of sweeps.
use Prim.Native.String.{◌++◌}
use chuk_mcp_training.Base.{ℕ, suc, String, Option, none, some, List, [], ◌∷◌}
use chuk_mcp_training.Proto.Run.{RunSpec, TrainSpec, train}
use chuk_mcp_training.Store.Tables.{Store}
use chuk_mcp_training.Store.Ids.{padded}
use chuk_mcp_training.Store.Runs.{create_run, create_sweep}
use chuk_mcp_training.Sweep.Expand.{Assignment, Axes, Expanded, expanded, refused, expand}
use chuk_mcp_training.Hub.State.{Env, Action, sweep_refused, ok, ◌>>=◌, ◌>>◌, pure, fail}
use chuk_mcp_training.Hub.Schedule.{pump}
use chuk_mcp_training.Hub.Control.{mirror_created}

-- SweepSpec
pub record SweepSpec : Type 0 where
  pub template : TrainSpec
  pub axes : Axes
  pub concurrency : ℕ

-- a statement of the store that returns a value
unfoldable pub returning : {A : Type 0} → (Store → Store × A) → Action A
returning f h = (ok (f h.store).1, record h { store = (f h.store).0 })

-- the name of a child
abbrev pub child_name : String → ℕ → String
child_name name i = name ++ ("-" ++ padded 3 i)

-- The result of expand, as an action.
unfoldable pub or_refuse : Expanded → Action (List (Assignment × TrainSpec))
or_refuse (expanded children) = pure children
or_refuse (refused e) = fail (sweep_refused e)

module _ (env : Env) (at : ℕ) where
  -- Hub::submit
  unfoldable pub submit : String → RunSpec → Option String → Option String → Action String
  submit name spec experiment_ref created_by = do
    run_id ← returning (create_run at name spec experiment_ref created_by none)
    mirror_created env at run_id spec experiment_ref
    pump env at
    pure run_id

  -- The loop over the children, from one index on.
  unfoldable pub create_children :
      String → Option String → String → ℕ → List (Assignment × TrainSpec) → Action (List String)
  unfolding padded
  create_children name created_by sweep_id i [] h = (ok [], h)
  create_children name created_by sweep_id i (child ∷ children) h =
      (returning (create_run at (child_name name i) (train child.1) none created_by (some sweep_id))
          >>= λ run_id. create_children name created_by sweep_id (suc i) children >>= λ rest.
              pure (run_id ∷ rest))
        h

  -- Hub::submit_sweep
  unfoldable pub submit_sweep : String → SweepSpec → Option String → Action (String × List String)
  unfolding expand
  submit_sweep name spec created_by = do
    children ← or_refuse (expand env.as_i64 spec.template spec.axes)
    sweep_id ← returning (create_sweep at name spec.template spec.axes spec.concurrency created_by)
    run_ids ← create_children name created_by sweep_id 0 children
    pump env at
    pure (sweep_id, run_ids)
