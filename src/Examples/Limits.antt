-- ===== src/Examples/Limits.antt =====
-- A sweep with a limit of two, one child that runs, two that wait, and two idle workers.
use chuk_mcp_training.Base.{
  String, ◌==◌, false, sym, ◌∙◌, eq_iff, ◌≤◌, ◌≡◌, refl, none, some, [], ◌∷◌, Distinct, arith, max,
}
use chuk_mcp_training.Proto.Run.{queued, running}
use chuk_mcp_training.Store.Tables.{SweepRow}
use chuk_mcp_training.Store.Runs.{sweep, sweep_active_children}
use chuk_mcp_training.Hub.State.{Hub}
use chuk_mcp_training.Hub.Schedule.{pump}
use chuk_mcp_training.Hub.SweepRows.{ids}
use chuk_mcp_training.Hub.Concurrency.{pump-sweep_active_children}
use chuk_mcp_training.Examples.HubData.{env, hub_of, open_link, run_in, worker_on}
use chuk_mcp_training.Examples.Submissions.{template}

abbrev limited : SweepRow
limited = record {
  id = "s";
  name = "lr";
  template = template;
  axes = [];
  concurrency = 2;
  created_by = none;
  created_at = 1;
}

abbrev crowded : Hub
crowded =
    let h =
      hub_of
        (record (run_in "c" queued none) { sweep_id = some "s" }
          ∷ record (run_in "b" queued none) { sweep_id = some "s" }
          ∷ record (run_in "a" running (some "u")) { sweep_id = some "s" }
          ∷ [])
        (worker_on "v" none ∷ worker_on "w" none ∷ []) (("v", open_link) ∷ ("w", open_link) ∷ [])
        [] in
    record h { store = record (h.store) { sweeps = limited ∷ [] } }

differ : (x y : String) → (x == y) ≡ false → ¬ (x ≡ y)
differ x y f e = cc (sym f ∙ (eq_iff x y).1 e)

crowded-Distinct : Distinct (ids crowded.store.runs)
crowded-Distinct =
    ((differ "c" "b" refl, (differ "c" "a" refl, tt)), ((differ "b" "a" refl, tt), (tt, tt)))

pump-sweep_active_children_example :
    sweep_active_children "s" (pump env 2 crowded).1.store
    ≤ max (sweep_active_children "s" crowded.store) 2
unfolding sweep
pump-sweep_active_children_example =
    pump-sweep_active_children env 2 "s" limited crowded crowded-Distinct refl (omega arith)
