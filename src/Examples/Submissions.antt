-- ===== src/Examples/Submissions.antt =====
-- A hub whose clock steps back between the submissions of a run and of a sweep of two.
use chuk_mcp_training.Base.{Distinct, ℕ, ◌≡◌, refl, none, some, List, [], ◌∷◌, map, arith}
use mathlib.Core.List.{flat_map}
use chuk_mcp_training.Base.Text.{strip_prefix}
use chuk_mcp_training.Proto.Run.{shell, TrainSpec, completed}
use chuk_mcp_training.Store.Ids.{new_run_id}
use chuk_mcp_training.Store.Runs.{create_run, create_sweep}
use chuk_mcp_training.Budget.Calendar.{civil_from_days}
use chuk_mcp_training.Hub.State.{Hub, ◌>>=◌, ◌>>◌, pure, update}
use chuk_mcp_training.Hub.Schedule.{pump, pump_links, drop_links}
use chuk_mcp_training.Hub.Control.{mirror_created}
use chuk_mcp_training.Hub.Submit.{SweepSpec, returning, or_refuse, create_children}
use chuk_mcp_training.Hub.Numbering.{
  Numbered, Submission, one_run, one_sweep, submit_all, submit_all-Distinct,
}
use chuk_mcp_training.Examples.HubData.{env, hub_of, run_in}

abbrev pub template : TrainSpec
template = record {
  code = record { name = "unit"; sha = "abc" };
  entrypoint = "main";
  config = none;
  overrides = [];
  data_ref = none;
  seed = none;
  arch = none;
  timeout_s = 600;
}

abbrev sweep_of_two : SweepSpec
sweep_of_two = record {
  template = template;
  axes = ("overrides.lr", "2" ∷ "3" ∷ []) ∷ [];
  concurrency = 1;
}

abbrev submissions : List (ℕ × Submission)
submissions =
    (
      9000,
      one_run "probe" (shell (record { command = "true"; timeout_s = 60 })) none (some "a@b.c"),
    )
    ∷ (2000, one_sweep "lr" sweep_of_two none)
    ∷ []

abbrev first_hub : Hub
first_hub =
    let h = hub_of (run_in "EXEC-19700101-000000-00001" completed none ∷ []) [] [] [] in
    record h { store = record (h.store) { run_seq = 1 } }

first_hub-Numbered : Numbered first_hub.store.runs first_hub.store.run_seq
unfolding new_run_id civil_from_days
first_hub-Numbered = (0, 0, omega arith, refl, tt)

ids_after :
    map (λ r. r.id) (submit_all env submissions first_hub).store.runs
    ≡ "EXEC-19700101-000002-00005" ∷ "EXEC-19700101-000002-00004" ∷ "EXEC-19700101-000009-00002"
      ∷ "EXEC-19700101-000000-00001" ∷ []
unfolding submit_all ◌>>=◌ or_refuse strip_prefix flat_map pure returning create_children ◌>>◌ pump
    pump_links mirror_created update drop_links create_run civil_from_days create_sweep
ids_after = refl

submit_all-Distinct_example :
    Distinct (map (λ r. r.id) (submit_all env submissions first_hub).store.runs)
    × Numbered
        (submit_all env submissions first_hub).store.runs
        (submit_all env submissions first_hub).store.run_seq
submit_all-Distinct_example = submit_all-Distinct env submissions first_hub first_hub-Numbered
