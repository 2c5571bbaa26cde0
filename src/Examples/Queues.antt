-- ===== src/Examples/Queues.antt =====
-- A queue whose oldest run cannot be assembled.
use chuk_mcp_training.Base.{◌≡◌, refl, none, some, [], ◌∷◌}
use chuk_mcp_training.Proto.Run.{queued, train, TrainSpec}
use chuk_mcp_training.Store.Tables.{Run}
use chuk_mcp_training.Store.Runs.{run, runs_in_state, state_eq}
use chuk_mcp_training.Store.Policy.{code_unit}
use chuk_mcp_training.Hub.State.{Hub, err, code_unit_not_registered, asks, or_fail, fail, ◌>>=◌}
use chuk_mcp_training.Hub.Assemble.{assemble_job, assemble_train_job}
use chuk_mcp_training.Hub.Schedule.{held_back, next_assignable_queued, pump}
use chuk_mcp_training.Hub.Blocked.{pump-blocked}
use chuk_mcp_training.Examples.HubData.{env, hub_of, open_link, run_in, worker_on}

abbrev unregistered : TrainSpec
unregistered = record {
  code = record { name = "trainer"; sha = "ab" };
  entrypoint = "train";
  config = none;
  overrides = [];
  data_ref = none;
  seed = none;
  arch = none;
  timeout_s = 60;
}

abbrev broken : Run
broken = record (run_in "broken" queued none) { spec = train unregistered }

-- Two queued runs, the older of them with a code unit that is not registered, and two idle workers.
abbrev blocked : Hub
blocked =
    hub_of (run_in "fine" queued none ∷ broken ∷ []) (worker_on "v" none ∷ worker_on "w" none ∷ [])
      (("v", open_link) ∷ ("w", open_link) ∷ []) []

broken_is_next : next_assignable_queued blocked.store ≡ some broken
unfolding next_assignable_queued held_back runs_in_state state_eq run
broken_is_next = refl

broken_fails : (assemble_job env 5 broken.id broken.spec blocked).0 ≡ err code_unit_not_registered
unfolding assemble_job assemble_train_job code_unit asks or_fail fail ◌>>=◌
broken_fails = refl

pump-blocked_example : (pump env 5 blocked).1.store.runs ≡ blocked.store.runs
pump-blocked_example =
    pump-blocked env 5 blocked broken code_unit_not_registered broken_is_next broken_fails
