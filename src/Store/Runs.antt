-- ===== src/Store/Runs.antt =====
-- store/sqlite/runs.rs, sweeps.rs and logs.rs
use chuk_mcp_training.Base.{
  ℕ, suc, ◌/◌, String, ◌==◌, Bool, true, false, not, ◌&&◌, Option, none, some, List, [], ◌∷◌, Table,
  put, modify, find, keep, take, count_of, any, if◌then◌else◌,
}
use chuk_mcp_training.Base.Int.{ℤ}
use chuk_mcp_training.Proto.Run.{
  RunState, queued, assigned, running, completed, failed, cancelled, EventKind, is_terminal,
  event_of, RunSpec, TrainSpec,
}
use chuk_mcp_training.Store.Ids.{new_run_id, new_sweep_id}
use chuk_mcp_training.Store.Tables.{Run, Datum, text, int, SweepRow, Store}

-- `==` on run states
unfoldable pub state_eq : RunState → RunState → Bool
state_eq queued queued = true
state_eq assigned assigned = true
state_eq running running = true
state_eq completed completed = true
state_eq failed failed = true
state_eq cancelled cancelled = true
state_eq _ _ = false

-- `COALESCE(?, column)`
unfoldable pub coalesce {ℓ} : {A : Type ℓ} → Option A → Option A → Option A
coalesce none old = old
coalesce (some a) old = some a

abbrev pub has_id : String → Run → Bool
has_id run_id r = r.id == run_id

-- add_event
unfoldable pub add_event : ℕ → String → EventKind → Table Datum → Store → Store
add_event at run_id event detail s = record s {
  events = record { run_id = run_id; ts = at; event = event; detail = detail } ∷ s.events;
}

-- The row that a transition leaves.
unfoldable pub moved : ℕ → RunState → Option String → Option ℤ → Run → Run
unfolding coalesce
moved at state worker_id exit_code r = record r {
  state = state;
  updated_at = at;
  worker_id = coalesce worker_id r.worker_id;
  exit_code = coalesce exit_code r.exit_code;
}

-- merge_field for a worker and for an exit code
unfoldable pub event_detail : Option String → Option ℤ → Table Datum → Table Datum
event_detail none none d = d
event_detail (some w) none d = put "worker" (text w) d
event_detail none (some c) d = put "exit_code" (int c) d
event_detail (some w) (some c) d = put "exit_code" (int c) (put "worker" (text w) d)

-- transition
unfoldable pub transition :
    ℕ → String → RunState → Option String → Option ℤ → Table Datum → Store → Store
unfolding moved add_event
transition at run_id state worker_id exit_code detail s =
    add_event at run_id (event_of state) (event_detail worker_id exit_code detail)
      (record s { runs = modify (has_id run_id) (moved at state worker_id exit_code) s.runs })

-- The WHERE clause of `transition_if_live`.
abbrev pub is_live_row : String → Run → Bool
is_live_row run_id r = has_id run_id r && not (is_terminal r.state)

-- transition_if_live
unfoldable pub transition_if_live : ℕ → String → RunState → Option String → Store → Store × Bool
unfolding moved add_event
transition_if_live at run_id state worker_id s =
    if any (is_live_row run_id) s.runs
    then (
      add_event at run_id (event_of state) (event_detail worker_id none [])
          (record s { runs = modify (is_live_row run_id) (moved at state worker_id none) s.runs }),
      true,
    )
    else (s, false)

-- run
unfoldable pub run : String → Store → Option Run
run run_id s = find (has_id run_id) s.runs

-- The rows in one state, newest first, cut at a limit: `runs` with a state and no offset.
unfoldable pub runs_in_state : RunState → ℕ → Store → List Run
unfolding state_eq
runs_in_state state limit s = take limit (keep (λ r. state_eq r.state state) s.runs)

-- The last row that passes a test; `ORDER BY created_at LIMIT 1` over rows that stand newest first.
unfoldable pub find_last {ℓ} : {A : Type ℓ} → (A → Bool) → List A → Option A
find_last p [] = none
find_last p (x ∷ xs) = elim (find_last p xs) [
  | none ↦ if p x then some x else none
  | some y ↦ some y
]

-- next_queued
unfoldable pub next_queued : Store → Option Run
unfolding find_last state_eq
next_queued s = find_last (λ r. state_eq r.state queued) s.runs

-- next_run_seq
unfoldable pub next_run_seq : Store → Store × ℕ
next_run_seq s = (record s { run_seq = suc s.run_seq }, suc s.run_seq)

-- the row of a new run, before its events
unfoldable pub insert_run :
    ℕ → String → String → RunSpec → Option String → Option String → Option String → Store → Store
insert_run at run_id name spec experiment_ref created_by sweep_id s = record s {
  runs =
      record {
        id = run_id;
        name = name;
        spec = spec;
        state = queued;
        worker_id = none;
        exit_code = none;
        experiment_ref = experiment_ref;
        created_by = created_by;
        sweep_id = sweep_id;
        created_at = at;
        updated_at = at;
      }
      ∷ s.runs;
}

-- create_run
unfoldable pub create_run :
    ℕ → String → RunSpec → Option String → Option String → Option String → Store → Store × String
unfolding add_event insert_run next_run_seq new_run_id
create_run at name spec experiment_ref created_by sweep_id s =
    let (next, seq) = next_run_seq s in
    let run_id = new_run_id (at / 1000) seq in
    (
      add_event at run_id EventKind.queued [] (
          add_event at run_id EventKind.created (("name", text name) ∷ [])
            (insert_run at run_id name spec experiment_ref created_by sweep_id next)),
      run_id,
    )

-- create_sweep
unfoldable pub create_sweep :
    ℕ → String → TrainSpec → Table (List String) → ℕ → Option String → Store → Store × String
unfolding next_run_seq new_sweep_id
create_sweep at name template axes concurrency created_by s =
    let (next, seq) = next_run_seq s in
    let sweep_id = new_sweep_id (at / 1000) seq in
    (
      record next {
        sweeps =
            record {
              id = sweep_id;
              name = name;
              template = template;
              axes = axes;
              concurrency = concurrency;
              created_by = created_by;
              created_at = at;
            }
            ∷ next.sweeps;
      },
      sweep_id,
    )

-- sweep
unfoldable pub sweep : String → Store → Option SweepRow
sweep sweep_id s = find (λ r. r.id == sweep_id) s.sweeps

abbrev pub of_sweep : String → Run → Bool
of_sweep sweep_id r = elim r.sweep_id [ none ↦ false | some i ↦ i == sweep_id ]

-- `state IN ('assigned', 'running')`
unfoldable pub is_active : RunState → Bool
is_active assigned = true
is_active running = true
is_active _ = false

-- sweep_active_children
unfoldable pub sweep_active_children : String → Store → ℕ
unfolding is_active
sweep_active_children sweep_id s = count_of (λ r. of_sweep sweep_id r && is_active r.state) s.runs

-- append_log
unfoldable pub append_log : ℕ → String → String → Store → Store
append_log at run_id line s = record s {
  logs = record { run_id = run_id; ts = at; line = line } ∷ s.logs;
}
