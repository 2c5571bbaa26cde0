-- ===== src/Examples/HubData.antt =====
-- A hub with a worker, a finished run, a run in the queue and one that is running.
use chuk_mcp_training.Base.{ℕ, String, true, Option, none, some, List, [], ◌∷◌, Table}
use chuk_mcp_training.Base.Int.{pos}
use chuk_mcp_training.Base.Float.{fin}
use chuk_mcp_training.Proto.Run.{RunState, queued, running, completed, shell, Hardware, connected}
use chuk_mcp_training.Store.Tables.{Run, Worker, Store}
use chuk_mcp_training.Hub.State.{Env, Hub, Link}

abbrev pub env : Env
env = record {
  uuid = λ n. "0";
  sha256_hex = λ b. "ab";
  decode_meta = λ b. none;
  encode_meta = λ m. [];
  as_i64 = λ s. none;
  artifact_uri = λ k. k;
  parse_f64 = λ s. none;
  seconds = λ t. fin (pos t);
  cutoff_of = λ now w. now;
  datasets = none;
  experiments = true;
}

abbrev pub hardware : Hardware
hardware = record { host = "linux"; os = "linux"; gpu = some "T4"; vram_mb = none; driver = none }

abbrev pub run_in : String → RunState → Option String → Run
run_in id state w = record {
  id = id;
  name = id;
  spec = shell (record { command = "true"; timeout_s = 600 });
  state = state;
  worker_id = w;
  exit_code = none;
  experiment_ref = none;
  created_by = none;
  sweep_id = none;
  created_at = 1;
  updated_at = 1;
}

abbrev pub worker_on : String → Option String → Worker
worker_on id r = record {
  id = id;
  labels = [];
  hardware = hardware;
  state = connected;
  current_run = r;
  joined_at = 1;
  last_seen = 1;
}

abbrev pub store_of : List Run → List Worker → Store
store_of runs workers = record {
  runs = runs;
  workers = workers;
  leases = [];
  events = [];
  sweeps = [];
  gates = [];
  metrics = [];
  logs = [];
  checkpoints = [];
  code_units = [];
  worker_tokens = [];
  join_tokens = [];
  samples = [];
  ledger = [];
  budgets = [];
  users = [];
  api_keys = [];
  run_seq = 0;
}

abbrev pub hub_of : List Run → List Worker → Table Link → Table ℕ → Hub
hub_of runs workers links high_water = record {
  store = store_of runs workers;
  blobs = [];
  grants = [];
  minted = 0;
  links = links;
  resume_state = [];
  data_state = [];
  high_water = high_water;
  reports = [];
}

abbrev pub open_link : Link
open_link = record { is_open = true; sent = [] }

-- "done" has ended, "next" waits in the queue with the worker of its first attempt still in its row,
-- and "busy" runs on that worker.
abbrev pub hub : Hub
hub =
    hub_of
      (run_in "busy" running (some "w")
        ∷ run_in "next" queued (some "w")
        ∷ run_in "done" completed (some "w")
        ∷ [])
      (worker_on "w" (some "busy") ∷ []) (("w", open_link) ∷ []) (("w", 4) ∷ [])

-- The same with the worker's link gone.
abbrev pub unlinked : Hub
unlinked = record hub { links = [] }
