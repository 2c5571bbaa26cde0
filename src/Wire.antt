-- ===== src/Wire.antt =====
-- crates/chuk-compute-wire/src/message.rs: the messages that cross the socket.
use chuk_mcp_training.Base.{ℕ, String, Option, List, Table}
use chuk_mcp_training.Base.Int.{ℤ}
use chuk_mcp_training.Base.Float.{F64}

pub data WorkerClass : Type 0 where
  leased persistent : WorkerClass

pub data KillReason : Type 0 where
  wall max_runtime cancel drain oom_guard : KillReason

-- `capabilities`, `worker_semver` and the artifact's `sha256`, `bytes` and `meta`, which the hub does
-- not read, are left out.
pub data WorkerToCp : Type 0 where
  hello : String → WorkerToCp
  heartbeat : WorkerToCp
  job_started : ℕ → String → WorkerToCp
  job_exited : ℕ → String → ℤ → WorkerToCp
  job_killed : ℕ → String → KillReason → WorkerToCp
  service_ready : ℕ → String → List ℕ → WorkerToCp
  log : ℕ → String → String → WorkerToCp
  metric : ℕ → Option String → Option ℕ → Table F64 → WorkerToCp
  artifact : ℕ → String → String → String → WorkerToCp
  drained : WorkerToCp
