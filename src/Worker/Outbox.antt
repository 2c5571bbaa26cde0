-- ===== src/Worker/Outbox.antt =====
-- crates/chuk-compute-worker/src/outbox.rs and seq.rs, and the session of main.rs that replays the
-- outbox. The counter is an unsigned integer of 64 bits.
use Prim.Native.Nat.{◌+◌, ◌%◌, ◌^◌}
use chuk_mcp_training.Base.{ℕ, List, [], ◌∷◌, ◌++◌, keep, map, ltb, if◌then◌else◌}
use chuk_mcp_training.Wire.{
  WorkerToCp, hello, heartbeat, job_started, job_exited, job_killed, service_ready, log, metric,
  artifact, drained,
}

-- SEQ_ORIGIN
abbrev pub seq_origin : ℕ
seq_origin = 0

-- Seq::next: the number that is handed out, and the counter after it
unfoldable pub next : ℕ → ℕ × ℕ
next counter = (counter, (counter + 1) % 2 ^ 64)

-- event_seq
unfoldable pub event_seq : WorkerToCp → ℕ
event_seq (hello token) = seq_origin
event_seq heartbeat = seq_origin
event_seq (job_started seq job_id) = seq
event_seq (job_exited seq job_id code) = seq
event_seq (job_killed seq job_id reason) = seq
event_seq (service_ready seq job_id ports) = seq
event_seq (log seq job_id line) = seq
event_seq (metric seq job_id step values) = seq
event_seq (artifact seq job_id class uri) = seq
event_seq drained = seq_origin

-- trim_to_high_water
unfoldable pub trim_to_high_water : ℕ → List (ℕ × WorkerToCp) → List (ℕ × WorkerToCp)
trim_to_high_water resumed outbox =
    if ltb seq_origin resumed then keep (λ e. ltb resumed e.0) outbox else outbox

-- `outbox.push((event_seq(&event), event))`
unfoldable pub push : WorkerToCp → List (ℕ × WorkerToCp) → List (ℕ × WorkerToCp)
push event outbox = outbox ++ (event_seq event, event) ∷ []

-- What a session sends when its hello is acknowledged: the outbox, after the events that finished jobs
-- left behind, less what is at or below the acknowledged mark.
unfoldable pub replay : ℕ → List WorkerToCp → List (ℕ × WorkerToCp) → List WorkerToCp
replay resumed [] outbox = map (λ e. e.1) (trim_to_high_water resumed outbox)
replay resumed (event ∷ backlog) outbox = replay resumed backlog (push event outbox)
