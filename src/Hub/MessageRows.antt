-- ===== src/Hub/MessageRows.antt =====
-- Rules for predicates on the rows of the runs under the handlers of hub/messages.rs.
use chuk_mcp_training.Base.{
  ℕ, String, ◌==◌, ◌≡◌, refl, true, false, Option, none, some, [], ◌∷◌, arith, All, any, modify-All,
  Bool-cases, inl, inr, Table,
}
use chuk_mcp_training.Base.Int.{ℤ}
use chuk_mcp_training.Base.Float.{F64}
use chuk_mcp_training.Proto.Run.{RunState, running, is_terminal, CheckpointMeta}
use chuk_mcp_training.Wire.{
  WorkerToCp, hello, heartbeat, job_started, job_exited, job_killed, service_ready, log, metric,
  artifact, drained, KillReason, cancel,
}
use chuk_mcp_training.Store.Tables.{Run, Store}
use chuk_mcp_training.Store.Runs.{is_live_row, moved, transition_if_live, add_event, append_log}
use chuk_mcp_training.Store.Fleet.{worker_seen, record_worker_samples}
use chuk_mcp_training.Store.Policy.{append_metric, append_metrics, record_checkpoint}
use chuk_mcp_training.Hub.State.{Env}
use chuk_mcp_training.Hub.Keeps.{
  Keeps, Keeps-update, Keeps-pure, Keeps-bind, Keeps-then, Keeps-if, Keeps-asks, Keeps-or_fail,
}
use chuk_mcp_training.Hub.RunRows.{Rows, set_worker_run-Kept}
use chuk_mcp_training.Hub.PumpRows.{Movable, pump-Rows}
use chuk_mcp_training.Hub.Messages.{
  kill_reason_state, exit_state, finish_run, start_if_live, job_started_arm, metric_arm,
  host_sample, handle, handle_once, on_message,
}
use chuk_mcp_training.Hub.Checkpoints.{
  mirror_checkpoint, ingest_step, ingest_uri, ingest_checkpoint,
}
use chuk_mcp_training.Hub.GateRows.{
  Endable, other_table-Rows, ignore_error-Rows, mirror_state-Rows, end-Rows, evaluate_gates-Rows,
}

abbrev pub Startable : (Run → Type 0) → Type 0
Startable Q =
    (x : Run) (at : ℕ) (w : Option String)
    → is_terminal x.state ≡ false
    → Q x
    → Q (moved at running w none x)

pub exit_state-terminal : (code : ℤ) → is_terminal (exit_state code) ≡ true
unfolding exit_state is_terminal
exit_state-terminal code = ground arith

pub kill_reason_state-terminal : (r : KillReason) → is_terminal (kill_reason_state r).0 ≡ true
unfolding kill_reason_state is_terminal
kill_reason_state-terminal cancel = refl
kill_reason_state-terminal _ = refl

runs-append_metric :
    (at : ℕ) (run_id : String) (step : ℕ) (key : String) (v : F64) (s : Store)
    → (append_metric at run_id step key v s).runs ≡ s.runs
unfolding append_metric
runs-append_metric at run_id step key v s = ground arith

pub runs-append_metrics :
    (at : ℕ) (run_id : String) (step : ℕ) (vs : Table F64) (s : Store)
    → (append_metrics at run_id step vs s).runs ≡ s.runs
unfolding append_metrics
runs-append_metrics at run_id step [] s = refl
runs-append_metrics at run_id step ((k, v) ∷ vs) s =
    rw (runs-append_metrics at run_id step vs (append_metric at run_id step k v s))
      (runs-append_metric at run_id step k v s)

runs-record_checkpoint :
    (run_id : String) (n : ℕ) (uri hash : String) (m : CheckpointMeta) (s : Store)
    → (record_checkpoint run_id n uri hash m s).runs ≡ s.runs
unfolding record_checkpoint
runs-record_checkpoint run_id n uri hash m s = ground arith

live_row-terminal :
    (run_id : String) (x : Run) → is_live_row run_id x ≡ true → is_terminal x.state ≡ false
live_row-terminal run_id x e = ground arith

module _ {Q : Run → Type 0} (movable : Movable Q) (endable : Endable Q) (env : Env) (at : ℕ) where
  pub finish_run-Rows :
      (id run_id : String) (state : RunState) (c : ℤ)
      → is_terminal state ≡ true
      → Keeps (Rows Q) (finish_run env at id run_id state c)
  unfolding finish_run
  finish_run-Rows id run_id state c t =
      Keeps-then _ _ (Keeps-update _ λ h p. record { all = p.all }) (
        Keeps-then _ _ (end-Rows movable endable env at run_id state (some id) (some c) _ t) (
          Keeps-then _ _ (mirror_state-Rows env at run_id state) (
            Keeps-then _ _ (Keeps-update _ λ h p. record { all = p.all })
              (Keeps-then _ _ (set_worker_run-Kept id none) (pump-Rows movable env at)))))

  ingest_step-Rows : (run_id : String) (n : ℕ) → Keeps (Rows Q) (ingest_step env at run_id n)
  unfolding ingest_step mirror_checkpoint add_event
  ingest_step-Rows run_id n = Keeps-bind _ _ (Keeps-asks _) λ found.
      Keeps-bind _ _ (Keeps-or_fail _ _) λ model. Keeps-bind _ _ (Keeps-asks _) λ m.
        Keeps-then _ _ (Keeps-update _ λ h p. record { all = p.all }) (
          Keeps-bind _ _ (Keeps-pure _) λ uri.
            Keeps-then _ _ (other_table-Rows _ (runs-record_checkpoint run_id n uri _ m)) (
              Keeps-then _ _ (other_table-Rows _ λ s. refl) (
                Keeps-if env.experiments _ _ (Keeps-update _ λ h p. record { all = p.all })
                  (Keeps-pure tt))))

  ingest_uri-Rows : (run_id : String) (n : Option ℕ) → Keeps (Rows Q) (ingest_uri env at run_id n)
  unfolding ingest_uri
  ingest_uri-Rows run_id none = Keeps-pure tt
  ingest_uri-Rows run_id (some n) = ingest_step-Rows run_id n

  metric_arm-Rows :
      (run_id : String) (step : Option ℕ) (vs : Table F64)
      → Keeps (Rows Q) (metric_arm env at run_id step vs)
  unfolding metric_arm
  metric_arm-Rows run_id none vs = Keeps-pure tt
  metric_arm-Rows run_id (some step) vs =
      Keeps-then _ _ (other_table-Rows _ (runs-append_metrics at run_id step vs)) (
        ignore_error-Rows _ (
          Keeps-bind _ _ (evaluate_gates-Rows movable endable env at run_id)
            λ refreshed. Keeps-pure tt))

  host_sample-Rows : (id : String) (vs : Table F64) → Keeps (Rows Q) (host_sample env at id vs)
  unfolding host_sample record_worker_samples
  host_sample-Rows id [] = Keeps-pure tt
  host_sample-Rows id (v ∷ vs) = other_table-Rows _ λ s. refl

  module _ (startable : Startable Q) where
    start-All :
        (id run_id : String) (s : Store)
        → All Q s.runs
        → All Q (transition_if_live at run_id running (some id) s).0.runs
    unfolding transition_if_live add_event
    start-All id run_id s all = elim (Bool-cases (any (is_live_row run_id) s.runs)) [
      | inl e ↦ rw e (
          modify-All Q (is_live_row run_id) (moved at running (some id) none)
            (λ x t hx. startable x at (some id) (live_row-terminal run_id x t) hx) s.runs all)
      | inr e ↦ rw e all
    ]

    job_started_arm-Rows : (id run_id : String) → Keeps (Rows Q) (job_started_arm env at id run_id)
    unfolding job_started_arm start_if_live
    job_started_arm-Rows id run_id =
        Keeps-bind _ _ (record { at = λ h p. record { all = start-All id run_id h.store p.all } })
          λ applied. Keeps-if applied _ _ (mirror_state-Rows env at run_id running) (Keeps-pure tt)

    handle-Rows : (id : String) (msg : WorkerToCp) → Keeps (Rows Q) (handle env at id msg)
    unfolding handle ingest_checkpoint append_log
    handle-Rows id (hello token) = Keeps-pure tt
    handle-Rows id heartbeat = Keeps-pure tt
    handle-Rows id (log seq job line) = other_table-Rows _ λ s. refl
    handle-Rows id (metric seq (some job) step vs) = metric_arm-Rows job step vs
    handle-Rows id (metric seq none step vs) = host_sample-Rows id vs
    handle-Rows id (artifact seq job class uri) =
        Keeps-if (class == "checkpoint") _ _ (ingest_uri-Rows job _) (Keeps-pure tt)
    handle-Rows id (job_started seq job) = job_started_arm-Rows id job
    handle-Rows id (job_exited seq job code) =
        finish_run-Rows id job _ code (exit_state-terminal code)
    handle-Rows id (job_killed seq job r) =
        finish_run-Rows id job _ _ (kill_reason_state-terminal r)
    handle-Rows id (service_ready seq job ports) = Keeps-pure tt
    handle-Rows id drained = Keeps-pure tt

    handle_once-Rows :
        (id : String) (msg : WorkerToCp) (seq : Option ℕ)
        → Keeps (Rows Q) (handle_once env at id msg seq)
    unfolding handle_once
    handle_once-Rows id msg none = handle-Rows id msg
    handle_once-Rows id msg (some seq) = Keeps-bind _ _ (Keeps-asks _) λ seen.
        Keeps-if seen _ _ (Keeps-pure tt)
          (Keeps-then _ _ (Keeps-update _ λ h p. record { all = p.all }) (handle-Rows id msg))

    pub on_message-Rows :
        (id : String) (msg : WorkerToCp) → Keeps (Rows Q) (on_message env at id msg)
    unfolding on_message worker_seen
    on_message-Rows id msg =
        Keeps-then _ _ (other_table-Rows _ λ s. refl) (handle_once-Rows id msg _)
