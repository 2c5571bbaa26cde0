-- ===== src/Hub/Marks.antt =====
-- The high water of the workers' events under the handlers (the field `high_water` of hub/mod.rs).
use chuk_mcp_training.Base.{
  ℕ, String, ◌≡◌, Bool, Option, none, some, List, [], ◌∷◌, Bool-cases, inl, inr, Table,
}
use chuk_mcp_training.Proto.Constants.{heartbeat_timeout}
use chuk_mcp_training.Proto.Run.{RunState, RunSpec, shell, train, DataRef}
use chuk_mcp_training.Gate.Expr.{GateExpr}
use chuk_mcp_training.Gate.Parse.{Parsed, parsed, refused}
use chuk_mcp_training.Store.Tables.{Run, CheckpointInfo, GateInfo, Store}
use chuk_mcp_training.Store.Fleet.{WorkerInfo}
use chuk_mcp_training.Hub.State.{Env, Hub, Link, Action, CpToWorker, update_store, send_to, deliver}
use chuk_mcp_training.Hub.Keeps.{
  Keeps, Keeps-update, Keeps-update_store, Keeps-pure, Keeps-fail, Keeps-bind, Keeps-then, Keeps-if,
  Keeps-asks, Keeps-or_fail,
}
use chuk_mcp_training.Hub.Assemble.{
  assemble_job, assemble_train_job, mint_grant, resumed_event, resolve_data,
}
use chuk_mcp_training.Hub.Schedule.{
  eligible_for_assignment, Turn, requeue_unsent, assign, offer, consider, turn, after_turn,
  pump_links, pump, skipped, queue_empty, assigned_run, link_closed,
}
use chuk_mcp_training.Hub.Control.{
  mirror_state, cancel_now, signal_or_cancel, stop_run, ignore_error, is_live, trip_event, enforce,
  judge, evaluate_gate, evaluate_each,
}

abbrev pub Marked : Table ℕ → Hub → Type 0
Marked w h = h.high_water ≡ w

module _ {w : Table ℕ} where
  pub store-Marked : (f : Store → Store) → Keeps (Marked w) (update_store f)
  store-Marked f = Keeps-update_store f λ h p. p

  deliver-Marked :
      (id : String) (msg : CpToWorker) (l : Option Link) (h : Hub)
      → Marked w h
      → Marked w (deliver id msg l h).1
  unfolding deliver
  deliver-Marked id msg none h p = p
  deliver-Marked id msg (some l) h p = elim (Bool-cases l.is_open) [
    | inl e ↦ rw e p
    | inr e ↦ rw e p
  ]

  send_to-Marked : (id : String) (msg : CpToWorker) → Keeps (Marked w) (send_to id msg)
  unfolding send_to
  send_to-Marked id msg = record { at = λ h p. deliver-Marked id msg _ h p }

module _ {w : Table ℕ} (env : Env) (at : ℕ) where
  resumed_event-Marked :
      (run_id : String) (c : Option CheckpointInfo)
      → Keeps (Marked w) (resumed_event env at run_id c)
  unfolding resumed_event
  resumed_event-Marked run_id none = Keeps-pure tt
  resumed_event-Marked run_id (some c) = store-Marked _

  resolve_data-Marked :
      (run_id : String) (d : Option DataRef) → Keeps (Marked w) (resolve_data env at run_id d)
  unfolding resolve_data
  resolve_data-Marked run_id none = Keeps-pure none
  resolve_data-Marked run_id (some d) = Keeps-bind _ _ (Keeps-or_fail _ _) λ datasets.
      Keeps-bind _ _ (Keeps-or_fail _ _) λ resolved.
        Keeps-bind _ _ (Keeps-or_fail _ _)
          λ shards. Keeps-then _ _ (Keeps-update _ λ h p. p) (Keeps-pure _)

  assemble_job-Marked :
      (run_id : String) (spec : RunSpec) → Keeps (Marked w) (assemble_job env at run_id spec)
  unfolding assemble_job assemble_train_job mint_grant
  assemble_job-Marked run_id (shell spec) = Keeps-pure _
  assemble_job-Marked run_id (train spec) = Keeps-bind _ _ (Keeps-asks _) λ found.
      Keeps-bind _ _ (Keeps-or_fail _ _) λ code. Keeps-bind _ _ (Keeps-or_fail _ _) λ cmd.
        Keeps-bind _ _ (record { at = λ h p. p })
          λ grant. Keeps-bind _ _ (Keeps-asks _) λ latest.
            Keeps-then _ _ (Keeps-update _ λ h p. p) (
              Keeps-then _ _ (resumed_event-Marked run_id latest)
                (Keeps-bind _ _ (resolve_data-Marked run_id spec.data_ref) λ d. Keeps-pure _))

  offer-Marked : (id : String) (o : Option Run) → Keeps (Marked w) (offer env at id o)
  unfolding offer assign requeue_unsent
  offer-Marked id none = record { at = λ h p. p }
  offer-Marked id (some r) = record {
    at =
        (Keeps-bind _ _ (assemble_job-Marked r.id r.spec) λ job. Keeps-then _ _ (store-Marked _) (
          Keeps-then _ _ (store-Marked _) (
            Keeps-bind _ _ (send_to-Marked id _) λ delivered.
              Keeps-if delivered _ _ (Keeps-pure _) (
                Keeps-then _ _ (Keeps-update _ λ h p. p) (
                  Keeps-then _ _ (store-Marked _)
                    (Keeps-then _ _ (store-Marked _) (Keeps-pure _))))))).at;
  }

  turn-Marked : (id : String) (o : Option WorkerInfo) → Keeps (Marked w) (consider env at id o)
  unfolding consider
  turn-Marked id none = record { at = λ h p. p }
  turn-Marked id (some i) = record {
    at = λ h p. elim (Bool-cases (eligible_for_assignment i heartbeat_timeout)) [
      | inl t ↦ rw t ((offer-Marked id _).at h p)
      | inr t ↦ rw t p
    ];
  }

  after_turn-Marked :
      {rest : List String → Action (List String)}
      → ((dead : List String) → Keeps (Marked w) (rest dead))
      → (id : String) (dead : List String) (t : Turn)
      → Keeps (Marked w) (after_turn env at rest id dead t)
  unfolding after_turn
  after_turn-Marked k id dead skipped = record { at = λ h p. (k dead).at h p }
  after_turn-Marked k id dead queue_empty = record { at = λ h p. p }
  after_turn-Marked k id dead assigned_run = record { at = λ h p. (k dead).at h p }
  after_turn-Marked k id dead link_closed = record { at = λ h p. (k (id ∷ dead)).at h p }

  pump_links-Marked : (ids dead : List String) → Keeps (Marked w) (pump_links env at ids dead)
  unfolding pump_links turn
  pump_links-Marked [] dead = record { at = λ h p. p }
  pump_links-Marked (id ∷ ids) dead = record {
    at =
        (Keeps-bind _ _ (record { at = λ h p. (turn-Marked id _).at h p })
          (after_turn-Marked (pump_links-Marked ids) id dead)).at;
  }

  pub pump-Marked : Keeps (Marked w) (pump env at)
  unfolding pump
  pump-Marked = record {
    at = λ h p. (Keeps-bind _ _ (pump_links-Marked _ []) λ dead. Keeps-update _ λ g q. q).at h p;
  }

  pub mirror_state-Marked :
      (run_id : String) (s : RunState) → Keeps (Marked w) (mirror_state env at run_id s)
  unfolding mirror_state
  mirror_state-Marked run_id s =
      Keeps-if env.experiments _ _ (Keeps-update _ λ h p. p) (Keeps-pure tt)

  cancel_now-Marked :
      (run_id : String) (id : Option String) → Keeps (Marked w) (cancel_now env at run_id id)
  unfolding cancel_now
  cancel_now-Marked run_id id = Keeps-then _ _ (Keeps-update _ λ h p. p) (
      Keeps-then _ _ (store-Marked _) (
        Keeps-then _ _ (mirror_state-Marked run_id _)
          (Keeps-then _ _ (Keeps-update _ λ h p. p) (Keeps-then _ _ (store-Marked _) pump-Marked))))

  signal_or_cancel-Marked :
      (run_id : String) (id : Option String) → Keeps (Marked w) (signal_or_cancel env at run_id id)
  unfolding signal_or_cancel
  signal_or_cancel-Marked run_id none = cancel_now-Marked run_id none
  signal_or_cancel-Marked run_id (some id) =
      Keeps-bind _ _ (send_to-Marked id _)
        λ delivered. Keeps-if delivered _ _ (Keeps-pure tt) (cancel_now-Marked run_id (some id))

  enforce-Marked : (run_id : String) (b : Bool) → Keeps (Marked w) (enforce env at run_id b)
  unfolding enforce ignore_error stop_run
  enforce-Marked run_id b =
      Keeps-if b _ _
        (Keeps-bind _ _ (Keeps-asks _) λ found.
          Keeps-if (is_live found) _ _
            (record {
              at =
                  (Keeps-bind _ _ (Keeps-asks _) λ r. Keeps-bind _ _ (Keeps-or_fail _ _) λ x.
                    Keeps-if _ _ _ (Keeps-fail _) (signal_or_cancel-Marked run_id x.worker_id)).at;
            })
            (Keeps-pure tt))
        (Keeps-pure tt)

  evaluate_gate-Marked :
      (run_id : String) (g : GateInfo) (x : Parsed GateExpr)
      → Keeps (Marked w) (evaluate_gate env at run_id g x)
  unfolding evaluate_gate judge trip_event
  evaluate_gate-Marked run_id g (refused e) = Keeps-pure g
  evaluate_gate-Marked run_id g (parsed x) = Keeps-bind _ _ (Keeps-asks _) λ history.
      Keeps-bind _ _ (Keeps-pure _) λ verdict. Keeps-then _ _ (store-Marked _) (
        Keeps-then _ _ (Keeps-if _ _ _ (store-Marked _) (Keeps-pure tt))
          (Keeps-then _ _ (enforce-Marked run_id _) (Keeps-pure _)))

  pub evaluate_each-Marked :
      (run_id : String) (gs : List GateInfo) → Keeps (Marked w) (evaluate_each env at run_id gs)
  unfolding evaluate_each
  evaluate_each-Marked run_id [] = record { at = λ h p. p }
  evaluate_each-Marked run_id (g ∷ gs) = record {
    at =
        (Keeps-bind _ _ (evaluate_gate-Marked run_id g _)
          λ refreshed. Keeps-bind _ _ (evaluate_each-Marked run_id gs) λ rest. Keeps-pure _).at;
  }
