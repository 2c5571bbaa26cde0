-- ===== src/Hub/Links.antt =====
-- The link of a worker whose session has ended (hub/connection.rs: detach and send_to).
use chuk_mcp_training.Base.{
  ℕ, String, ◌≡◌, refl, false, Option, none, some, List, [], ◌∷◌, Bool-cases, Option-cases, inl,
  inr, Table, get, put, del, get-put, get-del, eq_iff, arith,
}
use chuk_mcp_training.Proto.Constants.{heartbeat_timeout}
use chuk_mcp_training.Proto.Run.{RunSpec, shell, train, DataRef}
use chuk_mcp_training.Wire.{WorkerClass, leased, persistent}
use chuk_mcp_training.Store.Tables.{Run, CheckpointInfo, Store}
use chuk_mcp_training.Store.Fleet.{WorkerInfo, worker_left}
use chuk_mcp_training.Hub.State.{
  Env, Hub, Link, Action, CpToWorker, ok, update, update_store, send_to, deliver, ◌>>◌, ◌>>=◌,
}
use chuk_mcp_training.Hub.Keeps.{
  Keeps, Keeps-update, Keeps-update_store, Keeps-pure, Keeps-bind, Keeps-then, Keeps-if, Keeps-asks,
  Keeps-or_fail,
}
use chuk_mcp_training.Hub.Assemble.{
  assemble_job, assemble_train_job, mint_grant, resumed_event, resolve_data,
}
use chuk_mcp_training.Hub.Schedule.{
  eligible_for_assignment, Turn, requeue_unsent, assign, offer, consider, turn, after_turn,
  pump_links, pump, drop_links, skipped, queue_empty, assigned_run, link_closed,
}
use chuk_mcp_training.Hub.Connection.{detach, requeue_unless_persistent, requeue_current}

abbrev pub Unlinked : String → Hub → Type 0
Unlinked gone h = get gone h.links ≡ none

drop_links-get :
    (gone : String) (dead : List String) (t : Table Link)
    → get gone t ≡ none
    → get gone (drop_links dead t) ≡ none
unfolding drop_links
drop_links-get gone [] t e = e
drop_links-get gone (id ∷ ids) t e =
    drop_links-get gone ids (del id t) (ground (arith, get-del id gone t, e))

module _ (gone : String) where
  store-Unlinked : (f : Store → Store) → Keeps (Unlinked gone) (update_store f)
  store-Unlinked f = Keeps-update_store f λ h p. p

  send_to-Unlinked : (id : String) (msg : CpToWorker) → Keeps (Unlinked gone) (send_to id msg)
  unfolding send_to deliver
  send_to-Unlinked id msg = record {
    at = λ h p. elim (Option-cases (get id h.links)) [
      | inl missing ↦ rw (missing, deliver) p
      | inr (l, found) ↦
          rw (found, deliver)
            (elim (Bool-cases l.is_open) [ inl e ↦ rw e (kept id l _ h p found) | inr e ↦ rw e p ])
    ];
  }
    where
      kept :
          (id : String) (l new : Link) (h : Hub)
          → get gone h.links ≡ none
          → get id h.links ≡ some l
          → get gone (put id new h.links) ≡ none
      kept id l new h p found =
          ground (arith, get-put id gone new h.links, eq_iff id gone, p, found)

  module _ (env : Env) (at : ℕ) where
    resumed_event-Unlinked :
        (run_id : String) (c : Option CheckpointInfo)
        → Keeps (Unlinked gone) (resumed_event env at run_id c)
    unfolding resumed_event
    resumed_event-Unlinked run_id none = Keeps-pure tt
    resumed_event-Unlinked run_id (some c) = store-Unlinked _

    resolve_data-Unlinked :
        (run_id : String) (d : Option DataRef)
        → Keeps (Unlinked gone) (resolve_data env at run_id d)
    unfolding resolve_data
    resolve_data-Unlinked run_id none = Keeps-pure none
    resolve_data-Unlinked run_id (some d) = Keeps-bind _ _ (Keeps-or_fail _ _) λ datasets.
        Keeps-bind _ _ (Keeps-or_fail _ _) λ resolved.
          Keeps-bind _ _ (Keeps-or_fail _ _)
            λ shards. Keeps-then _ _ (Keeps-update _ λ h p. p) (Keeps-pure _)

    assemble_job-Unlinked :
        (run_id : String) (spec : RunSpec) → Keeps (Unlinked gone) (assemble_job env at run_id spec)
    unfolding assemble_job assemble_train_job mint_grant
    assemble_job-Unlinked run_id (shell spec) = Keeps-pure _
    assemble_job-Unlinked run_id (train spec) = Keeps-bind _ _ (Keeps-asks _) λ found.
        Keeps-bind _ _ (Keeps-or_fail _ _) λ code. Keeps-bind _ _ (Keeps-or_fail _ _) λ cmd.
          Keeps-bind _ _ (record { at = λ h p. p })
            λ grant. Keeps-bind _ _ (Keeps-asks _) λ latest.
              Keeps-then _ _ (Keeps-update _ λ h p. p) (
                Keeps-then _ _ (resumed_event-Unlinked run_id latest)
                  (Keeps-bind _ _ (resolve_data-Unlinked run_id spec.data_ref) λ d. Keeps-pure _))

    offer-Unlinked : (id : String) (o : Option Run) → Keeps (Unlinked gone) (offer env at id o)
    unfolding offer assign requeue_unsent
    offer-Unlinked id none = record { at = λ h p. p }
    offer-Unlinked id (some r) = record {
      at =
          (Keeps-bind _ _ (assemble_job-Unlinked r.id r.spec) λ job.
            Keeps-then _ _ (store-Unlinked _) (
              Keeps-then _ _ (store-Unlinked _) (
                Keeps-bind _ _ (send_to-Unlinked id _) λ delivered.
                  Keeps-if delivered _ _ (Keeps-pure _) (
                    Keeps-then _ _ (Keeps-update _ λ h p. p) (
                      Keeps-then _ _ (store-Unlinked _)
                        (Keeps-then _ _ (store-Unlinked _) (Keeps-pure _))))))).at;
    }

    turn-Unlinked :
        (id : String) (o : Option WorkerInfo) → Keeps (Unlinked gone) (consider env at id o)
    unfolding consider
    turn-Unlinked id none = record { at = λ h p. p }
    turn-Unlinked id (some i) = record {
      at = λ h p. elim (Bool-cases (eligible_for_assignment i heartbeat_timeout)) [
        | inl t ↦ rw t ((offer-Unlinked id _).at h p)
        | inr t ↦ rw t p
      ];
    }

    after_turn-Unlinked :
        {rest : List String → Action (List String)}
        → ((dead : List String) → Keeps (Unlinked gone) (rest dead))
        → (id : String) (dead : List String) (t : Turn)
        → Keeps (Unlinked gone) (after_turn env at rest id dead t)
    unfolding after_turn
    after_turn-Unlinked k id dead skipped = record { at = λ h p. (k dead).at h p }
    after_turn-Unlinked k id dead queue_empty = record { at = λ h p. p }
    after_turn-Unlinked k id dead assigned_run = record { at = λ h p. (k dead).at h p }
    after_turn-Unlinked k id dead link_closed = record { at = λ h p. (k (id ∷ dead)).at h p }

    pump_links-Unlinked :
        (ids dead : List String) → Keeps (Unlinked gone) (pump_links env at ids dead)
    unfolding pump_links turn
    pump_links-Unlinked [] dead = record { at = λ h p. p }
    pump_links-Unlinked (id ∷ ids) dead = record {
      at =
          (Keeps-bind _ _ (record { at = λ h p. (turn-Unlinked id _).at h p })
            (after_turn-Unlinked (pump_links-Unlinked ids) id dead)).at;
    }

    pub pump-Unlinked : Keeps (Unlinked gone) (pump env at)
    unfolding pump
    pump-Unlinked = record {
      at = λ h p.
          (Keeps-bind _ _ (pump_links-Unlinked _ [])
              λ dead. Keeps-update _ λ g q. drop_links-get gone dead g.links q).at
            h p;
    }

  module _ (env : Env) (at : ℕ) (id : String) (class : WorkerClass) where
    requeue_current-Unlinked :
        (o : Option WorkerInfo) → Keeps (Unlinked gone) (requeue_current env at id o)
    unfolding requeue_current
    requeue_current-Unlinked none = Keeps-pure tt
    requeue_current-Unlinked (some w) = elim (Option-cases w.current_run) [
      | inl e ↦ rw (e, requeue_current) (Keeps-pure tt)
      | inr (run_id, e) ↦
          rw (e, requeue_current)
            (Keeps-then _ _ (Keeps-update _ λ h p. p)
              (Keeps-then _ _ (store-Unlinked _) (store-Unlinked _)))
    ]

    requeue-Unlinked : Keeps (Unlinked gone) (requeue_unless_persistent env at id class)
    unfolding requeue_unless_persistent
    requeue-Unlinked =
        elim class as (λ c. Keeps (Unlinked gone) (requeue_unless_persistent env at id c)) [
          | persistent ↦ Keeps-pure tt
          | leased ↦ Keeps-bind _ _ (Keeps-asks _) λ w. requeue_current-Unlinked w
        ]

module _ (env : Env) (at : ℕ) (id : String) (class : WorkerClass) where
  detach-Unlinked : (h : Hub) → Unlinked id (detach env at id class h).1
  unfolding detach update update_store ◌>>◌ ◌>>=◌
  detach-Unlinked h =
      (Keeps-then _ _ (store-Unlinked id (worker_left id))
          (Keeps-then _ _ (requeue-Unlinked id env at id class) (pump-Unlinked id env at))).at
        (record h { links = del id h.links }) (ground (arith, get-del id id h.links, eq_iff id id))

  -- Once a session of a worker has ended, no message reaches the worker: a send reports that it was not
  -- delivered and changes nothing, whichever session had registered the link and whether or not the
  -- handler succeeded.
  pub send_to-detach :
      (msg : CpToWorker) (h : Hub)
      → send_to id msg (detach env at id class h).1 ≡ (ok false, (detach env at id class h).1)
  unfolding send_to deliver
  send_to-detach msg h = rw (detach-Unlinked h) refl
