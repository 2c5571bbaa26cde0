-- ===== src/Hub/Replay.antt =====
-- The dedup of replayed events (hub/messages.rs, `resume_high_water` of hub/mod.rs).
use chuk_mcp_training.Base.{
  ℕ, ◌≤◌, String, ◌==◌, ◌≡◌, refl, subst, true, Option, none, some, List, [], ◌∷◌, arith,
  Bool-cases, inl, inr, Table, get, put, get-put, eq_iff, leb, if◌then◌else◌,
}
use chuk_mcp_training.Base.Float.{F64}
use chuk_mcp_training.Base.Int.{ℤ}
use chuk_mcp_training.Proto.Run.{RunState, running}
use chuk_mcp_training.Wire.{
  WorkerToCp, hello, heartbeat, job_started, job_exited, job_killed, service_ready, log, metric,
  artifact, drained,
}
use chuk_mcp_training.Store.Fleet.{worker_seen}
use chuk_mcp_training.Hub.State.{
  Env, Hub, ok, asks, pure, update, update_store, ◌>>◌, ◌>>=◌, resume_high_water,
}
use chuk_mcp_training.Hub.Keeps.{
  Keeps, Keeps-update, Keeps-pure, Keeps-bind, Keeps-then, Keeps-if, Keeps-asks, Keeps-or_fail,
}
use chuk_mcp_training.Hub.Marks.{
  Marked, store-Marked, pump-Marked, mirror_state-Marked, evaluate_each-Marked,
}
use chuk_mcp_training.Hub.Control.{ignore_error, evaluate_gates}
use chuk_mcp_training.Hub.Messages.{
  finish_run, start_if_live, job_started_arm, metric_arm, host_sample, handle, handle_once,
  on_message, event_seq, is_duplicate,
}
use chuk_mcp_training.Hub.Checkpoints.{
  mirror_checkpoint, ingest_step, ingest_uri, ingest_checkpoint,
}

module _ {w : Table ℕ} (env : Env) (at : ℕ) where
  finish_run-Marked :
      (id run_id : String) (state : RunState) (c : ℤ)
      → Keeps (Marked w) (finish_run env at id run_id state c)
  unfolding finish_run
  finish_run-Marked id run_id state c = Keeps-then _ _ (Keeps-update _ λ h p. p) (
      Keeps-then _ _ (store-Marked _) (
        Keeps-then _ _ (mirror_state-Marked env at run_id state) (
          Keeps-then _ _ (Keeps-update _ λ h p. p)
            (Keeps-then _ _ (store-Marked _) (pump-Marked env at)))))

  ingest_uri-Marked :
      (run_id : String) (n : Option ℕ) → Keeps (Marked w) (ingest_uri env at run_id n)
  unfolding ingest_uri ingest_step mirror_checkpoint
  ingest_uri-Marked run_id none = Keeps-pure tt
  ingest_uri-Marked run_id (some n) = Keeps-bind _ _ (Keeps-asks _) λ found.
      Keeps-bind _ _ (Keeps-or_fail _ _) λ model. Keeps-bind _ _ (Keeps-asks _) λ m.
        Keeps-then _ _ (Keeps-update _ λ h p. p) (
          Keeps-bind _ _ (Keeps-pure _) λ uri. Keeps-then _ _ (store-Marked _) (
            Keeps-then _ _ (store-Marked _)
              (Keeps-if env.experiments _ _ (Keeps-update _ λ h p. p) (Keeps-pure tt))))

  metric_arm-Marked :
      (run_id : String) (step : Option ℕ) (vs : Table F64)
      → Keeps (Marked w) (metric_arm env at run_id step vs)
  unfolding metric_arm ignore_error evaluate_gates
  metric_arm-Marked run_id none vs = Keeps-pure tt
  metric_arm-Marked run_id (some step) vs = Keeps-then _ _ (store-Marked _) (record {
    at =
        (Keeps-bind _ _ (Keeps-bind _ _ (Keeps-asks _) λ gs. evaluate_each-Marked env at run_id gs)
          λ refreshed. Keeps-pure tt).at;
  })

  host_sample-Marked : (id : String) (vs : Table F64) → Keeps (Marked w) (host_sample env at id vs)
  unfolding host_sample
  host_sample-Marked id [] = Keeps-pure tt
  host_sample-Marked id (v ∷ vs) = store-Marked _

  handle-Marked : (id : String) (msg : WorkerToCp) → Keeps (Marked w) (handle env at id msg)
  unfolding handle ingest_checkpoint job_started_arm start_if_live
  handle-Marked id (hello token) = Keeps-pure tt
  handle-Marked id heartbeat = Keeps-pure tt
  handle-Marked id (log seq job line) = store-Marked _
  handle-Marked id (metric seq (some job) step vs) = metric_arm-Marked job step vs
  handle-Marked id (metric seq none step vs) = host_sample-Marked id vs
  handle-Marked id (artifact seq job class uri) =
      Keeps-if (class == "checkpoint") _ _ (ingest_uri-Marked job _) (Keeps-pure tt)
  handle-Marked id (job_started seq job) =
      Keeps-bind _ _ (record { at = λ h p. p })
        λ applied. Keeps-if applied _ _ (mirror_state-Marked env at job running) (Keeps-pure tt)
  handle-Marked id (job_exited seq job code) = finish_run-Marked id job _ code
  handle-Marked id (job_killed seq job r) = finish_run-Marked id job _ _
  handle-Marked id (service_ready seq job ports) = Keeps-pure tt
  handle-Marked id drained = Keeps-pure tt

-- The high water after an event: raised by a fresh one.
abbrev pub raised : String → Option ℕ → Table ℕ → Table ℕ
raised id none w = w
raised id (some seq) w = if is_duplicate seq (get id w) then w else put id seq w

module _ (env : Env) (at : ℕ) (id : String) (msg : WorkerToCp) where
  high_water-handle_once :
      (s : Option ℕ) (h : Hub)
      → (handle_once env at id msg s h).1.high_water ≡ raised id s h.high_water
  unfolding handle_once asks pure update ◌>>◌ ◌>>=◌
  high_water-handle_once none h = (handle-Marked env at id msg).at h refl
  high_water-handle_once (some seq) h = elim (Bool-cases (is_duplicate seq (get id h.high_water))) [
    | inl e ↦ rw e refl
    | inr e ↦ rw e ((handle-Marked env at id msg).at _ refl)
  ]

  high_water-on_message :
      (h : Hub) → (on_message env at id msg h).1.high_water ≡ raised id (event_seq msg) h.high_water
  unfolding on_message update_store update ◌>>◌ ◌>>=◌
  high_water-on_message h = high_water-handle_once (event_seq msg) _

-- The higher of the mark and an event's number.
unfoldable pub mark_after : Option ℕ → ℕ → ℕ
mark_after none m = m
mark_after (some seq) m = if leb seq m then m else seq

water-raised :
    (id j : String) (s : Option ℕ) (w : Table ℕ)
    → elim (get j (raised id s w)) [ none ↦ 0 | some m ↦ m ] ≡ (
        if id == j
        then mark_after s (elim (get j w) [ none ↦ 0 | some m ↦ m ])
        else elim (get j w) [ none ↦ 0 | some m ↦ m ])
unfolding mark_after is_duplicate
water-raised id j none w = ground arith
water-raised id j (some seq) w = ground (arith, eq_iff id j, get-put id j seq w)

module _ (env : Env) (at : ℕ) (id : String) (msg : WorkerToCp) (h : Hub) where
  -- The acknowledged high water after a message, of the sender and of every other worker, whether the
  -- handler succeeds or fails: the sender's is the higher of what it was and the event's number, if
  -- the message has one; the others' is what it was.
  pub resume_high_water-on_message :
      (j : String)
      → resume_high_water j (on_message env at id msg h).1 ≡ (
          if id == j
          then mark_after (event_seq msg) (resume_high_water j h)
          else resume_high_water j h)
  unfolding resume_high_water
  resume_high_water-on_message j =
      rw (high_water-on_message env at id msg h, resume_high_water)
        (water-raised id j (event_seq msg) h.high_water)

-- Messages of any workers, each with its time and its sender, handled one after the other.
unfoldable pub receive : Env → List (ℕ × (String × WorkerToCp)) → Hub → Hub
receive env [] h = h
receive env ((at, (id, msg)) ∷ rest) h = receive env rest (on_message env at id msg h).1

-- An event that is covered by its worker's mark stays covered.
is_duplicate-raised :
    (id j : String) (seq : ℕ) (s : Option ℕ) (w : Table ℕ)
    → is_duplicate seq (get id w) ≡ true
    → is_duplicate seq (get id (raised j s w)) ≡ true
unfolding is_duplicate
is_duplicate-raised id j seq none w e = e
is_duplicate-raised id j seq (some n) w e = ground (arith, eq_iff j id, get-put j id n w)

is_duplicate-own :
    (id : String) (n seq : ℕ) (w : Table ℕ)
    → n ≤ seq
    → is_duplicate n (get id (raised id (some seq) w)) ≡ true
unfolding is_duplicate
is_duplicate-own id n seq w le = ground (arith, eq_iff id id, get-put id id seq w)

is_duplicate-receive :
    (env : Env) (id : String) (n : ℕ) (msgs : List (ℕ × (String × WorkerToCp))) (h : Hub)
    → is_duplicate n (get id h.high_water) ≡ true
    → is_duplicate n (get id (receive env msgs h).high_water) ≡ true
unfolding receive
is_duplicate-receive env id n [] h e = e
is_duplicate-receive env id n ((at, (j, msg)) ∷ rest) h e =
    is_duplicate-receive env id n rest (on_message env at j msg h).1 (
      rw (high_water-on_message env at j msg h)
        (is_duplicate-raised id j n (event_seq msg) h.high_water e))

module _ (env : Env) (at later : ℕ) (id : String) (msg again : WorkerToCp) (n seq : ℕ) (h : Hub)
    (numbered : event_seq msg ≡ some seq) (replayed : event_seq again ≡ some n) where
  -- An event at or below one that a worker has sent before only marks the worker as seen, however the
  -- handler of the first ended and whatever messages of any workers were handled since.
  pub on_message-replay :
      (between : List (ℕ × (String × WorkerToCp))) (g : Hub)
      → n ≤ seq
      → receive env between (on_message env at id msg h).1 ≡ g
      → on_message env later id again g ≡ (ok tt, record g { store = worker_seen later id g.store })
  unfolding on_message handle_once asks pure update update_store ◌>>◌ ◌>>=◌
  on_message-replay between g le e = rw (replayed, handle_once) (rw covered refl)
    where
      covered : is_duplicate n (get id g.high_water) ≡ true
      covered =
          subst (λ x. is_duplicate n (get id x.high_water) ≡ true) e
            (is_duplicate-receive env id n between _ (
              rw (high_water-on_message env at id msg h)
                (rw numbered (is_duplicate-own id n seq h.high_water le))))
