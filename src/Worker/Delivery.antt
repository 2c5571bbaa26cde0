-- ===== src/Worker/Delivery.antt =====
-- A reconnecting worker's replay (outbox.rs) against the hub's dedup (hub/messages.rs).
use chuk_mcp_training.Base.{
  ℕ, ◌<◌, String, ◌≡◌, refl, ap, sym, ◌∙◌, ltb→lt, Bool, true, false, some, List, [], ◌∷◌, All,
  keep, map, ltb, arith, Bool-cases, inl, inr, get, modify,
}
use chuk_mcp_training.Wire.{WorkerToCp}
use chuk_mcp_training.Store.Tables.{Store}
use chuk_mcp_training.Store.Fleet.{worker_seen}
use chuk_mcp_training.Hub.State.{
  Env, Hub, asks, pure, update, update_store, ◌>>◌, ◌>>=◌, resume_high_water,
}
use chuk_mcp_training.Hub.Messages.{on_message, handle_once, event_seq, is_duplicate}
use chuk_mcp_training.Hub.Replay.{receive}
use chuk_mcp_training.Worker.Outbox.{trim_to_high_water, seq_origin}

-- The numbers of an outbox rise from entry to entry.
abbrev pub Ascending : List (ℕ × WorkerToCp) → Type 0
Ascending [] = Unit
Ascending (e ∷ rest) = All (λ x. e.0 < x.0) rest × Ascending rest

-- Each entry of an outbox is filed under its event's number.
abbrev pub Filed : List (ℕ × WorkerToCp) → Type 0
Filed = All (λ e. event_seq e.1 ≡ some e.0)

keep-All :
    (m : ℕ) (xs : List (ℕ × WorkerToCp)) → All (λ x. m < x.0) xs → keep (λ x. ltb m x.0) xs ≡ xs
keep-All m [] all = refl
keep-All m (x ∷ xs) all = ground (arith, keep-All m xs all.1, all.0)

All-above :
    (m n : ℕ) (xs : List (ℕ × WorkerToCp)) → m < n → All (λ x. n < x.0) xs → All (λ x. m < x.0) xs
All-above m n [] lt all = tt
All-above m n (x ∷ xs) lt all = (omega (arith, lt, all.0), All-above m n xs lt all.1)

-- The messages of one worker, all at one time.
abbrev pub sent_by : ℕ → String → List (ℕ × WorkerToCp) → List (ℕ × (String × WorkerToCp))
sent_by at id xs = map (λ e. (at, (id, e.1))) xs

abbrev pub seen : ℕ → String → Hub → Hub
seen at id h = record h { store = worker_seen at id h.store }

modify_twice :
    {A : Type 0} (p : A → Bool) (f : A → A) (xs : List A)
    → ((x : A) → p (f x) ≡ p x)
    → ((x : A) → f (f x) ≡ f x)
    → modify p f (modify p f xs) ≡ modify p f xs
unfolding modify
modify_twice p f [] same twice = refl
modify_twice p f (x ∷ xs) same twice =
    ground (arith, modify_twice p f xs same twice, same x, twice x)

worker_seen_twice :
    (at : ℕ) (id : String) (s : Store)
    → worker_seen at id (worker_seen at id s) ≡ worker_seen at id s
unfolding worker_seen
worker_seen_twice at id s =
    ap (λ ws. record s { workers = ws }) (modify_twice _ _ s.workers (λ x. refl) (λ x. refl))

module _ (env : Env) (at : ℕ) (id : String) (m : ℕ) (h : Hub)
    (marked : get id h.high_water ≡ some m) where
  on_message-seen :
      (n : ℕ) (e : WorkerToCp)
      → event_seq e ≡ some n
      → ltb m n ≡ false
      → (on_message env at id e (seen at id h)).1 ≡ seen at id h
  unfolding on_message handle_once asks pure update update_store is_duplicate ◌>>◌ ◌>>=◌
  on_message-seen n e numbered low =
      rw (numbered, handle_once)
        (rw (covered) (ap (λ s. record h { store = s }) (worker_seen_twice at id h.store)))
    where
      covered : is_duplicate n (get id h.high_water) ≡ true
      covered = rw marked (ground (arith, low))

  receive-keep :
      (outbox : List (ℕ × WorkerToCp))
      → Filed outbox
      → Ascending outbox
      → receive env (sent_by at id outbox) (seen at id h)
        ≡ receive env (sent_by at id (keep (λ e. ltb m e.0) outbox)) (seen at id h)
  unfolding receive
  receive-keep [] filed rising = refl
  receive-keep ((n, e) ∷ rest) filed rising = elim (Bool-cases (ltb m n)) [
    | inl high ↦
        rw
          (keep-All m ((n, e) ∷ rest)
            (ltb→lt m n high, All-above m n rest (ltb→lt m n high) rising.0))
          refl
    | inr low ↦ rw low (
        ap (λ g. receive env (sent_by at id rest) g) (on_message-seen n e filed.0 low)
        ∙ receive-keep rest filed.1 rising.1)
  ]

resume_high_water-some :
    (id : String) (h : Hub)
    → ltb seq_origin (resume_high_water id h) ≡ true
    → get id h.high_water ≡ some (resume_high_water id h)
unfolding resume_high_water
resume_high_water-some id h e = ground (arith, e)

module _ (env : Env) (at : ℕ) (id : String) (h : Hub) (outbox : List (ℕ × WorkerToCp))
    (filed : Filed outbox) (rising : Ascending outbox) where
  -- The trim of a reconnecting worker loses nothing and applies nothing twice: once the worker is marked
  -- as seen, the hub is the same after a replay of the outbox that is trimmed to the mark that the hub
  -- acknowledged as after a replay of the whole outbox, for an outbox whose numbers rise and are those
  -- of its events.
  pub receive-trim_to_high_water :
      receive env
        (sent_by at id (trim_to_high_water (resume_high_water id h) outbox))
        (seen at id h)
      ≡ receive env (sent_by at id outbox) (seen at id h)
  unfolding trim_to_high_water
  receive-trim_to_high_water = elim (Bool-cases (ltb seq_origin (resume_high_water id h))) [
    | inl e ↦
        rw e (sym (receive-keep env at id _ h (resume_high_water-some id h e) outbox filed rising))
    | inr e ↦ rw e refl
  ]
