-- ===== src/Session/Identity.antt =====
-- A join token stands for one worker (ws.rs resolve_join): once it has admitted a worker it readmits
-- that worker alone.
use chuk_mcp_training.Base.{
  ℕ, String, ◌≡◌, refl, sym, ap, ◌∙◌, true, false, Option, none, some, find, if◌then◌else◌,
  Bool-cases, inl, inr, arith,
}
use chuk_mcp_training.Proto.Constants.{join_token_prefix}
use chuk_mcp_training.Wire.{WorkerClass, leased}
use chuk_mcp_training.Store.Tables.{Store, JoinToken}
use chuk_mcp_training.Store.Tokens.{resolve_join_token}
use chuk_mcp_training.Session.Admission.{
  Resume, Gatekeeper, resumes, admit_join_token, starts_with, resolve_join,
}
use chuk_mcp_training.Session.Rows.{
  has_hash, Hashed, live, spent, answer, mark, used, resolved, left, Hashed-resolve_join_token,
}

-- Of a token that has enrolled, the answer is its worker, as a return.
answer-spent :
    (at : ℕ) (t : JoinToken) → spent t ≡ true → answer at (some t) ≡ some (t.worker_id, false)
answer-spent at t e = ground (arith, e)

abbrev admit : String → Option (String × WorkerClass)
admit id = some (id, leased)

readmitted :
    (t : JoinToken) (resume : Option Resume) (id : String) (class : WorkerClass)
    → (if resumes resume t.worker_id then admit t.worker_id else none) ≡ some (id, class)
    → (t.worker_id ≡ id) × (class ≡ leased)
readmitted t resume id class e = elim (Bool-cases (resumes resume t.worker_id)) [
  | inl r ↦ (cc (rw r at e), cc (rw r at e))
  | inr r ↦ absurd (cc (rw r at e))
]

-- What an admission says of the row.
admitted_row :
    (at : ℕ) (o : Option JoinToken) (resume : Option Resume) (id : String) (class : WorkerClass)
    → admit_join_token (answer at o) resume ≡ some (id, class)
    → (t : JoinToken) × (o ≡ some t)
      × ((t.worker_id ≡ id) × (class ≡ leased))
      × (spent (mark at t) ≡ true)
unfolding admit_join_token
admitted_row at none resume id class e = absurd cc
admitted_row at (some t) resume id class e = elim (Bool-cases (live at t)) [
  | inl l ↦ (t, refl, (cc (rw l at e), cc (rw l at e)), rw l refl)
  | inr l ↦ elim (Bool-cases (spent t)) [
    | inl u ↦ (t, refl, readmitted t resume id class (rw (l, u) at e), rw l u)
    | inr u ↦ absurd (cc (rw (l, u) at e))
  ]
]

mark-worker : (at : ℕ) (t : JoinToken) → (mark at t).worker_id ≡ t.worker_id
mark-worker at t = elim (Bool-cases (live at t)) [ inl l ↦ rw l refl | inr l ↦ rw l refl ]

admit-used :
    (i id : String) (r : Option Resume)
    → i ≡ id
    → admit_join_token (some (i, false)) r ≡ (if resumes r id then some (id, leased) else none)
unfolding admit_join_token
admit-used i id r e = ap (λ w. if resumes r w then some (w, leased) else none) e

module _ (gate : Gatekeeper) (at later : ℕ) (token : String) (resume again : Option Resume)
    (s : Store) where
  by_hash :
      (now : ℕ) (r : Option Resume) (x : Store)
      → starts_with join_token_prefix token ≡ true
      → resolve_join gate now token r x ≡ (
        (resolve_join_token (gate.hash_token token) now x).0,
        admit_join_token (resolve_join_token (gate.hash_token token) now x).1 r,
      )
  unfolding resolve_join
  by_hash now r x e = rw e refl

  -- A later answer to a token whose row was left as used.
  again_by :
      (t : JoinToken)
      → starts_with join_token_prefix token ≡ true
      → Hashed s.join_tokens
      → find (has_hash (gate.hash_token token)) s.join_tokens ≡ some t
      → spent (mark at t) ≡ true
      → (resolve_join gate later token again (resolve_join gate at token resume s).0).1
        ≡ admit_join_token (some (t.worker_id, false)) again
  again_by t prefixed unique found used = rw (by_hash at resume s prefixed) (
      ap (λ r. r.1)
        (by_hash later again (resolve_join_token (gate.hash_token token) at s).0 prefixed)
      ∙ ap (λ r. admit_join_token r again)
          (resolved (gate.hash_token token) later
              (resolve_join_token (gate.hash_token token) at s).0
              (Hashed-resolve_join_token (gate.hash_token token) at s unique) (some (mark at t))
              (left (gate.hash_token token) at s unique t found)
            ∙ (answer-spent later (mark at t) used ∙ ap (λ w. some (w, false)) (mark-worker at t))))

  -- Once a Hello with a join token has been admitted, as a leased worker, any later Hello with the token is
  -- admitted just where it resumes that worker, again as that leased worker, and is refused otherwise,
  -- whatever the two times; where no two join tokens have one hash.
  pub resolve_join-once :
      (id : String) (class : WorkerClass)
      → starts_with join_token_prefix token ≡ true
      → Hashed s.join_tokens
      → (resolve_join gate at token resume s).1 ≡ some (id, class)
      → (class ≡ leased)
        × ((resolve_join gate later token again (resolve_join gate at token resume s).0).1
            ≡ (if resumes again id then some (id, leased) else none))
  resolve_join-once id class prefixed unique e =
      finish (find (has_hash (gate.hash_token token)) s.join_tokens) refl (
        admitted_row at _ resume id class (
          ap (λ r. admit_join_token r resume)
            (sym (resolved (gate.hash_token token) at s unique _ refl))
          ∙ (ap (λ r. r.1) (sym (by_hash at resume s prefixed)) ∙ e)))
    where
      finish :
          (o : Option JoinToken)
          → find (has_hash (gate.hash_token token)) s.join_tokens ≡ o
          → (t : JoinToken) × (o ≡ some t)
            × ((t.worker_id ≡ id) × (class ≡ leased))
            × (spent (mark at t) ≡ true)
          → (class ≡ leased)
            × ((resolve_join gate later token again (resolve_join gate at token resume s).0).1
                ≡ (if resumes again id then some (id, leased) else none))
      finish o found (t, row, (same, is), used) =
          (is, again_by t prefixed unique (found ∙ row) used ∙ admit-used t.worker_id id again same)
