-- ===== src/Leases/Turns.antt =====
-- The turns of clock_pass and reap_idle (lease.rs), by what they do to the leases of one worker.
use chuk_mcp_training.Base.{
  ℕ, String, ◌==◌, ◌≡◌, refl, Bool, true, false, List, [], ◌∷◌, All, any, All-implies, Bool-cases,
  inl, inr, eq_iff, arith,
}
use chuk_mcp_training.Proto.Run.{destroyed}
use chuk_mcp_training.Proto.Lease.{Lease}
use chuk_mcp_training.Leases.Manager.{Outside, VerifyPolicy, Manager}
use chuk_mcp_training.Leases.Teardown.{drain, destroy_and_verify}
use chuk_mcp_training.Leases.Passes.{is_over, must_drain, tend, tend_all, reap_all}
use chuk_mcp_training.Leases.Rules.{Does, Does-pure, Does-if, Does-then, Does-weaken}
use chuk_mcp_training.Leases.Rows.{
  Reliable, Served, LeaseRows, drain-LeaseRows, destroy_and_verify-LeaseRows,
}

-- The leases of a worker are destroyed.
abbrev pub IsGone : String → Lease → Type 0
IsGone id l = (l.worker_id == id) ≡ true → l.state ≡ destroyed

-- The rows have a key each: the primary key of the table.
abbrev pub Keyed : List Lease → Type 0
Keyed [] = Unit
Keyed (l ∷ ls) = All (λ x. (x.worker_id == l.worker_id) ≡ false) ls × Keyed ls

abbrev pub is_of : String → Lease → Bool
is_of id l = l.worker_id == id

clash : {A : Type 0} (s i j : String) → (s == i) ≡ true → (s == j) ≡ true → (i == j) ≡ false → A
clash s i j a b e = absurd (ground (arith, eq_iff s i, eq_iff s j, eq_iff i j, a, b, e))

apart : {A : Type 0} (s i j : String) → (s == i) ≡ true → (j == i) ≡ true → (s == j) ≡ false → A
apart s i j a b e = absurd (ground (arith, eq_iff s i, eq_iff j i, eq_iff s j, a, b, e))

module _ {W : Type 0} (out : Outside W) (verify : VerifyPolicy) (reliable : Reliable out verify)
    (id : String) where
  -- Each row has a provider, and those of the worker are destroyed unless `due` says otherwise.
  abbrev pub Held : Bool → Lease → Type 0
  Held due x = (due ≡ false → IsGone id x) × Served out x

  drain-Held :
      (due : Bool) (l : Lease)
      → (l.worker_id == id) ≡ false
      → Does {W = W} (LeaseRows (Held due)) (λ u. LeaseRows (Held due)) (drain l)
  drain-Held due l e =
      drain-LeaseRows (Held due) l
        λ x same h. ((λ d is. clash x.worker_id l.worker_id id same is e), h.1)

  destroy-Held :
      (due : Bool) (l : Lease)
      → Served out l
      → Does (LeaseRows (Held due)) (λ r. LeaseRows (Held due)) (destroy_and_verify out verify l)
  destroy-Held due l served =
      destroy_and_verify-LeaseRows out verify (Held due) (Held due) l
        (λ x same h. ((λ d is. refl), h.1)) (λ x e h. h) reliable served

  -- The destroy of the worker's own lease.
  destroy-settles :
      (due : Bool) (l : Lease)
      → (l.worker_id == id) ≡ true
      → Served out l
      → Does (LeaseRows (Held due)) (λ r. LeaseRows (Held false)) (destroy_and_verify out verify l)
  destroy-settles due l own served =
      destroy_and_verify-LeaseRows out verify (Held due) (Held false) l
        (λ x same h. ((λ d is. refl), h.1))
        (λ x e h. ((λ d is. apart x.worker_id id l.worker_id is own e), h.1)) reliable served

  -- One lease's turn, of another worker.
  tend-Held :
      (due : Bool) (now : ℕ) (l : Lease)
      → (l.worker_id == id) ≡ false
      → Served out l
      → Does (LeaseRows (Held due)) (λ u. LeaseRows (Held due)) (tend out verify now l)
  unfolding tend
  tend-Held due now l e served =
      Does-if (is_over now l) _ _
        (Does-then (LeaseRows (Held due)) _ _ (destroy-Held due l served) (Does-pure tt λ g h. h))
        (Does-if (must_drain now l) _ _ (drain-Held due l e) (Does-pure tt λ g h. h))

  -- The turn of the worker's own lease at its wall.
  tend-settles :
      (due : Bool) (now : ℕ) (l : Lease)
      → (l.worker_id == id) ≡ true
      → is_over now l ≡ true
      → Served out l
      → Does (LeaseRows (Held due)) (λ u. LeaseRows (Held false)) (tend out verify now l)
  unfolding tend
  tend-settles due now l own over served = rw over (
      Does-then (LeaseRows (Held false)) _ _ (destroy-settles due l own served)
        (Does-pure tt λ g h. h))

  Held-any : (due : Bool) (g : Manager W) → LeaseRows (Held false) g → LeaseRows (Held due) g
  Held-any due g h = record {
    all = All-implies (Held false) (Held due) (λ x k. ((λ d. k.0 refl), k.1)) _ h.all;
  }

  -- The loop: the rows of a worker with no turn left are destroyed.
  pub tend_all-Held :
      (now : ℕ) (ls : List Lease)
      → Keyed ls
      → All (λ l. ((l.worker_id == id) ≡ true → is_over now l ≡ true) × Served out l) ls
      → Does
          (LeaseRows (Held (any (is_of id) ls)))
          (λ u. LeaseRows (Held false))
          (tend_all out verify now ls)
  unfolding tend_all
  tend_all-Held now [] keyed h = Does-pure tt λ g k. k
  tend_all-Held now (l ∷ ls) keyed ((over, served), h) = elim (Bool-cases (l.worker_id == id)) [
    | inl own ↦
        Does-then (LeaseRows (Held false)) _ _ (tend-settles _ now l own (over own) served)
          (Does-weaken _ _ (Held-any (any (is_of id) ls)) (tend_all-Held now ls keyed.1 h))
    | inr e ↦ rw e (
        Does-then (LeaseRows (Held (any (is_of id) ls))) _ _ (tend-Held _ now l e served)
          (tend_all-Held now ls keyed.1 h))
  ]

  pub reap_all-Held :
      (ls : List Lease)
      → All (λ l. ((l.worker_id == id) ≡ false) × Served out l) ls
      → Does (LeaseRows (Held false)) (λ u. LeaseRows (Held false)) (reap_all out verify ls)
  unfolding reap_all
  reap_all-Held [] h = Does-pure tt λ g k. k
  reap_all-Held (l ∷ ls) ((e, served), h) =
      Does-then (LeaseRows (Held false)) _ _
        (Does-then (LeaseRows (Held false)) _ _ (drain-Held false l e)
          (destroy-Held false l served))
        (reap_all-Held ls h)
