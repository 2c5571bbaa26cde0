-- ===== src/Hub/SweepRows.antt =====
-- The rows of a sweep's children: counts of rows under an update, and the hold of next_assignable_queued.
use chuk_mcp_training.Base.{
  ◌+◌, ◌≤◌, ◌<◌, String, ◌==◌, ◌≡◌, refl, sym, ap, subst, inl, inr, Bool, true, false, not, ◌&&◌,
  none, some, List, [], ◌∷◌, map, All, Distinct, arith, if◌then◌else◌, modify, count_of, Bool-cases,
  Option-cases, eq_iff, ltb, leb,
}
use chuk_mcp_training.Store.Tables.{Run, SweepRow, Store}
use chuk_mcp_training.Store.Runs.{has_id, of_sweep, sweep, sweep_active_children}
use chuk_mcp_training.Hub.RunRows.{is_free}
use chuk_mcp_training.Hub.Schedule.{held_back}

module _ {A : Type 0} (p q : A → Bool) where
  pub count_split :
      (xs : List A) → count_of p xs ≤ count_of (λ x. p x && not (q x)) xs + count_of q xs
  count_split [] = omega arith
  count_split (x ∷ xs) = ground (arith, count_split xs)

  pub count_part : (xs : List A) → count_of (λ x. p x && not (q x)) xs ≤ count_of p xs
  count_part [] = omega arith
  count_part (x ∷ xs) = ground (arith, count_part xs)

  module _ (f : A → A) where
    -- An update of the rows that are left out of the count.
    pub count_others-modify :
        ((x : A) → q (f x) ≡ q x)
        → (xs : List A)
        → count_of (λ x. p x && not (q x)) (modify q f xs) ≡ count_of (λ x. p x && not (q x)) xs
    unfolding modify
    count_others-modify same [] = refl
    count_others-modify same (x ∷ xs) = ground (arith, same x, count_others-modify same xs)

    -- An update of rows that are not counted, before or after it.
    pub count_of-modify :
        (xs : List A)
        → All (λ x. q x ≡ true → (p x ≡ false) × (p (f x) ≡ false)) xs
        → count_of p (modify q f xs) ≡ count_of p xs
    unfolding modify
    count_of-modify [] h = refl
    count_of-modify (x ∷ xs) h = elim (Bool-cases (q x)) [
      | inl e ↦ rw e (rw ((h.0 e).0) (rw ((h.0 e).1) (omega (arith, count_of-modify xs h.1))))
      | inr e ↦ rw e (ap (λ n. (if p x then 1 else 0) + n) (count_of-modify xs h.1))
    ]

abbrev pub ids : List Run → List String
ids runs = map (λ r. r.id) runs

pub ids-modify :
    (p : Run → Bool) (f : Run → Run)
    → ((x : Run) → (f x).id ≡ x.id)
    → (rs : List Run) → ids (modify p f rs) ≡ ids rs
unfolding modify
ids-modify p f same [] = refl
ids-modify p f same (r ∷ rs) = elim (Bool-cases (p r)) [
  | inl e ↦ rw e (rw (same r) (ap (λ xs. r.id ∷ xs) (ids-modify p f same rs)))
  | inr e ↦ rw e (ap (λ xs. r.id ∷ xs) (ids-modify p f same rs))
]

-- Of distinct ids one stands at most once.
count_absent :
    (x : String) (rs : List Run) → All (λ y. ¬ (x ≡ y)) (ids rs) → count_of (has_id x) rs ≡ 0
count_absent x [] h = refl
count_absent x (r ∷ rs) h = elim (Bool-cases (r.id == x)) [
  | inl e ↦ absurd (h.0 (sym ((eq_iff r.id x).0 e)))
  | inr e ↦ rw e (omega (arith, count_absent x rs h.1))
]

pub count_id : (x : String) (rs : List Run) → Distinct (ids rs) → count_of (has_id x) rs ≤ 1
count_id x [] d = omega arith
count_id x (r ∷ rs) d = elim (Bool-cases (r.id == x)) [
  | inl e ↦
      let gone =
        subst (λ y. count_of (has_id y) rs ≡ 0) ((eq_iff r.id x).0 e) (count_absent r.id rs d.0) in
      rw e (omega (arith, gone))
  | inr e ↦ rw e (omega (arith, count_id x rs d.1))
]

module _ (i : String) where
  -- A row says of its id whether it is in the sweep.
  abbrev pub Agree : List Run → Run → Type 0
  Agree rs y = All (λ z. has_id y.id z ≡ true → of_sweep i z ≡ of_sweep i y) rs

  self-Agree : (r : Run) (rs : List Run) → All (λ y. ¬ (r.id ≡ y)) (ids rs) → Agree rs r
  self-Agree r [] h = tt
  self-Agree r (z ∷ rs) h =
      ((λ e. absurd (h.0 (sym ((eq_iff z.id r.id).0 e)))), self-Agree r rs h.1)

  cons-Agree :
      (r : Run) (rs ys : List Run)
      → All (λ y. ¬ (r.id ≡ y)) (ids ys)
      → All (Agree rs) ys
      → All (Agree (r ∷ rs)) ys
  cons-Agree r rs [] h a = tt
  cons-Agree r rs (y ∷ ys) h a =
      (((λ e. absurd (h.0 ((eq_iff r.id y.id).0 e))), a.0), cons-Agree r rs ys h.1 a.1)

  pub All-Agree : (rs : List Run) → Distinct (ids rs) → All (Agree rs) rs
  All-Agree [] d = tt
  All-Agree (r ∷ rs) d =
      (((λ e. refl), self-Agree r rs d.0), cons-Agree r rs rs d.0 (All-Agree rs d.1))

  -- A child that is not held back finds room in its sweep.
  pub free_below :
      (s : Store) (y : Run) (row : SweepRow)
      → of_sweep i y ≡ true
      → sweep i s ≡ some row
      → 0 < row.concurrency
      → is_free s y ≡ true
      → sweep_active_children i s < row.concurrency
  unfolding held_back
  free_below s y row member e pos free = elim (Option-cases (y.sweep_id)) [
    | inl f ↦ absurd (cc (rw f at member))
    | inr (j, f) ↦ below j ((eq_iff j i).0 (rw f at member)) (rw (f, held_back) at free)
  ]
    where
      below :
          (j : String)
          → j ≡ i
          → not (elim (sweep j s) [
            | none ↦ false
            | some r ↦ ltb 0 r.concurrency && leb r.concurrency (sweep_active_children j s)
          ])
            ≡ true
          → sweep_active_children i s < row.concurrency
      below j same h = ground (
        arith,
        subst
            (λ j.
              not (elim (sweep j s) [
                | none ↦ false
                | some r ↦ ltb 0 r.concurrency && leb r.concurrency (sweep_active_children j s)
              ])
              ≡ true)
            same h,
        e,
        pos,
      )
