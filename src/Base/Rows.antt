-- ===== src/Base/Rows.antt =====
-- Tables of rows: `UPDATE … WHERE`, and how it meets a lookup.
use mathlib.Core.Path.{◌≡◌, refl, subst}
use mathlib.Core.Bool.{Bool, true, false}
use mathlib.Core.Option.{none, some}
use mathlib.Core.List.{List, [], ◌∷◌}
use mathlib.Core.Logic.{inl, inr}
use native.Mathlib.Omega.{arith}
use chuk_mcp_training.Base.Tests.{if◌then◌else◌, Bool-cases}
use chuk_mcp_training.Base.Lists.{length, find, All}

module _ {ℓ} {A : Type ℓ} where
  -- UPDATE: `f` on every row that the WHERE clause picks.
  unfoldable pub modify : (A → Bool) → (A → A) → List A → List A
  modify p f [] = []
  modify p f (x ∷ xs) = (if p x then f x else x) ∷ modify p f xs

  pub length-modify : (p : A → Bool) (f : A → A) (xs : List A) → length (modify p f xs) ≡ length xs
  unfolding modify
  length-modify p f [] = refl
  length-modify p f (x ∷ xs) = omega (arith, length-modify p f xs)

  -- A predicate survives an update that keeps it on the rows that are picked.
  pub modify-All {κ} :
      (P : A → Type κ) (p : A → Bool) (f : A → A)
      → ((x : A) → p x ≡ true → P x → P (f x))
      → (xs : List A) → All P xs
      → All P (modify p f xs)
  unfolding modify
  modify-All P p f step [] h = tt
  modify-All P p f step (x ∷ xs) h = (head, modify-All P p f step xs h.1)
    where
      head : P (if p x then f x else x)
      head = elim (Bool-cases (p x)) [ inl e ↦ rw e (step x e h.0) | inr e ↦ rw e h.0 ]

  pub find_test : (p : A → Bool) (xs : List A) (x : A) → find p xs ≡ some x → p x ≡ true
  find_test p [] x e = cc
  find_test p (y ∷ ys) x e = ground (arith, find_test p ys x)

  -- It holds of the row that a lookup finds.
  pub find-All {κ} :
      (P : A → Type κ) (p : A → Bool) (xs : List A) (x : A) → All P xs → find p xs ≡ some x → P x
  find-All P p [] x h e = absurd (cc)
  find-All P p (y ∷ ys) x h e = elim (Bool-cases (p y)) [
    | inl t ↦ subst P (ground arith) h.0
    | inr t ↦ find-All P p ys x h.1 (ground arith)
  ]

  -- A lookup after an update that leaves the looked-for property alone.
  pub find-modify :
      (q p : A → Bool) (f : A → A)
      → ((x : A) → q (f x) ≡ q x)
      → (xs : List A)
      → find q (modify p f xs)
        ≡ elim (find q xs) [ none ↦ none | some x ↦ some (if p x then f x else x) ]
  unfolding modify
  find-modify q p f same [] = refl
  find-modify q p f same (x ∷ xs) = ground (arith, same x, find-modify q p f same xs)

  -- An update establishes a predicate that holds of the rows that are not picked.
  pub All-modify {κ} :
      (P : A → Type κ) (p : A → Bool) (f : A → A)
      → ((x : A) → p x ≡ true → P (f x))
      → ((x : A) → p x ≡ false → P x)
      → (xs : List A) → All P (modify p f xs)
  unfolding modify
  All-modify P p f step rest [] = tt
  All-modify P p f step rest (x ∷ xs) = (head, All-modify P p f step rest xs)
    where
      head : P (if p x then f x else x)
      head = elim (Bool-cases (p x)) [ inl e ↦ rw e (step x e) | inr e ↦ rw e (rest x e) ]

  -- An update carries one predicate to another.
  pub modify-carries {κ} :
      (Q P : A → Type κ) (p : A → Bool) (f : A → A)
      → ((x : A) → p x ≡ true → Q x → P (f x))
      → ((x : A) → p x ≡ false → Q x → P x)
      → (xs : List A) → All Q xs
      → All P (modify p f xs)
  unfolding modify
  modify-carries Q P p f picked rest [] h = tt
  modify-carries Q P p f picked rest (x ∷ xs) h = (head, modify-carries Q P p f picked rest xs h.1)
    where
      head : P (if p x then f x else x)
      head = elim (Bool-cases (p x)) [ inl e ↦ rw e (picked x e h.0) | inr e ↦ rw e (rest x e h.0) ]
