-- ===== src/Store/Thinning.antt =====
-- The size of a thinned series and its last point (store/ids.rs downsample_in_place).
use native.Mathlib.Nat.{mod-add-div', mod-lt, lt_of_mul-lt-mul_right}
use chuk_mcp_training.Base.{
  ℕ, zero, suc, ◌+◌, ◌-◌, ◌*◌, ◌/◌, ◌≤◌, ◌<◌, ◌≡◌, refl, sym, ◌∙◌, ap, Bool, true, false, ◌||◌,
  ◌&&◌, Option, none, some, List, [], ◌∷◌, ◌++◌, length, length-append, eqb, leb, Bool-cases,
  Option-cases, inl, inr, arith,
}
use chuk_mcp_training.Base.Int.{ℤ, pos, negsuc}
use chuk_mcp_training.Base.Float.{F64, nan, infinity, neg_infinity, fin, le_f64, leb_ℤ}
use chuk_mcp_training.Store.Series.{
  MetricPoint, eq_f64, same_point, last, step_by, push_last, downsample_in_place,
}

module _ {A : Type 0} where
  length-step_by :
      (stride : ℕ)
      → 0 < stride
      → (skip : ℕ) → skip < stride
      → (xs : List A) → length (step_by stride skip xs) * stride + skip < length xs + stride
  unfolding step_by
  length-step_by stride h skip k [] = omega (arith, k)
  length-step_by stride h zero k (x ∷ xs) =
      omega (arith, h, length-step_by stride h (stride - 1) (omega (arith, h)) xs)
  length-step_by stride h (suc skip) k (x ∷ xs) =
      omega (arith, length-step_by stride h skip (omega (arith, k)) xs)

  last-snoc : (xs : List A) (y : A) → last (xs ++ y ∷ []) ≡ some y
  unfolding last
  last-snoc [] y = refl
  last-snoc (x ∷ xs) y = rw (last-snoc xs y) refl

-- The stride covers the series in `max` steps.
covered : (n max : ℕ) → 0 < max → n ≤ max * ((n + (max - 1)) / max)
covered n max h = omega (
  arith,
  mod-add-div' (n + (max - 1)) max,
  mod-lt (n + (max - 1)) h,
  turn ((n + (max - 1)) / max) max,
)
  where
    turn : (a b : ℕ) → a * b ≡ b * a
    turn a b = omega arith

kept_bound :
    (n max kept : ℕ)
    → 0 < max
    → max < n
    → kept * ((n + (max - 1)) / max) < n + (n + (max - 1)) / max
    → kept ≤ max
kept_bound n max kept h more k = omega (
  arith,
  lt_of_mul-lt-mul_right ((n + (max - 1)) / max) {m = kept} {n = suc max}
      (omega (arith, k, covered n max h)),
)

push_last-length :
    (o : Option MetricPoint) (kept : List MetricPoint) (n : ℕ)
    → length kept ≤ n
    → length (push_last o kept) ≤ n + 1
unfolding push_last
push_last-length none kept n h = omega (arith, h)
push_last-length (some p) kept n h = elim (Bool-cases (same_point p (last kept))) [
  | inl e ↦ rw e (omega (arith, h))
  | inr e ↦ rw e (rw (length-append kept (p ∷ [])) (omega (arith, h)))
]

leb_ℤ-eq : (a b : ℤ) → leb_ℤ a b ≡ true → leb_ℤ b a ≡ true → a ≡ b
leb_ℤ-eq (pos m) (pos n) h k = ap pos (ground (arith, h, k))
leb_ℤ-eq (pos m) (negsuc n) h k = absurd (ground (arith, h, k))
leb_ℤ-eq (negsuc m) (pos n) h k = absurd (ground (arith, h, k))
leb_ℤ-eq (negsuc m) (negsuc n) h k = ap negsuc (ground (arith, h, k))

both : (a b : Bool) → (a && b) ≡ true → (a ≡ true) × (b ≡ true)
both true true e = (refl, refl)
both true false e = absurd cc
both false b e = absurd cc

eq_f64-eq : (a b : F64) → eq_f64 a b ≡ true → a ≡ b
unfolding eq_f64 le_f64
eq_f64-eq (fin a) (fin b) e = ap fin (leb_ℤ-eq a b (both _ _ e).0 (both _ _ e).1)
eq_f64-eq infinity infinity e = refl
eq_f64-eq neg_infinity neg_infinity e = refl
eq_f64-eq nan b e = absurd cc
eq_f64-eq infinity nan e = absurd cc
eq_f64-eq infinity neg_infinity e = absurd cc
eq_f64-eq infinity (fin b) e = absurd cc
eq_f64-eq neg_infinity nan e = absurd cc
eq_f64-eq neg_infinity infinity e = absurd cc
eq_f64-eq neg_infinity (fin b) e = absurd cc
eq_f64-eq (fin a) nan e = absurd cc
eq_f64-eq (fin a) infinity e = absurd cc
eq_f64-eq (fin a) neg_infinity e = absurd cc

same_point-eq : (p : MetricPoint) (o : Option MetricPoint) → same_point p o ≡ true → o ≡ some p
unfolding same_point
same_point-eq p none e = absurd cc
same_point-eq p (some q) e =
    ap some (same (both _ _ e).0 (eq_f64-eq p.value q.value (both _ _ e).1))
  where
    same : eqb p.step q.step ≡ true → p.value ≡ q.value → q ≡ p
    same s v =
        ap (λ n. record { step = n; value = q.value }) (ground (arith, s))
        ∙ ap (λ v. record { step = p.step; value = v }) (sym v)

last-push_last :
    (p : MetricPoint) (kept : List MetricPoint) → last (push_last (some p) kept) ≡ some p
unfolding push_last
last-push_last p kept = elim (Bool-cases (same_point p (last kept))) [
  | inl e ↦ rw e (same_point-eq p (last kept) e)
  | inr e ↦ rw e (last-snoc kept p)
]

last-none : {A : Type 0} (xs : List A) → last xs ≡ none → length xs ≡ 0
unfolding last
last-none [] e = refl
last-none (x ∷ xs) e = elim (Option-cases (last xs)) [
  | inl z ↦ absurd (cc (rw (z, last) at e))
  | inr (y, z) ↦ absurd (cc (rw (z, last) at e))
]

stride_pos : (n max s : ℕ) → max < n → n ≤ max * s → 0 < s
stride_pos n max zero h k = absurd (omega (arith, h, k))
stride_pos n max (suc s) h k = omega arith

-- A thinned series has at most one point more than its limit, and it ends in the last point of the series.
pub downsample_in_place-size :
    (points : List MetricPoint) (max : ℕ)
    → 0 < max
    → (length (downsample_in_place points max) ≤ max + 1)
      × (last (downsample_in_place points max) ≡ last points)
unfolding downsample_in_place
downsample_in_place-size points max h = elim (Bool-cases (eqb max 0 || leb (length points) max)) [
  | inl e ↦ rw e (ground (arith, e, h), refl)
  | inr e ↦ rw e (size (ground (arith, e, h)), ends (last points) (ground (arith, e, h)) refl)
]
  where
    wide : max < length points → 0 < (length points + (max - 1)) / max
    wide more = stride_pos (length points) max _ more (covered (length points) max h)

    size :
        max < length points
        → length (push_last (last points) (step_by ((length points + (max - 1)) / max) 0 points))
          ≤ max + 1
    size more = push_last-length (last points) _ max (
        kept_bound (length points) max _ h more (
          omega (
            arith,
            length-step_by ((length points + (max - 1)) / max) (wide more) 0 (wide more) points,
          )))

    ends :
        (o : Option MetricPoint)
        → max < length points
        → last points ≡ o
        → last (push_last o (step_by ((length points + (max - 1)) / max) 0 points)) ≡ o
    ends none more e = absurd (omega (arith, more, last-none points e))
    ends (some p) more e = last-push_last p (step_by ((length points + (max - 1)) / max) 0 points)
