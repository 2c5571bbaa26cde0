-- ===== src/Gate/Stall.antt =====
-- The `no_improve` gate (gate.rs: evaluate) against the values in its window and before it.
use chuk_mcp_training.Base.{
  ℕ, ◌≡◌, refl, Bool, true, false, List, [], ◌∷◌, ◌⊎◌, inl, inr, keep, arith, Bool-cases,
  if◌then◌else◌, any, String, subst, sym, ◌∙◌, ◌&&◌,
}
use chuk_mcp_training.Base.Float.{
  F64, nan, neg_infinity, infinity, fin, le_f64, lt_f64, min_f64, is_infinite, is_finite,
}
use chuk_mcp_training.Gate.Expr.{no_improve, Verdict, MetricObservation}
use chuk_mcp_training.Gate.Evaluate.{best, evaluate}

le_f64_trans : (a b c : F64) → le_f64 a b ≡ true → le_f64 b c ≡ true → le_f64 a c ≡ true
unfolding le_f64
le_f64_trans a b c s t = ground (arith, s, t)

-- The bound does not beat the value: it is at most the value, or the value is NaN.
abbrev pub at_least : F64 → F64 → Bool
at_least b nan = true
at_least b v = le_f64 b v

abbrev pub every {ℓ} : {A : Type ℓ} → (A → Bool) → List A → Bool
every p [] = true
every p (x ∷ xs) = p x && every p xs

le_f64-min :
    (b a v : F64)
    → le_f64 a a ≡ true
    → le_f64 b b ≡ true
    → le_f64 b (min_f64 a v) ≡ (le_f64 b a && at_least b v)
unfolding min_f64 le_f64
le_f64-min b a v s t = ground (arith, s, t)

min_f64_self : (a v : F64) → le_f64 a a ≡ true → le_f64 (min_f64 a v) (min_f64 a v) ≡ true
unfolding min_f64 le_f64
min_f64_self a v s = ground (arith, s)

min_f64-either : (a v : F64) → (min_f64 a v ≡ a) ⊎ (min_f64 a v ≡ v)
unfolding min_f64 le_f64
min_f64-either a v = ground arith

-- `best` is the greatest lower bound.
le_f64-best :
    (b acc : F64) (xs : List MetricObservation)
    → le_f64 acc acc ≡ true
    → le_f64 b b ≡ true
    → le_f64 b (best acc xs) ≡ (le_f64 b acc && every (λ o. at_least b o.value) xs)
unfolding best
le_f64-best b acc [] s t = ground arith
le_f64-best b acc (o ∷ os) s t = ground (
  arith,
  le_f64-best b (min_f64 acc o.value) os (min_f64_self acc o.value s) t,
  le_f64-min b acc o.value s t,
)

-- It is the start or a value of the list.
best-attained :
    (q : F64 → Bool) (acc : F64) (xs : List MetricObservation)
    → q (best acc xs) ≡ true
    → (q acc ≡ true) ⊎ (any (λ o. q o.value) xs ≡ true)
unfolding best
best-attained q acc [] e = inl e
best-attained q acc (o ∷ os) e = elim (best-attained q (min_f64 acc o.value) os e) [
  | inr later ↦ inr (ground (arith, later))
  | inl here ↦ elim (min_f64-either acc o.value) [
    | inl same ↦ inl (subst (λ v. q v ≡ true) same here)
    | inr same ↦ inr (rw (subst (λ v. q v ≡ true) same here) refl)
  ]
]

best_self :
    (acc : F64) (xs : List MetricObservation)
    → le_f64 acc acc ≡ true
    → le_f64 (best acc xs) (best acc xs) ≡ true
unfolding best
best_self acc [] s = s
best_self acc (o ∷ os) s = best_self (min_f64 acc o.value) os (min_f64_self acc o.value s)

any-every :
    (q p : F64 → Bool) (xs : List MetricObservation)
    → any (λ o. q o.value) xs ≡ true
    → every (λ o. p o.value) xs ≡ true
    → (v : F64) × (q v ≡ true) × (p v ≡ true)
any-every q p [] e f = absurd cc
any-every q p (o ∷ os) e f = elim (Bool-cases (q o.value)) [
  | inl t ↦ (o.value, t, ground (arith, f))
  | inr n ↦ any-every q p os (ground (arith, e, n)) (ground (arith, f))
]

-- A finite value that nothing in two lists beats.
unfoldable pub is_unbeaten : List MetricObservation → List MetricObservation → F64 → Bool
is_unbeaten before within v =
    is_finite v && every (λ o. at_least v o.value) before && every (λ o. at_least v o.value) within

Bool-ext : (a b : Bool) → (a ≡ true → b ≡ true) → (b ≡ true → a ≡ true) → a ≡ b
Bool-ext true b f g = sym (f refl)
Bool-ext false true f g = g refl
Bool-ext false false f g = refl

abbrev verdict : F64 → F64 → Bool
verdict b w = if is_infinite b then false else le_f64 b w

verdict-finite :
    (b w : F64) (eb ew : Bool)
    → le_f64 b b ≡ true
    → le_f64 b b ≡ (le_f64 b infinity && eb)
    → le_f64 b w ≡ (le_f64 b infinity && ew)
    → verdict b w ≡ true
    → (is_finite b && eb && ew) ≡ true
unfolding is_finite is_infinite le_f64
verdict-finite nan w eb ew s x y e = absurd cc
verdict-finite neg_infinity w eb ew s x y e = absurd cc
verdict-finite infinity w eb ew s x y e = absurd cc
verdict-finite (fin b) w eb ew s x y e = ground (arith, x, y, e, s)

finite-verdict :
    (v b w : F64) (eb ew : Bool)
    → (is_finite v && eb && ew) ≡ true
    → at_least b v ≡ true
    → le_f64 v b ≡ (le_f64 v infinity && eb)
    → le_f64 v w ≡ (le_f64 v infinity && ew)
    → verdict b w ≡ true
unfolding is_finite is_infinite le_f64
finite-verdict (fin v) b w eb ew q p x y = ground (arith, q, p, x, y, le_f64_trans b (fin v) w)
finite-verdict nan b w eb ew q p x y = absurd cc
finite-verdict neg_infinity b w eb ew q p x y = absurd cc
finite-verdict infinity b w eb ew q p x y = absurd cc

finite_self : (v : F64) (x y : Bool) → (is_finite v && x && y) ≡ true → le_f64 v v ≡ true
unfolding is_finite le_f64
finite_self (fin v) x y e = ground arith
finite_self nan x y e = absurd cc
finite_self neg_infinity x y e = absurd cc
finite_self infinity x y e = absurd cc

module _ (before within : List MetricObservation) where
  best_before_self : le_f64 (best infinity before) (best infinity before) ≡ true
  unfolding le_f64
  best_before_self = best_self infinity before refl

  bound :
      (xs : List MetricObservation) (v : F64)
      → le_f64 v v ≡ true
      → le_f64 v (best infinity xs) ≡ (le_f64 v infinity && every (λ o. at_least v o.value) xs)
  unfolding le_f64
  bound xs v s = le_f64-best v infinity xs refl s

  at_least-before : every (λ o. at_least (best infinity before) o.value) before ≡ true
  at_least-before =
      ground (arith, best_before_self, bound before (best infinity before) best_before_self)

  verdict-Unbeaten :
      verdict (best infinity before) (best infinity within) ≡ true
      → any (λ o. is_unbeaten before within o.value) before ≡ true
  unfolding is_unbeaten is_finite
  verdict-Unbeaten e =
      elim (best-attained (is_unbeaten before within) infinity before (
        verdict-finite (best infinity before) (best infinity within) _ _ best_before_self
          (bound before _ best_before_self) (bound within _ best_before_self) e)) [
            | inl start ↦ absurd cc
            | inr found ↦ found
          ]

  Unbeaten-verdict :
      any (λ o. is_unbeaten before within o.value) before ≡ true
      → verdict (best infinity before) (best infinity within) ≡ true
  unfolding is_unbeaten
  Unbeaten-verdict e =
      let (v, q, p) =
        any-every (is_unbeaten before within) (at_least (best infinity before)) before e
          at_least-before in
      let self = finite_self v _ _ q in
      finite-verdict v (best infinity before) (best infinity within) _ _ q p (bound before v self)
        (bound within v self)

tripped-if :
    (c : Bool) (x y : Verdict) → (if c then x else y).tripped ≡ (if c then x.tripped else y.tripped)
tripped-if true x y = refl
tripped-if false x y = refl

module _ (seconds : ℕ → F64) (cutoff_of : F64 → F64 → F64) (window_min : F64) (now : ℕ) where
  -- The observations of a history from before the window of a gate, and those in it.
  abbrev pub before_window : List MetricObservation → List MetricObservation
  before_window history =
      keep (λ o. lt_f64 (seconds o.ts) (cutoff_of (seconds now) window_min)) history

  abbrev pub in_window : List MetricObservation → List MetricObservation
  in_window history = keep (λ o. le_f64 (cutoff_of (seconds now) window_min) (seconds o.ts)) history

  -- A `no_improve` gate trips just where some finite value from before its window is beaten by nothing
  -- in the window and by nothing before it; a NaN beats nothing.
  pub evaluate-no_improve :
      (key : String) (history : List MetricObservation)
      → (evaluate seconds cutoff_of (no_improve key window_min) history now).tripped
        ≡ any
            (λ o. is_unbeaten (before_window history) (in_window history) o.value)
            (before_window history)
  unfolding evaluate
  evaluate-no_improve key history =
      tripped-if (is_infinite (best infinity (before_window history))) _ _
      ∙ Bool-ext _ _ (verdict-Unbeaten _ _) (Unbeaten-verdict _ _)
