-- ===== src/Sweep/Paths.antt =====
-- What an axis path names in a spec (sweep.rs apply and assignment_of).
use Prim.Native.Char.{Char, code}
use Prim.Native.String.{String}
use chuk_mcp_training.Base.{
  ◌==◌, ◌≡◌, refl, ap, sym, ◌∙◌, true, false, Option, none, some, List, [], ◌∷◌, Table, map, put,
  get-put, eqb, All, if◌then◌else◌, Bool-cases, Option-cases, inl, inr, arith, eq_iff, eq_refl,
  subst,
}
use mathlib.Core.Option.{some-injective}
use text.Mathlib.TextEquality.{Char-path}
use chuk_mcp_training.Base.Int.{ℤ}
use chuk_mcp_training.Base.Text.{strip_prefix}
use chuk_mcp_training.Proto.Run.{TrainSpec}
use chuk_mcp_training.Sweep.Expand.{Assignment, override_key, apply, apply_all, value_at, values_at}

-- Texts with one rest after a prefix are one text.
head_code :
    (c d : Char) (o : Option String) (r : String)
    → (if eqb (code c) (code d) then o else none) ≡ some r
    → (code d ≡ code c) × (o ≡ some r)
head_code c d o r e = elim (Bool-cases (eqb (code c) (code d))) [
  | inl t ↦ (ground (arith, t), (rw t at e))
  | inr f ↦ absurd (cc (rw f at e))
]

strip_prefix-injective :
    (p s t r : String) → strip_prefix p s ≡ some r → strip_prefix p t ≡ some r → s ≡ t
unfolding strip_prefix
strip_prefix-injective String.[] s t r a b = some-injective _ _ (a ∙ sym b)
strip_prefix-injective (String.◌∷◌ c p) String.[] t r a b = absurd cc
strip_prefix-injective (String.◌∷◌ c p) (String.◌∷◌ d s) String.[] r a b = absurd cc
strip_prefix-injective (String.◌∷◌ c p) (String.◌∷◌ d s) (String.◌∷◌ e t) r a b =
    joined (head_code c d (strip_prefix p s) r a) (head_code c e (strip_prefix p t) r b)
      (strip_prefix-injective p s t r)
  where
    joined :
        (code d ≡ code c) × (strip_prefix p s ≡ some r)
        → (code e ≡ code c) × (strip_prefix p t ≡ some r)
        → (strip_prefix p s ≡ some r → strip_prefix p t ≡ some r → s ≡ t)
        → String.◌∷◌ d s ≡ String.◌∷◌ e t
    joined x y more =
        ap (λ k. String.◌∷◌ k s) (Char-path d e (x.0 ∙ sym y.0)) ∙ ap (String.◌∷◌ e) (more x.1 y.1)

keys_differ :
    (path other key k : String)
    → override_key path ≡ some key
    → override_key other ≡ some k
    → (path == other) ≡ false
    → (key == k) ≡ false
keys_differ path other key k z w apart = elim (Bool-cases (key == k)) [
  | inr f ↦ f
  | inl t ↦ absurd (
      cc (
        apart,
        (eq_iff path other).1 (
            strip_prefix-injective "overrides." path other key z
              (w ∙ ap some (sym ((eq_iff key k).0 t)))),
      ))
]

-- The keys of a map differ.
abbrev pub Apart : List String → Type 0
Apart [] = Unit
Apart (k ∷ ks) = All (λ j. (j == k) ≡ false) ks × Apart ks

abbrev pub keys : {V : Type 0} → Table V → List String
keys t = map (λ e. e.0) t

module _ (as_i64 : String → Option ℤ) (of_i64 : ℤ → String)
    (law : (v : String) (n : ℤ) → as_i64 v ≡ some n → of_i64 n ≡ v) where
  -- What was applied at a path is read there.
  value_at-apply :
      (spec next : TrainSpec) (path value : String)
      → apply as_i64 spec path value ≡ some next
      → value_at of_i64 next path ≡ some value
  unfolding apply value_at
  value_at-apply spec next path value e = elim (Bool-cases (path == "seed")) [
    | inl seed ↦ elim (Option-cases (as_i64 value)) [
      | inl z ↦ absurd (cc (rw (seed, z) at e))
      | inr (n, z) ↦ rw seed (
          rw (ap (λ x. x.seed) (sym (some-injective _ _ (rw (seed, z) at e))))
            (ap some (law value n z)))
    ]
    | inr other ↦ elim (Option-cases (override_key path)) [
      | inl z ↦ absurd (cc (rw (other, z) at e))
      | inr (key, z) ↦
          rw (other, z)
            (rw (ap (λ x. x.overrides) (sym (some-injective _ _ (rw (other, z) at e))))
              (get-put key key value spec.overrides ∙ rw (eq_refl key) refl))
    ]
  ]

  -- Nothing else is changed.
  value_at-other :
      (spec next : TrainSpec) (path other value : String)
      → (path == other) ≡ false
      → apply as_i64 spec path value ≡ some next
      → value_at of_i64 next other ≡ value_at of_i64 spec other
  unfolding apply value_at
  value_at-other spec next path other value apart e = elim (Bool-cases (path == "seed")) [
    | inl seed ↦ elim (Option-cases (as_i64 value)) [
      | inl z ↦ absurd (cc (rw (seed, z) at e))
      | inr (n, z) ↦
          subst (λ n. value_at of_i64 n other ≡ value_at of_i64 spec other)
            (some-injective _ _ (rw (seed, z) at e)) (rw (not_seed other seed) refl)
    ]
    | inr unlike ↦ elim (Option-cases (override_key path)) [
      | inl z ↦ absurd (cc (rw (unlike, z) at e))
      | inr (key, z) ↦
          subst (λ n. value_at of_i64 n other ≡ value_at of_i64 spec other)
            (some-injective _ _ (rw (unlike, z) at e)) (elsewhere key z)
    ]
  ]
    where
      not_seed : (o : String) → (path == "seed") ≡ true → (other == "seed") ≡ false
      not_seed o is =
          ground (arith, eq_iff path "seed", eq_iff other "seed", eq_iff path other, is, apart)

      elsewhere :
          (key : String)
          → override_key path ≡ some key
          → value_at of_i64 (record spec { overrides = put key value spec.overrides }) other
            ≡ value_at of_i64 spec other
      elsewhere key z = elim (Option-cases (override_key other)) [
        | inl w ↦ rw w refl
        | inr (k, w) ↦ rw w (
            rw (get-put key k value spec.overrides)
              (rw (keys_differ path other key k z w apart) refl))
      ]

  -- After an assignment with distinct keys, what is read at its paths is the assignment, and elsewhere
  -- what was there.
  apply_all-other :
      (a : Assignment) (spec next : TrainSpec) (other : String)
      → All (λ j. (j == other) ≡ false) (keys a)
      → apply_all as_i64 a spec ≡ some next
      → value_at of_i64 next other ≡ value_at of_i64 spec other
  unfolding apply_all
  apply_all-other [] spec next other h e =
      ap (λ n. value_at of_i64 n other) (sym (some-injective _ _ e))
  apply_all-other ((path, value) ∷ a) spec next other h e =
      elim (Option-cases (apply as_i64 spec path value)) [
        | inl z ↦ absurd (cc (rw (z, apply_all) at e))
        | inr (mid, z) ↦
            apply_all-other a mid next other h.1 (rw (z, apply_all) at e)
            ∙ value_at-other spec mid path other value h.0 z
      ]

  pub apply_all-values :
      (a : Assignment) (spec next : TrainSpec)
      → Apart (keys a)
      → apply_all as_i64 a spec ≡ some next
      → All (λ e. value_at of_i64 next e.0 ≡ some e.1) a
  unfolding apply_all
  apply_all-values [] spec next d e = tt
  apply_all-values ((path, value) ∷ a) spec next d e =
      elim (Option-cases (apply as_i64 spec path value)) [
        | inl z ↦ absurd (cc (rw (z, apply_all) at e))
        | inr (mid, z) ↦ (
          apply_all-other a mid next path d.0 (rw (z, apply_all) at e)
              ∙ value_at-apply spec mid path value z,
          apply_all-values a mid next d.1 (rw (z, apply_all) at e),
        )
      ]

  pub values_at-read :
      (spec : TrainSpec) (a : Assignment)
      → All (λ e. value_at of_i64 spec e.0 ≡ some e.1) a
      → values_at of_i64 spec (map (λ e. e.0) a) ≡ a
  unfolding values_at
  values_at-read spec [] h = refl
  values_at-read spec ((path, value) ∷ a) h =
      rw (h.0, values_at) (ap (λ t. (path, value) ∷ t) (values_at-read spec a h.1))
