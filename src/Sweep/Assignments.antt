-- ===== src/Sweep/Assignments.antt =====
-- The assignment of a child is read back from its spec (sweep.rs expand and assignment_of).
use Prim.Native.String.{String}
use chuk_mcp_training.Base.{
  ◌≡◌, refl, ap, sym, ◌∙◌, Option, some, List, [], ◌∷◌, ◌++◌, map, All, All-append, All-implies,
  Option-cases, inl, inr, subst,
}
use mathlib.Core.List.{flat_map}
use mathlib.Core.Option.{some-injective}
use chuk_mcp_training.Base.Int.{ℤ}
use chuk_mcp_training.Proto.Run.{TrainSpec}
use chuk_mcp_training.Sweep.Choices.{expand-build}
use chuk_mcp_training.Sweep.Expand.{
  Assignment, Axes, expanded, combos, apply_all, build, expand, values_at, assignment_of,
}
use chuk_mcp_training.Sweep.Paths.{Apart, keys, apply_all-values, values_at-read}

-- The keys of the combinations are those of the axes.
KeysAre : List String → Assignment → Type 0
KeysAre ks a = map (λ e. e.0) a ≡ ks

map-snoc :
    (a : Assignment) (p v : String) → map (λ e. e.0) (a ++ (p, v) ∷ []) ≡ map (λ e. e.0) a ++ p ∷ []
map-snoc [] p v = refl
map-snoc (e ∷ a) p v = ap (λ t. e.0 ∷ t) (map-snoc a p v)

append_assoc : (xs ys zs : List String) → (xs ++ ys) ++ zs ≡ xs ++ (ys ++ zs)
append_assoc [] ys zs = refl
append_assoc (x ∷ xs) ys zs = ap (λ t. x ∷ t) (append_assoc xs ys zs)

append_nil : (xs : List String) → xs ++ [] ≡ xs
append_nil [] = refl
append_nil (x ∷ xs) = ap (λ t. x ∷ t) (append_nil xs)

next_keys :
    (path : String) (values : List String) (ks : List String) (a : Assignment)
    → KeysAre ks a
    → All (KeysAre (ks ++ path ∷ [])) (map (λ value. a ++ (path, value) ∷ []) values)
unfolding KeysAre
next_keys path [] ks a h = tt
next_keys path (v ∷ vs) ks a h =
    (map-snoc a path v ∙ ap (λ t. t ++ path ∷ []) h, next_keys path vs ks a h)

All-flat_map :
    {A B : Type 0} (P : A → Type 0) (Q : B → Type 0) (f : A → List B)
    → ((x : A) → P x → All Q (f x))
    → (xs : List A) → All P xs
    → All Q (flat_map f xs)
unfolding flat_map
All-flat_map P Q f step [] h = tt
All-flat_map P Q f step (x ∷ xs) h =
    All-append Q (f x) (flat_map f xs) (step x h.0) (All-flat_map P Q f step xs h.1)

abbrev grown : String → List String → List Assignment → List Assignment
grown path values so_far =
    flat_map (λ combo. map (λ value. combo ++ (path, value) ∷ []) values) so_far

combos-keys :
    (axes : Axes) (ks : List String) (so_far : List Assignment)
    → All (KeysAre ks) so_far
    → All (KeysAre (ks ++ map (λ e. e.0) axes)) (combos axes so_far)
unfolding combos
combos-keys [] ks so_far h =
    All-implies (KeysAre ks) _ (λ a k. subst (λ t. KeysAre t a) (sym (append_nil ks)) k) so_far h
combos-keys ((path, values) ∷ axes) ks so_far h =
    subst (λ t. All (KeysAre t) (combos axes (grown path values so_far)))
      (append_assoc ks (path ∷ []) (keys axes))
      (combos-keys axes (ks ++ path ∷ []) (grown path values so_far) (
        All-flat_map (KeysAre ks) (KeysAre (ks ++ path ∷ [])) _ (next_keys path values ks) so_far
          h))

module _ (as_i64 : String → Option ℤ) (of_i64 : ℤ → String)
    (law : (v : String) (n : ℤ) → as_i64 v ≡ some n → of_i64 n ≡ v) (template : TrainSpec) where
  Read : List String → Assignment × TrainSpec → Type 0
  Read ks c = values_at of_i64 c.1 ks ≡ c.0

  build-Read :
      (ks : List String)
      → Apart ks
      → (rows : List Assignment) → All (KeysAre ks) rows
      → (children : List (Assignment × TrainSpec)) → build as_i64 template rows ≡ some children
      → All (Read ks) children
  unfolding build Read KeysAre
  build-Read ks apart [] h children e = subst (All (Read ks)) (some-injective _ _ e) tt
  build-Read ks apart (a ∷ rows) h children e = elim (Option-cases (apply_all as_i64 a template)) [
    | inl f ↦ absurd (cc (rw (f, build) at e))
    | inr (spec, f) ↦ elim (Option-cases (build as_i64 template rows)) [
      | inl g ↦ absurd (cc (rw (f, build, g) at e))
      | inr (rest, g) ↦ subst (All (Read ks)) (some-injective _ _ (rw (f, build, g) at e)) (
        subst (λ t. values_at of_i64 spec t ≡ a) (h.0)
            (values_at-read as_i64 of_i64 law spec a (
              apply_all-values as_i64 of_i64 law a template spec (subst Apart (sym (h.0)) apart)
                f)),
        build-Read ks apart rows h.1 rest g,
      )
    ]
  ]

  -- The assignment of every child of a sweep is what assignment_of reads back from the child's spec, for
  -- axes whose paths differ and a JSON library that turns the integer read of a value back to the value.
  pub expand-assignment_of :
      (axes : Axes) (children : List (Assignment × TrainSpec))
      → Apart (keys axes)
      → expand as_i64 template axes ≡ expanded children
      → All (λ c. assignment_of of_i64 c.1 axes ≡ c.0) children
  unfolding assignment_of Read KeysAre
  expand-assignment_of axes children apart e =
      build-Read (keys axes) apart (combos axes ([] ∷ []))
        (combos-keys axes [] ([] ∷ []) (refl, tt)) children
        (expand-build as_i64 template axes children e)
