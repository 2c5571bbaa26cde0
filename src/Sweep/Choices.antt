-- ===== src/Sweep/Choices.antt =====
-- The children of a sweep (sweep.rs expand).
use chuk_mcp_training.Base.{
  String, ◌≡◌, refl, ap, sym, ◌∙◌, subst, All, false, Option, none, some, List, [], ◌∷◌, ◌++◌, map,
  ltb, Bool-cases, Option-cases, inl, inr,
}
use mathlib.Core.List.{flat_map, append_assoc, append-nil}
use mathlib.Core.Option.{some-injective}
use chuk_mcp_training.Base.Int.{ℤ}
use chuk_mcp_training.Proto.Constants.{max_sweep_children}
use chuk_mcp_training.Proto.Run.{TrainSpec}
use chuk_mcp_training.Sweep.Expand.{
  Assignment, Axes, expanded, is_empty, validate, total, combos, apply_all, build, built, fan_out,
  expand,
}

-- The cartesian product of the axes: a value of the first, with each choice of the others.
abbrev pub choices : Axes → List Assignment
choices [] = [] ∷ []
choices ((path, values) ∷ axes) =
    flat_map (λ value. map (λ rest. (path, value) ∷ rest) (choices axes)) values

module _ {A B : Type 0} where
  flat_map-append :
      (f : A → List B) (xs ys : List A) → flat_map f (xs ++ ys) ≡ flat_map f xs ++ flat_map f ys
  unfolding flat_map
  flat_map-append f [] ys = refl
  flat_map-append f (x ∷ xs) ys =
      ap (λ zs. f x ++ zs) (flat_map-append f xs ys)
      ∙ sym (append_assoc (f x) (flat_map f xs) (flat_map f ys))

  map-append : (f : A → B) (xs ys : List A) → map f (xs ++ ys) ≡ map f xs ++ map f ys
  map-append f [] ys = refl
  map-append f (x ∷ xs) ys = ap (λ zs. f x ∷ zs) (map-append f xs ys)

flat_map-flat_map :
    {A B C : Type 0} (g : B → List C) (f : A → List B) (h : A → List C)
    → ((x : A) → flat_map g (f x) ≡ h x)
    → (xs : List A) → flat_map g (flat_map f xs) ≡ flat_map h xs
unfolding flat_map
flat_map-flat_map g f h same [] = refl
flat_map-flat_map g f h same (x ∷ xs) =
    flat_map-append g (f x) (flat_map f xs)
    ∙ ap (λ zs. zs ++ flat_map g (flat_map f xs)) (same x)
    ∙ ap (λ zs. h x ++ zs) (flat_map-flat_map g f h same xs)

flat_map-map :
    {A B C : Type 0} (g : B → List C) (f : A → B) (k : A → List B) (m : B → C)
    → ((x : A) → g (f x) ≡ map m (k x))
    → (xs : List A) → flat_map g (map f xs) ≡ map m (flat_map k xs)
unfolding flat_map
flat_map-map g f k m same [] = refl
flat_map-map g f k m same (x ∷ xs) =
    ap (λ zs. zs ++ flat_map g (map f xs)) (same x)
    ∙ ap (λ zs. map m (k x) ++ zs) (flat_map-map g f k m same xs)
    ∙ sym (map-append m (k x) (flat_map k xs))

map-longer :
    (combo : Assignment) (path value : String) (rows : List Assignment)
    → map (λ rest. (combo ++ (path, value) ∷ []) ++ rest) rows
      ≡ map (λ rest. combo ++ rest) (map (λ rest. (path, value) ∷ rest) rows)
map-longer combo path value [] = refl
map-longer combo path value (r ∷ rows) =
    ap (λ x. x ∷ map (λ rest. (combo ++ (path, value) ∷ []) ++ rest) rows)
      (append_assoc combo ((path, value) ∷ []) r)
    ∙ ap (λ zs. (combo ++ (path, value) ∷ r) ∷ zs) (map-longer combo path value rows)

-- The loop extends what it has by the choices of the axes that are left.
combos-choices :
    (axes : Axes) (so_far : List Assignment)
    → combos axes so_far ≡ flat_map (λ combo. map (λ rest. combo ++ rest) (choices axes)) so_far
unfolding combos flat_map
combos-choices [] so_far = alone so_far
  where
    alone :
        (xs : List Assignment) → xs ≡ flat_map (λ combo. map (λ rest. combo ++ rest) ([] ∷ [])) xs
    alone [] = refl
    alone (x ∷ xs) = ap (λ y. y ∷ xs) (sym (append-nil x)) ∙ ap (λ ys. (x ++ []) ∷ ys) (alone xs)
combos-choices ((path, values) ∷ axes) so_far =
    combos-choices axes _
    ∙ flat_map-flat_map _ _ _
        (λ combo.
          flat_map-map _ (λ value. combo ++ (path, value) ∷ [])
            (λ value. map (λ rest. (path, value) ∷ rest) (choices axes)) (λ rest. combo ++ rest)
            (λ value. map-longer combo path value (choices axes)) values)
        so_far

combos-all : (axes : Axes) → combos axes ([] ∷ []) ≡ choices axes
unfolding flat_map
combos-all axes = combos-choices axes ([] ∷ []) ∙ append-nil _ ∙ same (choices axes)
  where
    same : (xs : List Assignment) → map (λ rest. [] ++ rest) xs ≡ xs
    same [] = refl
    same (x ∷ xs) = ap (λ ys. x ∷ ys) (same xs)

module _ (as_i64 : String → Option ℤ) (template : TrainSpec) where
  -- Each child has its row, and what the row makes of the template.
  abbrev pub Applied : Assignment × TrainSpec → Type 0
  Applied child = apply_all as_i64 child.0 template ≡ some child.1

  build-rows :
      (rows : List Assignment) (children : List (Assignment × TrainSpec))
      → build as_i64 template rows ≡ some children
      → (map (λ c. c.0) children ≡ rows) × All Applied children
  unfolding build
  build-rows [] children e =
      subst (λ cs. (map (λ c. c.0) cs ≡ []) × All Applied cs) (some-injective _ _ e) (refl, tt)
  build-rows (a ∷ rows) children e = elim (Option-cases (apply_all as_i64 a template)) [
    | inl f ↦ absurd (cc (rw (f, build) at e))
    | inr (spec, f) ↦ elim (Option-cases (build as_i64 template rows)) [
      | inl g ↦ absurd (cc (rw (f, build, g) at e))
      | inr (rest, g) ↦
          let (same, all) = build-rows rows rest g in
          subst (λ cs. (map (λ c. c.0) cs ≡ a ∷ rows) × All Applied cs)
            (some-injective _ _ (rw (f, build, g) at e)) (ap (λ xs. a ∷ xs) same, (f, all))
    ]
  ]

  built-expanded :
      (o : Option (List (Assignment × TrainSpec))) (children : List (Assignment × TrainSpec))
      → built as_i64 o ≡ expanded children
      → o ≡ some children
  built-expanded none children e = absurd cc
  built-expanded (some xs) children e = ap some cc

  -- What a sweep that is accepted is built of.
  fan_out-build :
      (axes : Axes) (children : List (Assignment × TrainSpec))
      → fan_out as_i64 template axes ≡ expanded children
      → (build as_i64 template (combos axes ([] ∷ [])) ≡ some children)
        × (ltb max_sweep_children (total axes) ≡ false)
  unfolding fan_out
  fan_out-build axes children e = elim (Bool-cases (ltb max_sweep_children (total axes))) [
    | inl big ↦ absurd (cc (rw big at e))
    | inr fits ↦ (built-expanded _ children (rw fits at e), fits)
  ]

  expand-fan_out :
      (axes : Axes) (children : List (Assignment × TrainSpec))
      → expand as_i64 template axes ≡ expanded children
      → fan_out as_i64 template axes ≡ expanded children
  unfolding expand
  expand-fan_out axes children e = elim (Bool-cases (is_empty axes)) [
    | inl z ↦ absurd (cc (rw z at e))
    | inr z ↦ elim (Option-cases (validate axes)) [
      | inr (bad, v) ↦ absurd (cc (rw (z, v) at e))
      | inl v ↦ rw (z, v) at e
    ]
  ]

  pub expand-build :
      (axes : Axes) (children : List (Assignment × TrainSpec))
      → expand as_i64 template axes ≡ expanded children
      → build as_i64 template (combos axes ([] ∷ [])) ≡ some children
  expand-build axes children e = (fan_out-build axes children (expand-fan_out axes children e)).0

  -- A sweep that is accepted is the cartesian product of its axes: the children have in order the choices
  -- of a value of every axis, the last axis varying fastest, each with the spec that its assignment makes of
  -- the template.
  pub expand-choices :
      (axes : Axes) (children : List (Assignment × TrainSpec))
      → expand as_i64 template axes ≡ expanded children
      → (map (λ c. c.0) children ≡ choices axes) × All Applied children
  expand-choices axes children e =
      let (same, all) =
        build-rows (combos axes ([] ∷ [])) children (expand-build axes children e) in
      (same ∙ combos-all axes, all)
