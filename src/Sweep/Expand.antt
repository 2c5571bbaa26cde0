-- ===== src/Sweep/Expand.antt =====
-- sweep.rs: expand and assignment_of. A JSON value is its text; `as_i64` and `of_i64` are the JSON
-- library's conversions of an integer. The axes stand in the order of their keys, as the BTreeMap
-- iterates, so that the insert of the next key goes to the end of an assignment. The overrides of a
-- template are null or an object.
use chuk_mcp_training.Base.{
  ℕ, ◌*◌, ◌%◌, ◌^◌, String, ◌==◌, Bool, true, false, not, Option, none, some, List, [], ◌∷◌, ◌++◌,
  Table, map, get, put, length, ltb, if◌then◌else◌,
}
use mathlib.Core.List.{flat_map}
use chuk_mcp_training.Base.Int.{ℤ}
use chuk_mcp_training.Base.Text.{strip_prefix}
use chuk_mcp_training.Proto.Constants.{max_sweep_children}
use chuk_mcp_training.Proto.Run.{TrainSpec}

-- Axis path → the value one child got.
abbrev pub Assignment : Type 0
Assignment = Table String

abbrev pub Axes : Type 0
Axes = Table (List String)

pub data SweepError : Type 0 where
  no_axes : SweepError
  unsupported_path no_values : String → SweepError
  too_many : ℕ → SweepError
  not_an_integer : SweepError

pub data Expanded : Type 0 where
  expanded : List (Assignment × TrainSpec) → Expanded
  refused : SweepError → Expanded

-- The key of an override's path.
abbrev pub override_key : String → Option String
override_key path = strip_prefix "overrides." path

-- validate_path
unfoldable pub valid_path : String → Bool
valid_path path =
    if path == "seed"
    then true
    else elim (override_key path) [ none ↦ false | some key ↦ not (key == "") ]

abbrev pub is_empty {ℓ} : {A : Type ℓ} → List A → Bool
is_empty [] = true
is_empty (x ∷ xs) = false

-- The first axis that is refused, and why.
unfoldable pub validate : Axes → Option SweepError
unfolding valid_path
validate [] = none
validate ((path, values) ∷ axes) =
    let rest = validate axes in
    if valid_path path
    then (if is_empty values then some (no_values path) else rest)
    else some (unsupported_path path)

-- `axes.values().map(Vec::len).product()`, which wraps around in a release build
unfoldable pub total : Axes → ℕ
total [] = 1
total ((path, values) ∷ axes) = length values * total axes % 2 ^ 64

-- The loop that forms the combinations.
unfoldable pub combos : Axes → List Assignment → List Assignment
combos [] so_far = so_far
combos ((path, values) ∷ axes) so_far =
    combos axes (flat_map (λ combo. map (λ value. combo ++ (path, value) ∷ []) values) so_far)

module _ (as_i64 : String → Option ℤ) where
  -- apply: `none` where a seed is not an integer. A path that is no override has been refused before.
  unfoldable pub apply : TrainSpec → String → String → Option TrainSpec
  apply spec path value =
      if path == "seed"
      then elim (as_i64 value) [ none ↦ none | some seed ↦ some (record spec { seed = some seed }) ]
      else elim (override_key path) [
        | none ↦ none
        | some key ↦ some (record spec { overrides = put key value spec.overrides })
      ]

  -- apply of each pair of an assignment
  unfoldable pub apply_all : Assignment → TrainSpec → Option TrainSpec
  unfolding apply
  apply_all [] spec = some spec
  apply_all ((path, value) ∷ rest) spec = elim (apply spec path value) [
    | none ↦ none
    | some next ↦ apply_all rest next
  ]

  -- The specs of the combinations, or the failure of the first that has none.
  unfoldable pub build : TrainSpec → List Assignment → Option (List (Assignment × TrainSpec))
  unfolding apply_all
  build template [] = some []
  build template (a ∷ rows) = elim (apply_all a template) [
    | none ↦ none
    | some spec ↦ elim (build template rows) [ none ↦ none | some rest ↦ some ((a, spec) ∷ rest) ]
  ]

  abbrev pub built : Option (List (Assignment × TrainSpec)) → Expanded
  built none = refused not_an_integer
  built (some children) = expanded children

  -- What expand does with axes that are valid.
  unfoldable pub fan_out : TrainSpec → Axes → Expanded
  unfolding total combos build
  fan_out template axes =
      if ltb max_sweep_children (total axes)
      then refused (too_many (total axes))
      else built (build template (combos axes ([] ∷ [])))

  -- expand
  unfoldable pub expand : TrainSpec → Axes → Expanded
  unfolding validate fan_out
  expand template axes =
      if is_empty axes
      then refused no_axes
      else elim (validate axes) [ some e ↦ refused e | none ↦ fan_out template axes ]

module _ (of_i64 : ℤ → String) where
  -- The value that a spec has at an axis.
  unfoldable pub value_at : TrainSpec → String → Option String
  value_at spec path =
      if path == "seed"
      then elim spec.seed [ none ↦ none | some n ↦ some (of_i64 n) ]
      else elim (override_key path) [ none ↦ none | some key ↦ get key spec.overrides ]

  -- `filter_map` over the keys
  unfoldable pub values_at : TrainSpec → List String → Assignment
  unfolding value_at
  values_at spec [] = []
  values_at spec (path ∷ paths) =
      let rest = values_at spec paths in
      elim (value_at spec path) [ none ↦ rest | some value ↦ (path, value) ∷ rest ]

  -- assignment_of
  unfoldable pub assignment_of : TrainSpec → Axes → Assignment
  unfolding values_at
  assignment_of spec axes = values_at spec (map (λ e. e.0) axes)
