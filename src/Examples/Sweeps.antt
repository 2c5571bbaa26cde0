-- ===== src/Examples/Sweeps.antt =====
-- Examples of sweeps (sweep.rs).
use chuk_mcp_training.Base.{
  ◌≡◌, refl, sym, String, ◌==◌, Bool-cases, inl, inr, Option, none, some, [], ◌∷◌, All, map, put,
  if◌then◌else◌, eq_iff,
}
use mathlib.Core.List.{flat_map}
use chuk_mcp_training.Base.Int.{ℤ, pos}
use chuk_mcp_training.Base.Text.{strip_prefix}
use chuk_mcp_training.Proto.Run.{TrainSpec}
use chuk_mcp_training.Sweep.Expand.{
  Assignment, Axes, expanded, expand, validate, valid_path, total, combos, build, apply_all, apply,
  fan_out, assignment_of,
}
use chuk_mcp_training.Sweep.Choices.{choices, Applied, expand-choices}
use chuk_mcp_training.Sweep.Assignments.{expand-assignment_of}

abbrev template : TrainSpec
template = record {
  code = record { name = "trainer"; sha = "ab" };
  entrypoint = "train";
  config = none;
  overrides = ("lr", "1") ∷ [];
  data_ref = none;
  seed = none;
  arch = none;
  timeout_s = 60;
}

-- A library that knows one integer.
abbrev as_i64 : String → Option ℤ
as_i64 v = if v == "7" then some (pos 7) else none

abbrev of_i64 : ℤ → String
of_i64 n = "7"

law : (v : String) (n : ℤ) → as_i64 v ≡ some n → of_i64 n ≡ v
law v n e = elim (Bool-cases (v == "7")) [
  | inl t ↦ sym ((eq_iff v "7").0 t)
  | inr f ↦ absurd (cc (rw f at e))
]

abbrev axes : Axes
axes = ("overrides.lr", "2" ∷ "3" ∷ []) ∷ ("seed", "7" ∷ []) ∷ []

abbrev child : String → Assignment × TrainSpec
child lr = (
  ("overrides.lr", lr) ∷ ("seed", "7") ∷ [],
  record template { overrides = ("lr", lr) ∷ []; seed = some (pos 7) },
)

fans_out : expand as_i64 template axes ≡ expanded (child "2" ∷ child "3" ∷ [])
unfolding expand validate valid_path total combos build apply_all apply fan_out strip_prefix
    flat_map put
fans_out = refl

expand-choices_example :
    (map (λ c. c.0) (child "2" ∷ child "3" ∷ []) ≡ choices axes)
    × All (Applied as_i64 template) (child "2" ∷ child "3" ∷ [])
expand-choices_example = expand-choices as_i64 template axes (child "2" ∷ child "3" ∷ []) fans_out

expand-assignment_of_example :
    All (λ c. assignment_of of_i64 c.1 axes ≡ c.0) (child "2" ∷ child "3" ∷ [])
expand-assignment_of_example =
    expand-assignment_of as_i64 of_i64 law template axes (child "2" ∷ child "3" ∷ [])
      ((refl, tt), (tt, tt)) fans_out
