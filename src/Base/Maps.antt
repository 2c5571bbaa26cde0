-- ===== src/Base/Maps.antt =====
-- Maps with string keys as association lists: a `HashMap`, whose order the program never reads but
-- where a loop goes over it.
use mathlib.Core.Path.{◌≡◌, refl}
use mathlib.Core.Option.{Option, none, some}
use mathlib.Core.Bool.{Bool}
use mathlib.Core.List.{List, [], ◌∷◌}
use native.Mathlib.Omega.{arith}
use Prim.Native.String.{String}
use text.Mathlib.Text.{◌==◌}
use text.Mathlib.TextEquality.{eq_iff}
use chuk_mcp_training.Base.Tests.{if◌then◌else◌}
use chuk_mcp_training.Base.Lists.{keep}

abbrev pub Table {ℓ} : Type ℓ → Type ℓ
Table V = List (String × V)

module _ {ℓ} {V : Type ℓ} where
  -- get
  unfoldable pub get : String → Table V → Option V
  get k [] = none
  get k ((j, v) ∷ t) = if j == k then some v else get k t

  -- remove
  unfoldable pub del : String → Table V → Table V
  del k [] = []
  del k ((j, v) ∷ t) = let rest = del k t in if j == k then rest else (j, v) ∷ rest

  -- insert, in place where the key is there
  unfoldable pub put : String → V → Table V → Table V
  put k v [] = (k, v) ∷ []
  put k v ((j, w) ∷ t) = let rest = put k v t in if j == k then (k, v) ∷ t else (j, w) ∷ rest

  pub get-put :
      (k j : String) (v : V) (t : Table V)
      → get j (put k v t) ≡ (if k == j then some v else get j t)
  unfolding get put
  get-put k j v [] = refl
  get-put k j v ((i, w) ∷ t) = ground (arith, eq_iff k j, eq_iff i k, eq_iff i j, get-put k j v t)

  pub get-del : (k j : String) (t : Table V) → get j (del k t) ≡ (if k == j then none else get j t)
  unfolding get del
  get-del k j [] = ground arith
  get-del k j ((i, w) ∷ t) = ground (arith, eq_iff k j, eq_iff i k, eq_iff i j, get-del k j t)

pub ruleset table_laws = (get-put, get-del)

-- A map holds a key once.
abbrev pub Unique {ℓ} : {V : Type ℓ} → Table V → Type ℓ
Unique [] = Unit
Unique ((k, v) ∷ t) = (get k t ≡ none) × Unique t

module _ {ℓ} {V : Type ℓ} where
  -- `retain` by a test of the value
  pub get-keep :
      (p : V → Bool) (k : String) (t : Table V)
      → Unique t
      → get k (keep (λ e. p e.1) t)
        ≡ elim (get k t) [ none ↦ none | some v ↦ if p v then some v else none ]
  unfolding get
  get-keep p k [] u = refl
  get-keep p k ((j, v) ∷ t) u = ground (arith, eq_iff j k, get-keep p k t u.1, u.0)
