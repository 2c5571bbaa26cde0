-- ===== src/Store/Series.antt =====
-- store/ids.rs downsample_in_place: the thinning of a metric's series.
use chuk_mcp_training.Base.{
  ℕ, zero, suc, ◌+◌, ◌-◌, ◌/◌, Bool, false, ◌&&◌, ◌||◌, Option, none, some, List, [], ◌∷◌, ◌++◌,
  length, eqb, leb, if◌then◌else◌,
}
use chuk_mcp_training.Base.Float.{F64, le_f64}

pub record MetricPoint : Type 0 where
  pub step : ℕ
  pub value : F64

-- a == b of doubles: each is at most the other, which no NaN is
unfoldable pub eq_f64 : F64 → F64 → Bool
eq_f64 a b = le_f64 a b && le_f64 b a

-- The derived `==` of a point, and of an option of one.
unfoldable pub same_point : MetricPoint → Option MetricPoint → Bool
unfolding eq_f64
same_point p none = false
same_point p (some q) = eqb p.step q.step && eq_f64 p.value q.value

module _ {ℓ} {A : Type ℓ} where
  -- slice::last
  unfoldable pub last : List A → Option A
  last [] = none
  last (x ∷ xs) = elim (last xs) [ none ↦ some x | some y ↦ some y ]

  -- Iterator::step_by, with the members still to be passed over
  unfoldable pub step_by : ℕ → ℕ → List A → List A
  step_by stride skip [] = []
  step_by stride zero (x ∷ xs) = x ∷ step_by stride (stride - 1) xs
  step_by stride (suc skip) (x ∷ xs) = step_by stride skip xs

-- The last point pushed, where the kept ones do not end in it.
unfoldable pub push_last : Option MetricPoint → List MetricPoint → List MetricPoint
unfolding same_point last
push_last none kept = kept
push_last (some p) kept = if same_point p (last kept) then kept else kept ++ p ∷ []

-- downsample_in_place
unfoldable pub downsample_in_place : List MetricPoint → ℕ → List MetricPoint
unfolding push_last step_by last
downsample_in_place points max =
    if eqb max 0 || leb (length points) max
    then points
    else push_last (last points) (step_by ((length points + (max - 1)) / max) 0 points)
