-- ===== src/Base/Float.antt =====
-- IEEE doubles as far as the code compares them. A finite double is a whole multiple of 2^-1074, and
-- `fin` holds that multiple, so every comparison here is exact. The two zeros, which compare equal,
-- are one value.
use mathlib.Core.Bool.{Bool, true, false}
use chuk_mcp_training.Base.Tests.{leb, if◌then◌else◌}
use Prim.Native.Nat.{◌+◌}
use chuk_mcp_training.Base.Int.{ℤ, pos_part, neg_part}

pub data F64 : Type 0 where
  nan neg_infinity infinity : F64
  fin : ℤ → F64

abbrev pub leb_ℤ : ℤ → ℤ → Bool
leb_ℤ a b = leb (pos_part a + neg_part b) (pos_part b + neg_part a)

-- a <= b: false where either is NaN
unfoldable pub le_f64 : F64 → F64 → Bool
le_f64 nan b = false
le_f64 a nan = false
le_f64 neg_infinity b = true
le_f64 a infinity = true
le_f64 (fin a) (fin b) = leb_ℤ a b
le_f64 _ _ = false

-- a < b
unfoldable pub lt_f64 : F64 → F64 → Bool
lt_f64 nan b = false
lt_f64 a nan = false
lt_f64 infinity b = false
lt_f64 a neg_infinity = false
lt_f64 (fin a) (fin b) = if leb_ℤ b a then false else true
lt_f64 _ _ = true

-- f64::is_finite
unfoldable pub is_finite : F64 → Bool
is_finite (fin a) = true
is_finite _ = false

-- f64::is_infinite
unfoldable pub is_infinite : F64 → Bool
is_infinite infinity = true
is_infinite neg_infinity = true
is_infinite _ = false

-- f64::min, which passes over a NaN
unfoldable pub min_f64 : F64 → F64 → F64
unfolding le_f64
min_f64 nan b = b
min_f64 a nan = a
min_f64 a b = if le_f64 a b then a else b
