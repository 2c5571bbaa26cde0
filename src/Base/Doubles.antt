-- ===== src/Base/Doubles.antt =====
-- The arithmetic of IEEE doubles: each operation is the exact one, rounded to 53 significant bits, ties to
-- even. A finite double is a whole multiple of 2^-1074, so that a result below 2^53 of them is exact.
use Prim.Native.Nat.{ℕ, zero, suc, ◌+◌, ◌-◌, ◌*◌, ◌/◌, ◌%◌, ◌^◌}
use mathlib.Core.Bool.{Bool, true, false, not}
use mathlib.Core.List.{List, [], ◌∷◌}
use mathlib.Core.Path.{◌≡◌, refl}
use chuk_mcp_training.Base.Tests.{eqb, ltb, leb, if◌then◌else◌}
use chuk_mcp_training.Base.Int.{ℤ, pos, negsuc, pos_part, neg_part}
use chuk_mcp_training.Base.Float.{F64, nan, infinity, neg_infinity, fin, le_f64}

-- How many binary digits a number has; one round drops a digit.
unfoldable pub bits : ℕ → ℕ → ℕ
bits zero n = 0
bits (suc fuel) zero = 0
bits (suc fuel) (suc n) = suc (bits fuel (suc n / 2))

-- p / q to the nearest, ties to even
unfoldable pub nearest : ℕ → ℕ → ℕ
nearest p q =
    let k = p / q in
    let twice = 2 * (p % q) in if ltb q twice then suc k else (if eqb twice q then k + k % 2 else k)

-- p / q to a multiple of the last place of a double
unfoldable pub rounded : ℕ → ℕ → ℕ
unfolding bits nearest
rounded p q = let unit = 2 ^ (bits (suc (p / q)) (p / q) - 53) in nearest p (q * unit) * unit

-- The double of a sign and a magnitude, an infinity where that is too large.
unfoldable pub signed : Bool → ℕ → F64
signed true n =
    if leb (2 ^ 2098) n
    then neg_infinity
    else (if eqb n 0 then fin (pos 0) else fin (negsuc (n - 1)))
signed false n = if leb (2 ^ 2098) n then infinity else fin (pos n)

abbrev pub is_negative : ℤ → Bool
is_negative (pos n) = false
is_negative (negsuc n) = true

abbrev pub magnitude : ℤ → ℕ
magnitude (pos n) = n
magnitude (negsuc n) = suc n

-- The sum of two numbers from their positive and negative parts.
unfoldable pub rounded_difference : ℕ → ℕ → F64
unfolding rounded signed
rounded_difference a b =
    if leb b a then signed false (rounded (a - b) 1) else signed true (rounded (b - a) 1)

-- a + b; a zero adds nothing
unfoldable pub add_f64 : F64 → F64 → F64
unfolding rounded_difference
add_f64 nan b = nan
add_f64 a nan = nan
add_f64 infinity neg_infinity = nan
add_f64 neg_infinity infinity = nan
add_f64 infinity b = infinity
add_f64 neg_infinity b = neg_infinity
add_f64 a infinity = infinity
add_f64 a neg_infinity = neg_infinity
add_f64 (fin a) (fin b) =
    if eqb (magnitude b) 0
    then fin a
    else (if eqb (magnitude a) 0
        then fin b
        else rounded_difference (pos_part a + pos_part b) (neg_part a + neg_part b))

-- -a
unfoldable pub neg_f64 : F64 → F64
unfolding signed
neg_f64 nan = nan
neg_f64 infinity = neg_infinity
neg_f64 neg_infinity = infinity
neg_f64 (fin (pos zero)) = fin (pos 0)
neg_f64 (fin (pos (suc n))) = fin (negsuc n)
neg_f64 (fin (negsuc n)) = fin (pos (suc n))

-- a - b
unfoldable pub sub_f64 : F64 → F64 → F64
unfolding add_f64 neg_f64
sub_f64 a b = add_f64 a (neg_f64 b)

abbrev pub same_sign : Bool → Bool → Bool
same_sign true b = b
same_sign false b = not b

-- An infinity times a number.
unfoldable pub infinite_times : Bool → ℤ → F64
infinite_times negative a =
    if eqb (magnitude a) 0
    then nan
    else (if same_sign negative (is_negative a) then infinity else neg_infinity)

-- a * b
unfoldable pub mul_f64 : F64 → F64 → F64
unfolding rounded signed infinite_times
mul_f64 nan b = nan
mul_f64 a nan = nan
mul_f64 infinity infinity = infinity
mul_f64 infinity neg_infinity = neg_infinity
mul_f64 neg_infinity infinity = neg_infinity
mul_f64 neg_infinity neg_infinity = infinity
mul_f64 infinity (fin b) = infinite_times false b
mul_f64 neg_infinity (fin b) = infinite_times true b
mul_f64 (fin a) infinity = infinite_times false a
mul_f64 (fin a) neg_infinity = infinite_times true a
mul_f64 (fin a) (fin b) =
    signed (not (same_sign (is_negative a) (is_negative b)))
      (rounded (magnitude a * magnitude b) (2 ^ 1074))

-- a / d, by a whole number that is positive; the code divides by constants only
unfoldable pub div_by : F64 → ℕ → F64
unfolding rounded signed
div_by nan d = nan
div_by infinity d = infinity
div_by neg_infinity d = neg_infinity
div_by (fin a) d = signed (is_negative a) (rounded (magnitude a) d)

-- `n as f64`
unfoldable pub whole : ℕ → F64
unfolding rounded signed
whole n = signed false (rounded (n * 2 ^ 1074) 1)

abbrev pub zero_f64 : F64
zero_f64 = fin (pos 0)

-- f64::max, which passes over a NaN
unfoldable pub max_f64 : F64 → F64 → F64
unfolding le_f64
max_f64 nan b = b
max_f64 a nan = a
max_f64 a b = if le_f64 a b then b else a

-- Iterator::sum
unfoldable pub sum_onto : F64 → List F64 → F64
unfolding add_f64
sum_onto acc [] = acc
sum_onto acc (x ∷ xs) = sum_onto (add_f64 acc x) xs

unfoldable pub sum_f64 : List F64 → F64
unfolding sum_onto
sum_f64 xs = sum_onto zero_f64 xs

-- Duration::as_secs_f64 of a time in milliseconds
unfoldable pub seconds_of : ℕ → F64
unfolding whole div_by add_f64
seconds_of ms = add_f64 (whole (ms / 1000)) (div_by (whole (ms % 1000 * 1000000)) 1000000000)

pub add_zero : (a : F64) → add_f64 a zero_f64 ≡ a
unfolding add_f64
add_zero nan = refl
add_zero infinity = refl
add_zero neg_infinity = refl
add_zero (fin a) = refl
