-- ===== src/Worker/Backoff.antt =====
-- crates/chuk-compute-worker/src/backoff.rs and the reconnects of main.rs. A delay is a number of
-- nanoseconds.
use Prim.Native.Nat.{◌+◌, ◌*◌, ◌/◌, ◌%◌, ◌^◌, ◌≤◌, ◌<◌}
use native.Mathlib.Nat.{mod-lt}
use chuk_mcp_training.Base.{
  ℕ, List, [], ◌∷◌, All, ◌≡◌, refl, Bool, true, false, Option, none, some, min, eqb, ltb,
  if◌then◌else◌, arith, Bool-cases, inl, inr, lt→ltb,
}

-- JITTER_DIVISOR
abbrev pub jitter_divisor : ℕ
jitter_divisor = 4

abbrev pub nanos : ℕ
nanos = 1000000000

-- RECONNECT_BACKOFF_MIN, RECONNECT_BACKOFF_MAX
abbrev pub reconnect_backoff_min : ℕ
reconnect_backoff_min = 2 * nanos

abbrev pub reconnect_backoff_max : ℕ
reconnect_backoff_max = 60 * nanos

-- A sum of durations, which panics past u64::MAX seconds.
unfoldable pub sum_of_durations : ℕ → ℕ → Option ℕ
sum_of_durations a b = if ltb (a + b) (2 ^ 64 * nanos) then some (a + b) else none

-- The jitter over a span; `span_nanos + 1` panics where it overflows.
unfoldable pub jittered : ℕ → ℕ → ℕ → Option ℕ
unfolding sum_of_durations
jittered base entropy span_nanos =
    if eqb span_nanos 0
    then some base
    else if ltb (span_nanos + 1) (2 ^ 64)
    then sum_of_durations base (entropy % (span_nanos + 1))
    else none

-- with_jitter
unfoldable pub with_jitter : ℕ → ℕ → Option ℕ
unfolding jittered
with_jitter base entropy = jittered base entropy (base / jitter_divisor % 2 ^ 64)

-- The delays of main's loop before its reconnects: of each session whether it ended well, and the entropy
-- of the delay after it.
unfoldable pub reconnects : ℕ → List (Bool × ℕ) → List (Option ℕ)
unfolding with_jitter
reconnects backoff [] = []
reconnects backoff ((ok, entropy) ∷ sessions) =
    let base = if ok then reconnect_backoff_min else backoff in
    with_jitter base entropy ∷ reconnects (min (base * 2) reconnect_backoff_max) sessions

-- A delay that was computed, between two bounds.
abbrev pub IsBetween : ℕ → ℕ → Option ℕ → Type 0
IsBetween low high o = (d : ℕ) × (o ≡ some d) × (low ≤ d) × (d ≤ high)

sum_of_durations-some : (a b : ℕ) → a + b < 2 ^ 64 * nanos → sum_of_durations a b ≡ some (a + b)
unfolding sum_of_durations
sum_of_durations-some a b h = rw (lt→ltb (a + b) (2 ^ 64 * nanos) h) refl

jittered-IsBetween :
    (base entropy span : ℕ)
    → base ≤ 60 * nanos
    → span ≤ base / 4
    → IsBetween base (base + base / 4) (jittered base entropy span)
unfolding jittered
jittered-IsBetween base entropy span h k = elim (Bool-cases (eqb span 0)) [
  | inl e ↦ (base, rw e refl, omega arith, omega arith)
  | inr e ↦ (
    base + entropy % (span + 1),
    rw (e, lt→ltb (span + 1) (2 ^ 64) (omega (arith, h, k)))
        (sum_of_durations-some base (entropy % (span + 1)) (omega (arith, h, k, small))),
    omega arith,
    omega (arith, k, small),
  )
]
  where
    small : entropy % (span + 1) < span + 1
    small = mod-lt entropy (omega arith)

with_jitter-IsBetween :
    (base entropy : ℕ)
    → base ≤ 60 * nanos
    → IsBetween base (base + base / 4) (with_jitter base entropy)
unfolding with_jitter
with_jitter-IsBetween base entropy h =
    jittered-IsBetween base entropy (base / 4 % 2 ^ 64) h (omega arith)

widen :
    (low high base : ℕ) (o : Option ℕ)
    → low ≤ base
    → base + base / 4 ≤ high
    → IsBetween base (base + base / 4) o
    → IsBetween low high o
widen low high base o h k (d, e, l, u) = (d, e, omega (arith, h, l), omega (arith, k, u))

delay-IsBetween :
    (base entropy : ℕ)
    → 2 * nanos ≤ base
    → base ≤ 60 * nanos
    → IsBetween (2 * nanos) (75 * nanos) (with_jitter base entropy)
delay-IsBetween base entropy l h =
    widen (2 * nanos) (75 * nanos) base (with_jitter base entropy) l (omega (arith, h))
      (with_jitter-IsBetween base entropy h)

-- Whichever sessions of a worker fail, and whatever the entropy, each wait before a reconnect is
-- computed and is at least 2 and at most 75 seconds, from a backoff between 2 and 60 seconds on.
pub reconnects-IsBetween :
    (backoff : ℕ)
    → 2 * nanos ≤ backoff
    → backoff ≤ 60 * nanos
    → (sessions : List (Bool × ℕ))
    → All (IsBetween (2 * nanos) (75 * nanos)) (reconnects backoff sessions)
unfolding reconnects
reconnects-IsBetween backoff l h [] = tt
reconnects-IsBetween backoff l h ((true, entropy) ∷ sessions) = (
  delay-IsBetween reconnect_backoff_min entropy (omega arith) (omega arith),
  reconnects-IsBetween (min (reconnect_backoff_min * 2) reconnect_backoff_max) (omega arith)
      (omega arith) sessions,
)
reconnects-IsBetween backoff l h ((false, entropy) ∷ sessions) = (
  delay-IsBetween backoff entropy l h,
  reconnects-IsBetween (min (backoff * 2) reconnect_backoff_max) (omega (arith, l)) (omega arith)
      sessions,
)
