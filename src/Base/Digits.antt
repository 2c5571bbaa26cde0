-- ===== src/Base/Digits.antt =====
-- What is read back of a decimal print.
use Prim.Native.Nat.{ℕ, zero, suc, ◌+◌, ◌*◌, ◌/◌, ◌%◌, ◌^◌, ◌<◌}
use Prim.Native.Char.{Char, code}
use Prim.Native.String.{String}
use mathlib.Core.Path.{◌≡◌, refl, ◌∙◌, ap, sym}
use mathlib.Core.Bool.{Bool, true, false, ◌&&◌}
use mathlib.Core.Option.{some}
use mathlib.Core.Logic.{inl, inr}
use native.Mathlib.Omega.{arith}
use chuk_mcp_training.Base.Tests.{eqb, leb, ltb, Bool-cases, ltb→lt, lt→ltb}
use chuk_mcp_training.Base.Text.{all_chars}
use chuk_mcp_training.Base.Decimal.{
  digit, show_onto, show_ℕ, read_onto, parse_u64, in_u64, unsigned,
}

code-digit : (d : ℕ) → d < 10 → code (digit d) ≡ 48 + d
unfolding digit
code-digit zero h = refl
code-digit (suc zero) h = refl
code-digit (suc (suc zero)) h = refl
code-digit (suc (suc (suc zero))) h = refl
code-digit (suc (suc (suc (suc zero)))) h = refl
code-digit (suc (suc (suc (suc (suc zero))))) h = refl
code-digit (suc (suc (suc (suc (suc (suc zero)))))) h = refl
code-digit (suc (suc (suc (suc (suc (suc (suc zero))))))) h = refl
code-digit (suc (suc (suc (suc (suc (suc (suc (suc zero)))))))) h = refl
code-digit (suc (suc (suc (suc (suc (suc (suc (suc (suc zero))))))))) h = refl
code-digit (suc (suc (suc (suc (suc (suc (suc (suc (suc (suc n)))))))))) h =
    absurd (omega (arith, h))

in_range : (d : ℕ) → d < 10 → (leb 48 (48 + d) && leb (48 + d) 57) ≡ true
in_range d h = ground (arith, h)

-- One digit read moves the number that is read so far one place up.
read_onto-digit :
    (acc d k : ℕ) (s : String)
    → d < 10
    → acc * 10 + d ≡ k
    → read_onto acc (String.◌∷◌ (digit d) s) ≡ read_onto k s
unfolding read_onto
read_onto-digit acc d k s h e =
    rw (code-digit d h) (rw (in_range d h) (ap (λ j. read_onto j s) (omega (arith, e))))

read_onto-show_onto :
    (fuel n : ℕ) (s : String) → n < fuel → read_onto 0 (show_onto fuel n s) ≡ read_onto n s
unfolding show_onto
read_onto-show_onto zero n s h = absurd (omega (arith, h))
read_onto-show_onto (suc fuel) n s h = elim (Bool-cases (ltb n 10)) [
  | inl e ↦ rw e (read_onto-digit 0 n n s (ltb→lt n 10 e) (omega arith))
  | inr e ↦ rw e (
      read_onto-show_onto fuel (n / 10) (String.◌∷◌ (digit (n % 10)) s) (smaller n fuel h e)
      ∙ read_onto-digit (n / 10) (n % 10) n s (omega arith) (omega arith))
]
  where
    smaller : (n fuel : ℕ) → n < suc fuel → ltb n 10 ≡ false → n / 10 < fuel
    smaller n fuel h e = ground (arith, h, e)

unfoldable pub is_digits : String → Bool
is_digits s = all_chars (λ c. leb 48 c && leb c 57) s

digits-cons :
    (d : ℕ) (s : String) → d < 10 → is_digits s ≡ true → is_digits (String.◌∷◌ (digit d) s) ≡ true
unfolding is_digits all_chars
digits-cons d s h e = rw (code-digit d h) (rw (in_range d h) e)

-- The print is a digit and digits.
show_onto-digits :
    (fuel n : ℕ) (s : String)
    → is_digits s ≡ true
    → n < fuel
    → (c : Char) × (t : String) × (show_onto fuel n s ≡ String.◌∷◌ c t)
      × (is_digits (String.◌∷◌ c t) ≡ true)
unfolding show_onto
show_onto-digits zero n s e h = absurd (omega (arith, h))
show_onto-digits (suc fuel) n s e h = elim (Bool-cases (ltb n 10)) [
  | inl f ↦ (digit n, s, rw f refl, digits-cons n s (ltb→lt n 10 f) e)
  | inr f ↦
      let (c, t, same, all) =
        show_onto-digits fuel (n / 10) (String.◌∷◌ (digit (n % 10)) s)
          (digits-cons (n % 10) s (omega arith) e) (shorter n fuel h f) in
      (c, t, rw f same, all)
]
  where
    shorter : (n fuel : ℕ) → n < suc fuel → ltb n 10 ≡ false → n / 10 < fuel
    shorter n fuel h e = ground (arith, h, e)

no_plus : (k : ℕ) (rest : Bool) → ((leb 48 k && leb k 57) && rest) ≡ true → eqb k b'+' ≡ false
no_plus k rest e = ground (arith, e)

in_u64-some : (n : ℕ) → n < 2 ^ 64 → in_u64 (some n) ≡ some n
unfolding in_u64
in_u64-some n h = rw (lt→ltb n (2 ^ 64) h) refl

parse_u64-digits :
    (c : Char) (t : String) (n : ℕ)
    → is_digits (String.◌∷◌ c t) ≡ true
    → read_onto 0 (String.◌∷◌ c t) ≡ some n
    → n < 2 ^ 64
    → parse_u64 (String.◌∷◌ c t) ≡ some n
unfolding parse_u64 unsigned is_digits all_chars
parse_u64-digits c t n all e h = rw (no_plus (code c) _ all) (ap in_u64 e ∙ in_u64-some n h)

pub read_onto-show_ℕ : (n : ℕ) → read_onto 0 (show_ℕ n) ≡ some n
unfolding show_ℕ read_onto
read_onto-show_ℕ n = read_onto-show_onto (suc n) n "" (omega arith)

pub show_ℕ-Digits : (n : ℕ) → is_digits (show_ℕ n) ≡ true
unfolding show_ℕ is_digits all_chars
show_ℕ-Digits n =
    let (c, t, same, all) = show_onto-digits (suc n) n "" refl (omega arith) in
    ap is_digits same ∙ all

-- A number below 2^64 is read back from its print.
pub parse_u64-show_ℕ : (n : ℕ) → n < 2 ^ 64 → parse_u64 (show_ℕ n) ≡ some n
unfolding show_ℕ is_digits all_chars
parse_u64-show_ℕ n h =
    let (c, t, same, all) = show_onto-digits (suc n) n "" refl (omega arith) in
    ap parse_u64 same
    ∙ parse_u64-digits c t n all (ap (read_onto 0) (sym same) ∙ read_onto-show_ℕ n) h
    ∙ refl
