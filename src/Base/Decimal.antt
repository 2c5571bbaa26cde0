-- ===== src/Base/Decimal.antt =====
-- The decimal print of a number (`{}` of an unsigned integer) and `str::parse::<u64>`.
use Prim.Native.Nat.{ℕ, zero, suc, ◌+◌, ◌-◌, ◌*◌, ◌/◌, ◌%◌, ◌^◌}
use Prim.Native.Char.{Char, code}
use Prim.Native.String.{String}
use mathlib.Core.Bool.{◌&&◌}
use mathlib.Core.Option.{Option, none, some}
use chuk_mcp_training.Base.Tests.{eqb, leb, ltb, if◌then◌else◌}
use chuk_mcp_training.Base.Int.{ℤ, pos, negsuc}

-- The character of one digit.
unfoldable pub digit : ℕ → Char
digit zero = "0"
digit (suc zero) = "1"
digit (suc (suc zero)) = "2"
digit (suc (suc (suc zero))) = "3"
digit (suc (suc (suc (suc zero)))) = "4"
digit (suc (suc (suc (suc (suc zero))))) = "5"
digit (suc (suc (suc (suc (suc (suc zero)))))) = "6"
digit (suc (suc (suc (suc (suc (suc (suc zero))))))) = "7"
digit (suc (suc (suc (suc (suc (suc (suc (suc zero)))))))) = "8"
digit _ = "9"

-- The digits of `n` before `acc`. One round drops a digit, so `suc n` rounds are enough.
unfoldable pub show_onto : ℕ → ℕ → String → String
unfolding digit
show_onto zero n acc = acc
show_onto (suc fuel) n acc =
    let longer = show_onto fuel (n / 10) (String.◌∷◌ (digit (n % 10)) acc) in
    if ltb n 10 then String.◌∷◌ (digit n) acc else longer

unfoldable pub show_ℕ : ℕ → String
unfolding show_onto
show_ℕ n = show_onto (suc n) n ""

unfoldable pub read_onto : ℕ → String → Option ℕ
read_onto acc String.[] = some acc
read_onto acc (String.◌∷◌ c s) =
    let rest = read_onto (acc * 10 + (code c - 48)) s in
    if leb 48 (code c) && leb (code c) 57 then rest else none

-- At least one digit, a leading `+` allowed, and a value below 2^64.
unfoldable pub in_u64 : Option ℕ → Option ℕ
in_u64 none = none
in_u64 (some n) = if ltb n (2 ^ 64) then some n else none

unfoldable pub unsigned : String → Option ℕ
unfolding read_onto
unsigned String.[] = none
unsigned (String.◌∷◌ c s) = read_onto 0 (String.◌∷◌ c s)

unfoldable pub parse_u64 : String → Option ℕ
unfolding unsigned in_u64
parse_u64 String.[] = none
parse_u64 (String.◌∷◌ c s) =
    if eqb (code c) b'+' then in_u64 (unsigned s) else in_u64 (unsigned (String.◌∷◌ c s))

-- str::parse::<i64>: a sign, at least one digit, and a value that the type holds
unfoldable pub in_i64 : Option ℕ → Option ℤ
in_i64 none = none
in_i64 (some n) = if ltb n (2 ^ 63) then some (pos n) else none

unfoldable pub negated : Option ℕ → Option ℤ
negated none = none
negated (some zero) = some (pos 0)
negated (some (suc n)) = if ltb n (2 ^ 63) then some (negsuc n) else none

unfoldable pub parse_i64 : String → Option ℤ
unfolding unsigned in_i64 negated parse_u64
parse_i64 String.[] = none
parse_i64 (String.◌∷◌ c s) =
    if eqb (code c) b'-' then negated (unsigned s) else in_i64 (parse_u64 (String.◌∷◌ c s))
