-- ===== src/Gate/Parse.antt =====
-- gate.rs: `valid_key` and `parse`. The parser of an `f64` is the standard library's, a parameter; an
-- error is told by its message's kind.
use chuk_mcp_training.Base.{
  ℕ, String, ◌==◌, Bool, true, false, not, ◌&&◌, ◌||◌, Option, none, some, eqb,
}
use chuk_mcp_training.Base.Int.{pos}
use chuk_mcp_training.Base.Float.{F64, fin, lt_f64, is_finite}
use chuk_mcp_training.Base.Text.{
  strip_prefix, strip_suffix, split_once, trim, all_chars, is_ascii_alphanumeric,
}
use chuk_mcp_training.Gate.Expr.{CmpOp, gt, ge, lt, le, GateExpr, is_nan, no_improve, threshold}

pub data ParseError : Type 0 where
  malformed invalid_key needs_window wrong_unit not_a_number not_positive : ParseError
  unsupported_operator unrecognised : ParseError

pub data Parsed {ℓ} (A : Type ℓ) : Type ℓ where
  parsed : A → Parsed A
  refused : ParseError → Parsed A

infixl 5 ◌>>=◌
abbrev pub ◌>>=◌ {ℓ κ} : {A : Type ℓ} {B : Type κ} → Parsed A → (A → Parsed B) → Parsed B
parsed a >>= f = f a
refused e >>= f = refused e

-- ok_or_else
abbrev pub ok_or {ℓ} : {A : Type ℓ} → ParseError → Option A → Parsed A
ok_or e none = refused e
ok_or e (some a) = parsed a

abbrev pub require : Bool → ParseError → Parsed (Unit {0})
require true e = parsed tt
require false e = refused e

is_key_char : ℕ → Bool
unfolding is_ascii_alphanumeric
is_key_char c = is_ascii_alphanumeric c || eqb c b'_' || eqb c b'-' || eqb c b'/' || eqb c b'.'

unfoldable pub valid_key : String → Bool
unfolding is_key_char all_chars
valid_key key = not (key == "") && all_chars is_key_char key

-- `isnan(last(` stripped: the rest up to `))` is the key.
parse_is_nan : String → Parsed GateExpr
unfolding valid_key strip_suffix trim
parse_is_nan rest = do
  inner ← ok_or malformed (strip_suffix "))" rest)
  key ← parsed (trim inner)
  checked ← require (valid_key key) invalid_key
  parsed (is_nan key)

abbrev zero_f64 : F64
zero_f64 = fin (pos 0)

module _ (parse_f64 : String → Option F64) where
  parse_no_improve : String → Parsed GateExpr
  unfolding valid_key strip_suffix split_once trim lt_f64 is_finite
  parse_no_improve rest = do
    inner ← ok_or malformed (strip_suffix ")" rest)
    pair ← ok_or needs_window (split_once b',' inner)
    key ← parsed (trim pair.0)
    checked ← require (valid_key key) invalid_key
    minutes ← ok_or wrong_unit (strip_suffix "min" (trim pair.1))
    window_min ← ok_or not_a_number (parse_f64 (trim minutes))
    positive ← require (is_finite window_min && lt_f64 zero_f64 window_min) not_positive
    parsed (no_improve key window_min)

  -- Longest match first.
  operator : String → Parsed (CmpOp × String)
  unfolding strip_prefix
  operator comparison = elim (strip_prefix ">=" comparison) [
    | some v ↦ parsed (ge, v)
    | none ↦ elim (strip_prefix "<=" comparison) [
      | some v ↦ parsed (le, v)
      | none ↦ elim (strip_prefix ">" comparison) [
        | some v ↦ parsed (gt, v)
        | none ↦ elim (strip_prefix "<" comparison) [
          | some v ↦ parsed (lt, v)
          | none ↦ refused unsupported_operator
        ]
      ]
    ]
  ]

  parse_threshold : String → Parsed GateExpr
  unfolding valid_key split_once trim operator
  parse_threshold rest = do
    pair ← ok_or malformed (split_once b')' rest)
    key ← parsed (trim pair.0)
    checked ← require (valid_key key) invalid_key
    op ← operator (trim pair.1)
    value ← ok_or not_a_number (parse_f64 (trim op.1))
    parsed (threshold key op.0 value)

  unfoldable pub parse : String → Parsed GateExpr
  unfolding strip_prefix trim parse_is_nan parse_no_improve parse_threshold
  parse expr = elim (strip_prefix "isnan(last(" (trim expr)) [
    | some rest ↦ parse_is_nan rest
    | none ↦ elim (strip_prefix "no_improve(" (trim expr)) [
      | some rest ↦ parse_no_improve rest
      | none ↦ elim (strip_prefix "last(" (trim expr)) [
        | some rest ↦ parse_threshold rest
        | none ↦ refused unrecognised
      ]
    ]
  ]
