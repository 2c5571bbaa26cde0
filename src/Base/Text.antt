-- ===== src/Base/Text.antt =====
-- The operations of `str` that the code uses, by recursion on the characters of a native text.
use Prim.Native.Nat.{ℕ, zero, suc}
use Prim.Native.Char.{Char, code}
use Prim.Native.String.{String}
use mathlib.Core.Bool.{Bool, true, ◌&&◌, ◌||◌}
use mathlib.Core.Option
use mathlib.Core.Option.{Option, none, some}
use mathlib.Core.List.{List}
use text.Mathlib.Text.{◌==◌}
use chuk_mcp_training.Base.Tests.{eqb, leb, if◌then◌else◌}

abbrev pub char_eq : Char → ℕ → Bool
char_eq c n = eqb (code c) n

-- str::strip_prefix
unfoldable pub strip_prefix : String → String → Option String
strip_prefix String.[] s = some s
strip_prefix (String.◌∷◌ p ps) String.[] = none
strip_prefix (String.◌∷◌ p ps) (String.◌∷◌ c s) =
    let rest = strip_prefix ps s in if eqb (code p) (code c) then rest else none

-- str::strip_suffix
unfoldable pub strip_suffix : String → String → Option String
strip_suffix suffix String.[] = if "" == suffix then some "" else none
strip_suffix suffix (String.◌∷◌ c s) =
    let rest = Option.map (String.◌∷◌ c) (strip_suffix suffix s) in
    if String.◌∷◌ c s == suffix then some "" else rest

-- str::split_once at a character
unfoldable pub split_once : ℕ → String → Option (String × String)
split_once at String.[] = none
split_once at (String.◌∷◌ c s) =
    let rest = Option.map (λ p. (String.◌∷◌ c p.0, p.1)) (split_once at s) in
    if char_eq c at then some ("", s) else rest

-- str::rsplit_once at a character
unfoldable pub rsplit_once : ℕ → String → Option (String × String)
rsplit_once at String.[] = none
rsplit_once at (String.◌∷◌ c s) = elim (rsplit_once at s) [
  | some p ↦ some (String.◌∷◌ c p.0, p.1)
  | none ↦ if char_eq c at then some ("", s) else none
]

-- str::split at a character
unfoldable pub split : ℕ → String → List String
split at String.[] = List.◌∷◌ "" List.[]
split at (String.◌∷◌ c s) =
    let rest = split at s in
    if char_eq c at
    then List.◌∷◌ "" rest
    else elim rest [ List.[] ↦ List.[] | List.◌∷◌ x xs ↦ List.◌∷◌ (String.◌∷◌ c x) xs ]

-- char::is_whitespace: the code points with the property White_Space
unfoldable pub is_whitespace : ℕ → Bool
is_whitespace c =
    (leb 9 c && leb c 13)
    || eqb c 32
    || eqb c 0x85
    || eqb c 0xa0
    || eqb c 0x1680
    || (leb 0x2000 c && leb c 0x200a)
    || eqb c 0x2028
    || eqb c 0x2029
    || eqb c 0x202f
    || eqb c 0x205f
    || eqb c 0x3000

unfoldable pub trim_start : String → String
unfolding is_whitespace
trim_start String.[] = ""
trim_start (String.◌∷◌ c s) =
    let rest = trim_start s in if is_whitespace (code c) then rest else String.◌∷◌ c s

unfoldable pub trim_end : String → String
unfolding is_whitespace
trim_end String.[] = ""
trim_end (String.◌∷◌ c s) =
    let rest = trim_end s in
    if is_whitespace (code c) && (rest == "") then "" else String.◌∷◌ c rest

-- str::trim
unfoldable pub trim : String → String
unfolding trim_start trim_end
trim s = trim_end (trim_start s)

unfoldable pub all_chars : (ℕ → Bool) → String → Bool
all_chars p String.[] = true
all_chars p (String.◌∷◌ c s) = p (code c) && all_chars p s

-- char::is_ascii_alphanumeric
unfoldable pub is_ascii_alphanumeric : ℕ → Bool
is_ascii_alphanumeric c =
    (leb b'0' c && leb c b'9') || (leb b'A' c && leb c b'Z') || (leb b'a' c && leb c b'z')

-- The first characters of a text of ASCII: a slice `[..n]`.
unfoldable pub take_chars : ℕ → String → String
take_chars zero s = ""
take_chars (suc n) String.[] = ""
take_chars (suc n) (String.◌∷◌ c s) = String.◌∷◌ c (take_chars n s)

-- str::trim_end_matches of a character
unfoldable pub trim_end_matches : ℕ → String → String
trim_end_matches at String.[] = ""
trim_end_matches at (String.◌∷◌ c s) =
    let rest = trim_end_matches at s in
    if (rest == "") && char_eq c at then "" else String.◌∷◌ c rest

-- str::len of a text of ASCII
unfoldable pub text_length : String → ℕ
text_length String.[] = 0
text_length (String.◌∷◌ c s) = suc (text_length s)
