-- ===== src/Examples/SignIns.antt =====
-- The theorem of Auth/Sessions with a codec that writes no dots.
use Prim.Native.Char.{Char, code}
use Prim.Native.Nat.{compare, Ordering}
use mathlib.Core.Option
use text.Mathlib.TextEquality.{codes_equal}
use text.Mathlib.TextPositions.{eq_refl}
use chuk_mcp_training.Base.{
  String, ◌==◌, ◌≡◌, refl, sym, ap, true, false, not, Option, none, some, [], ◌∷◌, eqb, inl, inr,
  Bool-cases, arith, if◌then◌else◌,
}
use chuk_mcp_training.Base.Text.{all_chars}
use chuk_mcp_training.Auth.Cookies.{Codec, Settings, session_of, is_allowed}
use chuk_mcp_training.Auth.SignIn.{session_cookie}
use chuk_mcp_training.Auth.Sessions.{Laws, session_of-session_cookie}

-- Each character behind a mark, and a dot as a marked letter.
escape : String → String
escape String.[] = ""
escape (String.◌∷◌ c s) =
    let rest = escape s in
    if eqb (code c) b'.'
    then String.◌∷◌ "1" (String.◌∷◌ "d" rest)
    else String.◌∷◌ "0" (String.◌∷◌ c rest)

unescape : String → Option String
unescape String.[] = some ""
unescape (String.◌∷◌ m String.[]) = none
unescape (String.◌∷◌ m (String.◌∷◌ c s)) =
    Option.map (String.◌∷◌ (if eqb (code m) b'1' then "." else c)) (unescape s)

dot : (c : Char) → eqb (code c) b'.' ≡ true → c ≡ "."
dot c e = codes_equal c "." (equal (compare (code c) b'.') e)
  where
    equal : (o : Ordering) → (elim o [ Ordering.eq ↦ true | _ ↦ false ]) ≡ true → o ≡ Ordering.eq
    equal Ordering.eq e = refl
    equal Ordering.lt e = absurd cc
    equal Ordering.gt e = absurd cc

unescape-escape : (s : String) → unescape (escape s) ≡ some s
unfolding escape unescape
unescape-escape String.[] = refl
unescape-escape (String.◌∷◌ c s) = elim (Bool-cases (eqb (code c) b'.')) [
  | inl e ↦
      rw (e, escape) (rw (unescape-escape s) (ap (λ x. some (String.◌∷◌ x s)) (sym (dot c e))))
  | inr e ↦ rw (e, escape) (rw (unescape-escape s) refl)
]

escape-Dotless : (s : String) → all_chars (λ c. not (eqb c b'.')) (escape s) ≡ true
unfolding escape all_chars
escape-Dotless String.[] = refl
escape-Dotless (String.◌∷◌ c s) = elim (Bool-cases (eqb (code c) b'.')) [
  | inl e ↦ rw (e, escape) (escape-Dotless s)
  | inr e ↦ rw (e, escape) (rw e (escape-Dotless s))
]

abbrev codec : Codec
codec = record {
  Mac = String;
  encode = escape;
  decode = unescape;
  hex_encode = λ m. m;
  hex_decode = λ s. some s;
  hmac = λ key s. key;
  same_mac = λ a b. a == b;
  to_lowercase = λ s. s;
}

laws : Laws codec
laws = record {
  decode-encode = unescape-escape;
  encode-Dotless = escape-Dotless;
  hex_decode-hex_encode = λ m. refl;
  same_mac-refl = eq_refl;
}

abbrev settings : Settings
settings = record {
  api_token = "master";
  allowed_emails = "ann@x.org" ∷ [];
  google_client_id = some "id";
  google_client_secret = some "secret";
  public_url = "https://cp";
  key_encryption_key = none;
}

session_of-session_cookie_example :
    session_of codec settings 5000 (session_cookie codec settings "ann@x.org" 1000).value
    ≡ some "ann@x.org"
unfolding is_allowed all_chars
session_of-session_cookie_example =
    session_of-session_cookie codec laws settings "ann@x.org" 1000 5000 refl (omega arith)
