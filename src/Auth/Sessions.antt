-- ===== src/Auth/Sessions.antt =====
-- What a signed cookie says when it comes back (auth.rs).
use Prim.Native.Nat.{◌^◌}
use Prim.Native.Char.{Char, code}
use Prim.Native.String.append
use Prim.Native.String.{◌++◌}
use chuk_mcp_training.Base.{
  ℕ, ◌+◌, ◌<◌, String, Bool, true, false, not, ◌&&◌, ◌≡◌, refl, ap, ◌∙◌, none, some, eqb, leb, ltb,
  lt→ltb, Bool-cases, inl, inr, arith, if◌then◌else◌,
}
use chuk_mcp_training.Base.Int.{pos}
use chuk_mcp_training.Base.Text.{split_once, all_chars}
use chuk_mcp_training.Base.Decimal.{show_ℕ, parse_i64, parse_u64, in_i64}
use chuk_mcp_training.Base.Digits.{is_digits, show_ℕ-Digits, parse_u64-show_ℕ}
use chuk_mcp_training.Auth.Cookies.{
  Codec, Settings, hmac_hex, hmac_ok, sign, verified, unsign_parts, unsign, is_allowed, is_past,
  email_until, session_parts, session_of,
}
use chuk_mcp_training.Auth.SignIn.{session_ttl, until, session_cookie}

-- What the code relies on of the codecs.
pub record Laws (codec : Codec) : Type 0 where
  pub decode-encode : (s : String) → codec.decode (codec.encode s) ≡ some s
  pub encode-Dotless : (s : String) → all_chars (λ c. not (eqb c b'.')) (codec.encode s) ≡ true
  pub hex_decode-hex_encode : (m : codec.Mac) → codec.hex_decode (codec.hex_encode m) ≡ some m
  pub same_mac-refl : (m : codec.Mac) → codec.same_mac m m ≡ true

-- A text is split at the first of the characters that follows it.
split_once-append :
    (at : ℕ) (a : String) (c : Char) (s : String)
    → all_chars (λ x. not (eqb x at)) a ≡ true
    → eqb (code c) at ≡ true
    → split_once at (a ++ String.◌∷◌ c s) ≡ some (a, s)
unfolding split_once all_chars
split_once-append at String.[] c s h e = rw (append.nil (String.◌∷◌ c s)) (rw e refl)
split_once-append at (String.◌∷◌ x a) c s h e = elim (Bool-cases (eqb (code x) at)) [
  | inl f ↦ absurd (cc (rw f at h))
  | inr f ↦
      rw (append.cons x a (String.◌∷◌ c s))
        (rw (split_once-append at a c s (rw f at h) e) (rw f refl))
]

-- The same for a separator of one character, as `format!` writes it.
split_once-format :
    (at : ℕ) (a : String) (c : Char) (s : String)
    → all_chars (λ x. not (eqb x at)) a ≡ true
    → eqb (code c) at ≡ true
    → split_once at (a ++ (String.◌∷◌ c "" ++ s)) ≡ some (a, s)
split_once-format at a c s h e =
    ap (λ x. split_once at (a ++ x)) (append.cons c "" s ∙ ap (String.◌∷◌ c) (append.nil s))
    ∙ split_once-append at a c s h e

no_minus : (k : ℕ) (rest : Bool) → ((leb 48 k && leb k 57) && rest) ≡ true → eqb k b'-' ≡ false
no_minus k rest e = ground (arith, e)

parse_i64-digits : (s : String) → is_digits s ≡ true → parse_i64 s ≡ in_i64 (parse_u64 s)
unfolding is_digits all_chars in_i64 parse_i64
parse_i64-digits String.[] e = refl
parse_i64-digits (String.◌∷◌ c s) e = rw (no_minus (code c) _ e) refl

-- A number that an i64 holds is read back from its print.
parse_i64-show_ℕ : (n : ℕ) → n < 2 ^ 63 → parse_i64 (show_ℕ n) ≡ some (pos n)
unfolding in_i64
parse_i64-show_ℕ n h =
    parse_i64-digits (show_ℕ n) (show_ℕ-Digits n)
    ∙ ap in_i64 (parse_u64-show_ℕ n (omega (arith, h)))
    ∙ rw (lt→ltb n (2 ^ 63) h) refl

module _ (codec : Codec) (laws : Laws codec) where
  unsign-sign : (key payload : String) → unsign codec key (sign codec key payload) ≡ some payload
  unfolding unsign sign hmac_hex verified hmac_ok unsign_parts
  unsign-sign key payload =
      rw
        (split_once-format b'.' (codec.encode payload) "."
          (codec.hex_encode (codec.hmac key payload)) (laws.encode-Dotless payload) refl)
        (rw (laws.decode-encode payload) (
          rw (laws.hex_decode-hex_encode (codec.hmac key payload), hmac_ok)
            (rw (laws.same_mac-refl (codec.hmac key payload)) refl)))

  split_once-until :
      (subject : String) (expiry : ℕ)
      → all_chars (λ c. not (eqb c b'|')) subject ≡ true
      → split_once b'|' (until subject expiry) ≡ some (subject, show_ℕ expiry)
  unfolding until
  split_once-until subject expiry h = split_once-format b'|' subject "|" (show_ℕ expiry) h refl

  module _ (settings : Settings) where
    -- The session cookie of an email without a bar says the email up to its expiry, while the email is on
    -- the list, and nothing after.
    pub session_of-session_cookie :
        (email : String) (now later : ℕ)
        → all_chars (λ c. not (eqb c b'|')) email ≡ true
        → now + session_ttl < 2 ^ 63
        → session_of codec settings later (session_cookie codec settings email now).value ≡ (
            if ltb (now + session_ttl) later
            then none
            else (if is_allowed codec settings email then some email else none))
    unfolding session_of session_cookie session_parts email_until is_past
    session_of-session_cookie email now later h small =
        rw (unsign-sign settings.api_token (until email (now + session_ttl)), session_of)
          (rw (split_once-until email (now + session_ttl) h)
            (rw (parse_i64-show_ℕ (now + session_ttl) small) refl))
