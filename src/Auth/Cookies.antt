-- ===== src/Auth/Cookies.antt =====
-- auth.rs: signed cookies and the email of a session. Times are in seconds here.
use Prim.Native.String.{◌++◌}
use chuk_mcp_training.Base.{
  ℕ, String, ◌==◌, Bool, true, false, Option, none, some, List, [], ◌∷◌, any, ltb, if◌then◌else◌,
}
use chuk_mcp_training.Base.Int.{ℤ, pos, negsuc}
use chuk_mcp_training.Base.Text.{split, split_once, trim}
use chuk_mcp_training.Base.Decimal.{parse_i64}

-- The codecs of other crates and of the standard library: base64url without padding, whose decoding also
-- checks for UTF-8, hexadecimal, HMAC-SHA256 with its comparison, and the lower case of a text.
pub record Codec : Type 1 where
  pub Mac : Type 0
  pub encode : String → String
  pub decode : String → Option String
  pub hex_encode : Mac → String
  pub hex_decode : String → Option Mac
  pub hmac : String → String → Mac
  pub same_mac : Mac → Mac → Bool
  pub to_lowercase : String → String

-- The part of Config that signing in reads.
pub record Settings : Type 0 where
  pub api_token : String
  pub allowed_emails : List String
  pub google_client_id : Option String
  pub google_client_secret : Option String
  pub public_url : String
  pub key_encryption_key : Option String

-- `exp < now`
unfoldable pub is_past : ℤ → ℕ → Bool
is_past (pos n) now = ltb n now
is_past (negsuc n) now = true

-- The closure of cookie_from, on one part of the header.
unfoldable pub value_of : String → Option (String × String) → Option String
value_of name none = none
value_of name (some kv) = if kv.0 == name then some kv.1 else none

-- find_map over the parts
unfoldable pub find_value : String → List String → Option String
unfolding value_of
find_value name [] = none
find_value name (part ∷ parts) =
    let rest = find_value name parts in
    elim (value_of name (split_once b'=' (trim part))) [ none ↦ rest | some v ↦ some v ]

-- cookie_from, of the header's text where it has one
unfoldable pub cookie_from : Option String → String → Option String
unfolding find_value
cookie_from none name = none
cookie_from (some header) name = find_value name (split b';' header)

module _ (codec : Codec) where
  open codec use {encode, decode, hex_encode, hex_decode, hmac, same_mac, to_lowercase}

  -- hmac_hex
  unfoldable pub hmac_hex : String → String → String
  hmac_hex key content = hex_encode (hmac key content)

  -- hmac_ok
  unfoldable pub hmac_ok : String → String → String → Bool
  hmac_ok key content sig_hex = elim (hex_decode sig_hex) [
    | none ↦ false
    | some sig ↦ same_mac (hmac key content) sig
  ]

  -- sign
  unfoldable pub sign : String → String → String
  unfolding hmac_hex
  sign key payload = encode payload ++ "." ++ hmac_hex key payload

  -- unsign once the token is split
  unfoldable pub verified : String → String → Option String → Option String
  unfolding hmac_ok
  verified key sig none = none
  verified key sig (some payload) = if hmac_ok key payload sig then some payload else none

  unfoldable pub unsign_parts : String → Option (String × String) → Option String
  unfolding verified
  unsign_parts key none = none
  unsign_parts key (some (b64, sig)) = verified key sig (decode b64)

  -- unsign
  unfoldable pub unsign : String → String → Option String
  unfolding unsign_parts
  unsign key token = unsign_parts key (split_once b'.' token)

  -- is_allowed
  unfoldable pub is_allowed : Settings → String → Bool
  is_allowed settings email = any (λ a. a == to_lowercase email) settings.allowed_emails

  -- session_email from its split payload on
  unfoldable pub email_until : Settings → ℕ → String → Option ℤ → Option String
  unfolding is_allowed is_past
  email_until settings now email none = none
  email_until settings now email (some exp) =
      if is_past exp now then none else (if is_allowed settings email then some email else none)

  unfoldable pub session_parts : Settings → ℕ → Option (String × String) → Option String
  unfolding email_until
  session_parts settings now none = none
  session_parts settings now (some (email, exp)) = email_until settings now email (parse_i64 exp)

  -- session_email from a session cookie's value on
  unfoldable pub session_of : Settings → ℕ → String → Option String
  unfolding unsign session_parts
  session_of settings now raw = elim (unsign settings.api_token raw) [
    | none ↦ none
    | some payload ↦ session_parts settings now (split_once b'|' payload)
  ]

  -- session_email, of the request's cookie header
  unfoldable pub session_email : Settings → ℕ → Option String → Option String
  unfolding cookie_from session_of
  session_email settings now header = elim (cookie_from header "chuk_session") [
    | none ↦ none
    | some raw ↦ session_of settings now raw
  ]
