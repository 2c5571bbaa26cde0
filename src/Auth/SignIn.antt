-- ===== src/Auth/SignIn.antt =====
-- auth.rs: login and callback.
use Prim.Native.Nat.{◌+◌}
use Prim.Native.String.{◌++◌}
use Prim.Native.Char.{code}
use chuk_mcp_training.Base.{
  ℕ, String, ◌==◌, Bool, false, not, ◌&&◌, Option, none, some, if◌then◌else◌,
}
use chuk_mcp_training.Base.Int.{ℤ, pos}
use chuk_mcp_training.Base.Text.{split_once, trim_end_matches}
use chuk_mcp_training.Base.Decimal.{parse_i64, show_ℕ}
use chuk_mcp_training.Auth.Cookies.{Codec, Settings, sign, unsign, cookie_from, is_allowed, is_past}

-- SESSION_TTL and STATE_TTL_SECS, in seconds
abbrev pub session_ttl : ℕ
session_ttl = 604800

abbrev pub state_ttl_secs : ℕ
state_ttl_secs = 600

-- Callback
pub record Callback : Type 0 where
  pub code : Option String
  pub state : Option String

-- UserInfo
pub record UserInfo : Type 0 where
  pub email : String
  pub email_verified : Bool

-- A cookie to set, by its name, its value and its Max-Age.
pub record SetCookie : Type 0 where
  pub name : String
  pub value : String
  pub max_age : ℕ

-- The responses of the sign-in. A redirect goes to a client's page at Google, or back to the dashboard.
pub data SignIn : Type 0 where
  not_configured missing_code bad_state sign_in_failed : SignIn
  not_permitted : String → SignIn
  to_google : String → String → String → SetCookie → SignIn
  to_dashboard : SetCookie → SignIn

-- `n == nonce && exp.parse::<i64>().unwrap_or(0) >= now()`
unfoldable pub unwrap_expiry : Option ℤ → ℤ
unwrap_expiry none = pos 0
unwrap_expiry (some e) = e

unfoldable pub nonce_holds : String → ℕ → Option (String × String) → Bool
unfolding unwrap_expiry is_past
nonce_holds nonce now none = false
nonce_holds nonce now (some (n, exp)) =
    (n == nonce) && not (is_past (unwrap_expiry (parse_i64 exp)) now)

-- Whether the state parameter is that of the signed state cookie.
unfoldable pub ok_state : Option String → ℕ → Option String → Bool
unfolding nonce_holds
ok_state (some nonce) now (some payload) = nonce_holds nonce now (split_once b'|' payload)
ok_state _ now _ = false

-- The redirect_uri of both handlers.
unfoldable pub redirect_uri : Settings → String
unfolding trim_end_matches
redirect_uri settings = trim_end_matches b'/' settings.public_url ++ "/auth/callback"

-- A payload with its expiry.
unfoldable pub until : String → ℕ → String
unfolding show_ℕ
until subject expiry = subject ++ "|" ++ show_ℕ expiry

-- exchange_and_identify, of the user info that the two requests end in
unfoldable pub verified_email : Option UserInfo → Option String
verified_email none = none
verified_email (some info) = if info.email_verified then some info.email else none

module _ (codec : Codec) (settings : Settings) where
  -- login, for a fresh nonce
  unfoldable pub login : String → ℕ → SignIn
  unfolding sign redirect_uri until
  login nonce now = elim (settings.google_client_id) [
    | none ↦ not_configured
    | some client_id ↦ to_google client_id (redirect_uri settings) nonce (record {
      name = "chuk_oauth_state";
      value = sign codec settings.api_token (until nonce (now + state_ttl_secs));
      max_age = state_ttl_secs;
    })
  ]

  -- The payload of the state cookie.
  unfoldable pub state_payload : Option String → Option String
  unfolding cookie_from unsign
  state_payload cookies = elim (cookie_from cookies "chuk_oauth_state") [
    | none ↦ none
    | some c ↦ unsign codec settings.api_token c
  ]

  -- The session cookie of an email.
  unfoldable pub session_cookie : String → ℕ → SetCookie
  unfolding sign until
  session_cookie email now = record {
    name = "chuk_session";
    value = sign codec settings.api_token (until email (now + session_ttl));
    max_age = session_ttl;
  }

  -- complete from the verified email on
  unfoldable pub admit : Option String → ℕ → SignIn
  unfolding is_allowed session_cookie
  admit none now = sign_in_failed
  admit (some email) now =
      if is_allowed codec settings email
      then to_dashboard (session_cookie email now)
      else not_permitted email

  -- complete with the client configured
  unfoldable pub exchange :
      (String → ℕ × Option UserInfo) → Option String → Option String → Option String → ℕ → SignIn
  unfolding ok_state state_payload admit verified_email
  exchange google none state cookies now = missing_code
  exchange google (some code) state cookies now =
      if ok_state state now (state_payload cookies)
      then admit (verified_email (google code).1) (google code).0
      else bad_state

  -- complete, `google` the answer of its two endpoints to a code, with the time after it
  unfoldable pub complete : (String → ℕ × Option UserInfo) → Option String → Callback → ℕ → SignIn
  unfolding exchange
  complete google cookies params now = elim (settings.google_client_id) [
    | none ↦ not_configured
    | some id ↦ elim (settings.google_client_secret) [
      | none ↦ not_configured
      | some secret ↦ exchange google params.code params.state cookies now
    ]
  ]

-- logout
unfoldable pub logout : SignIn
logout = to_dashboard (record { name = "chuk_session"; value = ""; max_age = 0 })
