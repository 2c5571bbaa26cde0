-- ===== src/Api/Middleware.antt =====
-- api/mod.rs: the resolution of a request's credentials.
use chuk_mcp_training.Base.{
  ℕ, ◌/◌, String, ◌==◌, Bool, true, false, not, ◌&&◌, Option, none, some, List, [], ◌∷◌,
  if◌then◌else◌,
}
use chuk_mcp_training.Base.Text.{strip_prefix}
use chuk_mcp_training.Proto.Constants.{default_team_id}
use chuk_mcp_training.Proto.Role.{read, sysadmin, User, ApiKeyInfo}
use chuk_mcp_training.Store.Tables.{Store}
use chuk_mcp_training.Store.Tokens.{is_null}
use chuk_mcp_training.Store.Auth.{resolve_api_key, touch_api_key, get_user}
use chuk_mcp_training.Auth.Cookies.{Codec, Settings, session_email}
use chuk_mcp_training.Api.Answers.{AuthContext}

-- The headers that are read, each with its text where there is one.
pub record Headers : Type 0 where
  pub authorization : Option String
  pub cookie : Option String

-- MASTER_TOKEN_SENTINEL
abbrev pub master_token_sentinel : String
master_token_sentinel = "master-token"

-- The bearer token
unfoldable pub bearer : Headers → Option String
bearer headers = elim (headers.authorization) [ none ↦ none | some v ↦ strip_prefix "Bearer " v ]

abbrev pub is_empty : List String → Bool
is_empty [] = true
is_empty (x ∷ xs) = false

-- Config::auth_enabled
unfoldable pub auth_enabled : Settings → Bool
auth_enabled settings =
    not (is_null settings.google_client_id)
    && (not (is_null settings.google_client_secret) && not (is_empty settings.allowed_emails))

-- What the master token is.
abbrev pub master : AuthContext
master = record {
  role = sysadmin;
  team_id = default_team_id;
  subject = master_token_sentinel;
  owner_email = master_token_sentinel;
}

-- What a scoped key is.
unfoldable pub context_of_key : ApiKeyInfo → AuthContext
context_of_key info = record {
  role = info.role;
  team_id = info.team_id;
  subject = info.prefix;
  owner_email = info.created_by;
}

-- What the user of a session is.
unfoldable pub context_of_session : String → Option User → AuthContext
context_of_session email none = record {
  role = read;
  team_id = default_team_id;
  subject = email;
  owner_email = email;
}
context_of_session email (some u) = record {
  role = u.role;
  team_id = u.team_id;
  subject = email;
  owner_email = email;
}

module _ (codec : Codec) (settings : Settings) (hash_token : String → String) where
  -- The session arm, at a time in milliseconds.
  unfoldable pub resolve_session : ℕ → Headers → Store → Option AuthContext
  unfolding auth_enabled session_email get_user context_of_session
  resolve_session now headers s =
      if auth_enabled settings
      then elim (session_email codec settings (now / 1000) headers.cookie) [
        | none ↦ none
        | some email ↦ some (context_of_session email (get_user email s))
      ]
      else none

  -- The arm of a scoped key.
  unfoldable pub resolve_key : ℕ → Headers → Option ApiKeyInfo → Store → Store × Option AuthContext
  unfolding context_of_key touch_api_key resolve_session
  resolve_key now headers none s = (s, resolve_session now headers s)
  resolve_key now headers (some info) s = (touch_api_key info.id now s, some (context_of_key info))

  -- The arms of a token.
  unfoldable pub resolve_token : ℕ → Headers → String → Store → Store × Option AuthContext
  unfolding resolve_key resolve_api_key
  resolve_token now headers token s =
      if token == settings.api_token
      then (s, some master)
      else resolve_key now headers (resolve_api_key (hash_token token) s) s

  -- resolve_auth
  unfoldable pub resolve_auth : ℕ → Headers → Store → Store × Option AuthContext
  unfolding bearer resolve_token resolve_session
  resolve_auth now headers s = elim (bearer headers) [
    | none ↦ (s, resolve_session now headers s)
    | some token ↦ resolve_token now headers token s
  ]
