-- ===== src/Examples/Access.antt =====
-- Requests to the API by a writer's key, and the theorems of Api at them.
use chuk_mcp_training.Base.{
  ◌⊎◌, IsIn, length, map, String, ◌==◌, ◌≡◌, ◌≢◌, refl, false, none, some, List, [], ◌∷◌, arith,
  modify,
}
use chuk_mcp_training.Base.Text.{strip_prefix}
use chuk_mcp_training.Proto.Role.{read, write, admin, as_str, ApiKeyInfo}
use chuk_mcp_training.Store.Auth.{list_api_keys, resolve_api_key, revoke_api_key}
use chuk_mcp_training.Leases.Manager.{Manager}
use chuk_mcp_training.Auth.Cookies.{Codec, Settings}
use chuk_mcp_training.Api.Answers.{
  forbidden, text, error, AuthContext, may, ◌>>=◌, ◌>>◌, reads, refuse_if, reply, asks, writes,
  call, refuse,
}
use chuk_mcp_training.Api.Middleware.{Headers, bearer}
use chuk_mcp_training.Api.Access.{revoke_api_key_handler, create_api_key_handler, CreatedApiKey}
use chuk_mcp_training.Api.Router.{
  post_apikeys, post_users, Request, App, handle, authenticate, serve_all,
}
use chuk_mcp_training.Api.Ceiling.{AtMost, serve_all-AtMost}
use chuk_mcp_training.Api.Revocation.{beyond, revoke_api_key_handler-Revoked}
use chuk_mcp_training.Api.Guards.{handle-forbidden}
use chuk_mcp_training.Api.Minting.{authenticate-create_api_key_handler}
use chuk_mcp_training.Examples.LeaseData.{World, out, verify, config, manager_at}

abbrev codec : Codec
codec = record {
  Mac = String;
  encode = λ s. s;
  decode = λ s. some s;
  hex_encode = λ m. m;
  hex_decode = λ s. some s;
  hmac = λ key s. key;
  same_mac = λ a b. a == b;
  to_lowercase = λ s. s;
}

abbrev settings : Settings
settings = record {
  api_token = "master";
  allowed_emails = [];
  google_client_id = none;
  google_client_secret = none;
  public_url = "https://cp";
  key_encryption_key = none;
}

abbrev app : App World
app = record {
  out = out;
  codec = codec;
  settings = settings;
  config = config;
  verify = verify;
  encrypt = λ key s w. (w, s);
}

abbrev key_info : ApiKeyInfo
key_info = record {
  id = "k1";
  team_id = "default";
  created_by = "ann";
  name = "ci";
  prefix = "ck_01234567";
  role = write;
  created_at = 1;
  last_used_at = none;
  revoked_at = none;
}

abbrev start : Manager World
start = record (manager_at 0 []) {
  hub = record ((manager_at 0 []).hub) {
    store = record ((manager_at 0 []).hub.store) {
      api_keys =
          record { key_hash = "ck_1"; info = key_info }
          ∷ record { key_hash = "ck_2"; info = record key_info { id = "k2" } }
          ∷ [];
    };
  };
}

abbrev ann : AuthContext
ann = record { role = write; team_id = "default"; subject = "ann"; owner_email = "ann" }

abbrev by_key : Headers
by_key = record { authorization = some "Bearer ck_1"; cookie = none }

abbrev requests : List Request
requests =
    record { headers = by_key; route = post_apikeys (record { name = "mine"; role = read }) }
    ∷ record { headers = by_key; route = post_users (record { email = "bob"; role = write }) }
    ∷ []

by_key-unprivileged : bearer by_key ≢ some settings.api_token
unfolding bearer strip_prefix
by_key-unprivileged e = absurd cc

serve_all-AtMost_example : AtMost write (authenticate app by_key (serve_all app requests start)).1
serve_all-AtMost_example =
    serve_all-AtMost app write requests by_key start (tt, (omega arith, (omega arith, tt)))
      (by_key-unprivileged, (by_key-unprivileged, tt)) by_key-unprivileged

-- The key that revoked itself is gone, and the other one still resolves.
revoke_api_key_handler-Revoked_example :
    (("k2" == "k1") ≡ false)
    ⊎ IsIn
        (record key_info { id = "k2"; last_used_at = none })
        (map
          (λ k. k.info)
          (beyond
            (length (revoke_api_key_handler app.out ann "k1" start).0.hub.store.api_keys)
            (serve_all app requests
              (revoke_api_key_handler app.out ann "k1" start).0).hub.store.api_keys))
unfolding revoke_api_key_handler ◌>>=◌ reads list_api_keys ◌>>◌ refuse_if reply asks writes
    revoke_api_key resolve_api_key serve_all strip_prefix modify refuse
revoke_api_key_handler-Revoked_example =
    revoke_api_key_handler-Revoked app "k1" ann start requests refl "ck_2"
      (record key_info { id = "k2"; last_used_at = none }) refl

handle-forbidden_example :
    handle app ann (post_users (record { email = "bob"; role = write })) start
    ≡ (start, error forbidden (text "requires admin role"))
unfolding may as_str
handle-forbidden_example =
    handle-forbidden app ann (post_users (record { email = "bob"; role = write })) admin start refl
      refl

abbrev created : CreatedApiKey
created = record {
  key = "ck_0123456789abcdef0123456789abcdef";
  info = record {
    id = "0123456789abcdef";
    team_id = "default";
    created_by = "ann";
    name = "mine";
    prefix = "ck_01234567";
    role = read;
    created_at = 0;
    last_used_at = none;
    revoked_at = none;
  };
}

abbrev by_new_key : Headers
by_new_key = record {
  authorization = some "Bearer ck_0123456789abcdef0123456789abcdef";
  cookie = none;
}

authenticate-create_api_key_handler_example :
    (authenticate app by_new_key
      (create_api_key_handler app.out ann (record { name = " mine"; role = read }) start).0).1
    ≡ some
        (record { role = read; team_id = "default"; subject = "ck_01234567"; owner_email = "ann" })
unfolding create_api_key_handler ◌>>◌ ◌>>=◌ refuse_if reply call asks writes bearer strip_prefix
authenticate-create_api_key_handler_example =
    authenticate-create_api_key_handler app ann (record { name = " mine"; role = read }) start
      created by_new_key refl (refl, (refl, tt)) refl (λ e. absurd cc)
