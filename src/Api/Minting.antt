-- ===== src/Api/Minting.antt =====
-- What a minted API key authenticates (api/access.rs create_api_key, api/mod.rs resolve_auth).
use chuk_mcp_training.Base.{
  String, ◌==◌, Bool, true, false, ◌&&◌, ◌≡◌, ◌≢◌, refl, ap, ◌∙◌, subst, none, some, All,
  All-implies, find-append, eq_refl, eq-false_of_ne,
}
use chuk_mcp_training.Proto.Role.{ApiKeyInfo, ApiKey}
use chuk_mcp_training.Store.Tables.{Store}
use chuk_mcp_training.Store.Tokens.{is_null}
use chuk_mcp_training.Store.Auth.{create_api_key, resolve_api_key}
use chuk_mcp_training.Leases.Manager.{Manager}
use chuk_mcp_training.Leases.Spending.{generate_with_prefix}
use chuk_mcp_training.Api.Answers.{
  Status, Message, Answer, json, error, AuthContext, ◌>>=◌, ◌>>◌, reply, refuse, refuse_if, asks,
  writes, call,
}
use chuk_mcp_training.Api.Middleware.{
  Headers, bearer, context_of_key, resolve_key, resolve_token, resolve_auth,
}
use chuk_mcp_training.Api.Access.{
  CreateApiKeyRequest, CreatedApiKey, new_key, mint_key, create_api_key_handler, execute, now,
}
use chuk_mcp_training.Api.Router.{App, authenticate}

abbrev unwrapped : CreatedApiKey → Answer CreatedApiKey → CreatedApiKey
unwrapped d (json a) = a
unwrapped d (error s m) = d

abbrev is_row : String → ApiKey → Bool
is_row hash k = (k.key_hash == hash) && is_null k.info.revoked_at

module _ {W : Type 0} (app : App W) (ctx : AuthContext) where
  -- The row that a minted key leaves resolves by its hash.
  resolve_api_key-create_api_key :
      (hash : String) (info : ApiKeyInfo) (s : Store)
      → All (λ k. (k.key_hash == hash) ≡ false) s.api_keys
      → info.revoked_at ≡ none
      → resolve_api_key hash (create_api_key hash info s) ≡ some info
  unfolding resolve_api_key create_api_key
  resolve_api_key-create_api_key hash info s h e =
      ap (λ o. elim o [ none ↦ none | some k ↦ some k.info ])
        (find-append (is_row hash) s.api_keys (record { key_hash = hash; info = info })
          (All-implies _ _ (λ k f. rw f refl) s.api_keys h) (rw (eq_refl hash, e) refl))

  -- The context of a bearer of a key that resolves.
  authenticate-key :
      (token : String) (info : ApiKeyInfo) (headers : Headers) (g : Manager W)
      → bearer headers ≡ some token
      → token ≢ app.settings.api_token
      → resolve_api_key (app.out.hash_token token) g.hub.store ≡ some info
      → (authenticate app headers g).1 ≡ some (context_of_key info)
  unfolding authenticate resolve_auth resolve_token resolve_key
  authenticate-key token info headers g b other e =
      rw (b, authenticate, resolve_auth)
        (rw (eq-false_of_ne token app.settings.api_token other, resolve_token)
          (rw (e, resolve_key) refl))

  -- What is said of a key that was created in a state, by the state after.
  abbrev Minted : CreateApiKeyRequest → Manager W → Store → CreatedApiKey → Type 0
  Minted request g after created =
      All (λ k. (k.key_hash == app.out.hash_token created.key) ≡ false) g.hub.store.api_keys
      → (context_of_key created.info ≡ record {
        role = request.role;
        team_id = ctx.team_id;
        subject = created.info.prefix;
        owner_email = ctx.subject;
      })
        × (resolve_api_key (app.out.hash_token created.key) after ≡ some created.info)

  created-Minted :
      (b c : Bool) (s t : Status) (m n : Message) (request : CreateApiKeyRequest) (g : Manager W)
      (created : CreatedApiKey)
      → ((refuse_if b s m >> (refuse_if c t n >> mint_key app.out ctx request)) g).1 ≡ json created
      → Minted request g
          ((refuse_if b s m >> (refuse_if c t n >> mint_key app.out ctx request)) g).0.hub.store
          created
  unfolding refuse_if ◌>>◌ ◌>>=◌ refuse reply mint_key call execute now asks writes
      generate_with_prefix new_key context_of_key
  created-Minted true c s t m n request g created e = absurd cc
  created-Minted false true s t m n request g created e = absurd cc
  created-Minted false false s t m n request g created e =
      subst (Minted request g _) (ap (unwrapped created) e)
        (λ h. (refl, resolve_api_key-create_api_key _ _ g.hub.store h refl))

  -- A key that was minted, with a hash that no key had, authenticates the bearer as its role in the
  -- caller's team, on behalf of the caller.
  pub authenticate-create_api_key_handler :
      (request : CreateApiKeyRequest) (g : Manager W) (created : CreatedApiKey) (headers : Headers)
      → (create_api_key_handler app.out ctx request g).1 ≡ json created
      → All (λ k. (k.key_hash == app.out.hash_token created.key) ≡ false) g.hub.store.api_keys
      → bearer headers ≡ some created.key
      → created.key ≢ app.settings.api_token
      → (authenticate app headers (create_api_key_handler app.out ctx request g).0).1
        ≡ some (record {
          role = request.role;
          team_id = ctx.team_id;
          subject = created.info.prefix;
          owner_email = ctx.subject;
        })
  unfolding create_api_key_handler
  authenticate-create_api_key_handler request g created headers e unused b other =
      let (same, resolved) = created-Minted _ _ _ _ _ _ request g created e unused in
      authenticate-key created.key created.info headers _ b other resolved ∙ ap some same
