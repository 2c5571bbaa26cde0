-- ===== src/Api/Revocation.antt =====
-- A revoked API key stays revoked (api/access.rs revoke_api_key, api/mod.rs resolve_auth).
use mathlib.Core.Option.{some-injective}
use chuk_mcp_training.Base.{
  ℕ, String, ◌==◌, Bool, true, false, ◌&&◌, ◌≡◌, refl, subst, Option, none, some, List, [], ◌∷◌,
  All, All-modify, zero, suc, ◌⊎◌, length, map, ◌++◌, IsIn, find-IsIn, IsIn-map, modify,
  if◌then◌else◌, find, inl, inr, Bool-cases, Option-cases, arith,
}
use chuk_mcp_training.Proto.Role.{User, ApiKeyInfo, ApiKey}
use chuk_mcp_training.Store.Tables.{Store}
use chuk_mcp_training.Store.Tokens.{is_null}
use chuk_mcp_training.Store.Auth.{
  upsert_user, remove_user, list_api_keys, create_api_key, is_live_key, revoke_api_key,
  resolve_api_key, touch_api_key, set_user_experiments_key,
}
use chuk_mcp_training.Leases.Manager.{Manager}
use chuk_mcp_training.Api.Answers.{
  Status, Message, asks, reads, writes, json, AuthContext, ◌>>=◌, ◌>>◌, reply, refuse, refuse_if,
}
use chuk_mcp_training.Api.Middleware.{Headers, bearer, resolve_key, resolve_token, resolve_auth}
use chuk_mcp_training.Api.Access.{now, changed, execute, revoke_found, revoke_api_key_handler}
use chuk_mcp_training.Api.Router.{Request, Route, App, authenticate, admitted, serve, serve_all}
use chuk_mcp_training.Api.Keeps.{Holds, Keeps, Keeps-refuse}
use chuk_mcp_training.Api.Tables.{Closed, Keeps-handle}

-- Every row of the key is revoked.
abbrev pub Revoked : String → List User → List ApiKey → Type 0
Revoked id users keys = All (λ k. (k.info.id == id) ≡ true → is_null k.info.revoked_at ≡ false) keys

Revoked-revoke_api_key :
    (at : ℕ) (id : String) (s : Store) → Holds (Revoked id) (revoke_api_key at id s).0
unfolding revoke_api_key
Revoked-revoke_api_key at id s =
    All-modify _ (is_live_key id) _ (λ k e f. refl) (λ k e f. unpicked k e f) s.api_keys
  where
    unpicked :
        (k : ApiKey)
        → is_live_key id k ≡ false
        → (k.info.id == id) ≡ true
        → is_null k.info.revoked_at ≡ false
    unpicked k e f = ground (arith, e, f)

-- A row of the key is revoked.
abbrev Dead : String → ApiKey → Type 0
Dead id k = (k.info.id == id) ≡ true → is_null k.info.revoked_at ≡ false

-- The first rows of the table are there, and those of the key among them are revoked.
abbrev Frozen : String → ℕ → List User → List ApiKey → Type 0
Frozen id zero users keys = Unit {0}
Frozen id (suc n) users [] = ⊥
Frozen id (suc n) users (k ∷ ks) = Dead id k × Frozen id n users ks

-- The rows that follow the first ones.
abbrev pub beyond {ℓ} : {A : Type ℓ} → ℕ → List A → List A
beyond zero xs = xs
beyond (suc n) [] = []
beyond (suc n) (x ∷ xs) = beyond n xs

Frozen-Revoked :
    (id : String) (users : List User) (keys : List ApiKey)
    → Revoked id users keys
    → Frozen id (length keys) users keys
Frozen-Revoked id users [] h = tt
Frozen-Revoked id users (k ∷ ks) h = (h.0, Frozen-Revoked id users ks h.1)

Frozen-append :
    (id : String) (n : ℕ) (users : List User) (keys : List ApiKey) (k : ApiKey)
    → Frozen id n users keys
    → Frozen id n users (keys ++ k ∷ [])
Frozen-append id zero users keys k h = tt
Frozen-append id (suc n) users [] k h = absurd h
Frozen-append id (suc n) users (x ∷ xs) k h = (h.0, Frozen-append id n users xs k h.1)

Frozen-modify :
    (id : String) (p : ApiKey → Bool) (f : ApiKey → ApiKey)
    → ((k : ApiKey) → Dead id k → Dead id (f k))
    → (n : ℕ) (users : List User) (keys : List ApiKey) → Frozen id n users keys
    → Frozen id n users (modify p f keys)
unfolding modify
Frozen-modify id p f step zero users keys h = tt
Frozen-modify id p f step (suc n) users [] h = h
Frozen-modify id p f step (suc n) users (k ∷ ks) h =
    (head (Bool-cases (p k)), Frozen-modify id p f step n users ks h.1)
  where
    head : (p k ≡ true) ⊎ (p k ≡ false) → Dead id (if p k then f k else k)
    head (inl e) = rw e (step k h.0)
    head (inr e) = rw e h.0

-- A live key that is found is another one, or it stands beyond the first rows.
find-Frozen :
    (id hash : String) (n : ℕ) (users : List User) (keys : List ApiKey) (k : ApiKey)
    → Frozen id n users keys
    → find (λ k. (k.key_hash == hash) && is_null k.info.revoked_at) keys ≡ some k
    → ((k.info.id == id) ≡ false) ⊎ IsIn k (beyond n keys)
find-Frozen id hash zero users keys k h e = inr (find-IsIn _ keys k e)
find-Frozen id hash (suc n) users [] k h e = absurd h
find-Frozen id hash (suc n) users (x ∷ xs) k h e =
    elim (Bool-cases ((x.key_hash == hash) && is_null x.info.revoked_at)) [
      | inl t ↦
          inl
            (subst (λ y. (y.info.id == id) ≡ false) (some-injective _ _ (rw t at e)) (live x h.0 t))
      | inr t ↦ find-Frozen id hash n users xs k h.1 (rw t at e)
    ]
  where
    live :
        (k : ApiKey)
        → Dead id k
        → ((k.key_hash == hash) && is_null k.info.revoked_at) ≡ true
        → (k.info.id == id) ≡ false
    live k h t = ground (arith, h, t)

resolve_api_key-Frozen :
    (id hash : String) (n : ℕ) (s : Store)
    → Holds (Frozen id n) s
    → (info : ApiKeyInfo) → resolve_api_key hash s ≡ some info
    → ((info.id == id) ≡ false) ⊎ IsIn info (map (λ k. k.info) (beyond n s.api_keys))
unfolding resolve_api_key
resolve_api_key-Frozen id hash n s h info e =
    elim (Option-cases (find (λ k. (k.key_hash == hash) && is_null k.info.revoked_at) s.api_keys)) [
      | inl f ↦ absurd (cc (rw (f, resolve_api_key) at e))
      | inr (k, f) ↦
          subst (λ i. ((i.id == id) ≡ false) ⊎ IsIn i (map (λ k. k.info) (beyond n s.api_keys)))
            (some-injective _ _ (rw (f, resolve_api_key) at e))
            (shown k (find-Frozen id hash n s.users s.api_keys k h f))
    ]
  where
    shown :
        (k : ApiKey)
        → ((k.info.id == id) ≡ false) ⊎ IsIn k (beyond n s.api_keys)
        → ((k.info.id == id) ≡ false) ⊎ IsIn k.info (map (λ k. k.info) (beyond n s.api_keys))
    shown k (inl e) = inl e
    shown k (inr m) = inr (IsIn-map (λ k. k.info) k _ m)

module _ {W : Type 0} (app : App W) (id : String) (n : ℕ) where
  Closed-Frozen : (ctx : AuthContext) → Closed app (Frozen id n) ctx
  unfolding upsert_user remove_user set_user_experiments_key create_api_key revoke_api_key
  Closed-Frozen ctx = record {
    upserted = λ at email role e s p. users_apart n _ _ s.api_keys p;
    removed = λ email s p. users_apart n _ _ s.api_keys p;
    linked = λ at key s p. users_apart n _ _ s.api_keys p;
    created = λ w hash info e same s p. Frozen-append id n _ s.api_keys _ p;
    revoked =
        λ at other s p. Frozen-modify id (is_live_key other) _ (λ k q f. refl) n _ s.api_keys p;
  }
    where
      users_apart :
          (n : ℕ) (before after : List User) (keys : List ApiKey)
          → Frozen id n before keys
          → Frozen id n after keys
      users_apart zero before after keys p = tt
      users_apart (suc n) before after [] p = p
      users_apart (suc n) before after (k ∷ ks) p = (p.0, users_apart n before after ks p.1)

  admitted-Frozen :
      (route : Route) (o : Option AuthContext) → Keeps (Frozen id n) (admitted app route o)
  unfolding admitted
  admitted-Frozen route none = Keeps-refuse (Frozen id n) _ _
  admitted-Frozen route (some ctx) = Keeps-handle app (Frozen id n) ctx (Closed-Frozen ctx) route

  resolve_key-store :
      (at : ℕ) (headers : Headers) (o : Option ApiKeyInfo) (s : Store)
      → Holds (Frozen id n) s
      → Holds (Frozen id n) (resolve_key app.codec app.settings app.out.hash_token at headers o s).0
  unfolding resolve_key touch_api_key
  resolve_key-store at headers none s h = h
  resolve_key-store at headers (some info) s h =
      Frozen-modify id _ _ (λ k q f. q f) n _ s.api_keys h

  resolve_auth-store :
      (at : ℕ) (headers : Headers) (s : Store)
      → Holds (Frozen id n) s
      → Holds (Frozen id n) (resolve_auth app.codec app.settings app.out.hash_token at headers s).0
  unfolding resolve_auth resolve_token
  resolve_auth-store at headers s h = elim (Option-cases (bearer headers)) [
    | inl e ↦ rw (e, resolve_auth) h
    | inr (token, e) ↦
        rw (e, resolve_auth)
          (elim (Bool-cases (token == app.settings.api_token)) [
            | inl m ↦ rw (m, resolve_token) h
            | inr m ↦
                rw (m, resolve_token)
                  (resolve_key-store at headers (resolve_api_key (app.out.hash_token token) s) s h)
          ])
  ]

  serve_all-Frozen :
      (requests : List Request) (g : Manager W)
      → Holds (Frozen id n) g.hub.store
      → Holds (Frozen id n) (serve_all app requests g).hub.store
  unfolding serve_all serve authenticate
  serve_all-Frozen [] g h = h
  serve_all-Frozen (q ∷ qs) g h = serve_all-Frozen qs (serve app q g).0 (
      (admitted-Frozen q.route (authenticate app q.headers g).1).at _
        (resolve_auth-store (app.out.now g.world) q.headers g.hub.store h))

module _ {W : Type 0} (app : App W) (id : String) where
  -- The state past `changed` is that before it.
  changed-state :
      (b : Bool) (g : Manager W)
      → Holds (Revoked id) g.hub.store
      → Holds (Revoked id) (changed b g).0.hub.store
  unfolding reply refuse
  changed-state true g h = h
  changed-state false g h = h

  -- A revocation that is answered with success leaves the key revoked.
  guarded-Revoked :
      (b : Bool) (s : Status) (m : Message) (g : Manager W)
      → ((refuse_if b s m >> (execute app.out (λ at. revoke_api_key at id) >>= changed)) g).1
        ≡ json tt
      → Holds
          (Revoked id)
          ((refuse_if b s m >> (execute app.out (λ at. revoke_api_key at id) >>= changed))
            g).0.hub.store
  unfolding refuse_if ◌>>◌ ◌>>=◌ refuse reply execute now asks writes
  guarded-Revoked true s m g e = absurd cc
  guarded-Revoked false s m g e =
      changed-state _ _ (Revoked-revoke_api_key (app.out.now g.world) id g.hub.store)

  revoke_found-Revoked :
      (ctx : AuthContext) (o : Option ApiKeyInfo) (g : Manager W)
      → (revoke_found app.out ctx id o g).1 ≡ json tt
      → Holds (Revoked id) (revoke_found app.out ctx id o g).0.hub.store
  unfolding revoke_found refuse
  revoke_found-Revoked ctx none g e = absurd cc
  revoke_found-Revoked ctx (some key) g e = guarded-Revoked _ _ _ g e

  handler-Revoked :
      (ctx : AuthContext) (g : Manager W)
      → (revoke_api_key_handler app.out ctx id g).1 ≡ json tt
      → Holds (Revoked id) (revoke_api_key_handler app.out ctx id g).0.hub.store
  unfolding revoke_api_key_handler ◌>>=◌ reads
  handler-Revoked ctx g e =
      revoke_found-Revoked ctx (find (λ k. k.id == id) (list_api_keys ctx.team_id g.hub.store)) g e

  -- Once a revocation has been answered with success, no token resolves to the key again, whatever requests
  -- follow: a token that resolves to a key of that id resolves to a row that one of these requests has
  -- added to the table.
  pub revoke_api_key_handler-Revoked :
      (ctx : AuthContext) (g : Manager W) (requests : List Request)
      → (revoke_api_key_handler app.out ctx id g).1 ≡ json tt
      → (hash : String) (info : ApiKeyInfo)
      → resolve_api_key hash
          (serve_all app requests (revoke_api_key_handler app.out ctx id g).0).hub.store
        ≡ some info
      → ((info.id == id) ≡ false)
        ⊎ IsIn info (
            map
              (λ k. k.info)
              (beyond
                (length (revoke_api_key_handler app.out ctx id g).0.hub.store.api_keys)
                (serve_all app requests
                  (revoke_api_key_handler app.out ctx id g).0).hub.store.api_keys))
  revoke_api_key_handler-Revoked ctx g requests e hash =
      let after = (revoke_api_key_handler app.out ctx id g).0 in
      let n = length after.hub.store.api_keys in
      resolve_api_key-Frozen id hash n _ (
        serve_all-Frozen app id n requests after (
          Frozen-Revoked id after.hub.store.users after.hub.store.api_keys
            (handler-Revoked ctx g e)))
