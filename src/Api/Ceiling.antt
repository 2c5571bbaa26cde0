-- ===== src/Api/Ceiling.antt =====
-- No request lifts anyone above the roles that are held (api/access.rs, api/mod.rs).
use mathlib.Core.Option.{some-injective}
use chuk_mcp_training.Base.{
  ℕ, ◌≤◌, ◌/◌, String, ◌==◌, false, ◌&&◌, ◌≡◌, ◌≢◌, refl, ap, subst, ◌∙◌, eq-false_of_ne, Option,
  none, some, List, [], ◌∷◌, All, All-append, All-keep, All-implies, modify-All, find, find-All,
  any, inl, inr, Bool-cases, Option-cases, arith,
}
use chuk_mcp_training.Proto.Role.{Role, level, User, ApiKeyInfo, ApiKey}
use chuk_mcp_training.Store.Tables.{Store}
use chuk_mcp_training.Store.Tokens.{is_null}
use chuk_mcp_training.Store.Auth.{
  upsert, upsert_user, get_user, remove_user, create_api_key, revoke_api_key, resolve_api_key,
  touch_api_key, set_user_experiments_key,
}
use chuk_mcp_training.Auth.Cookies.{session_email}
use chuk_mcp_training.Leases.Manager.{Manager}
use chuk_mcp_training.Api.Answers.{AuthContext}
use chuk_mcp_training.Api.Middleware.{
  Headers, bearer, auth_enabled, context_of_key, context_of_session, resolve_session, resolve_key,
  resolve_token, resolve_auth,
}
use chuk_mcp_training.Api.Access.{is_above}
use chuk_mcp_training.Api.Router.{Route, Request, App, authenticate, admitted, serve, serve_all}
use chuk_mcp_training.Api.Keeps.{Holds, Keeps, Keeps-refuse}
use chuk_mcp_training.Api.Tables.{Closed, Keeps-handle}

-- The users and the keys have at most the role.
abbrev pub Below : Role → List User → List ApiKey → Type 0
Below r users keys =
    All (λ u. level u.role ≤ level r) users × All (λ k. level k.info.role ≤ level r) keys

abbrev pub AtMost : Role → Option AuthContext → Type 0
AtMost r none = Unit
AtMost r (some ctx) = level ctx.role ≤ level r

All-upsert :
    (P : User → Type 0) (email : String) (change : User → User) (row : User) (users : List User)
    → ((u : User) → P u → P (change u))
    → P row
    → All P users
    → All P (upsert email change row users)
unfolding upsert
All-upsert P email change row users step new h =
    elim (Bool-cases (any (λ u. u.email == email) users)) [
      | inl e ↦ rw e (modify-All P _ change (λ x e p. step x p) users h)
      | inr e ↦ rw e (All-append P users (row ∷ []) h (new, tt))
    ]

low : (role ceiling : Role) → is_above role ceiling ≡ false → level role ≤ level ceiling
unfolding is_above
low role ceiling e = ground (arith, e)

module _ {W : Type 0} (app : App W) (r : Role) where
  Closed-Below : (ctx : AuthContext) → level ctx.role ≤ level r → Closed app (Below r) ctx
  unfolding upsert_user remove_user set_user_experiments_key create_api_key revoke_api_key
  Closed-Below ctx h = record {
    upserted = λ at email role e s p. (
      All-upsert _ email _ _ s.users (λ u q. omega (arith, low role ctx.role e, h))
          (omega (arith, low role ctx.role e, h)) p.0,
      p.1,
    );
    removed = λ email s p. (All-implies _ _ (λ u q. q.0) _ (All-keep _ _ s.users p.0), p.1);
    linked =
        λ at key s p. (All-upsert _ ctx.owner_email _ _ s.users (λ u q. q) (omega arith) p.0, p.1);
    created = λ w hash info e same s p.
        (p.0, All-append _ s.api_keys _ p.1 (omega (arith, low info.role ctx.role e, h), tt));
    revoked = λ at id s p. (p.0, modify-All _ _ _ (λ k e q. q) s.api_keys p.1);
  }

  context_of_session-AtMost :
      (email : String) (o : Option User)
      → ((u : User) → o ≡ some u → level u.role ≤ level r)
      → AtMost r (some (context_of_session email o))
  unfolding context_of_session
  context_of_session-AtMost email none h = omega arith
  context_of_session-AtMost email (some u) h = h u refl

  resolve_session-AtMost :
      (at : ℕ) (headers : Headers) (s : Store)
      → Holds (Below r) s
      → AtMost r (resolve_session app.codec app.settings app.out.hash_token at headers s)
  unfolding resolve_session get_user
  resolve_session-AtMost at headers s h = elim (Bool-cases (auth_enabled app.settings)) [
    | inr off ↦ rw off tt
    | inl on ↦
        elim (Option-cases (session_email app.codec app.settings (at / 1000) headers.cookie)) [
          | inl e ↦ rw (on, e) tt
          | inr (email, e) ↦
              rw (on, e)
                (context_of_session-AtMost email (get_user email s) (λ u f.
                  find-All (λ v. level v.role ≤ level r) (λ v. v.email == email) s.users u h.0 f))
        ]
  ]

  -- A key that resolves is one of the table.
  resolved-key :
      (hash : String) (s : Store)
      → Holds (Below r) s
      → (info : ApiKeyInfo) → resolve_api_key hash s ≡ some info
      → level info.role ≤ level r
  unfolding resolve_api_key
  resolved-key hash s h info e =
      elim (Option-cases
        (find (λ k. (k.key_hash == hash) && is_null k.info.revoked_at) s.api_keys)) [
          | inl f ↦ absurd (cc (rw (f, resolve_api_key) at e))
          | inr (k, f) ↦
              subst (λ i. level i.role ≤ level r)
                (some-injective _ _ (rw (f, resolve_api_key) at e))
                (find-All (λ v. level v.info.role ≤ level r) _ s.api_keys k h.1 f)
        ]

  -- What a request is resolved to, and what that leaves of the tables.
  abbrev Resolved : Store × Option AuthContext → Type 0
  Resolved x = Holds (Below r) x.0 × AtMost r x.1

  resolve_key-Resolved :
      (at : ℕ) (headers : Headers) (o : Option ApiKeyInfo) (s : Store)
      → Holds (Below r) s
      → ((info : ApiKeyInfo) → o ≡ some info → level info.role ≤ level r)
      → Resolved (resolve_key app.codec app.settings app.out.hash_token at headers o s)
  unfolding resolve_key touch_api_key context_of_key
  resolve_key-Resolved at headers none s h k = (h, resolve_session-AtMost at headers s h)
  resolve_key-Resolved at headers (some info) s h k =
      ((h.0, modify-All _ _ _ (λ x e q. q) s.api_keys h.1), k info refl)

  resolve_token-Resolved :
      (at : ℕ) (headers : Headers) (token : String) (s : Store)
      → token ≢ app.settings.api_token
      → Holds (Below r) s
      → Resolved (resolve_token app.codec app.settings app.out.hash_token at headers token s)
  unfolding resolve_token
  resolve_token-Resolved at headers token s other h =
      rw (eq-false_of_ne token app.settings.api_token other) (
        resolve_key-Resolved at headers (resolve_api_key (app.out.hash_token token) s) s h
          (resolved-key (app.out.hash_token token) s h))

  resolve_auth-Resolved :
      (at : ℕ) (headers : Headers) (s : Store)
      → bearer headers ≢ some app.settings.api_token
      → Holds (Below r) s
      → Resolved (resolve_auth app.codec app.settings app.out.hash_token at headers s)
  unfolding resolve_auth
  resolve_auth-Resolved at headers s other h = elim (Option-cases (bearer headers)) [
    | inl e ↦ rw (e, resolve_auth) (h, resolve_session-AtMost at headers s h)
    | inr (token, e) ↦
        rw (e, resolve_auth)
          (resolve_token-Resolved at headers token s (λ f. other (e ∙ ap some f)) h)
  ]

  authenticate-Resolved :
      (headers : Headers) (g : Manager W)
      → bearer headers ≢ some app.settings.api_token
      → Holds (Below r) g.hub.store
      → Resolved (authenticate app headers g)
  unfolding authenticate
  authenticate-Resolved headers g = resolve_auth-Resolved (app.out.now g.world) headers g.hub.store

  admitted-Below :
      (route : Route) (o : Option AuthContext) → AtMost r o → Keeps (Below r) (admitted app route o)
  unfolding admitted
  admitted-Below route none h = Keeps-refuse (Below r) _ _
  admitted-Below route (some ctx) h = Keeps-handle app (Below r) ctx (Closed-Below ctx h) route

  serve-Below :
      (request : Request) (g : Manager W)
      → bearer request.headers ≢ some app.settings.api_token
      → Holds (Below r) g.hub.store
      → Holds (Below r) (serve app request g).0.hub.store
  unfolding serve
  serve-Below request g other h =
      (admitted-Below request.route (authenticate app request.headers g).1 resolved.1).at _
        resolved.0
    where
      resolved : Resolved (authenticate app request.headers g)
      resolved = authenticate-Resolved request.headers g other h

  serve_all-Below :
      (requests : List Request) (g : Manager W)
      → All (λ q. bearer q.headers ≢ some app.settings.api_token) requests
      → Holds (Below r) g.hub.store
      → Holds (Below r) (serve_all app requests g).hub.store
  unfolding serve_all
  serve_all-Below [] g others h = h
  serve_all-Below (q ∷ qs) g others h =
      serve_all-Below qs (serve app q g).0 others.1 (serve-Below q g others.0 h)

  -- Where no user and no key has more than a role, no requests without the master token change that: after
  -- them, whoever a request without the master token is resolved to has at most the role.
  pub serve_all-AtMost :
      (requests : List Request) (last : Headers) (g : Manager W)
      → Holds (Below r) g.hub.store
      → All (λ q. bearer q.headers ≢ some app.settings.api_token) requests
      → bearer last ≢ some app.settings.api_token
      → AtMost r (authenticate app last (serve_all app requests g)).1
  serve_all-AtMost requests last g h others other =
      (authenticate-Resolved last _ other (serve_all-Below requests g others h)).1
