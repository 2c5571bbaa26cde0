-- ===== src/Session/Rows.antt =====
-- The rows of the join tokens that resolve_join_token finds and leaves (ws.rs resolve_join).
use chuk_mcp_training.Base.{
  ℕ, String, ◌==◌, ◌≡◌, refl, ap, ◌∙◌, Bool, true, false, not, ◌&&◌, Option, none, some, List, [],
  ◌∷◌, All, find, find-modify, find_test, modify, modify-carries, ltb, if◌then◌else◌, Bool-cases,
  inl, inr, arith, eq_iff,
}
use chuk_mcp_training.Store.Tables.{Store, JoinToken}
use chuk_mcp_training.Store.Tokens.{
  is_null, is_usable, is_used, recalled, consumed, resolve_join_token,
}

abbrev pub has_hash : String → JoinToken → Bool
has_hash k t = t.token_hash == k

-- The tokens differ by their hashes.
abbrev pub Hashed : List JoinToken → Type 0
Hashed [] = Unit
Hashed (t ∷ ts) = All (λ x. (x.token_hash == t.token_hash) ≡ false) ts × Hashed ts

abbrev pass : (JoinToken → Bool) → Option JoinToken → Option JoinToken
pass q none = none
pass q (some t) = if q t then some t else none

none_of :
    (k : String) (q : JoinToken → Bool) (t : JoinToken) (ts : List JoinToken)
    → has_hash k t ≡ true
    → All (λ x. (x.token_hash == t.token_hash) ≡ false) ts
    → find (λ x. has_hash k x && q x) ts ≡ none
none_of k q t [] e h = refl
none_of k q t (x ∷ xs) e h = ground (
  arith,
  eq_iff t.token_hash k,
  eq_iff x.token_hash k,
  eq_iff x.token_hash t.token_hash,
  e,
  h.0,
  none_of k q t xs e h.1,
)

-- A search by the hash and a test is the row of the hash, tested.
find-hash :
    (k : String) (q : JoinToken → Bool) (ts : List JoinToken)
    → Hashed ts
    → find (λ x. has_hash k x && q x) ts ≡ pass q (find (has_hash k) ts)
find-hash k q [] u = refl
find-hash k q (t ∷ ts) u = elim (Bool-cases (has_hash k t)) [
  | inr e ↦ rw e (find-hash k q ts u.1)
  | inl e ↦ rw e (rw (none_of k q t ts e u.0) refl)
]

-- Whether a token still enrols, and whether it has.
abbrev pub live : ℕ → JoinToken → Bool
live at t = is_null t.used_at && ltb at t.expires_at

abbrev pub spent : JoinToken → Bool
spent t = not (is_null t.used_at)

-- What resolve_join_token answers of the row with the hash.
abbrev pub answer : ℕ → Option JoinToken → Option (String × Bool)
answer at none = none
answer at (some t) =
    if live at t
    then some (t.worker_id, true)
    else (if spent t then some (t.worker_id, false) else none)

-- The row that it leaves.
abbrev pub mark : ℕ → JoinToken → JoinToken
mark at t = if live at t then record t { used_at = some at } else t

recalled-pass :
    (t : JoinToken)
    → recalled (pass spent (some t)) ≡ (if spent t then some (t.worker_id, false) else none)
unfolding recalled
recalled-pass t = elim (Bool-cases (spent t)) [ inl u ↦ rw u refl | inr u ↦ rw u refl ]

module _ (k : String) (at : ℕ) (s : Store) (unique : Hashed s.join_tokens) where
  usable :
      (o : Option JoinToken)
      → find (has_hash k) s.join_tokens ≡ o
      → find (is_usable at k) s.join_tokens ≡ pass (live at) o
  usable o e = find-hash k (live at) s.join_tokens unique ∙ ap (pass (live at)) e

  pub used :
      (o : Option JoinToken)
      → find (has_hash k) s.join_tokens ≡ o
      → find (is_used k) s.join_tokens ≡ pass spent o
  used o e = find-hash k spent s.join_tokens unique ∙ ap (pass spent) e

  pub resolved :
      (o : Option JoinToken)
      → find (has_hash k) s.join_tokens ≡ o
      → (resolve_join_token k at s).1 ≡ answer at o
  unfolding resolve_join_token consumed recalled
  resolved none e = ap (λ o. (consumed k at o s).1) (usable none e) ∙ ap recalled (used none e)
  resolved (some t) e =
      ap (λ o. (consumed k at o s).1) (usable (some t) e) ∙ (elim (Bool-cases (live at t)) [
        | inl l ↦ rw l refl
        | inr l ↦ rw l (ap recalled (used (some t) e) ∙ recalled-pass t)
      ])

  pub left :
      (t : JoinToken)
      → find (has_hash k) s.join_tokens ≡ some t
      → find (has_hash k) (resolve_join_token k at s).0.join_tokens ≡ some (mark at t)
  unfolding resolve_join_token consumed
  left t e =
      ap (λ o. find (has_hash k) (consumed k at o s).0.join_tokens) (usable (some t) e)
      ∙ (elim (Bool-cases (live at t)) [
        | inl l ↦ rw l (
            find-modify (has_hash k) (is_usable at k) (λ x. record x { used_at = some at })
              (λ x. refl) s.join_tokens
            ∙ rw e (rw (find_test (has_hash k) s.join_tokens t e) (rw l refl)))
        | inr l ↦ rw l e
      ])

hash_kept :
    (p : JoinToken → Bool) (at : ℕ) (j : String) (ts : List JoinToken)
    → All (λ x. (x.token_hash == j) ≡ false) ts
    → All (λ x. (x.token_hash == j) ≡ false) (modify p (λ x. record x { used_at = some at }) ts)
hash_kept p at j ts h =
    modify-carries (λ x. (x.token_hash == j) ≡ false) (λ x. (x.token_hash == j) ≡ false) p _
      (λ x e q. q) (λ x e q. q) ts h

hash_of_if :
    (b : Bool) (at : ℕ) (t : JoinToken)
    → (if b then record t { used_at = some at } else t).token_hash ≡ t.token_hash
hash_of_if true at t = refl
hash_of_if false at t = refl

Hashed-modify :
    (p : JoinToken → Bool) (at : ℕ) (ts : List JoinToken)
    → Hashed ts
    → Hashed (modify p (λ x. record x { used_at = some at }) ts)
unfolding modify
Hashed-modify p at [] u = tt
Hashed-modify p at (t ∷ ts) u =
    (rw (hash_of_if (p t) at t) (hash_kept p at t.token_hash ts u.0), Hashed-modify p at ts u.1)

pub Hashed-resolve_join_token :
    (k : String) (at : ℕ) (s : Store)
    → Hashed s.join_tokens
    → Hashed (resolve_join_token k at s).0.join_tokens
unfolding resolve_join_token consumed
Hashed-resolve_join_token k at s u = kept (find (is_usable at k) s.join_tokens)
  where
    kept : (o : Option JoinToken) → Hashed (consumed k at o s).0.join_tokens
    kept none = u
    kept (some t) = Hashed-modify (is_usable at k) at s.join_tokens u
