-- ===== src/Hub/Keeps.antt =====
-- Invariants of the hub's actions: an action keeps a predicate on the hub whether it succeeds or
-- fails. One rule for each way to build an action.
use chuk_mcp_training.Base.{Bool, true, false, Option, none, some, if◌then◌else◌}
use chuk_mcp_training.Store.Tables.{Store}
use chuk_mcp_training.Hub.State.{
  Hub, Error, Result, ok, err, Action, and_then, ◌>>=◌, ◌>>◌, pure, fail, asks, update,
  update_store, or_fail,
}

pub record Keeps (P : Hub → Type 0) {A : Type 0} (m : Action A) : Type 0 where
  pub at : (h : Hub) → P h → P (m h).1

module _ {P : Hub → Type 0} {A : Type 0} where
  pub Keeps-pure : (a : A) → Keeps P (pure a)
  unfolding pure
  Keeps-pure a = record { at = λ h p. p }

  pub Keeps-fail : (e : Error) → Keeps P (fail {A = A} e)
  unfolding fail
  Keeps-fail e = record { at = λ h p. p }

  pub Keeps-asks : (f : Hub → A) → Keeps P (asks f)
  unfolding asks
  Keeps-asks f = record { at = λ h p. p }

  pub Keeps-or_fail : (e : Error) (o : Option A) → Keeps P (or_fail e o)
  unfolding or_fail
  Keeps-or_fail e none = Keeps-fail e
  Keeps-or_fail e (some a) = Keeps-pure a

  pub Keeps-if : (b : Bool) (m n : Action A) → Keeps P m → Keeps P n → Keeps P (if b then m else n)
  Keeps-if true m n k l = k
  Keeps-if false m n k l = l

module _ {P : Hub → Type 0} where
  pub Keeps-update : (f : Hub → Hub) → ((h : Hub) → P h → P (f h)) → Keeps P (update f)
  unfolding update
  Keeps-update f k = record { at = k }

  pub Keeps-update_store :
      (f : Store → Store)
      → ((h : Hub) → P h → P (record h { store = f h.store }))
      → Keeps P (update_store f)
  unfolding update_store update
  Keeps-update_store f k = record { at = k }

module _ {P : Hub → Type 0} {A B : Type 0} where
  Keeps-and_then :
      (r : Result A × Hub) (f : A → Action B)
      → P r.1
      → ((a : A) → Keeps P (f a))
      → P (and_then r f).1
  Keeps-and_then (ok a, h) f p k = (k a).at h p
  Keeps-and_then (err e, h) f p k = p

  pub Keeps-bind :
      (m : Action A) (f : A → Action B) → Keeps P m → ((a : A) → Keeps P (f a)) → Keeps P (m >>= f)
  unfolding ◌>>=◌
  Keeps-bind m f k l = record { at = λ h p. Keeps-and_then (m h) f (k.at h p) l }

pub Keeps-then :
    {P : Hub → Type 0} {B : Type 0} (m : Action (Unit {0})) (n : Action B)
    → Keeps P m
    → Keeps P n
    → Keeps P (m >> n)
unfolding ◌>>◌
Keeps-then m n k l = Keeps-bind m (λ _. n) k (λ _. l)

pub ruleset keeps_rules =
    (Keeps-pure, Keeps-fail, Keeps-asks, Keeps-or_fail, Keeps-if, Keeps-bind, Keeps-then)

-- An action that leads to a predicate from any state, or from one where `R` holds.
pub record Leads (R P : Hub → Type 0) {A : Type 0} (m : Action A) : Type 0 where
  pub at : (h : Hub) → R h → P (m h).1

module _ {R P : Hub → Type 0} where
  -- A change of the state that cannot fail, before what leads to the predicate.
  pub Leads-after_update :
      {A : Type 0} (f : Hub → Hub) (n : Action A)
      → ((h : Hub) → R h → R (f h))
      → Leads R P n
      → Leads R P (update f >> n)
  unfolding ◌>>◌ ◌>>=◌ update
  Leads-after_update f n k l = record { at = λ h r. l.at (f h) (k h r) }

  pub Leads-then-Keeps :
      {A : Type 0} (f : Hub → Hub) (n : Action A)
      → ((h : Hub) → R h → P (f h))
      → Keeps P n
      → Leads R P (update f >> n)
  unfolding ◌>>◌ ◌>>=◌ update
  Leads-then-Keeps f n l k = record { at = λ h r. k.at (f h) (l h r) }
