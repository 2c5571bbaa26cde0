-- ===== src/Api/Keeps.antt =====
-- Rules that carry a predicate on the tables of users and API keys through a handler.
use chuk_mcp_training.Base.{ℕ, Bool, false, ◌≡◌, List, inl, inr, Bool-cases}
use chuk_mcp_training.Proto.Role.{Role, User, ApiKey}
use chuk_mcp_training.Store.Tables.{Store}
use chuk_mcp_training.Leases.Manager.{Outside, Manager, done, failed, Outcome, Task}
use chuk_mcp_training.Api.Answers.{
  Status, Message, Answer, json, error, AuthContext, may, Handler, and_then, ◌>>=◌, ◌>>◌, reply,
  refuse, asks, reads, writes, call, refuse_if, require_role,
}
use chuk_mcp_training.Api.Access.{now, execute}
use chuk_mcp_training.Api.Leases.{answered, run}

module _ (R : List User → List ApiKey → Type 0) where
  abbrev pub Holds : Store → Type 0
  Holds s = R s.users s.api_keys

  module _ {W : Type 0} where
    pub record Keeps {A : Type 0} (m : Handler W A) : Type 0 where
      pub at : (g : Manager W) → Holds g.hub.store → Holds (m g).0.hub.store

    pub Keeps-bind :
        {A B : Type 0} (m : Handler W A) (f : A → Handler W B)
        → Keeps m
        → ((a : A) → Keeps (f a))
        → Keeps (m >>= f)
    unfolding ◌>>=◌
    Keeps-bind {A} {B} m f hm hf = record { at = λ g h. settled (m g) (hm.at g h) }
      where
        settled :
            (x : Manager W × Answer A) → Holds x.0.hub.store → Holds (and_then x f).0.hub.store
        settled (k, json a) p = (hf a).at k p
        settled (k, error s e) p = p

    pub Keeps-then :
        {A B : Type 0} (m : Handler W A) (k : Handler W B) → Keeps m → Keeps k → Keeps (m >> k)
    unfolding ◌>>◌
    Keeps-then m k hm hk = Keeps-bind m (λ _. k) hm (λ _. hk)

    pub Keeps-reply : {A : Type 0} (a : A) → Keeps (reply a)
    unfolding reply
    Keeps-reply a = record { at = λ g h. h }

    pub Keeps-refuse : {A : Type 0} (s : Status) (m : Message) → Keeps (refuse {A = A} s m)
    unfolding refuse
    Keeps-refuse s m = record { at = λ g h. h }

    pub Keeps-asks : {A : Type 0} (f : Manager W → A) → Keeps (asks f)
    unfolding asks
    Keeps-asks f = record { at = λ g h. h }

    pub Keeps-reads : {A : Type 0} (f : Store → A) → Keeps (reads {W = W} f)
    unfolding reads
    Keeps-reads f = record { at = λ g h. h }

    pub Keeps-writes :
        {A : Type 0} (f : Store → Store × A)
        → ((s : Store) → Holds s → Holds (f s).0)
        → Keeps (writes {W = W} f)
    unfolding writes
    Keeps-writes f step = record { at = λ g h. step g.hub.store h }

    -- A call of the world answers one of its values.
    pub Keeps-call :
        {A B : Type 0} (c : W → W × A) (f : A → Handler W B)
        → ((w : W) → Keeps (f (c w).1))
        → Keeps (call c >>= f)
    unfolding call ◌>>=◌
    Keeps-call c f hf = record { at = λ g h. (hf g.world).at _ h }

    -- What follows a guard may rely on it.
    pub Keeps-refuse_if :
        {B : Type 0} (b : Bool) (s : Status) (m : Message) (k : Handler W B)
        → (b ≡ false → Keeps k)
        → Keeps (refuse_if b s m >> k)
    unfolding refuse_if ◌>>◌ ◌>>=◌ refuse reply
    Keeps-refuse_if b s m k hk = elim (Bool-cases b) [
      | inl e ↦ rw e (record { at = λ g h. h })
      | inr e ↦ rw e (Keeps-bind (reply tt) (λ _. k) (Keeps-reply tt) (λ u. hk e))
    ]

    pub Keeps-require_role : (ctx : AuthContext) (min : Role) → Keeps (require_role ctx min)
    unfolding require_role refuse reply
    Keeps-require_role ctx min = elim (Bool-cases (may ctx min)) [
      | inl e ↦ rw e (Keeps-reply tt)
      | inr e ↦ rw e (Keeps-refuse _ _)
    ]

    pub Keeps-execute :
        {A : Type 0} (out : Outside W) (statement : ℕ → Store → Store × A)
        → ((at : ℕ) (s : Store) → Holds s → Holds (statement at s).0)
        → Keeps (execute out statement)
    unfolding execute now
    Keeps-execute out statement step =
        Keeps-bind _ _ (Keeps-asks _) (λ at. Keeps-writes (statement at) (step at))

    pub record TaskKeeps {A : Type 0} (m : Task W A) : Type 0 where
      pub at : (g : Manager W) → Holds g.hub.store → Holds (m g).0.hub.store

    pub Keeps-run : {A : Type 0} (task : Task W A) → TaskKeeps task → Keeps (run task)
    unfolding run
    Keeps-run {A} task h = record { at = λ g p. settled (task g) (h.at g p) }
      where
        settled : (x : Manager W × Outcome A) → Holds x.0.hub.store → Holds (answered x).0.hub.store
        settled (k, done a) p = p
        settled (k, failed e) p = p
