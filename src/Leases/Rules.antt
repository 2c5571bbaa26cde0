-- ===== src/Leases/Rules.antt =====
-- Tasks of the lease manager that end well: from any state where `R` holds, the task succeeds with a
-- value and a state of which `Q` holds. One rule for each way to build a task.
use chuk_mcp_training.Base.{Bool, true, false, if◌then◌else◌}
use chuk_mcp_training.Store.Tables.{Store}
use chuk_mcp_training.Leases.Manager.{
  Manager, Outcome, done, failed, Task, and_then, ◌>>=◌, ◌>>◌, pure, asks, update, update_store,
  call,
}

module _ {W : Type 0} where
  abbrev pub Ends : {A : Type 0} → (A → Manager W → Type 0) → Manager W × Outcome A → Type 0
  Ends Q (g, done a) = Q a g
  Ends Q (g, failed e) = ⊥

  pub Ends-implies :
      {A : Type 0} (Q P : A → Manager W → Type 0) (r : Manager W × Outcome A)
      → ((a : A) (g : Manager W) → Q a g → P a g)
      → Ends Q r
      → Ends P r
  Ends-implies Q P (g, done a) k q = k a g q
  Ends-implies Q P (g, failed e) k q = q

  pub record Does {A : Type 0} (R : Manager W → Type 0) (Q : A → Manager W → Type 0) (m : Task W A)
      : Type 0 where
    pub at : (g : Manager W) → R g → Ends Q (m g)

module _ {W A : Type 0} {R : Manager W → Type 0} {Q : A → Manager W → Type 0} where
  pub Does-pure : (a : A) → ((g : Manager W) → R g → Q a g) → Does R Q (pure a)
  unfolding pure
  Does-pure a k = record { at = k }

  pub Does-asks : (f : Manager W → A) → ((g : Manager W) → R g → Q (f g) g) → Does R Q (asks f)
  unfolding asks
  Does-asks f k = record { at = k }

  pub Does-call :
      (f : W → W × A)
      → ((g : Manager W) → R g → Q (f g.world).1 (record g { world = (f g.world).0 }))
      → Does R Q (call f)
  unfolding call
  Does-call f k = record { at = k }

  pub Does-if :
      (b : Bool) (m n : Task W A) → Does R Q m → Does R Q n → Does R Q (if b then m else n)
  Does-if true m n k l = k
  Does-if false m n k l = l

  pub Does-weaken :
      (S : Manager W → Type 0) (m : Task W A)
      → ((g : Manager W) → S g → R g)
      → Does R Q m
      → Does S Q m
  Does-weaken S m k d = record { at = λ g s. d.at g (k g s) }

module _ {W : Type 0} {R : Manager W → Type 0} {Q : Unit {0} → Manager W → Type 0} where
  pub Does-update :
      (f : Manager W → Manager W) → ((g : Manager W) → R g → Q tt (f g)) → Does R Q (update f)
  unfolding update
  Does-update f k = record { at = k }

  pub Does-update_store :
      (f : Store → Store)
      → ((g : Manager W) → R g → Q tt (record g { hub = record (g.hub) { store = f g.hub.store } }))
      → Does R Q (update_store f)
  unfolding update_store update
  Does-update_store f k = record { at = k }

module _ {W A B : Type 0} {P : B → Manager W → Type 0} where
  Ends-and_then :
      (Q : A → Manager W → Type 0) (r : Manager W × Outcome A) (k : A → Task W B)
      → Ends Q r
      → ((a : A) → Does (Q a) P (k a))
      → Ends P (and_then r k)
  Ends-and_then Q (g, done a) k q d = (d a).at g q
  Ends-and_then Q (g, failed e) k q d = absurd q

module _ {W A B : Type 0} {R : Manager W → Type 0} {P : B → Manager W → Type 0} where
  pub Does-bind :
      (Q : A → Manager W → Type 0) (m : Task W A) (k : A → Task W B)
      → Does R Q m
      → ((a : A) → Does (Q a) P (k a))
      → Does R P (m >>= k)
  unfolding ◌>>=◌
  Does-bind Q m k d l = record { at = λ g r. Ends-and_then Q (m g) k (d.at g r) l }

  pub Does-then :
      (Q : Manager W → Type 0) (m : Task W A) (k : Task W B)
      → Does R (λ a. Q) m
      → Does Q P k
      → Does R P (m >> k)
  unfolding ◌>>◌
  Does-then Q m k d l = Does-bind (λ a. Q) m (λ a. k) d (λ a. l)
