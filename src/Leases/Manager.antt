-- ===== src/Leases/Manager.antt =====
-- lease.rs and provider/mod.rs: the state of the lease manager, the providers that it drives, and tasks
-- on it. `W` is the world outside: the providers' machines, the clocks and the random numbers. A task
-- runs to its end before the next; one that fails keeps what it did.
use chuk_mcp_training.Base.{ℕ, String, ◌==◌, Bool, Option, none, some, List, Table, find}
use chuk_mcp_training.Base.Float.{F64}
use chuk_mcp_training.Store.Tables.{Store}
use chuk_mcp_training.Budget.Caps.{Breach}
use chuk_mcp_training.Hub.State.{Hub}

-- Instance
pub record Instance : Type 0 where
  pub id : String
  pub provider : String
  pub gpu : String
  pub price_hr : F64

-- InstanceStatus
pub data InstanceStatus : Type 0 where
  running gone unknown : InstanceStatus

-- ProvisionRequest
pub record ProvisionRequest : Type 0 where
  pub provider : String
  pub lease_min : F64
  pub offer_id : Option String
  pub gpu : Option String
  pub max_price_hr : Option F64

-- ProvisionContext
pub record ProvisionContext : Type 0 where
  pub ws_url : String
  pub join_token : String
  pub worker_id : String
  pub drain_window_min : F64

-- Provider: each call may change the world, and `none` or `false` is its error.
pub record Provider (W : Type 0) : Type 0 where
  pub name : String
  pub provision : ProvisionRequest → ProvisionContext → W → W × Option Instance
  pub destroy : String → W → W × Bool
  pub status : String → W → W × Option InstanceStatus
  pub list_instances : W → W × Option (List Instance)

-- What the manager uses of the world: the providers in the order of the registry, the system clock and
-- the monotonic one, sleep, random UUIDs and the hash.
pub record Outside (W : Type 0) : Type 0 where
  pub providers : List (Provider W)
  pub now : W → ℕ
  pub instant : W → ℕ
  pub sleep : ℕ → W → W
  pub uuid : W → W × String
  pub hash_token : String → String

-- VerifyPolicy
pub record VerifyPolicy : Type 0 where
  pub timeout : ℕ
  pub poll : ℕ

-- The part of Config that the manager reads.
pub record Config : Type 0 where
  pub agent_ws_url : String
  pub drain_window_min : F64
  pub idle_reap : ℕ

pub record Manager (W : Type 0) : Type 0 where
  pub hub : Hub
  pub idle_since : Table ℕ
  pub world : W

-- Why a task fails. `polls_exhausted` stands for a poll that the fuel does not reach.
pub data LeaseError : Type 0 where
  over_budget : Breach → LeaseError
  unknown_provider no_lease : String → LeaseError
  provision_failed destroy_failed polls_exhausted : LeaseError

pub data Outcome (A : Type 0) : Type 0 where
  done : A → Outcome A
  failed : LeaseError → Outcome A

abbrev pub Task : Type 0 → Type 0 → Type 0
Task W A = Manager W → Manager W × Outcome A

module _ {W : Type 0} where
  abbrev pub and_then :
      {A B : Type 0} → Manager W × Outcome A → (A → Task W B) → Manager W × Outcome B
  and_then (g, done a) f = f a g
  and_then (g, failed e) f = (g, failed e)

  infixl 5 ◌>>=◌ ◌>>◌
  unfoldable pub ◌>>=◌ : {A B : Type 0} → Task W A → (A → Task W B) → Task W B
  ◌>>=◌ m f g = and_then (m g) f

  unfoldable pub ◌>>◌ : {A B : Type 0} → Task W A → Task W B → Task W B
  m >> k = m >>= λ _. k

  unfoldable pub pure : {A : Type 0} → A → Task W A
  pure a g = (g, done a)

  unfoldable pub fail : {A : Type 0} → LeaseError → Task W A
  fail e g = (g, failed e)

  unfoldable pub asks : {A : Type 0} → (Manager W → A) → Task W A
  asks f g = (g, done (f g))

  unfoldable pub update : (Manager W → Manager W) → Task W (Unit {0})
  update f g = (f g, done tt)

  -- a change of the store alone
  unfoldable pub update_store : (Store → Store) → Task W (Unit {0})
  update_store f = update (λ g. record g { hub = record (g.hub) { store = f g.hub.store } })

  -- a call of the world, which cannot fail by itself
  unfoldable pub call : {A : Type 0} → (W → W × A) → Task W A
  call f g = (record g { world = (f g.world).0 }, done (f g.world).1)

  unfoldable pub or_fail : {A : Type 0} → LeaseError → Option A → Task W A
  or_fail e none = fail e
  or_fail e (some a) = pure a

  -- Providers::get
  unfoldable pub provider_named : String → List (Provider W) → Option (Provider W)
  provider_named name ps = find (λ p. p.name == name) ps

  -- LeaseManager::provider
  unfoldable pub provider : Outside W → String → Task W (Provider W)
  provider out name = or_fail (unknown_provider name) (provider_named name out.providers)
