-- ===== src/Api/Answers.antt =====
-- api/mod.rs and apikey.rs: answers, the context of a request, and handlers as functions of the lease
-- manager, which holds the hub and its store.
use Prim.Native.String.{◌++◌}
use chuk_mcp_training.Base.{String, Bool, if◌then◌else◌}
use chuk_mcp_training.Proto.Role.{Role, at_least, as_str}
use chuk_mcp_training.Store.Tables.{Store}
use chuk_mcp_training.Leases.Manager.{LeaseError, Manager}

pub data Status : Type 0 where
  unauthorized forbidden bad_request not_found service_unavailable bad_gateway : Status

-- The text of an error; those that format a value keep the value.
pub data Message : Type 0 where
  text bad_scope bad_period no_budget : String → Message
  lease_failed : LeaseError → Message

pub data Answer (A : Type 0) : Type 0 where
  json : A → Answer A
  error : Status → Message → Answer A

-- AuthContext
pub record AuthContext : Type 0 where
  pub role : Role
  pub team_id : String
  pub subject : String
  pub owner_email : String

-- AuthContext::may
unfoldable pub may : AuthContext → Role → Bool
unfolding at_least
may ctx min = at_least ctx.role min

abbrev pub Handler : Type 0 → Type 0 → Type 0
Handler W A = Manager W → Manager W × Answer A

module _ {W : Type 0} where
  abbrev pub and_then :
      {A B : Type 0} → Manager W × Answer A → (A → Handler W B) → Manager W × Answer B
  and_then (g, json a) f = f a g
  and_then (g, error s m) f = (g, error s m)

  infixl 5 ◌>>=◌ ◌>>◌
  unfoldable pub ◌>>=◌ : {A B : Type 0} → Handler W A → (A → Handler W B) → Handler W B
  ◌>>=◌ m f g = and_then (m g) f

  unfoldable pub ◌>>◌ : {A B : Type 0} → Handler W A → Handler W B → Handler W B
  m >> k = m >>= λ _. k

  unfoldable pub reply : {A : Type 0} → A → Handler W A
  reply a g = (g, json a)

  unfoldable pub refuse : {A : Type 0} → Status → Message → Handler W A
  refuse s m g = (g, error s m)

  unfoldable pub asks : {A : Type 0} → (Manager W → A) → Handler W A
  asks f g = (g, json (f g))

  -- a query of the store
  unfoldable pub reads : {A : Type 0} → (Store → A) → Handler W A
  reads f g = (g, json (f g.hub.store))

  -- a change of the store, and what it answers
  unfoldable pub writes : {A : Type 0} → (Store → Store × A) → Handler W A
  writes f g =
      (record g { hub = record (g.hub) { store = (f g.hub.store).0 } }, json (f g.hub.store).1)

  -- a call of the world
  unfoldable pub call : {A : Type 0} → (W → W × A) → Handler W A
  call f g = (record g { world = (f g.world).0 }, json (f g.world).1)

  -- `if condition { return response; }`
  unfoldable pub refuse_if : Bool → Status → Message → Handler W (Unit {0})
  refuse_if b s m = if b then refuse s m else reply tt

  -- require_role
  unfoldable pub require_role : AuthContext → Role → Handler W (Unit {0})
  unfolding may as_str
  require_role ctx min =
      if may ctx min
      then reply tt
      else refuse forbidden (text ("requires " ++ as_str min ++ " role"))
