-- ===== src/Leases/Spending.antt =====
-- lease.rs: the budget check, provisioning and extension, with the join token that apikey.rs mints.
use Prim.Native.String.{◌++◌}
use chuk_mcp_training.Base.{ℕ, ◌+◌, String, Option, none, some, [], if◌then◌else◌}
use chuk_mcp_training.Base.Text.{take_chars, text_length}
use chuk_mcp_training.Proto.Constants.{join_token_prefix, join_token_ttl}
use chuk_mcp_training.Proto.Run.{active}
use chuk_mcp_training.Proto.Lease.{
  Lease, LeaseExtension, total_granted_min, projected_cost, cost_of,
}
use chuk_mcp_training.Base.Float.{F64}
use chuk_mcp_training.Base.Doubles.{zero_f64, seconds_of}
use chuk_mcp_training.Store.Tables.{Store}
use chuk_mcp_training.Store.Fleet.{lease, live_leases, create_lease, set_lease_state, extend_lease}
use chuk_mcp_training.Store.Ledger.{ledger_entries, budgets}
use chuk_mcp_training.Store.Tokens.{create_join_token}
use chuk_mcp_training.Budget.Caps.{Breach, evaluate}
use chuk_mcp_training.Leases.Manager.{
  Instance, ProvisionRequest, Provider, Outside, Config, Manager, over_budget, provision_failed,
  Outcome, done, failed, Task, ◌>>=◌, ◌>>◌, pure, fail, asks, update_store, call, or_fail, provider,
}
use chuk_mcp_training.Leases.Teardown.{is_draining, ledger}

-- ProvisionResult, whose bootstrap text is empty
pub record ProvisionResult : Type 0 where
  pub worker_id : String
  pub lease : Lease

-- `anyhow::bail!` on a breach
abbrev pub refusal : {W : Type 0} → Option Breach → Task W (Unit {0})
refusal none = pure tt
refusal (some breach) = fail (over_budget breach)

-- What the budgets say of a candidate's cost at a time.
unfoldable pub breach_of : String → F64 → ℕ → Store → Option Breach
unfolding budgets ledger_entries live_leases
breach_of name cost now s = evaluate (budgets s) (ledger_entries s) (live_leases s) name cost now

-- `{provider}-{the first 8 digits of a UUID}`
unfoldable pub worker_id_of : String → String → String
unfolding take_chars
worker_id_of name id = name ++ "-" ++ take_chars 8 id

-- The lease of a provisioned instance.
unfoldable pub lease_of : Config → ProvisionRequest → String → Instance → ℕ → Lease
unfolding seconds_of
lease_of config req worker_id machine now = record {
  worker_id = worker_id;
  provider = req.provider;
  instance_id = machine.id;
  price_hr = machine.price_hr;
  granted_min = req.lease_min;
  drain_window_min = config.drain_window_min;
  started_at = seconds_of now;
  state = active;
  extensions = [];
}

module _ {W : Type 0} where
  -- What follows a check: on a refusal, the destroy of the instance, whatever it answers.
  abbrev pub or_destroy :
      Provider W → String → Manager W × Outcome (Unit {0}) → Manager W × Outcome (Unit {0})
  or_destroy p id (g, done u) = (g, done u)
  or_destroy p id (g, failed e) = (record g { world = (p.destroy id g.world).0 }, failed e)

module _ {W : Type 0} (out : Outside W) where
  -- LeaseManager::budget_check
  unfoldable pub budget_check : String → F64 → Task W (Unit {0})
  unfolding breach_of
  budget_check name cost = do
    breach ← asks (λ g. breach_of name cost (out.now g.world) g.hub.store)
    refusal breach

  -- apikey.rs generate_with_prefix: the plaintext, the prefix that is shown, and the hash
  unfoldable pub generate_with_prefix : String → W → W × (String × String × String)
  unfolding take_chars text_length
  generate_with_prefix prefix w =
      let first = out.uuid w in
      let second = out.uuid first.0 in
      let plaintext = prefix ++ first.1 ++ second.1 in
      (
        second.0,
        (plaintext, take_chars (text_length prefix + 8) plaintext, out.hash_token plaintext),
      )

  -- apikey.rs mint_join_token
  unfoldable pub mint_join_token : String → Task W String
  unfolding generate_with_prefix
  mint_join_token worker_id = do
    token ← call (generate_with_prefix join_token_prefix)
    now ← asks (λ g. out.now g.world)
    id ← call out.uuid
    update_store (create_join_token now id worker_id token.2 (now + join_token_ttl))
    pure token.0

  -- The id of a provisioned worker.
  unfoldable pub new_worker_id : String → Task W String
  unfolding worker_id_of
  new_worker_id name = do id ← call out.uuid; pure (worker_id_of name id)

  -- The exact check, which destroys the instance that it refuses.
  unfoldable pub exact_check : Provider W → Instance → String → F64 → Task W (Unit {0})
  unfolding budget_check
  exact_check p machine name cost g = or_destroy p machine.id (budget_check name cost g)

  -- The end of provision: the lease and its ledger entry.
  unfoldable pub record_start : Lease → Task W ProvisionResult
  unfolding ledger
  record_start l = do
    update_store (create_lease l)
    ledger out l "lease_start" (total_granted_min l) (projected_cost l)
    pure (record { worker_id = l.worker_id; lease = l })

  -- provision from the rented instance on
  unfoldable pub settle :
      Config → ProvisionRequest → Provider W → String → Instance → Task W ProvisionResult
  unfolding exact_check lease_of cost_of record_start
  settle config req p worker_id machine = do
    exact_check p machine req.provider (cost_of machine.price_hr req.lease_min)
    now ← asks (λ g. out.now g.world)
    record_start (lease_of config req worker_id machine now)

  -- LeaseManager::provision
  unfoldable pub provision : Config → ProvisionRequest → Task W ProvisionResult
  unfolding budget_check new_worker_id mint_join_token settle
  provision config req = do
    p ← provider out req.provider
    budget_check req.provider zero_f64
    worker_id ← new_worker_id req.provider
    join_token ← mint_join_token worker_id
    rented ← call (
        p.provision req (record {
          ws_url = config.agent_ws_url;
          join_token = join_token;
          worker_id = worker_id;
          drain_window_min = config.drain_window_min;
        }))
    machine ← or_fail provision_failed rented
    settle config req p worker_id machine

  -- The check of an extension, where there is a lease to extend.
  unfoldable pub extension_check : F64 → Option Lease → Task W (Unit {0})
  unfolding budget_check cost_of
  extension_check minutes none = pure tt
  extension_check minutes (some l) = budget_check l.provider (cost_of l.price_hr minutes)

  -- extend_lease of the store, as a task
  unfoldable pub extend_row : String → LeaseExtension → Task W (Option Lease)
  extend_row worker_id ext g = (
    record g { hub = record (g.hub) { store = (extend_lease worker_id ext g.hub.store).0 } },
    done (extend_lease worker_id ext g.hub.store).1,
  )

  -- What extend does once the row has the extension.
  unfoldable pub record_extension : String → F64 → Option Lease → Task W (Unit {0})
  unfolding ledger cost_of
  record_extension worker_id minutes none = pure tt
  record_extension worker_id minutes (some l) = do
    if is_draining l.state then update_store (set_lease_state worker_id active) else pure tt
    ledger out l "extend" minutes (cost_of l.price_hr minutes)

  -- LeaseManager::extend
  unfoldable pub extend : String → F64 → String → Task W (Option Lease)
  unfolding extension_check extend_row record_extension
  extend worker_id minutes reason = do
    found ← asks (λ g. lease worker_id g.hub.store)
    extension_check minutes found
    now ← asks (λ g. out.now g.world)
    updated ← extend_row worker_id (record { minutes = minutes; at = now; reason = reason })
    record_extension worker_id minutes updated
    pure updated
