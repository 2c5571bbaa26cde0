-- ===== src/Leases/Provision.antt =====
-- The whole of provision (lease.rs), with the worker id and the join token that it mints.
use chuk_mcp_training.Base.{
  ◌++◌, ◌∷◌, [], String, ◌==◌, ◌≡◌, refl, ap, ◌∙◌, false, Option, none, some, any, Option-cases,
  inl, inr,
}
use chuk_mcp_training.Store.Fleet.{live_leases}
use chuk_mcp_training.Store.Ledger.{ledger_entries, budgets}
use chuk_mcp_training.Store.Tokens.{create_join_token}
use chuk_mcp_training.Budget.Approval.{Covers}
use chuk_mcp_training.Proto.Lease.{projected_cost}
use chuk_mcp_training.Base.Doubles.{zero_f64}
use chuk_mcp_training.Leases.Manager.{
  Instance, ProvisionRequest, Provider, Outside, Config, Manager, Outcome, done, failed,
  provision_failed, provider_named, provider, ◌>>=◌, ◌>>◌, pure, fail, asks, update, update_store,
  call, or_fail,
}
use chuk_mcp_training.Leases.Spending.{
  ProvisionResult, breach_of, budget_check, worker_id_of, new_worker_id, generate_with_prefix,
  mint_join_token, settle, provision,
}
use chuk_mcp_training.Leases.Within.{Settled, settle-Settled}

module _ {W : Type 0} (out : Outside W) (config : Config) (req : ProvisionRequest) where
  -- A failure leaves the leases and the ledger as they were; a success adds a lease of which every budget
  -- about the provider covers the cost.
  abbrev pub Ended : Manager W → Manager W × Outcome ProvisionResult → Type 0
  Ended g (h, failed e) =
      (h.hub.store.leases ≡ g.hub.store.leases) × (h.hub.store.ledger ≡ g.hub.store.ledger)
  Ended g (h, done r) =
      (live_leases h.hub.store ≡ live_leases g.hub.store ++ r.lease ∷ [])
      × (r.lease.provider ≡ req.provider)
      × Covers (ledger_entries g.hub.store) (live_leases g.hub.store) req.provider
          (projected_cost r.lease) (out.now h.world) (budgets h.hub.store)

  module _ (p : Provider W) (id : String) (g : Manager W) where
    Settled-Ended :
        (m : Instance) (k : Manager W) (r : Manager W × Outcome ProvisionResult)
        → k.hub.store.leases ≡ g.hub.store.leases
        → k.hub.store.ledger ≡ g.hub.store.ledger
        → Settled out config req p id m k r
        → Ended g r
    unfolding live_leases ledger_entries
    Settled-Ended m k (h, failed e) a b s =
        (ap (λ x. x.hub.store.leases) s ∙ a, ap (λ x. x.hub.store.ledger) s ∙ b)
    Settled-Ended m k (h, done r) a b s = (rw⁻¹ a (s.0), s.1, rw⁻¹ a (rw⁻¹ b s.2))

    rented-Ended :
        (o : Option Instance) (k : Manager W)
        → k.hub.store.leases ≡ g.hub.store.leases
        → k.hub.store.ledger ≡ g.hub.store.ledger
        → any (λ x. x.worker_id == id) k.hub.store.leases ≡ false
        → Ended g ((or_fail provision_failed o >>= λ m. settle out config req p id m) k)
    unfolding or_fail pure fail ◌>>=◌
    rented-Ended none k a b fresh = (a, b)
    rented-Ended (some m) k a b fresh =
        Settled-Ended m k _ a b (settle-Settled out config req p id m k fresh)

  -- With a worker id that no row of a lease has, a provision that fails leaves the leases and the ledger as
  -- they were. One that succeeds adds its lease to the live ones, and each budget about the provider has a
  -- cap that is not below the sum, in doubles, of what was spent in its period and committed before and of
  -- the lease's projected cost.
  pub provision-Ended :
      (g : Manager W)
      → any (λ x. x.worker_id == worker_id_of req.provider (out.uuid g.world).1) g.hub.store.leases
        ≡ false
      → Ended g (provision out config req g)
  unfolding provision provider or_fail budget_check new_worker_id mint_join_token
      generate_with_prefix create_join_token asks pure fail call update_store update ◌>>=◌ ◌>>◌
  provision-Ended g fresh = elim (Option-cases (provider_named req.provider out.providers)) [
    | inl e ↦ rw e (refl, refl)
    | inr (p, e) ↦
        rw e (elim (Option-cases (breach_of req.provider zero_f64 (out.now g.world) g.hub.store)) [
          | inr (b, f) ↦ rw f (refl, refl)
          | inl f ↦ rw f (rented-Ended p _ g _ _ refl refl fresh)
        ])
  ]
