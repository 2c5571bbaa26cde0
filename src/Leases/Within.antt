-- ===== src/Leases/Within.antt =====
-- Provisioning stays within the budgets (lease.rs provision, from the rented instance on).
use chuk_mcp_training.Base.{
  ℕ, String, ◌==◌, ◌≡◌, refl, sym, ap, subst, false, not, none, List, [], ◌∷◌, ◌++◌, any, keep,
  Bool-cases, Option-cases, inl, inr, arith,
}
use chuk_mcp_training.Proto.Lease.{Lease, projected_cost, cost_of, total_granted_min, total_minutes}
use chuk_mcp_training.Store.Tables.{Store}
use chuk_mcp_training.Store.Fleet.{live_leases, create_lease, is_destroyed}
use chuk_mcp_training.Store.Ledger.{ledger_append, ledger_entries, budgets}
use chuk_mcp_training.Base.Doubles.{sum_f64, sum_onto, add_zero}
use chuk_mcp_training.Budget.Approval.{Covers, evaluate-Covers}
use chuk_mcp_training.Leases.Manager.{
  Instance, ProvisionRequest, Provider, Outside, Config, Manager, Outcome, done, failed, ◌>>=◌,
  ◌>>◌, pure, fail, asks, update, update_store,
}
use chuk_mcp_training.Leases.Teardown.{ledger}
use chuk_mcp_training.Leases.Spending.{
  ProvisionResult, breach_of, budget_check, exact_check, lease_of, record_start, settle,
}

-- A new row of a worker is one more live lease.
live_leases-create_lease :
    (l : Lease) (s : Store)
    → any (λ x. x.worker_id == l.worker_id) s.leases ≡ false
    → is_destroyed l.state ≡ false
    → live_leases (create_lease l s) ≡ live_leases s ++ l ∷ []
unfolding live_leases create_lease
live_leases-create_lease l s fresh live = rw fresh (keep-snoc s.leases)
  where
    keep-snoc :
        (xs : List Lease)
        → keep (λ x. not (is_destroyed x.state)) (xs ++ l ∷ [])
          ≡ keep (λ x. not (is_destroyed x.state)) xs ++ l ∷ []
    keep-snoc [] = rw live refl
    keep-snoc (x ∷ xs) = ground (arith, keep-snoc xs)

create_lease-keeps :
    (l : Lease) (s : Store)
    → ((create_lease l s).budgets ≡ s.budgets) × ((create_lease l s).ledger ≡ s.ledger)
unfolding create_lease
create_lease-keeps l s = elim (Bool-cases (any (λ x. x.worker_id == l.worker_id) s.leases)) [
  | inl e ↦ rw e (refl, refl)
  | inr e ↦ rw e (refl, refl)
]

granted_alone :
    (config : Config) (req : ProvisionRequest) (worker_id : String) (machine : Instance) (now : ℕ)
    → projected_cost (lease_of config req worker_id machine now)
      ≡ cost_of machine.price_hr req.lease_min
unfolding projected_cost total_granted_min total_minutes sum_f64 sum_onto lease_of
granted_alone config req worker_id machine now =
    ap (cost_of machine.price_hr) (add_zero req.lease_min)

module _ {W : Type 0} (out : Outside W) (config : Config) (req : ProvisionRequest) (p : Provider W)
    (worker_id : String) (machine : Instance) where
  -- The two ways to end: refused, with nothing changed but the world, in which the machine was asked to
  -- go; or with the lease in the store, of which every budget about the provider covered the cost.
  abbrev pub Settled : Manager W → Manager W × Outcome ProvisionResult → Type 0
  Settled g (h, failed e) = h ≡ record g { world = (p.destroy machine.id g.world).0 }
  Settled g (h, done r) =
      (live_leases h.hub.store ≡ live_leases g.hub.store ++ r.lease ∷ [])
      × (r.lease.provider ≡ req.provider)
      × Covers (ledger_entries g.hub.store) (live_leases g.hub.store) req.provider
          (projected_cost r.lease) (out.now h.world) (budgets h.hub.store)

  settled :
      (g : Manager W) (l : Lease)
      → any (λ x. x.worker_id == l.worker_id) g.hub.store.leases ≡ false
      → is_destroyed l.state ≡ false
      → l.provider ≡ req.provider
      → breach_of req.provider (projected_cost l) (out.now g.world) g.hub.store ≡ none
      → Settled g (record_start out l g)
  unfolding record_start ledger breach_of asks update_store update pure ledger_append ledger_entries
      budgets ◌>>=◌ ◌>>◌
  settled g l fresh live by e = (
    live_leases-create_lease l g.hub.store fresh live,
    by,
    subst
        (λ bs.
          Covers g.hub.store.ledger (live_leases g.hub.store) req.provider (projected_cost l)
            (out.now g.world) bs)
        (sym ((create_lease-keeps l g.hub.store).0))
        (evaluate-Covers g.hub.store.budgets g.hub.store.ledger (live_leases g.hub.store)
          req.provider (projected_cost l) (out.now g.world) e),
  )

  -- From the rented instance on, with a worker id that no lease has, a provision either is refused, with
  -- nothing changed but that the provider was asked to destroy the instance, or it puts the lease among
  -- the live ones, and every budget about the provider covers its cost.
  pub settle-Settled :
      (g : Manager W)
      → any (λ x. x.worker_id == worker_id) g.hub.store.leases ≡ false
      → Settled g (settle out config req p worker_id machine g)
  unfolding settle exact_check budget_check asks pure fail lease_of ◌>>=◌ ◌>>◌
  settle-Settled g fresh =
      elim (Option-cases (
        breach_of req.provider (cost_of machine.price_hr req.lease_min) (out.now g.world)
          g.hub.store)) [
            | inl e ↦ rw e (
                settled g (lease_of config req worker_id machine (out.now g.world)) fresh refl refl
                  (rw (granted_alone config req worker_id machine (out.now g.world)) e))
            | inr (b, e) ↦ rw e refl
          ]
