-- ===== src/Leases/Extend.antt =====
-- The extension of a lease (lease.rs extend).
use chuk_mcp_training.Base.{
  map, String, ◌==◌, ◌≡◌, refl, sym, ap, ◌∙◌, Option, none, some, List, [], ◌∷◌, ◌++◌, find-modify,
  find_test, if◌then◌else◌, Bool-cases, Option-cases, inl, inr,
}
use chuk_mcp_training.Base.Float.{F64}
use chuk_mcp_training.Base.Doubles.{add_f64, mul_f64, sum_onto, sum_f64, whole, zero_f64}
use chuk_mcp_training.Proto.Run.{LeaseState, active}
use chuk_mcp_training.Proto.Lease.{
  Lease, LeaseExtension, total_minutes, total_granted_min, wall_secs, cost_of,
}
use chuk_mcp_training.Store.Tables.{Store}
use chuk_mcp_training.Store.Fleet.{lease, set_lease_state, extended, extend_lease}
use chuk_mcp_training.Store.Ledger.{ledger_append}
use chuk_mcp_training.Leases.Manager.{
  Outside, Manager, Outcome, done, failed, ◌>>=◌, ◌>>◌, pure, fail, asks, update, update_store,
}
use chuk_mcp_training.Leases.Teardown.{is_draining, ledger}
use chuk_mcp_training.Leases.Spending.{
  breach_of, budget_check, extension_check, extend_row, record_extension, extend,
}

sum_onto-append :
    (acc m : F64) (xs : List F64) → sum_onto acc (xs ++ m ∷ []) ≡ add_f64 (sum_onto acc xs) m
unfolding sum_onto
sum_onto-append acc m [] = refl
sum_onto-append acc m (x ∷ xs) = sum_onto-append (add_f64 acc x) m xs

map-append :
    (es : List LeaseExtension) (e : LeaseExtension)
    → map (λ e. e.minutes) (es ++ e ∷ []) ≡ map (λ e. e.minutes) es ++ e.minutes ∷ []
map-append [] e = refl
map-append (x ∷ xs) e = ap (λ ms. x.minutes ∷ ms) (map-append xs e)

abbrev longer : LeaseExtension → Lease → Lease
longer e l = record l { extensions = l.extensions ++ e ∷ [] }

-- The seconds to the wall with more minutes at the end of the sum.
abbrev wall_with : Lease → F64 → F64
wall_with l minutes =
    mul_f64 (add_f64 l.granted_min (add_f64 (total_minutes l.extensions) minutes)) (whole 60)

wall-longer : (e : LeaseExtension) (l : Lease) → wall_secs (longer e l) ≡ wall_with l e.minutes
unfolding wall_secs total_granted_min total_minutes sum_f64
wall-longer e l =
    ap (λ t. mul_f64 (add_f64 l.granted_min t) (whole 60))
      (ap sum_f64 (map-append l.extensions e)
        ∙ sum_onto-append zero_f64 e.minutes (map (λ e. e.minutes) l.extensions))

-- The row that a reading finds after the extension, and after a change of the state.
lease-extended :
    (id : String) (e : LeaseExtension) (s : Store) (l : Lease)
    → lease id s ≡ some l
    → lease id (extended id e (some l) s).0 ≡ some (longer e l)
unfolding lease extended
lease-extended id e s l found =
    find-modify (λ x. x.worker_id == id) (λ x. x.worker_id == id)
      (λ x. record x { extensions = l.extensions ++ e ∷ [] }) (λ x. refl) s.leases
    ∙ rw found (rw (find_test (λ x. x.worker_id == id) s.leases l found) refl)

lease-set_lease_state :
    (id : String) (state : LeaseState) (s : Store) (l : Lease)
    → lease id s ≡ some l
    → lease id (set_lease_state id state s) ≡ some (record l { state = state })
unfolding lease set_lease_state
lease-set_lease_state id state s l found =
    find-modify (λ x. x.worker_id == id) (λ x. x.worker_id == id) (λ x. record x { state = state })
      (λ x. refl) s.leases
    ∙ rw found (rw (find_test (λ x. x.worker_id == id) s.leases l found) refl)

module _ {W : Type 0} (out : Outside W) (id : String) (minutes : F64) (reason : String) where
  -- What the row of the worker becomes.
  abbrev pub Moved : Lease → Lease → Type 0
  Moved old new =
      (wall_secs new ≡ wall_with old minutes)
      × (new.state ≡ (if is_draining old.state then active else old.state))

  -- The three ways to end.
  abbrev pub Extended : Manager W → Manager W × Outcome (Option Lease) → Type 0
  Extended g (h, failed e) = h ≡ g
  Extended g (h, done none) = (h ≡ g) × (lease id g.hub.store ≡ none)
  Extended g (h, done (some l)) =
      (old : Lease) × (new : Lease) × (lease id g.hub.store ≡ some old)
      × (lease id h.hub.store ≡ some new)
      × Moved old new

  -- The end of extend, on a row that has been found.
  recorded :
      (g h : Manager W) (old l : Lease)
      → lease id g.hub.store ≡ some old
      → l.state ≡ old.state
      → wall_secs l ≡ wall_with old minutes
      → lease id h.hub.store ≡ some l
      → Extended g ((record_extension out id minutes (some l) >> pure (some l)) h)
  unfolding record_extension ledger asks pure update_store update ledger_append ◌>>=◌ ◌>>◌
      set_lease_state lease wall_secs
  recorded g h old l found same wall row = elim (Bool-cases (is_draining l.state)) [
    | inl e ↦ rw e (
      old,
      record l { state = active },
      found,
      lease-set_lease_state id active h.hub.store l row,
      (wall, rw (sym same) (rw e refl)),
    )
    | inr e ↦ rw e (old, l, found, row, (wall, rw (sym same) (rw e refl)))
  ]

  extend_lease-none :
      (e : LeaseExtension) (s : Store) → lease id s ≡ none → extend_lease id e s ≡ (s, none)
  unfolding extend_lease extended
  extend_lease-none e s h = ap (λ o. extended id e o s) h

  extend_lease-some :
      (e : LeaseExtension) (s : Store) (l : Lease)
      → lease id s ≡ some l
      → extend_lease id e s ≡ extended id e (some l) s
  unfolding extend_lease
  extend_lease-some e s l h = ap (λ o. extended id e o s) h

  -- An extension that fails changes nothing, and one of a worker without a lease does nothing. Any other
  -- adds its minutes, in doubles, to the sum of the extensions that the wall is computed from, and a lease
  -- that was draining is active again.
  pub extend-Extended : (g : Manager W) → Extended g (extend out id minutes reason g)
  unfolding extend extension_check budget_check extend_row record_extension extended asks pure fail
      ◌>>=◌ ◌>>◌
  extend-Extended g = elim (Option-cases (lease id g.hub.store)) [
    | inl e ↦ rw e (rw (extend_lease-none _ g.hub.store e) (refl, e))
    | inr (l, e) ↦
        rw e
          (elim (Option-cases
            (breach_of l.provider (cost_of l.price_hr minutes) (out.now g.world) g.hub.store)) [
              | inr (b, f) ↦ rw f refl
              | inl f ↦ rw f (
                  rw (extend_lease-some _ g.hub.store l e) (
                    recorded g _ l _ e refl (wall-longer _ l)
                      (lease-extended id _ g.hub.store l e)))
            ])
  ]
