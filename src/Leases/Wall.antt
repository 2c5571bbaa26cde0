-- ===== src/Leases/Wall.antt =====
-- The wall (lease.rs clock_pass): a lease that has reached it is destroyed, whatever its agent does.
use chuk_mcp_training.Base.{
  ℕ, String, ◌==◌, ◌≡◌, refl, Bool, true, false, not, List, [], ◌∷◌, All, any, keep, All-keep,
  All-implies, All-both, Bool-cases, inl, inr, Table, get,
}
use chuk_mcp_training.Proto.Run.{LeaseState, destroyed}
use chuk_mcp_training.Proto.Lease.{Lease}
use chuk_mcp_training.Store.Fleet.{live_leases, is_destroyed}
use chuk_mcp_training.Leases.Manager.{Outside, VerifyPolicy, Config, Manager, ◌>>=◌, asks}
use chuk_mcp_training.Leases.Passes.{
  is_over, is_overdue, find_idle, mark_idle, reap_idle, clock_pass,
}
use chuk_mcp_training.Leases.Rules.{
  Ends, Ends-implies, Does, Does-asks, Does-update, Does-bind, Does-then,
}
use chuk_mcp_training.Leases.Rows.{Reliable, Served, LeaseRows}
use chuk_mcp_training.Leases.Turns.{IsGone, Keyed, is_of, Held, tend_all-Held, reap_all-Held}

-- What reap_idle picks is among the live leases.
find_idle-All :
    (Q : Lease → Type 0) (test : Lease → Bool) (instant limit : ℕ) (ls : List Lease)
    → All Q ls
    → (idle : Table ℕ) → All Q (find_idle test instant limit ls idle).1
unfolding find_idle
find_idle-All Q test instant limit [] h idle = tt
find_idle-All Q test instant limit (l ∷ ls) h idle = elim (Bool-cases (test l)) [
  | inl t ↦ rw t (elim (Bool-cases (is_overdue instant limit (get l.worker_id idle))) [
    | inl o ↦ rw o (h.0, find_idle-All Q test instant limit ls h.1 _)
    | inr o ↦ rw o (find_idle-All Q test instant limit ls h.1 _)
  ])
  | inr t ↦ rw t (find_idle-All Q test instant limit ls h.1 _)
]

live-other :
    (id : String) (l : Lease)
    → IsGone id l
    → not (is_destroyed l.state) ≡ true
    → (l.worker_id == id) ≡ false
unfolding is_destroyed
live-other id l h e = elim (Bool-cases (l.worker_id == id)) [
  | inl own ↦ absurd (cc (rw (h own) at e))
  | inr other ↦ other
]

is_destroyed-eq : (s : LeaseState) → is_destroyed s ≡ true → s ≡ destroyed
unfolding is_destroyed
is_destroyed-eq destroyed e = refl
is_destroyed-eq _ e = cc

not_live :
    (id : String) (ls : List Lease)
    → any (is_of id) (keep (λ l. not (is_destroyed l.state)) ls) ≡ false
    → All (IsGone id) ls
unfolding is_destroyed
not_live id [] e = tt
not_live id (l ∷ ls) e = elim (Bool-cases (is_destroyed l.state)) [
  | inl d ↦ ((λ is. is_destroyed-eq l.state d), not_live id ls (rw d at e))
  | inr d ↦ elim (Bool-cases (l.worker_id == id)) [
    | inl own ↦ absurd (cc (rw (d, own) at e))
    | inr other ↦ ((λ is. absurd (cc (is, other))), not_live id ls (rw (d, other) at e))
  ]
]

Keyed-keep : (p : Lease → Bool) (ls : List Lease) → Keyed ls → Keyed (keep p ls)
Keyed-keep p [] k = tt
Keyed-keep p (l ∷ ls) k = elim (Bool-cases (p l)) [
  | inl e ↦ rw e (
    All-implies _ _ (λ x h. h.0) _ (All-keep (λ x. (x.worker_id == l.worker_id) ≡ false) p ls k.0),
    Keyed-keep p ls k.1,
  )
  | inr e ↦ rw e (Keyed-keep p ls k.1)
]

module _ {W : Type 0} (out : Outside W) (verify : VerifyPolicy) (config : Config)
    (reliable : Reliable out verify) (id : String) where
  abbrev Idle : Lease → Type 0
  Idle l = ((l.worker_id == id) ≡ false) × Served out l

  picked :
      (g : Manager W)
      → LeaseRows (Held out verify reliable id false) g
      → All Idle (mark_idle out config.idle_reap g).1
  unfolding mark_idle live_leases
  picked g h =
      find_idle-All Idle _ _ _ _
        (All-implies _ Idle (λ l k. (live-other id l (k.0.0 refl) k.1, k.0.1)) _
          (All-keep (Held out verify reliable id false) _ _ h.all))
        _

  reap_idle-Held :
      Does
        (LeaseRows (Held out verify reliable id false))
        (λ u. LeaseRows (Held out verify reliable id false))
        (reap_idle out verify config)
  unfolding reap_idle mark_idle live_leases
  reap_idle-Held =
      Does-bind (λ found g. LeaseRows (Held out verify reliable id false) g × All Idle found.1) _ _
        (Does-asks _ λ g h. (h, picked g h))
        λ found.
          Does-then (λ g. LeaseRows (Held out verify reliable id false) g × All Idle found.1) _ _
            (Does-update _ λ g h. (record { all = h.0.all }, h.1))
            (record { at = λ g h. (reap_all-Held out verify reliable id found.1 h.1).at g h.0 })

  -- One pass of the clock, in a world where the providers accept every destroy and time passes: it
  -- succeeds, and each lease of a worker that has reached its wall when the pass begins is destroyed
  -- after it, whatever the state of the worker and of its link, of the other leases and of the queue.
  pub clock_pass-IsGone :
      (g : Manager W)
      → Keyed g.hub.store.leases
      → All (Served out) g.hub.store.leases
      → All
          (λ l. (l.worker_id == id) ≡ true → is_over (out.now g.world) l ≡ true)
          g.hub.store.leases
      → Ends (λ u. LeaseRows (IsGone id)) (clock_pass out verify config g)
  unfolding clock_pass asks live_leases ◌>>=◌
  clock_pass-IsGone g keyed served due =
      Ends-implies (λ u. LeaseRows (Held out verify reliable id false)) (λ u. LeaseRows (IsGone id))
        _
        (λ u h k. record {
          all =
              All-implies (Held out verify reliable id false) (IsGone id) (λ x held. held.0 refl) _
                k.all;
        })
        ((Does-then (LeaseRows (Held out verify reliable id false)) _ _
            (tend_all-Held out verify reliable id (out.now g.world) _ (Keyed-keep _ _ keyed) turns)
            reap_idle-Held).at
          g (record { all = start }))
    where
      turns :
          All
            (λ l. ((l.worker_id == id) ≡ true → is_over (out.now g.world) l ≡ true) × Served out l)
            (live_leases g.hub.store)
      turns = All-implies _ _ (λ l k. k.0) _ (All-keep _ _ _ (All-both _ _ _ due served))

      start :
          All
            (Held out verify reliable id (any (is_of id) (live_leases g.hub.store)))
            g.hub.store.leases
      start = elim (Bool-cases (any (is_of id) (live_leases g.hub.store))) [
        | inl e ↦ rw e (All-implies _ _ (λ x k. ((λ d. absurd (cc d)), k)) _ served)
        | inr e ↦ rw e (
            All-implies _ _ (λ x k. ((λ d. k.0), k.1)) _
              (All-both _ _ _ (not_live id g.hub.store.leases e) served))
      ]
