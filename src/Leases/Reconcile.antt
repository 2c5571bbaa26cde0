-- ===== src/Leases/Reconcile.antt =====
-- The reconcile loop (lease.rs reconcile_pass) destroys what no live lease owns, and nothing else.
use chuk_mcp_training.Base.{
  String, ◌==◌, ◌≡◌, refl, Bool, true, false, Option, none, some, List, [], ◌∷◌, ◌++◌, ◌⊎◌, All,
  All-implies, any, Bool-cases, inl, inr, eq_iff,
}
use chuk_mcp_training.Proto.Lease.{Lease}
use chuk_mcp_training.Store.Fleet.{live_leases}
use chuk_mcp_training.Leases.Manager.{Instance, Provider, Outside, Manager}
use chuk_mcp_training.Leases.Passes.{
  is_owned, kill_orphans, kill_listed, reconcile_all, reconcile_pass,
}

module _ {W : Type 0} (live : List Lease) (Inv : W → Type 0) where
  -- The listings of a provider, and its destroys of what no live lease owns, keep a predicate.
  pub record Spares (p : Provider W) : Type 0 where
    pub listed : (w : W) → Inv w → Inv (p.list_instances w).0
    pub killed :
        (i : Instance) (w : W) → is_owned p.name live i ≡ false → Inv w → Inv (p.destroy i.id w).0

  kill_orphans-spares :
      (p : Provider W)
      → Spares p
      → (is : List Instance) (w : W) → Inv w
      → Inv (kill_orphans p live is w)
  unfolding kill_orphans
  kill_orphans-spares p k [] w h = h
  kill_orphans-spares p k (i ∷ is) w h = elim (Bool-cases (is_owned p.name live i)) [
    | inl e ↦ rw e (kill_orphans-spares p k is w h)
    | inr e ↦ rw e (kill_orphans-spares p k is (p.destroy i.id w).0 (k.killed i w e h))
  ]

  kill_listed-spares :
      (p : Provider W)
      → Spares p
      → (r : W × Option (List Instance)) → Inv r.0
      → Inv (kill_listed p live r)
  unfolding kill_listed
  kill_listed-spares p k (w, none) h = h
  kill_listed-spares p k (w, some is) h = kill_orphans-spares p k is w h

  reconcile_all-spares :
      (ps : List (Provider W)) → All Spares ps → (w : W) → Inv w → Inv (reconcile_all ps live w)
  unfolding reconcile_all
  reconcile_all-spares [] k w h = h
  reconcile_all-spares (p ∷ ps) k w h =
      reconcile_all-spares ps k.1 (kill_listed p live (p.list_instances w))
        (kill_listed-spares p k.0 (p.list_instances w) (k.0.listed w h))

-- Whether a listing names an instance.
abbrev pub lists : String → Option (List Instance) → Bool
lists id none = false
lists id (some is) = any (λ x. x.id == id) is

module _ {W : Type 0} (live : List Lease) (Up Gone : W → Type 0) (id : String) where
  abbrev pub UpOrGone : W → Type 0
  UpOrGone w = Up w ⊎ Gone w

  -- The provider lists the instance while it is up, and a destroy of it leaves it gone.
  pub record Billed (p : Provider W) : Type 0 where
    pub listed : (w : W) → Up w → lists id (p.list_instances w).1 ≡ true
    pub ended : (w : W) → Up w → Gone (p.destroy id w).0

  -- What happens to the instance at any provider: a listing, or a destroy of another instance that no
  -- live lease owns, leaves it up or gone, and what is gone stays gone.
  pub record Stays (p : Provider W) : Type 0 where
    pub either : Spares live UpOrGone p
    pub dead : Spares live Gone p

  module _ (p : Provider W) (stays : Stays p) (billed : Billed p) (machine : Instance)
      (named : machine.id ≡ id) (orphan : is_owned p.name live machine ≡ false) where
    same_owner : (i : Instance) → (i.id == id) ≡ true → is_owned p.name live i ≡ false
    unfolding is_owned
    same_owner i e = rw ((eq_iff i.id id).0 e) (rw named at orphan)

    settles : (i : Instance) (w : W) → (i.id == id) ≡ true → UpOrGone w → Gone (p.destroy i.id w).0
    settles i w e (inl u) = rw ((eq_iff i.id id).0 e) (billed.ended w u)
    settles i w e (inr d) = stays.dead.killed i w (same_owner i e) d

    kill_orphans-kills :
        (is : List Instance) (w : W)
        → any (λ x. x.id == id) is ≡ true
        → UpOrGone w
        → Gone (kill_orphans p live is w)
    unfolding kill_orphans
    kill_orphans-kills [] w e h = absurd cc
    kill_orphans-kills (i ∷ is) w e h = elim (Bool-cases (i.id == id)) [
      | inl same ↦
          rw (same_owner i same) (
            kill_orphans-spares live Gone p stays.dead is (p.destroy i.id w).0 (settles i w same h))
      | inr other ↦ elim (Bool-cases (is_owned p.name live i)) [
        | inl o ↦ rw o (kill_orphans-kills is w (rw other at e) h)
        | inr o ↦ rw o (
            kill_orphans-kills is (p.destroy i.id w).0 (rw other at e)
              (stays.either.killed i w o h))
      ]
    ]

    kill_listed-kills :
        (r : W × Option (List Instance))
        → lists id r.1 ≡ true
        → UpOrGone r.0
        → Gone (kill_listed p live r)
    unfolding kill_listed
    kill_listed-kills (w, none) e h = absurd cc
    kill_listed-kills (w, some is) e h = kill_orphans-kills is w e h

    turn-kills : (w : W) → UpOrGone w → Gone (kill_listed p live (p.list_instances w))
    turn-kills w (inl u) =
        kill_listed-kills (p.list_instances w) (billed.listed w u) (stays.either.listed w (inl u))
    turn-kills w (inr d) =
        kill_listed-spares live Gone p stays.dead (p.list_instances w) (stays.dead.listed w d)

    reconcile_all-kills :
        (before after : List (Provider W))
        → All Stays before
        → All Stays after
        → (w : W) → UpOrGone w
        → Gone (reconcile_all (before ++ p ∷ after) live w)
    unfolding reconcile_all
    reconcile_all-kills [] after b a w h =
        reconcile_all-spares live Gone after (All-implies Stays _ (λ q s. s.dead) after a) _
          (turn-kills w h)
    reconcile_all-kills (q ∷ qs) after b a w h =
        reconcile_all-kills qs after b.1 a _ (
          kill_listed-spares live UpOrGone q b.0.either (q.list_instances w)
            (b.0.either.listed w h))

module _ {W : Type 0} (out : Outside W) (g : Manager W) where
  -- Whatever the listings and the destroys of instances that no live lease owns leave alone, a pass of the
  -- reconcile loop leaves alone: it destroys no instance that a live lease of its provider owns. The
  -- rows of the store stay as they are.
  pub reconcile_pass-Spares :
      (Inv : W → Type 0)
      → All (Spares (live_leases g.hub.store) Inv) out.providers
      → Inv g.world
      → Inv (reconcile_pass out g).0.world × ((reconcile_pass out g).0.hub ≡ g.hub)
  unfolding reconcile_pass
  reconcile_pass-Spares Inv spares h =
      (reconcile_all-spares (live_leases g.hub.store) Inv out.providers spares g.world h, refl)

  -- An instance that is up, that its provider lists and ends on a destroy, and that no live lease of that
  -- provider owns is gone after a pass of the reconcile loop, wherever its provider stands in the registry
  -- and whatever else is destroyed in the pass.
  pub reconcile_pass-Gone :
      (Up Gone : W → Type 0) (machine : Instance) (before after : List (Provider W))
      (p : Provider W)
      → out.providers ≡ before ++ p ∷ after
      → All (Stays (live_leases g.hub.store) Up Gone machine.id) before
      → All (Stays (live_leases g.hub.store) Up Gone machine.id) after
      → Stays (live_leases g.hub.store) Up Gone machine.id p
      → Billed (live_leases g.hub.store) Up Gone machine.id p
      → is_owned p.name (live_leases g.hub.store) machine ≡ false
      → Up g.world
      → Gone (reconcile_pass out g).0.world
  unfolding reconcile_pass
  reconcile_pass-Gone Up Gone machine before after p split b a stays billed orphan up = rw split (
      reconcile_all-kills (live_leases g.hub.store) Up Gone machine.id p stays billed machine refl
        orphan before after b a g.world (inl up))
