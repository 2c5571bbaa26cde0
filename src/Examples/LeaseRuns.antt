-- ===== src/Examples/LeaseRuns.antt =====
-- Examples of the lease manager (lease.rs).
use chuk_mcp_training.Base.{
  ◌+◌, ◌==◌, ◌≡◌, refl, true, false, none, [], ◌∷◌, All, any, arith, inl, eq_iff,
}
use chuk_mcp_training.Base.Doubles.{whole}
use chuk_mcp_training.Proto.Run.{active, draining}
use chuk_mcp_training.Leases.Manager.{ProvisionRequest, provider_named, Manager}
use chuk_mcp_training.Base.Text.{take_chars}
use chuk_mcp_training.Proto.Lease.{wall_secs, total_granted_min, total_minutes}
use chuk_mcp_training.Store.Fleet.{live_leases, is_destroyed}
use chuk_mcp_training.Leases.Rules.{Ends}
use chuk_mcp_training.Leases.Teardown.{verify_gone}
use chuk_mcp_training.Leases.Passes.{is_owned, clock_pass, is_over, reconcile_pass}
use chuk_mcp_training.Leases.Spending.{worker_id_of, provision, extend}
use chuk_mcp_training.Leases.Verify.{Stands, verify_gone-Stands}
use chuk_mcp_training.Leases.Rows.{LeaseRows}
use chuk_mcp_training.Leases.Turns.{IsGone}
use chuk_mcp_training.Leases.Wall.{clock_pass-IsGone}
use chuk_mcp_training.Leases.Provision.{Ended, provision-Ended}
use chuk_mcp_training.Leases.Extend.{Extended, extend-Extended}
use chuk_mcp_training.Leases.Reconcile.{
  Spares, Stays, Billed, reconcile_pass-Spares, reconcile_pass-Gone,
}
use chuk_mcp_training.Examples.LeaseData.{
  World, t4, fake, out, verify, config, lease_in, manager_at, timely, reliable,
}

-- A lease at its wall, and one that has drained for some time of its hour.
abbrev late : Manager World
late = manager_at 3600000 (lease_in "w" "i-1" active ∷ lease_in "x" "i-2" draining ∷ [])

verify_gone-Stands_example :
    Ends
      (λ s h.
        (h ≡ record late { world = h.world })
        × Stands out fake "i-1" (out.instant late.world + verify.timeout) s h.world)
      (verify_gone out verify fake "i-1" late)
verify_gone-Stands_example = verify_gone-Stands out verify fake "i-1" late timely (omega arith)

clock_pass-IsGone_example : Ends (λ u. LeaseRows (IsGone "w")) (clock_pass out verify config late)
unfolding is_over wall_secs total_granted_min total_minutes provider_named
clock_pass-IsGone_example =
    clock_pass-IsGone out verify config reliable "w" late ((refl, tt), (tt, tt))
      ((fake, refl), ((fake, refl), tt)) ((λ e. refl), ((λ e. absurd cc), tt))

abbrev request : ProvisionRequest
request = record {
  provider = "fake";
  lease_min = whole 60;
  offer_id = none;
  gpu = none;
  max_price_hr = none;
}

provision-Ended_example : Ended out config request late (provision out config request late)
unfolding worker_id_of take_chars
provision-Ended_example = provision-Ended out config request late refl

extend-Extended_example :
    Extended out "x" (whole 30) "more" late (extend out "x" (whole 30) "more" late)
extend-Extended_example = extend-Extended out "x" (whole 30) "more" late

-- The instance of the lease at its wall has not been destroyed.
abbrev Untouched : World → Type 0
Untouched w = any (λ x. x == "i-1") w.ended ≡ false

spares : All (Spares (live_leases late.hub.store) Untouched) (fake ∷ [])
unfolding is_owned live_leases is_destroyed
spares = (
  record {
    listed = λ w h. h;
    killed = λ i w e h. ground (arith, h, eq_iff i.id "i-1", eq_iff "i-1" i.id, e);
  },
  tt,
)

reconcile_pass-Spares_example :
    Untouched (reconcile_pass out late).0.world × ((reconcile_pass out late).0.hub ≡ late.hub)
reconcile_pass-Spares_example = reconcile_pass-Spares out late Untouched spares refl

-- The instance that no lease knows.
abbrev IsEnded : World → Type 0
IsEnded w = any (λ x. x == "i-7") w.ended ≡ true

abbrev Always : World → Type 0
Always w = Unit

stays : Stays (live_leases late.hub.store) Always IsEnded "i-7" fake
stays = record {
  either = record { listed = λ w h. inl tt; killed = λ i w e h. inl tt };
  dead = record { listed = λ w h. h; killed = λ i w e h. ground (arith, h) };
}

billed : Billed (live_leases late.hub.store) Always IsEnded "i-7" fake
billed = record { listed = λ w h. refl; ended = λ w h. refl }

reconcile_pass-Gone_example : IsEnded (reconcile_pass out late).0.world
unfolding is_owned live_leases is_destroyed
reconcile_pass-Gone_example =
    reconcile_pass-Gone out late Always IsEnded t4 [] [] fake refl tt tt stays billed refl tt
