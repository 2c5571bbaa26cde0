-- ===== src/Leases/Rows.antt =====
-- What drain and destroy_and_verify (lease.rs) do to the rows of the leases, whatever the agent does.
use chuk_mcp_training.Base.Float.{F64}
use chuk_mcp_training.Base.{
  ◌+◌, ◌<◌, String, ◌==◌, ◌≡◌, refl, Bool, true, false, Option, none, some, All, modify-carries,
  if◌then◌else◌, Bool-cases, inl, inr, get,
}
use chuk_mcp_training.Proto.Run.{LeaseState, draining, destroyed}
use chuk_mcp_training.Proto.Lease.{Lease}
use chuk_mcp_training.Store.Fleet.{set_lease_state, worker_left}
use chuk_mcp_training.Store.Ledger.{ledger_append}
use chuk_mcp_training.Hub.State.{Hub, CpToWorker, Link, send_to, deliver}
use chuk_mcp_training.Leases.Manager.{
  update_store, InstanceStatus, Provider, Outside, VerifyPolicy, Manager, ◌>>=◌, fail,
  destroy_failed, provider_named, provider, or_fail,
}
use chuk_mcp_training.Leases.Teardown.{
  ledger, drain, verify_gone, record_end, destroy_by, destroy_and_verify, is_draining,
}
use chuk_mcp_training.Leases.Rules.{
  Ends-implies, Does-weaken, Does, Does-pure, Does-asks, Does-call, Does-if, Does-update,
  Does-update_store, Does-bind, Does-then,
}
use chuk_mcp_training.Leases.Verify.{Stands, Timely, verify_gone-Stands}

-- A world in which the registered providers accept every destroy and time passes.
pub record Reliable {W : Type 0} (out : Outside W) (verify : VerifyPolicy) : Type 0 where
  pub positive : 0 < verify.poll
  pub timely :
      (name : String) (p : Provider W) → provider_named name out.providers ≡ some p → Timely out p
  pub accepts :
      (name : String) (p : Provider W)
      → provider_named name out.providers ≡ some p
      → (id : String) (w : W) → (p.destroy id w).1 ≡ true

-- The lease's provider is registered.
module _ {W : Type 0} where
  abbrev pub Served : Outside W → Lease → Type 0
  Served out l = (p : Provider W) × (provider_named l.provider out.providers ≡ some p)

pub record LeaseRows {W : Type 0} (Q : Lease → Type 0) (g : Manager W) : Type 0 where
  pub all : All Q g.hub.store.leases

abbrev pub set_state : LeaseState → Lease → Lease
set_state s l = record l { state = s }

deliver-store :
    (id : String) (msg : CpToWorker) (l : Option Link) (h : Hub)
    → (deliver id msg l h).1.store ≡ h.store
unfolding deliver
deliver-store id msg none h = refl
deliver-store id msg (some l) h = elim (Bool-cases l.is_open) [
  | inl e ↦ rw e refl
  | inr e ↦ rw e refl
]

pub send_to-store :
    (id : String) (msg : CpToWorker) (h : Hub) → (send_to id msg h).1.store ≡ h.store
unfolding send_to
send_to-store id msg h = deliver-store id msg (get id h.links) h

module _ {W : Type 0} (Q P : Lease → Type 0) (id : String) (state : LeaseState)
    (same : (x : Lease) → (x.worker_id == id) ≡ true → Q x → P (set_state state x))
    (other : (x : Lease) → (x.worker_id == id) ≡ false → Q x → P x) where
  set_lease_state-LeaseRows :
      Does {W = W} (LeaseRows Q) (λ u. LeaseRows P) (update_store (set_lease_state id state))
  unfolding set_lease_state
  set_lease_state-LeaseRows = Does-update_store _ λ g h. record {
    all = modify-carries Q P (λ x. x.worker_id == id) _ same other g.hub.store.leases h.all;
  }

module _ {W : Type 0} (Q : Lease → Type 0) (l : Lease) where
  -- drain
  pub drain-LeaseRows :
      ((x : Lease) → (x.worker_id == l.worker_id) ≡ true → Q x → Q (set_state draining x))
      → Does {W = W} (LeaseRows Q) (λ u. LeaseRows Q) (drain l)
  unfolding drain
  drain-LeaseRows same =
      Does-then (LeaseRows Q) _ _
        (Does-if (is_draining l.state) _ _ (Does-pure tt λ g h. h)
          (set_lease_state-LeaseRows Q Q l.worker_id draining same λ x e h. h))
        (Does-update _ λ g h. record { all = rw (send_to-store l.worker_id _ g.hub) h.all })

module _ {W : Type 0} (out : Outside W) (verify : VerifyPolicy) (Q P : Lease → Type 0) (l : Lease)
    (same : (x : Lease) → (x.worker_id == l.worker_id) ≡ true → Q x → P (set_state destroyed x))
    (other : (x : Lease) → (x.worker_id == l.worker_id) ≡ false → Q x → P x) where
  ledger-LeaseRows :
      (event : String) (minutes cost : F64)
      → Does {W = W} (LeaseRows P) (λ u. LeaseRows P) (ledger out l event minutes cost)
  unfolding ledger ledger_append
  ledger-LeaseRows event minutes cost =
      Does-bind (λ now. LeaseRows P) _ _ (Does-asks _ λ g h. h)
        λ now. Does-update_store _ λ g h. record { all = h.all }

  record_end-LeaseRows :
      (s : InstanceStatus) → Does {W = W} (LeaseRows Q) (λ r. LeaseRows P) (record_end out l s)
  unfolding record_end worker_left
  record_end-LeaseRows s =
      Does-then (LeaseRows P) _ _ (set_lease_state-LeaseRows Q P l.worker_id destroyed same other) (
        Does-then (LeaseRows P) _ _ (Does-update_store _ λ g h. record { all = h.all }) (
          Does-then (LeaseRows P) _ _ (Does-update _ λ g h. record { all = h.all }) (
            Does-bind (λ now. LeaseRows P) _ _ (Does-asks _ λ g h. h)
              λ now.
                Does-then (LeaseRows P) _ _ (ledger-LeaseRows "lease_end" _ _)
                  (Does-pure _ λ g h. h))))

  verify_gone-LeaseRows :
      Reliable out verify
      → (name : String) (p : Provider W) → provider_named name out.providers ≡ some p
      → (id : String) → Does (LeaseRows Q) (λ s. LeaseRows Q) (verify_gone out verify p id)
  verify_gone-LeaseRows reliable name p named id = record {
    at = λ g h.
        Ends-implies
          (λ s h.
            (h ≡ record g { world = h.world })
            × Stands out p id (out.instant g.world + verify.timeout) s h.world)
          (λ s. LeaseRows Q) _ (λ s k e. record { all = rw (e.0) h.all })
          (verify_gone-Stands out verify p id g (reliable.timely name p named) reliable.positive);
  }

  accepted-LeaseRows :
      Reliable out verify
      → (p : Provider W) → provider_named l.provider out.providers ≡ some p
      → (b : Bool)
      → Does
          (λ g. LeaseRows Q g × (b ≡ true))
          (λ r. LeaseRows P)
          (if b
            then verify_gone out verify p l.instance_id >>= record_end out l
            else fail destroy_failed)
  accepted-LeaseRows reliable p named true =
      Does-bind (λ s. LeaseRows Q) _ _
        (Does-weaken _ _ (λ g h. h.0)
          (verify_gone-LeaseRows reliable l.provider p named l.instance_id))
        record_end-LeaseRows
  accepted-LeaseRows reliable p named false = record { at = λ g h. absurd (cc (h.1)) }

  destroy_by-LeaseRows :
      Reliable out verify
      → (p : Provider W) → provider_named l.provider out.providers ≡ some p
      → Does (LeaseRows Q) (λ r. LeaseRows P) (destroy_by out verify l p)
  unfolding destroy_by
  destroy_by-LeaseRows reliable p named =
      Does-bind (λ b g. LeaseRows Q g × (b ≡ true)) _ _
        (Does-call _ λ g h. (record { all = h.all }, reliable.accepts l.provider p named _ _))
        (accepted-LeaseRows reliable p named)

  -- destroy_and_verify
  pub destroy_and_verify-LeaseRows :
      Reliable out verify
      → Served out l
      → Does (LeaseRows Q) (λ r. LeaseRows P) (destroy_and_verify out verify l)
  unfolding destroy_and_verify provider or_fail
  destroy_and_verify-LeaseRows reliable (p, named) =
      Does-bind (λ q g. LeaseRows Q g × (provider_named l.provider out.providers ≡ some q)) _ _
        (rw (named, or_fail) (Does-pure p λ g h. (h, refl)))
        λ q. record { at = λ g h. (destroy_by-LeaseRows reliable q h.1).at g h.0 }
