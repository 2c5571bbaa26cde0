-- ===== src/Leases/Teardown.antt =====
-- lease.rs: drain, the verified destroy and the teardown.
use chuk_mcp_training.Base.{
  ℕ, zero, suc, ◌+◌, ◌/◌, String, Bool, true, false, Option, none, some, del, leb, if◌then◌else◌,
}
use chuk_mcp_training.Proto.Run.{LeaseState, draining, destroyed}
use chuk_mcp_training.Proto.Lease.{Lease, wall_secs, cost_of}
use chuk_mcp_training.Base.Float.{F64}
use chuk_mcp_training.Base.Doubles.{add_f64, sub_f64, div_by, max_f64, zero_f64, seconds_of}
use chuk_mcp_training.Store.Fleet.{lease, set_lease_state, worker_left}
use chuk_mcp_training.Store.Ledger.{ledger_append}
use chuk_mcp_training.Hub.State.{drain as drain_by, send_to}
use chuk_mcp_training.Leases.Manager.{
  InstanceStatus, gone, unknown, Provider, Outside, VerifyPolicy, no_lease, destroy_failed,
  polls_exhausted, Task, ◌>>=◌, ◌>>◌, pure, fail, asks, update, update_store, call, or_fail,
  provider,
}

abbrev pub is_gone : InstanceStatus → Bool
is_gone gone = true
is_gone _ = false

abbrev pub is_draining : LeaseState → Bool
is_draining draining = true
is_draining _ = false

-- The time at which a lease's wall stands.
unfoldable pub wall_at : Lease → F64
unfolding add_f64 wall_secs
wall_at l = add_f64 l.started_at (wall_secs l)

-- What a poll leaves to return at the deadline: the provider's answer, or that it gave none.
abbrev pub answer : Option InstanceStatus → InstanceStatus
answer none = unknown
answer (some s) = s

-- `((now() - started_at) / 60.0).max(0.0)`
unfoldable pub elapsed_min : ℕ → Lease → F64
unfolding seconds_of sub_f64 div_by max_f64
elapsed_min now l = max_f64 (div_by (sub_f64 (seconds_of now) l.started_at) 60) zero_f64

pub record TeardownResult : Type 0 where
  pub worker_id : String
  pub destroyed : Bool
  pub status : InstanceStatus

module _ {W : Type 0} where
  -- LeaseManager::drain
  unfoldable pub drain : Lease → Task W (Unit {0})
  drain l = do
    if is_draining l.state then pure tt else update_store (set_lease_state l.worker_id draining)
    update (λ g. record g { hub = (send_to l.worker_id (drain_by (wall_at l)) g.hub).1 })

module _ {W : Type 0} (out : Outside W) where
  -- LeaseManager::ledger
  unfoldable pub ledger : Lease → String → F64 → F64 → Task W (Unit {0})
  ledger l event minutes cost = do
    now ← asks (λ g. out.now g.world)
    update_store (
        ledger_append (record {
          ts = now;
          worker_id = l.worker_id;
          provider = l.provider;
          event = event;
          minutes = minutes;
          cost = cost;
        }))

  -- What destroy_and_verify records once the provider has answered.
  unfoldable pub record_end : Lease → InstanceStatus → Task W TeardownResult
  unfolding ledger elapsed_min cost_of
  record_end l status = do
    update_store (set_lease_state l.worker_id destroyed)
    update_store (worker_left l.worker_id)
    update (λ g. record g { idle_since = del l.worker_id g.idle_since })
    now ← asks (λ g. out.now g.world)
    ledger l "lease_end" (elapsed_min now l) (cost_of l.price_hr (elapsed_min now l))
    pure (record { worker_id = l.worker_id; destroyed = is_gone status; status = status })

module _ {W : Type 0} (out : Outside W) (verify : VerifyPolicy) where
  -- The loop of verify_gone: `fuel` bounds the polls.
  unfoldable pub poll_gone : ℕ → ℕ → Provider W → String → W → W × Option InstanceStatus
  poll_gone zero deadline p id w = (w, none)
  poll_gone (suc fuel) deadline p id w =
      let asked = p.status id w in
      let rest = poll_gone fuel deadline p id (out.sleep verify.poll asked.0) in
      if is_gone (answer asked.1)
      then (asked.0, some gone)
      else if leb deadline (out.instant asked.0)
      then (asked.0, some (answer asked.1))
      else rest

  -- verify_gone. Each poll but the last ends with a sleep, so these rounds reach the deadline.
  unfoldable pub verify_gone : Provider W → String → Task W InstanceStatus
  unfolding poll_gone
  verify_gone p id = do
    deadline ← asks (λ g. out.instant g.world + verify.timeout)
    status ← call (poll_gone (suc (suc (verify.timeout / verify.poll))) deadline p id)
    or_fail polls_exhausted status

  -- destroy_and_verify past the lookup of the provider
  unfoldable pub destroy_by : Lease → Provider W → Task W TeardownResult
  unfolding verify_gone record_end
  destroy_by l p = do
    accepted ← call (p.destroy l.instance_id)
    if accepted then verify_gone p l.instance_id >>= record_end out l else fail destroy_failed

  -- destroy_and_verify
  unfoldable pub destroy_and_verify : Lease → Task W TeardownResult
  unfolding destroy_by
  destroy_and_verify l = provider out l.provider >>= destroy_by l

  -- LeaseManager::teardown
  unfoldable pub teardown : String → Bool → Task W TeardownResult
  unfolding drain destroy_and_verify
  teardown worker_id drain_first = do
    found ← asks (λ g. lease worker_id g.hub.store)
    l ← or_fail (no_lease worker_id) found
    if drain_first then drain l else pure tt
    destroy_and_verify l
