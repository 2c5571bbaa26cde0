-- ===== src/Leases/Passes.antt =====
-- lease.rs: one pass of the lease clock, of the idle reaper and of the reconcile loop.
use chuk_mcp_training.Base.{
  ℕ, ◌+◌, String, ◌==◌, Bool, true, false, ◌&&◌, Option, none, some, List, [], ◌∷◌, Table, get, put,
  del, any, leb, if◌then◌else◌,
}
use chuk_mcp_training.Proto.Run.{LeaseState, active}
use chuk_mcp_training.Proto.Lease.{Lease, wall_secs, drain_secs}
use chuk_mcp_training.Base.Float.{le_f64}
use chuk_mcp_training.Base.Doubles.{sub_f64, seconds_of}
use chuk_mcp_training.Store.Tables.{Store}
use chuk_mcp_training.Store.Runs.{next_queued}
use chuk_mcp_training.Store.Fleet.{live_leases, worker, WorkerInfo}
use chuk_mcp_training.Store.Tokens.{is_null}
use chuk_mcp_training.Leases.Manager.{
  Instance, Provider, Outside, VerifyPolicy, Config, Manager, done, Task, ◌>>=◌, ◌>>◌, pure, asks,
  update,
}
use chuk_mcp_training.Leases.Teardown.{drain, destroy_and_verify}

abbrev pub is_active_lease : LeaseState → Bool
is_active_lease active = true
is_active_lease _ = false

-- `elapsed >= lease.wall_secs()`
unfoldable pub is_over : ℕ → Lease → Bool
unfolding seconds_of sub_f64 wall_secs le_f64
is_over now l = le_f64 (wall_secs l) (sub_f64 (seconds_of now) l.started_at)

-- `lease.state == LeaseState::Active && elapsed >= lease.drain_secs()`
unfoldable pub must_drain : ℕ → Lease → Bool
unfolding seconds_of sub_f64 drain_secs le_f64
must_drain now l =
    is_active_lease l.state && le_f64 (drain_secs l) (sub_f64 (seconds_of now) l.started_at)

-- `worker.as_ref().is_some_and(|w| w.current_run.is_none())`
unfoldable pub has_no_run : Option WorkerInfo → Bool
has_no_run none = false
has_no_run (some w) = is_null w.row.current_run

-- Whether the reaper takes a lease's worker as idle.
unfoldable pub is_idle : ℕ → Store → Lease → Bool
unfolding has_no_run
is_idle at s l =
    is_null (next_queued s) && is_active_lease l.state && has_no_run (worker at l.worker_id s)

-- since.elapsed() >= idle_reap, for a worker idle since the stored instant or since now
unfoldable pub is_overdue : ℕ → ℕ → Option ℕ → Bool
is_overdue instant idle_reap none = leb (instant + idle_reap) instant
is_overdue instant idle_reap (some since) = leb (since + idle_reap) instant

-- The first loop of reap_idle: what it reaps, and the table of idle workers. `test` is the idleness.
unfoldable pub find_idle : (Lease → Bool) → ℕ → ℕ → List Lease → Table ℕ → Table ℕ × List Lease
unfolding is_overdue
find_idle test instant idle_reap [] idle = (idle, [])
find_idle test instant idle_reap (l ∷ ls) idle =
    let since = get l.worker_id idle in
    let marked = if is_null since then put l.worker_id instant idle else idle in
    let busy = find_idle test instant idle_reap ls (del l.worker_id idle) in
    let rest = find_idle test instant idle_reap ls marked in
    if test l
    then (if is_overdue instant idle_reap since then (rest.0, l ∷ rest.1) else rest)
    else busy

module _ {W : Type 0} (out : Outside W) where
  -- The workers that reap_idle finds idle for long enough.
  unfoldable pub mark_idle : ℕ → Manager W → Table ℕ × List Lease
  unfolding find_idle
  mark_idle idle_reap g =
      find_idle (is_idle (out.now g.world) g.hub.store) (out.instant g.world) idle_reap
        (live_leases g.hub.store) g.idle_since

module _ {W : Type 0} (out : Outside W) (verify : VerifyPolicy) where
  -- The turn of one lease in clock_pass.
  unfoldable pub tend : ℕ → Lease → Task W (Unit {0})
  unfolding is_over must_drain drain destroy_and_verify
  tend now l =
      if is_over now l
      then destroy_and_verify out verify l >> pure tt
      else (if must_drain now l then drain l else pure tt)

  -- The loop of clock_pass, which ends at the first failure.
  unfoldable pub tend_all : ℕ → List Lease → Task W (Unit {0})
  unfolding tend
  tend_all now [] = pure tt
  tend_all now (l ∷ ls) = tend now l >> tend_all now ls

  -- The second loop of reap_idle.
  unfoldable pub reap_all : List Lease → Task W (Unit {0})
  unfolding drain destroy_and_verify
  reap_all [] = pure tt
  reap_all (l ∷ ls) = drain l >> destroy_and_verify out verify l >> reap_all ls

  -- LeaseManager::reap_idle
  unfoldable pub reap_idle : Config → Task W (Unit {0})
  unfolding mark_idle reap_all
  reap_idle config = do
    found ← asks (mark_idle out config.idle_reap)
    update (λ g. record g { idle_since = found.0 })
    reap_all found.1

  -- LeaseManager::clock_pass
  unfoldable pub clock_pass : Config → Task W (Unit {0})
  unfolding tend_all reap_idle
  clock_pass config = do
    leases ← asks (λ g. live_leases g.hub.store)
    now ← asks (λ g. out.now g.world)
    tend_all now leases
    reap_idle config

-- `owned.contains(instance.id)`, over the live leases
unfoldable pub is_owned : String → List Lease → Instance → Bool
is_owned name live i = any (λ l. (l.provider == name) && (l.instance_id == i.id)) live

module _ {W : Type 0} where
  -- kill_orphan for each listed instance that no live lease of the provider owns
  unfoldable pub kill_orphans : Provider W → List Lease → List Instance → W → W
  unfolding is_owned
  kill_orphans p live [] w = w
  kill_orphans p live (i ∷ is) w =
      kill_orphans p live is (if is_owned p.name live i then w else (p.destroy i.id w).0)

  -- A provider that does not list its instances is passed over.
  unfoldable pub kill_listed : Provider W → List Lease → W × Option (List Instance) → W
  unfolding kill_orphans
  kill_listed p live (w, none) = w
  kill_listed p live (w, some is) = kill_orphans p live is w

  unfoldable pub reconcile_all : List (Provider W) → List Lease → W → W
  unfolding kill_listed
  reconcile_all [] live w = w
  reconcile_all (p ∷ ps) live w = reconcile_all ps live (kill_listed p live (p.list_instances w))

  -- LeaseManager::reconcile_pass
  unfoldable pub reconcile_pass : Outside W → Task W (Unit {0})
  unfolding reconcile_all
  reconcile_pass out g =
      (record g { world = reconcile_all out.providers (live_leases g.hub.store) g.world }, done tt)
