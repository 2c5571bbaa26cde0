-- ===== src/Store/Fleet.antt =====
-- store/sqlite/workers.rs and leases.rs, and `worker_from_row` of store/sqlite/mod.rs
use chuk_mcp_training.Base.{
  ℕ, ◌+◌, ◌-◌, ◌*◌, ◌/◌, String, ◌==◌, Bool, true, false, not, ◌&&◌, Option, none, some, List, [],
  ◌∷◌, ◌++◌, Table, map, modify, find, keep, any, ltb, if◌then◌else◌,
}
use chuk_mcp_training.Base.Float.{F64}
use chuk_mcp_training.Proto.Constants.{worker_sample_retention}
use chuk_mcp_training.Proto.Run.{connected, disconnected, Hardware, LeaseState, destroyed}
use chuk_mcp_training.Proto.Lease.{Lease, LeaseExtension}
use chuk_mcp_training.Store.Tables.{Worker, Store}

abbrev pub is_worker : String → Worker → Bool
is_worker id w = w.id == id

-- worker_joined: an upsert
unfoldable pub worker_joined : ℕ → String → List String → Hardware → Store → Store
worker_joined at id labels hardware s =
    if any (is_worker id) s.workers
    then record s {
      workers =
          modify (is_worker id)
            (λ w. record w {
              labels = labels;
              hardware = hardware;
              state = connected;
              last_seen = at;
            })
            s.workers;
    }
    else record s {
      workers =
          s.workers
          ++ record {
            id = id;
            labels = labels;
            hardware = hardware;
            state = connected;
            current_run = none;
            joined_at = at;
            last_seen = at;
          }
            ∷ [];
    }

-- worker_seen
unfoldable pub worker_seen : ℕ → String → Store → Store
worker_seen at id s = record s {
  workers = modify (is_worker id) (λ w. record w { last_seen = at }) s.workers;
}

-- worker_left
unfoldable pub worker_left : String → Store → Store
worker_left id s = record s {
  workers = modify (is_worker id) (λ w. record w { state = disconnected }) s.workers;
}

-- set_worker_run
unfoldable pub set_worker_run : String → Option String → Store → Store
set_worker_run id run_id s = record s {
  workers = modify (is_worker id) (λ w. record w { current_run = run_id }) s.workers;
}

-- worker_is_persistent
unfoldable pub worker_is_persistent : String → Store → Bool
worker_is_persistent id s =
    any (λ t. t.worker_id == id && elim t.revoked_at [ none ↦ true | some x ↦ false ])
      s.worker_tokens

-- record_worker_samples, with the pruning of what is older than the retention
unfoldable pub record_worker_samples : ℕ → String → Table F64 → Store → Store
record_worker_samples at id values s = record s {
  samples =
      keep (λ x. not (x.worker_id == id && is_old x.ts))
        (record { worker_id = id; ts = at; values = values } ∷ s.samples);
}
  where
    is_old : ℕ → Bool
    is_old ts = ltb (ts + worker_sample_retention) at

-- lease
unfoldable pub lease : String → Store → Option Lease
lease id s = find (λ l. l.worker_id == id) s.leases

-- `state` of a lease is `Destroyed`
unfoldable pub is_destroyed : LeaseState → Bool
is_destroyed destroyed = true
is_destroyed _ = false

-- live_leases
unfoldable pub live_leases : Store → List Lease
unfolding is_destroyed
live_leases s = keep (λ l. not (is_destroyed l.state)) s.leases

-- create_lease: an upsert
unfoldable pub create_lease : Lease → Store → Store
create_lease l s =
    if any (λ x. x.worker_id == l.worker_id) s.leases
    then record s { leases = modify (λ x. x.worker_id == l.worker_id) (λ x. l) s.leases }
    else record s { leases = s.leases ++ l ∷ [] }

-- set_lease_state
unfoldable pub set_lease_state : String → LeaseState → Store → Store
set_lease_state id state s = record s {
  leases = modify (λ l. l.worker_id == id) (λ l. record l { state = state }) s.leases;
}

-- The body of extend_lease, by what it reads.
unfoldable pub extended : String → LeaseExtension → Option Lease → Store → Store × Option Lease
extended id ext none s = (s, none)
extended id ext (some l) s = (
  record s {
    leases =
        modify (λ x. x.worker_id == id) (λ x. record x { extensions = l.extensions ++ ext ∷ [] })
          s.leases;
  },
  some (record l { extensions = l.extensions ++ ext ∷ [] }),
)

-- extend_lease, and the lease that it returns
unfoldable pub extend_lease : String → LeaseExtension → Store → Store × Option Lease
unfolding extended
extend_lease id ext s = extended id ext (lease id s) s

-- WorkerInfo: a row with the lease and the age that a read adds
pub record WorkerInfo : Type 0 where
  pub row : Worker
  pub open row use *
  pub lease : Option Lease
  pub heartbeat_age : ℕ

-- `((now() - last_seen) * 10.0).round() / 10.0` in milliseconds: rounded to a tenth of a second
unfoldable pub heartbeat_age_of : ℕ → Worker → ℕ
heartbeat_age_of at w = (at - w.last_seen + 50) / 100 * 100

-- worker
unfoldable pub worker : ℕ → String → Store → Option WorkerInfo
unfolding lease heartbeat_age_of
worker at id s = elim (find (is_worker id) s.workers) [
  | none ↦ none
  | some w ↦ some (record { row = w; lease = lease id s; heartbeat_age = heartbeat_age_of at w })
]

-- fleet, without the telemetry column
unfoldable pub fleet : ℕ → Store → List WorkerInfo
unfolding lease heartbeat_age_of
fleet at s =
    map (λ w. record { row = w; lease = lease w.id s; heartbeat_age = heartbeat_age_of at w })
      s.workers
