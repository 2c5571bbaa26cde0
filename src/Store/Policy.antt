-- ===== src/Store/Policy.antt =====
-- store/sqlite/gates.rs, metrics.rs, checkpoints.rs and codeunits.rs
use chuk_mcp_training.Base.{
  ℕ, String, ◌==◌, Bool, ◌&&◌, Option, none, some, List, [], ◌∷◌, Table, modify, find, keep, any,
  map, eqb, leb, ltb, if◌then◌else◌,
}
use chuk_mcp_training.Base.Float.{F64, nan, is_finite}
use chuk_mcp_training.Proto.Run.{CheckpointMeta}
use chuk_mcp_training.Gate.Expr.{MetricObservation, Detail}
use chuk_mcp_training.Store.Tables.{GateInfo, MetricRow, CheckpointInfo, CodeUnit, Store}

abbrev pub in_scope : String → String → GateInfo → Bool
in_scope scope scope_id g = g.scope == scope && g.scope_id == scope_id

-- gates. The rows stand in the order of their names.
unfoldable pub gates : String → String → Store → List GateInfo
gates scope scope_id s = keep (in_scope scope scope_id) s.gates

-- record_gate_result
unfoldable pub record_gate_result :
    String → String → String → Bool → Option F64 → Detail → ℕ → Store → Store
record_gate_result scope scope_id name tripped last_value detail at s = record s {
  gates =
      modify (λ g. in_scope scope scope_id g && g.name == name)
        (λ g. record g {
          tripped = some tripped;
          last_value = last_value;
          evaluated_at = some at;
          detail = some detail;
        })
        s.gates;
}

abbrev is_metric : String → String → ℕ → MetricRow → Bool
is_metric run_id key step m = m.run_id == run_id && m.key == key && eqb m.step step

-- One value of append_metrics. A value that is not finite is stored as NULL, and a second value for
-- the same step replaces the value and keeps the time.
unfoldable pub append_metric : ℕ → String → ℕ → String → F64 → Store → Store
append_metric at run_id step key value s =
    if any (is_metric run_id key step) s.metrics
    then record s {
      metrics = modify (is_metric run_id key step) (λ m. record m { value = storable }) s.metrics;
    }
    else record s {
      metrics =
          record { run_id = run_id; step = step; key = key; value = storable; ts = at } ∷ s.metrics;
    }
  where
    storable : Option F64
    storable = if is_finite value then some value else none

-- append_metrics
unfoldable pub append_metrics : ℕ → String → ℕ → Table F64 → Store → Store
unfolding append_metric
append_metrics at run_id step [] s = s
append_metrics at run_id step ((key, value) ∷ values) s =
    append_metrics at run_id step values (append_metric at run_id step key value s)

-- ORDER BY step
unfoldable pub insert_by_step : MetricRow → List MetricRow → List MetricRow
insert_by_step m [] = m ∷ []
insert_by_step m (x ∷ xs) =
    let rest = insert_by_step m xs in if leb m.step x.step then m ∷ x ∷ xs else x ∷ rest

unfoldable pub sort_by_step : List MetricRow → List MetricRow
unfolding insert_by_step
sort_by_step [] = []
sort_by_step (m ∷ ms) = insert_by_step m (sort_by_step ms)

-- NULL is read back as NaN.
unfoldable pub observation : MetricRow → MetricObservation
observation m = record { ts = m.ts; value = elim m.value [ none ↦ nan | some v ↦ v ] }

-- metric_history
unfoldable pub metric_history : String → String → Store → List MetricObservation
unfolding sort_by_step observation
metric_history run_id key s =
    map observation (sort_by_step (keep (λ m. m.run_id == run_id && m.key == key) s.metrics))

abbrev is_checkpoint : String → ℕ → CheckpointInfo → Bool
is_checkpoint run_id step c = c.run_id == run_id && eqb c.step step

-- record_checkpoint: an upsert by run and step
unfoldable pub record_checkpoint : String → ℕ → String → String → CheckpointMeta → Store → Store
record_checkpoint run_id step uri model_hash info s =
    if any (is_checkpoint run_id step) s.checkpoints
    then record s {
      checkpoints =
          modify (is_checkpoint run_id step)
            (λ c. record c { uri = uri; model_hash = model_hash; info = info }) s.checkpoints;
    }
    else record s {
      checkpoints =
          record { run_id = run_id; step = step; uri = uri; model_hash = model_hash; info = info }
          ∷ s.checkpoints;
    }

-- The row of the highest step; `ORDER BY step DESC LIMIT 1`.
unfoldable pub highest_step : List CheckpointInfo → Option CheckpointInfo
highest_step [] = none
highest_step (c ∷ cs) = elim (highest_step cs) [
  | none ↦ some c
  | some d ↦ if ltb c.step d.step then some d else some c
]

-- latest_checkpoint
unfoldable pub latest_checkpoint : String → Store → Option CheckpointInfo
unfolding highest_step
latest_checkpoint run_id s = highest_step (keep (λ c. c.run_id == run_id) s.checkpoints)

-- code_unit
unfoldable pub code_unit : String → String → Store → Option CodeUnit
code_unit name sha s = find (λ u. u.name == name && u.sha == sha) s.code_units
