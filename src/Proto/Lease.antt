-- ===== src/Proto/Lease.antt =====
-- crates/chuk-train-proto/src/lease.rs. A time that is recorded once and only shown stays in milliseconds.
use chuk_mcp_training.Base.{ℕ, String, List, map}
use chuk_mcp_training.Base.Float.{F64}
use chuk_mcp_training.Base.Doubles.{
  add_f64, sub_f64, mul_f64, div_by, max_f64, sum_f64, whole, zero_f64,
}
use chuk_mcp_training.Proto.Run.{LeaseState}

pub record LeaseExtension : Type 0 where
  pub minutes : F64
  pub at : ℕ
  pub reason : String

pub record Lease : Type 0 where
  pub worker_id : String
  pub provider : String
  pub instance_id : String
  pub price_hr : F64
  pub granted_min : F64
  pub drain_window_min : F64
  pub started_at : F64
  pub state : LeaseState
  pub extensions : List LeaseExtension

-- the sum over the extensions
unfoldable pub total_minutes : List LeaseExtension → F64
unfolding sum_f64
total_minutes es = sum_f64 (map (λ e. e.minutes) es)

-- Lease::total_granted_min
unfoldable pub total_granted_min : Lease → F64
unfolding total_minutes add_f64
total_granted_min l = add_f64 l.granted_min (total_minutes l.extensions)

-- Lease::wall_secs
unfoldable pub wall_secs : Lease → F64
unfolding total_granted_min mul_f64 whole
wall_secs l = mul_f64 (total_granted_min l) (whole 60)

-- Lease::drain_secs
unfoldable pub drain_secs : Lease → F64
unfolding wall_secs sub_f64 max_f64
drain_secs l = max_f64 (sub_f64 (wall_secs l) (mul_f64 l.drain_window_min (whole 60))) zero_f64

-- The cost of minutes at a price for the hour: `price_hr * minutes / 60.0`
unfoldable pub cost_of : F64 → F64 → F64
unfolding mul_f64 div_by
cost_of price_hr minutes = div_by (mul_f64 price_hr minutes) 60

-- Lease::projected_cost
unfoldable pub projected_cost : Lease → F64
unfolding total_granted_min cost_of
projected_cost l = cost_of l.price_hr (total_granted_min l)
