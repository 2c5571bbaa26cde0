-- ===== src/Store/Ids.antt =====
-- store/ids.rs: the ids of runs and sweeps. The times here are seconds, and the calendar is budget.rs's, of
-- which ids.rs has a copy.
use Prim.Native.Nat.{ℕ, zero, suc, ◌-◌, ◌/◌, ◌%◌}
use Prim.Native.String.{◌++◌}
use chuk_mcp_training.Base.{String}
use chuk_mcp_training.Base.Text.{text_length}
use chuk_mcp_training.Base.Decimal.{show_ℕ}
use chuk_mcp_training.Budget.Calendar.{civil_from_days}

-- zeros before a text
unfoldable pub zeros : ℕ → String → String
zeros zero s = s
zeros (suc n) s = String.◌∷◌ "0" (zeros n s)

-- the print of a number with at least as many digits as the width
unfoldable pub padded : ℕ → ℕ → String
unfolding zeros text_length show_ℕ
padded width n = zeros (width - text_length (show_ℕ n)) (show_ℕ n)

-- utc_parts
unfoldable pub utc_parts : ℕ → (ℕ × (ℕ × ℕ)) × (ℕ × (ℕ × ℕ))
utc_parts secs =
    let rem = secs % 86400 in
    (civil_from_days (secs / 86400), (rem / 3600, (rem % 3600 / 60, rem % 60)))

-- the date and the time of an id
unfoldable pub stamp : (ℕ × (ℕ × ℕ)) × (ℕ × (ℕ × ℕ)) → String
unfolding padded
stamp ((y, (m, d)), (hh, (mm, ss))) =
    padded 4 y
    ++ (padded 2 m ++ (padded 2 d ++ ("-" ++ (padded 2 hh ++ (padded 2 mm ++ padded 2 ss)))))

-- stamped_id
unfoldable pub stamped_id : String → ℕ → ℕ → String
unfolding utc_parts stamp padded
stamped_id prefix at seq = (prefix ++ stamp (utc_parts at)) ++ ("-" ++ padded 5 seq)

-- new_run_id
unfoldable pub new_run_id : ℕ → ℕ → String
unfolding stamped_id
new_run_id at seq = stamped_id "EXEC-" at seq

-- new_sweep_id
unfoldable pub new_sweep_id : ℕ → ℕ → String
unfolding stamped_id
new_sweep_id at seq = stamped_id "SWEEP-" at seq
