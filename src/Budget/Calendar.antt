-- ===== src/Budget/Calendar.antt =====
-- budget.rs: the civil calendar of month_start, for days from 1970 on.
use Prim.Native.Nat.{◌+◌, ◌-◌, ◌*◌, ◌/◌, ◌%◌}
use chuk_mcp_training.Base.{ℕ, ltb, leb, if◌then◌else◌}

-- SECS_PER_DAY, in milliseconds
abbrev pub ms_per_day : ℕ
ms_per_day = 86400000

-- civil_from_days: the year, the month and the day
unfoldable pub civil_from_days : ℕ → ℕ × (ℕ × ℕ)
civil_from_days days =
    let z = days + 719468 in
    let era = z / 146097 in
    let doe = z % 146097 in
    let yoe = (doe - doe / 1460 + doe / 36524 - doe / 146096) / 365 in
    let y = yoe + era * 400 in
    let doy = doe - (365 * yoe + yoe / 4 - yoe / 100) in
    let mp = (5 * doy + 2) / 153 in
    let d = doy - (153 * mp + 2) / 5 + 1 in
    let m = if ltb mp 10 then mp + 3 else mp - 9 in (if leb m 2 then y + 1 else y, (m, d))

-- days_from_civil
unfoldable pub days_from_civil : ℕ → ℕ → ℕ → ℕ
days_from_civil year m d =
    let y = if leb m 2 then year - 1 else year in
    let era = y / 400 in
    let yoe = y % 400 in
    let mp = if ltb 2 m then m - 3 else m + 9 in
    let doy = (153 * mp + 2) / 5 + d - 1 in
    let doe = yoe * 365 + yoe / 4 - yoe / 100 + doy in era * 146097 + doe - 719468

-- month_start
unfoldable pub month_start : ℕ → ℕ
unfolding civil_from_days days_from_civil
month_start now =
    let (y, (m, d)) = civil_from_days (now / ms_per_day) in days_from_civil y m 1 * ms_per_day
