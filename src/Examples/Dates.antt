-- ===== src/Examples/Dates.antt =====
-- The calendar of Budget/Calendar on dates.
use chuk_mcp_training.Base.{◌≡◌, refl, ◌*◌, ◌+◌}
use chuk_mcp_training.Budget.Calendar.{civil_from_days, days_from_civil, month_start, ms_per_day}

leap_day : civil_from_days 19782 ≡ (2024, (2, 29))
unfolding civil_from_days
leap_day = refl

year_end : civil_from_days 19722 ≡ (2023, (12, 31))
unfolding civil_from_days
year_end = refl

march_first : days_from_civil 2024 3 1 ≡ 19783
unfolding days_from_civil
march_first = refl

mid_february : month_start (19770 * ms_per_day + 5) ≡ 19754 * ms_per_day
unfolding month_start
mid_february = refl
