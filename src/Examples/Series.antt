-- ===== src/Examples/Series.antt =====
-- A series of four points thinned to two (store/ids.rs).
use chuk_mcp_training.Base.{ℕ, ◌+◌, ◌≤◌, ◌≡◌, List, [], ◌∷◌, length, arith}
use chuk_mcp_training.Base.Int.{pos}
use chuk_mcp_training.Base.Float.{fin}
use chuk_mcp_training.Store.Series.{MetricPoint, last, downsample_in_place}
use chuk_mcp_training.Store.Thinning.{downsample_in_place-size}

abbrev point : ℕ → MetricPoint
point n = record { step = n; value = fin (pos n) }

abbrev points : List MetricPoint
points = point 0 ∷ point 1 ∷ point 2 ∷ point 3 ∷ []

downsample_in_place-size_example :
    (length (downsample_in_place points 2) ≤ 2 + 1)
    × (last (downsample_in_place points 2) ≡ last points)
downsample_in_place-size_example = downsample_in_place-size points 2 (omega arith)
