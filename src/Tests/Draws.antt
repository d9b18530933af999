-- ===== src/Tests/Draws.antt =====
-- The benchmark with draws at the lower end, on a grid of 0.1 ms.
use living_codebase.Prelude.{◌≡◌, ◌≤◌, ◌<◌, ℕ, ◌*◌, arith}
use living_codebase.Prelude.Int.{pos}
use living_codebase.Python.Value.{ok}
use living_codebase.Benchmark.{Uniform, Stdev, Report, display_results}
use living_codebase.Benchmark.Bounds.{IsUniform, HasBounds, display_results_lem}

abbrev lowest : Uniform
lowest k lo hi = lo

lowest-IsUniform : IsUniform lowest
lowest-IsUniform = record { above = λ k lo hi h. omega arith; below = λ k lo hi h. h }

-- All draws are the least, so that the deviation is 0.
abbrev no_spread : Stdev
no_spread ts = (0, 1)

display_results_lem_example :
    (report : Report) × (display_results 1 lowest no_spread ≡ ok report)
    × HasBounds (27000 * 1) (66000 * 1) report.trad
    × HasBounds (2151 * 1) (4155 * 1) report.heal
    × (0 < report.speedup.1)
    × (649 * report.speedup.1 ≤ 100 * report.speedup.0)
    × (100 * report.speedup.0 ≤ 3069 * report.speedup.1)
    × ((saved : ℕ) × (report.downtime_saved ≡ pos saved) × (2280000 * 1 ≤ saved))
display_results_lem_example = display_results_lem 1 lowest no_spread lowest-IsUniform (omega arith)
