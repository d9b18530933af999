-- ===== src/Benchmark.antt =====
-- benchmark/mttr_comparison.py: the two simulated recoveries and the figures printed of them.
-- A time is a number of ticks, and `unit` says how many ticks 0.1 ms has, so that the grid can be
-- as fine as wanted. `uniform k lo hi` is the k-th call of `random.uniform`.
pub mod Bounds
use living_codebase.Prelude.{ℕ, zero, suc, ◌+◌, ◌*◌, ◌/◌, List, [], ◌∷◌, length, leb, if◌then◌else◌}
use living_codebase.Prelude.Int.{ℤ, sub_ℕ}
use living_codebase.Python.Value.{Result, ok, raised, index_error, ◌>>=◌}

abbrev pub Uniform : Type 0
Uniform = ℕ → ℕ → ℕ → ℕ

-- A mean, as numerator and denominator; the 99th percentile; the standard deviation, as a quotient
-- too; and the sum of the times.
pub record Summary : Type 0 where
  pub mean : ℕ × ℕ
  pub p99 : ℕ
  pub stddev : ℕ × ℕ
  pub availability_loss : ℕ

-- `self.iterations`
abbrev pub iterations : ℕ
iterations = 100

unfoldable pub sum : List ℕ → ℕ
sum [] = 0
sum (t ∷ ts) = t + sum ts

-- `sorted(times)`
unfoldable pub insert_time : ℕ → List ℕ → List ℕ
insert_time t [] = t ∷ []
insert_time t (s ∷ ss) = let rest = insert_time t ss in if leb t s then t ∷ s ∷ ss else s ∷ rest

unfoldable pub sorted : List ℕ → List ℕ
unfolding insert_time
sorted [] = []
sorted (t ∷ ts) = insert_time t (sorted ts)

abbrev pub time_at : List ℕ → ℕ → Result ℕ
time_at [] n = raised index_error
time_at (t ∷ ts) zero = ok t
time_at (t ∷ ts) (suc n) = time_at ts n

-- `statistics.stdev`
abbrev pub Stdev : Type 0
Stdev = List ℕ → ℕ × ℕ

-- The dictionary that both benchmarks return.
unfoldable pub summary : Stdev → List ℕ → Result Summary
unfolding sum sorted
summary stdev times = do
  p99 ← time_at (sorted times) (iterations * 99 / 100)
  ok (record {
    mean = (sum times, length times);
    p99 = p99;
    stddev = stdev times;
    availability_loss = sum times;
  })

-- The ratio of the means, as numerator and denominator.
unfoldable pub speedup : Summary → Summary → ℕ × ℕ
speedup trad heal = (trad.mean.0 * heal.mean.1, trad.mean.1 * heal.mean.0)

unfoldable pub downtime_saved : Summary → Summary → ℤ
downtime_saved trad heal = sub_ℕ trad.availability_loss heal.availability_loss

module _ (unit : ℕ) (uniform : Uniform) where
  -- One round of `run_traditional_benchmark`, from the number of calls made before.
  unfoldable pub traditional_recovery : ℕ → ℕ
  traditional_recovery calls =
      let crash_dump_time = uniform calls (500 * unit) (2000 * unit) in
      let orchestrator_detect_time = uniform (calls + 1) (10000 * unit) (25000 * unit) in
      let process_spawn_time = uniform (calls + 2) (1500 * unit) (4000 * unit) in
      let app_warmup_time = uniform (calls + 3) (15000 * unit) (35000 * unit) in
      crash_dump_time + orchestrator_detect_time + process_spawn_time + app_warmup_time

  unfoldable pub traditional_times : ℕ → ℕ → List ℕ
  unfolding traditional_recovery
  traditional_times zero calls = []
  traditional_times (suc n) calls = traditional_recovery calls ∷ traditional_times n (calls + 4)

  -- One round of `run_self_healing_benchmark`.
  unfoldable pub self_healing_recovery : ℕ → ℕ
  self_healing_recovery calls =
      let ebpf_detect = uniform calls (1 * unit) (5 * unit) in
      let sandbox_fork = uniform (calls + 1) (100 * unit) (300 * unit) in
      let genetic_mutate = uniform (calls + 2) (1500 * unit) (2500 * unit) in
      let z3_verify = uniform (calls + 3) (500 * unit) (1200 * unit) in
      let hotswap_inject = uniform (calls + 4) (50 * unit) (150 * unit) in
      ebpf_detect + sandbox_fork + genetic_mutate + z3_verify + hotswap_inject

  unfoldable pub self_healing_times : ℕ → ℕ → List ℕ
  unfolding self_healing_recovery
  self_healing_times zero calls = []
  self_healing_times (suc n) calls = self_healing_recovery calls ∷ self_healing_times n (calls + 5)

-- What `display_results` prints.
pub record Report : Type 0 where
  pub trad : Summary
  pub heal : Summary
  pub speedup : ℕ × ℕ
  pub downtime_saved : ℤ

module _ (unit : ℕ) (uniform : Uniform) (stdev : Stdev) where
  unfoldable pub run_traditional_benchmark : ℕ → Result Summary
  unfolding traditional_times
  run_traditional_benchmark calls = summary stdev (traditional_times unit uniform iterations calls)

  unfoldable pub run_self_healing_benchmark : ℕ → Result Summary
  unfolding self_healing_times
  run_self_healing_benchmark calls =
      summary stdev (self_healing_times unit uniform iterations calls)

  -- The first benchmark makes four calls in each round.
  unfoldable pub display_results : Result Report
  unfolding run_traditional_benchmark run_self_healing_benchmark speedup downtime_saved
  display_results = do
    trad ← run_traditional_benchmark 0
    heal ← run_self_healing_benchmark (4 * iterations)
    ok (record {
      trad = trad;
      heal = heal;
      speedup = speedup trad heal;
      downtime_saved = downtime_saved trad heal;
    })
