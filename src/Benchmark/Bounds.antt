-- ===== src/Benchmark/Bounds.antt =====
-- What the figures of the benchmark can be, for every sequence of random draws.
use living_codebase.Prelude.{
  ◌≡◌, ◌≤◌, ◌<◌, ℕ, zero, suc, refl, ◌+◌, ◌*◌, ◌-◌, ap, List, [], ◌∷◌, length, All, leb, Bool-cases,
  inl, inr, arith,
}
use living_codebase.Prelude.Int.{pos}
use living_codebase.Python.Value.{ok}
use living_codebase.Benchmark.{
  Uniform, Stdev, Summary, Report, display_results, iterations, sum, insert_time, sorted, time_at,
  summary, speedup, downtime_saved, traditional_recovery, traditional_times,
  run_traditional_benchmark, self_healing_recovery, self_healing_times, run_self_healing_benchmark,
}

-- What `random.uniform(lo, hi)` promises for `lo <= hi`.
pub record IsUniform (uniform : Uniform) : Type 0 where
  pub above : (k lo hi : ℕ) → lo ≤ hi → lo ≤ uniform k lo hi
  pub below : (k lo hi : ℕ) → lo ≤ hi → uniform k lo hi ≤ hi

abbrev Within : ℕ → ℕ → ℕ → Type 0
Within lo hi t = (lo ≤ t) × (t ≤ hi)

length-insert_time : (t : ℕ) (ts : List ℕ) → length (insert_time t ts) ≡ suc (length ts)
unfolding insert_time
length-insert_time t [] = refl
length-insert_time t (s ∷ ss) = ground (arith, length-insert_time t ss)

length-sorted : (ts : List ℕ) → length (sorted ts) ≡ length ts
unfolding sorted
length-sorted [] = refl
length-sorted (t ∷ ts) = omega (arith, length-insert_time t (sorted ts), length-sorted ts)

module _ (lo hi : ℕ) where
  All-insert_time :
      (t : ℕ) (ts : List ℕ)
      → Within lo hi t
      → All (Within lo hi) ts
      → All (Within lo hi) (insert_time t ts)
  unfolding insert_time
  All-insert_time t [] h a = (h, tt)
  All-insert_time t (s ∷ ss) h (k, a) = elim (Bool-cases (leb t s)) [
    | inl e ↦ rw e (h, (k, a))
    | inr e ↦ rw e (k, All-insert_time t ss h a)
  ]

  All-sorted : (ts : List ℕ) → All (Within lo hi) ts → All (Within lo hi) (sorted ts)
  unfolding sorted
  All-sorted [] a = tt
  All-sorted (t ∷ ts) (h, a) = All-insert_time t (sorted ts) h (All-sorted ts a)

  time_at_lem :
      (ts : List ℕ) (n : ℕ)
      → All (Within lo hi) ts
      → n < length ts
      → (t : ℕ) × (time_at ts n ≡ ok t) × Within lo hi t
  time_at_lem [] n a h = absurd (omega arith)
  time_at_lem (t ∷ ts) zero (k, a) h = (t, refl, k)
  time_at_lem (t ∷ ts) (suc n) (k, a) h = time_at_lem ts n a (omega arith)

abbrev pub HasBounds : ℕ → ℕ → Summary → Type 0
HasBounds lo hi s =
    (100 * lo ≤ s.mean.0)
    × (s.mean.0 ≤ 100 * hi)
    × (s.mean.1 ≡ 100)
    × (lo ≤ s.p99)
    × (s.p99 ≤ hi)
    × (s.availability_loss ≡ s.mean.0)

module _ (lo hi : ℕ) where
  sum-All :
      (ts : List ℕ) → All (Within lo hi) ts → (length ts * lo ≤ sum ts) × (sum ts ≤ length ts * hi)
  unfolding sum
  sum-All [] a = (omega arith, omega arith)
  sum-All (t ∷ ts) (h, a) = let (l, u) = sum-All ts a in (omega (arith, h, l), omega (arith, h, u))

  summary_lem :
      (stdev : Stdev) (ts : List ℕ)
      → All (Within lo hi) ts
      → length ts ≡ iterations
      → (s : Summary) × (summary stdev ts ≡ ok s) × HasBounds lo hi s
  unfolding summary
  summary_lem stdev ts a l =
      let (p, e, b) =
        time_at_lem lo hi (sorted ts) 99 (All-sorted lo hi ts a)
          (omega (arith, length-sorted ts)) in
      let (low, high) = sum-All ts a in
      (
        record {
          mean = (sum ts, length ts);
          p99 = p;
          stddev = stdev ts;
          availability_loss = sum ts;
        },
        rw e,
        (rw l at low, rw l at high, l, b.0, b.1, refl),
      )

module _ (unit : ℕ) (uniform : Uniform) (stdev : Stdev) (draws : IsUniform uniform) where
  within : (k lo hi : ℕ) → lo ≤ hi → Within lo hi (uniform k lo hi)
  within k lo hi h = (draws.above k lo hi h, draws.below k lo hi h)

  traditional_recovery_lem :
      (calls : ℕ) → Within (27000 * unit) (66000 * unit) (traditional_recovery unit uniform calls)
  unfolding traditional_recovery
  traditional_recovery_lem calls =
      let a = within calls (500 * unit) (2000 * unit) (omega arith) in
      let b = within (calls + 1) (10000 * unit) (25000 * unit) (omega arith) in
      let c = within (calls + 2) (1500 * unit) (4000 * unit) (omega arith) in
      let d = within (calls + 3) (15000 * unit) (35000 * unit) (omega arith) in
      (omega arith, omega arith)

  self_healing_recovery_lem :
      (calls : ℕ) → Within (2151 * unit) (4155 * unit) (self_healing_recovery unit uniform calls)
  unfolding self_healing_recovery
  self_healing_recovery_lem calls =
      let a = within calls (1 * unit) (5 * unit) (omega arith) in
      let b = within (calls + 1) (100 * unit) (300 * unit) (omega arith) in
      let c = within (calls + 2) (1500 * unit) (2500 * unit) (omega arith) in
      let d = within (calls + 3) (500 * unit) (1200 * unit) (omega arith) in
      let e = within (calls + 4) (50 * unit) (150 * unit) (omega arith) in
      (omega arith, omega arith)

  traditional_times_lem :
      (n calls : ℕ)
      → All (Within (27000 * unit) (66000 * unit)) (traditional_times unit uniform n calls)
        × (length (traditional_times unit uniform n calls) ≡ n)
  unfolding traditional_times
  traditional_times_lem zero calls = (tt, refl)
  traditional_times_lem (suc n) calls =
      let (a, l) = traditional_times_lem n (calls + 4) in
      ((traditional_recovery_lem calls, a), ap suc l)

  self_healing_times_lem :
      (n calls : ℕ)
      → All (Within (2151 * unit) (4155 * unit)) (self_healing_times unit uniform n calls)
        × (length (self_healing_times unit uniform n calls) ≡ n)
  unfolding self_healing_times
  self_healing_times_lem zero calls = (tt, refl)
  self_healing_times_lem (suc n) calls =
      let (a, l) = self_healing_times_lem n (calls + 5) in
      ((self_healing_recovery_lem calls, a), ap suc l)

  -- For draws within their bounds the figures of the traditional recovery exist: the mean and the
  -- percentile lie between 2.7 s and 6.6 s, and the downtime is the sum that the mean divides by
  -- 100.
  pub run_traditional_benchmark_lem :
      (calls : ℕ)
      → (s : Summary) × (run_traditional_benchmark unit uniform stdev calls ≡ ok s)
        × HasBounds (27000 * unit) (66000 * unit) s
  unfolding run_traditional_benchmark
  run_traditional_benchmark_lem calls =
      let (a, l) = traditional_times_lem iterations calls in
      summary_lem (27000 * unit) (66000 * unit) stdev _ a l

  -- For draws within their bounds the figures of the self-healing recovery exist: the mean and the
  -- percentile lie between 215.1 ms and 415.5 ms, below the 500 ms that the script says are met,
  -- and the downtime is the sum that the mean divides by 100.
  pub run_self_healing_benchmark_lem :
      (calls : ℕ)
      → (s : Summary) × (run_self_healing_benchmark unit uniform stdev calls ≡ ok s)
        × HasBounds (2151 * unit) (4155 * unit) s
  unfolding run_self_healing_benchmark
  run_self_healing_benchmark_lem calls =
      let (a, l) = self_healing_times_lem iterations calls in
      summary_lem (2151 * unit) (4155 * unit) stdev _ a l

  -- For draws within their bounds: the speedup that the script prints is at least 6.49 and at most
  -- 30.69, and the downtime saved in the 100 rounds of each kind is at least 228 s.
  pub speedup_lem :
      (calls calls' : ℕ) (trad heal : Summary)
      → run_traditional_benchmark unit uniform stdev calls ≡ ok trad
      → run_self_healing_benchmark unit uniform stdev calls' ≡ ok heal
      → let ratio = speedup trad heal in
        (649 * ratio.1 ≤ 100 * ratio.0)
        × (100 * ratio.0 ≤ 3069 * ratio.1)
        × ((saved : ℕ) × (downtime_saved trad heal ≡ pos saved) × (2280000 * unit ≤ saved))
  unfolding speedup downtime_saved
  speedup_lem calls calls' trad heal e e' =
      let (t, f, bt) = run_traditional_benchmark_lem calls in
      let (h, f', bh) = run_self_healing_benchmark_lem calls' in
      let same : t ≡ trad = cc in
      let same' : h ≡ heal = cc in
      let b : HasBounds (27000 * unit) (66000 * unit) trad = rw (← same) bt in
      let b' : HasBounds (2151 * unit) (4155 * unit) heal = rw (← same') bh in
      let (lo, hi, n, _, _, q) = b in
      let (lo', hi', n', _, _, q') = b' in
      (
        rw (n, n') (omega arith),
        rw (n, n') (omega arith),
        (trad.availability_loss - heal.availability_loss, ground arith, omega arith),
      )

  -- For draws within their bounds, in ticks of 0.1 ms or less: the script prints its results, and
  -- raises no error. A recovery takes 2.7 s to 6.6 s on average with a restart and 215.1 ms to 415.5
  -- ms with self-healing, as do the 99th percentiles; the speedup is a quotient of which the
  -- denominator is not 0, at least 6.49 and at most 30.69; and the downtime saved in the 100 rounds
  -- of each kind is at least 228 s.
  pub display_results_lem :
      0 < unit
      → (report : Report) × (display_results unit uniform stdev ≡ ok report)
        × HasBounds (27000 * unit) (66000 * unit) report.trad
        × HasBounds (2151 * unit) (4155 * unit) report.heal
        × (0 < report.speedup.1)
        × (649 * report.speedup.1 ≤ 100 * report.speedup.0)
        × (100 * report.speedup.0 ≤ 3069 * report.speedup.1)
        × ((saved : ℕ) × (report.downtime_saved ≡ pos saved) × (2280000 * unit ≤ saved))
  unfolding display_results
  display_results_lem h =
      let (trad, e, b) = run_traditional_benchmark_lem 0 in
      let (heal, e', b') = run_self_healing_benchmark_lem 400 in
      let (least, most, saved) = speedup_lem 0 400 trad heal e e' in
      (
        record {
          trad = trad;
          heal = heal;
          speedup = speedup trad heal;
          downtime_saved = downtime_saved trad heal;
        },
        rw (e, e') refl,
        b,
        b',
        rw (b.2) (omega (arith, b'.0)),
        least,
        most,
        saved,
      )
