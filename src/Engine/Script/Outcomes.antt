-- ===== src/Engine/Script/Outcomes.antt =====
-- How the main program ends, for every sequence of draws.
use living_codebase.Prelude.{◌≡◌, ◌≢◌, ◌⊎◌, ◌<◌, ◌%◌, ℕ, inl, inr, some, List, [], ◌∷◌, arith}
use living_codebase.Prelude.Int.{pos}
use living_codebase.Python.Syntax.{Node}
use living_codebase.Python.Value.{Value, float, ok, raised, index_error}
use living_codebase.Python.Exec.{exec_module}
use living_codebase.Engine.Programs.{
  buggy_code, buggy_process, bounds_process, null_process, mutate_add_bounds_check,
  mutate_add_null_check,
}
use living_codebase.Engine.Programs.Process.{
  pick, bounds_result, null_result, buggy_process_lem, bounds_process_lem, null_process_lem, clamp,
}
use living_codebase.Engine.Verifier.{Solver, IsSound, assertions, unknown}
use living_codebase.Engine.Fitness.{fitness}
use living_codebase.Engine.Fitness.Scores.{fitness-bounds, fitness-null, fitness-buggy}
use living_codebase.Engine.Genetic.{Draws, run_ga}
use living_codebase.Engine.Genetic.Rounds.{IsCandidate, buggy, bounds_checked, null_checked}
use living_codebase.Engine.Genetic.Runs.{run_ga_total}
use living_codebase.Engine.Genetic.Convergence.{run_ga_converges}
use living_codebase.Engine.Script.{test_calls, run_tests, script}

-- The first three items are 2/3, the 0 of the empty list, and 5/1; the last is 4/2.
abbrev pub printed : List Value
printed = float (pos 2) 3 ∷ Value.int (pos 0) ∷ float (pos 5) 1 ∷ float (pos 4) 2 ∷ []

bounds_tests : run_tests bounds_process test_calls ≡ ok printed
unfolding run_tests bounds_result clamp pick
bounds_tests = simp bounds_process_lem

null_tests : run_tests null_process test_calls ≡ raised index_error
unfolding run_tests null_result pick
null_tests = simp null_process_lem

buggy_tests : run_tests buggy_process test_calls ≡ raised index_error
unfolding run_tests pick
buggy_tests = simp buggy_process_lem

module _ (z3 : Solver) (draws : Draws) (sound : IsSound z3)
    (decided : z3 assertions ≢ unknown) where
  script-bounds :
      run_ga z3 draws 10 20 ≡ ok (some (mutate_add_bounds_check buggy_code), 150)
      → script z3 draws ≡ ok (150, printed)
  unfolding script exec_module mutate_add_bounds_check
  script-bounds e = rw (e, bounds_tests)

  script-null :
      run_ga z3 draws 10 20 ≡ ok (some (mutate_add_null_check buggy_code), 100)
      → script z3 draws ≡ raised index_error
  unfolding script exec_module mutate_add_null_check
  script-null e = rw (e, null_tests)

  script-buggy :
      run_ga z3 draws 10 20 ≡ ok (some buggy_code, 100) → script z3 draws ≡ raised index_error
  unfolding script exec_module buggy_code
  script-buggy e = rw (e, buggy_tests)

  -- With a sound Z3 that decides the assertions the main program ends in one of two ways: with the
  -- score 150 and the results 2/3, 0, 5 and 2 of its four calls; or with the score 100 and an
  -- IndexError, before it says that the patch is verified.
  pub script_lem :
      (script z3 draws ≡ ok (150, printed))
      ⊎ ((c : Node) × (run_ga z3 draws 10 20 ≡ ok (some c, 100))
          × (script z3 draws ≡ raised index_error))
  script_lem =
      let (c, e, i) = run_ga_total z3 sound decided draws 10 20 (omega arith) (omega arith) in
      outcome c e i
    where
      outcome :
          (c : Node)
          → run_ga z3 draws 10 20 ≡ ok (some c, fitness z3 c)
          → IsCandidate c
          → (script z3 draws ≡ ok (150, printed))
            ⊎ ((d : Node) × (run_ga z3 draws 10 20 ≡ ok (some d, 100))
                × (script z3 draws ≡ raised index_error))
      outcome c e (bounds_checked p) =
          inl (script-bounds (rw (p, fitness-bounds z3 sound decided buggy_code) at e))
      outcome c e (null_checked p) =
          let e' = rw (p, fitness-null z3 sound decided buggy_code) at e in
          inr (mutate_add_null_check buggy_code, e', script-null e')
      outcome c e (buggy p) =
          let e' = rw (p, fitness-buggy z3 sound decided) at e in
          inr (buggy_code, e', script-buggy e')

  -- With a sound Z3 that decides the assertions the main program succeeds if one of the first 20
  -- draws is the mutation that adds bounds checks.
  pub script_converges : (k : ℕ) → k < 20 → draws k % 3 ≡ 0 → script z3 draws ≡ ok (150, printed)
  script_converges k lt d = script-bounds (run_ga_converges z3 draws sound decided 9 20 k lt d)
