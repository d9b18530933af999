-- ===== src/Tests/Runs.antt =====
-- The verifier, the fitness function and the genetic algorithm at concrete inputs, with a solver
-- that tries one pair of values.

use living_codebase.Prelude.{◌≡◌, ◌≢◌, ◌⊎◌, refl, ℕ, List, [], ◌∷◌, some, if◌then◌else◌, arith}
use living_codebase.Prelude.Int.{ℤ, pos, negsuc}
use living_codebase.Python.Syntax.{Node}
use living_codebase.Python.Value.{Value, ok, raised, index_error}
use living_codebase.Python.Exec.{exec_module, call_function}
use living_codebase.Engine.Programs.{buggy_code, mutate_add_bounds_check}
use living_codebase.Engine.Programs.Process.{data_list, bounds_result}
use living_codebase.Engine.Verifier.{
  Solver, sat, unknown, IsSound, assertions, adversarial, in_range, clamped,
}
use living_codebase.Engine.Fitness.{fitness}
use living_codebase.Engine.Genetic.{Draws, run_ga}
use living_codebase.Engine.Genetic.Rounds.{IsCandidate}
use living_codebase.Engine.Genetic.Runs.{run_ga_total, run_ga_perfect}
use living_codebase.Engine.Genetic.Convergence.{run_ga_converges}
use living_codebase.Engine.Script.{script}
use living_codebase.Engine.Script.Outcomes.{printed, script_lem}
use living_codebase.Engine.Genetic.Small.{run_ga_small}

-- Tries index -1 of a list of one item.
abbrev pub one_try : Solver
one_try c = if c (negsuc 0) (pos 1) then sat else unknown

pub one_try-IsSound : IsSound one_try
one_try-IsSound = record {
  model = λ c e. ∣ (negsuc 0, pos 1, ground arith) ∣₁;
  no_model = λ c e. absurd (ground arith);
}

pub one_try-decides : one_try assertions ≢ unknown
unfolding assertions adversarial in_range clamped
one_try-decides = λ e. cc

abbrev pub always : ℕ → Draws
always n k = n

run_ga_total_example :
    (c : Node) × (run_ga one_try (always 1) 3 4 ≡ ok (some c, fitness one_try c)) × IsCandidate c
run_ga_total_example =
    run_ga_total one_try one_try-IsSound one_try-decides (always 1) 3 4 (omega arith) (omega arith)

run_ga_converges_example :
    run_ga one_try (always 3) 5 4 ≡ ok (some (mutate_add_bounds_check buggy_code), 150)
run_ga_converges_example =
    run_ga_converges one_try (always 3) one_try-IsSound one_try-decides 4 4 2 (omega arith) refl

run_ga_perfect_example :
    (fn : Node) × (exec_module (mutate_add_bounds_check buggy_code) "process" ≡ ok fn)
    × ((xs : List ℤ) (i : ℤ)
        → call_function fn (data_list xs ∷ Value.int i ∷ []) ≡ bounds_result xs i)
run_ga_perfect_example =
    run_ga_perfect one_try one_try-IsSound one_try-decides (always 3) 5 4
      (mutate_add_bounds_check buggy_code) (omega arith) (omega arith) run_ga_converges_example

run_ga_small_example :
    (run_ga one_try (always 1) 3 2 ≡ ok (some (mutate_add_bounds_check buggy_code), 150))
    ⊎ (run_ga one_try (always 1) 3 2 ≡ raised index_error)
run_ga_small_example =
    run_ga_small one_try (always 1) one_try-IsSound one_try-decides 2 2 (omega arith) (omega arith)

script_lem_example :
    (script one_try (always 1) ≡ ok (150, printed))
    ⊎ ((c : Node) × (run_ga one_try (always 1) 10 20 ≡ ok (some c, 100))
        × (script one_try (always 1) ≡ raised index_error))
script_lem_example = script_lem one_try (always 1) one_try-IsSound one_try-decides
