-- ===== src/Engine/Fitness.antt =====
-- `fitness` of healing/patch_engine.py. The scores are whole numbers, and stand as such.
pub mod Scores
use living_codebase.Prelude.{ℕ, ◌+◌, Bool, true, false, ◌&&◌, List, [], ◌∷◌, if◌then◌else◌}
use living_codebase.Prelude.Int.{ℤ, pos}
use living_codebase.Python.Syntax.{Node, eq}
use living_codebase.Python.Value.{
  Value, float, Result, ok, raised, ◌>>=◌, compare_values, get_item, binary, unary, truthy,
}
use living_codebase.Python.Eval.{eval, const_value, builtin}
use living_codebase.Python.Exec.{exec_module, call_function, call_by}
use living_codebase.Python.Targets.{targets_valid}
use living_codebase.Engine.Programs.Process.{data_list}
use living_codebase.Engine.Verifier.{Solver, verify_with_z3}

-- `assert fn(data, index) == expected`; an exception fails the test too. So does `unsupported`, which
-- says nothing of Python, but no candidate of `run_ga` ends in it (no_test-unsupported of
-- Engine/Genetic/Rounds).
abbrev holds : Result Bool → Bool
holds (ok b) = b
holds (raised e) = false

unfoldable pub asserted : Node → List ℤ → ℤ → Value → Result Bool
unfolding call_by
asserted fn xs i expected = do
  v ← call_function fn (data_list xs ∷ Value.int i ∷ [])
  compare_values eq v expected

abbrev num : ℕ → ℤ
num n = pos n

abbrev all_hold : List (Result Bool) → Bool
all_hold [] = true
all_hold (r ∷ rs) = holds r && all_hold rs

-- The four test cases of a function.
unfoldable pub test_results : Node → List (Result Bool)
unfolding asserted
test_results fn =
    asserted fn (num 1 ∷ num 2 ∷ num 3 ∷ []) (num 1) (float (num 2) 3)
    ∷ asserted fn [] (num 0) (Value.int (num 0))
    ∷ asserted fn (num 5 ∷ []) (num 99) (float (num 5) 1)
    ∷ asserted fn (num 4 ∷ num 0 ∷ []) (num 0) (float (num 2) 1)
    ∷ []

unfoldable pub passes_tests : Node → Bool
unfolding test_results
passes_tests fn = all_hold (test_results fn)

-- `exec` of the candidate, `ns["process"]`, and the test cases.
unfoldable pub passes : Node → Bool
unfolding passes_tests exec_module eval const_value get_item binary unary builtin truthy
    compare_values data_list
passes candidate = holds (exec_module candidate "process" >>= λ fn. ok (passes_tests fn))

-- Of what `compile` refuses, only an assignment without targets is looked at: the candidates of
-- `run_ga` are the three programs of Engine/Programs, which Python compiles.
module _ (z3 : Solver) where
  unfoldable pub fitness : Node → ℕ
  fitness candidate =
      if targets_valid candidate
      then 10 + (if passes candidate then 50 else 0) + verify_with_z3 z3 candidate
      else 0
