-- ===== src/Engine/Script.antt =====
-- The main program of healing/patch_engine.py: the run of the genetic algorithm, and the calls of
-- the patched function. An exception ends it, and Python exits with an error.
pub mod Outcomes
use living_codebase.Prelude.{ℕ, Option, some, none, List, [], ◌∷◌}
use living_codebase.Prelude.Int.{ℤ, pos}
use living_codebase.Python.Syntax.{Node}
use living_codebase.Python.Value.{Value, Result, ok, raised, attribute_error, ◌>>=◌}
use living_codebase.Python.Exec.{exec_module, call_function}
use living_codebase.Engine.Programs.Process.{data_list}
use living_codebase.Engine.Verifier.{Solver}
use living_codebase.Engine.Genetic.{Draws, run_ga}

-- `tests`, without the labels
abbrev pub test_calls : List (List ℤ × ℤ)
test_calls =
    (pos 1 ∷ pos 2 ∷ pos 3 ∷ [], pos 1)
    ∷ ([], pos 0)
    ∷ (pos 5 ∷ [], pos 99)
    ∷ (pos 4 ∷ pos 0 ∷ [], pos 0)
    ∷ []

-- `ast.unparse(patch)`, which fails for `None`, and the text parsed again
abbrev pub unparsed : Option Node → Result Node
unparsed none = raised attribute_error
unparsed (some c) = ok c

-- `for data, idx, label in tests: …`, with the results that are printed
unfoldable pub run_tests : Node → List (List ℤ × ℤ) → Result (List Value)
run_tests fn [] = ok []
run_tests fn ((xs, i) ∷ rest) = do
  result ← call_function fn (data_list xs ∷ Value.int i ∷ [])
  results ← run_tests fn rest
  ok (result ∷ results)

-- The printed score and results.
unfoldable pub script : Solver → Draws → Result (ℕ × List Value)
unfolding run_tests
script z3 draws = do
  (patch, score) ← run_ga z3 draws 10 20
  source ← unparsed patch
  fn ← exec_module source "process"
  results ← run_tests fn test_calls
  ok (score, results)
