-- ===== src/Z3Test.antt =====
-- healing/test_z3.py: one query to Z3 on three integers, and which message is printed for the answer.
use living_codebase.Prelude.{◌≡◌, ◌≢◌, Bool, true, false, not, ◌&&◌}
use living_codebase.Prelude.Int.{ℤ, pos, ltb_ℤ, leb_ℤ, eqb_ℤ}
use living_codebase.Engine.Verifier.{Answer, unsat, unknown, is_sat, answer_sat}

-- A constraint on `ptr`, `idx` and `size`, as its truth for each of them.
abbrev pub Query : Type 0
Query = ℤ → ℤ → ℤ → Bool

-- All that the script adds to its solver.
unfoldable pub safety : Query
safety ptr idx size = not (eqb_ℤ ptr (pos 0)) && leb_ℤ (pos 0) idx && ltb_ℤ idx size

-- Whether the script prints that Z3 works.
unfoldable pub test_z3 : (Query → Answer) → Bool
unfolding safety
test_z3 z3 = is_sat (z3 safety)

-- It does, for a solver that answers `unsat` only if there is no model and decides the query.
pub test_z3_lem :
    (z3 : Query → Answer)
    → ((q : Query) → z3 q ≡ unsat → (ptr idx size : ℤ) → q ptr idx size ≡ false)
    → z3 safety ≢ unknown
    → test_z3 z3 ≡ true
unfolding test_z3 safety
test_z3_lem z3 no_model decided =
    answer_sat (z3 safety) (λ e. cc (no_model safety e (pos 1) (pos 0) (pos 1))) decided
