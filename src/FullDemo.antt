-- ===== src/FullDemo.antt =====
-- full_demo.py, the script: its calls of the heap of phase 1, the scores of phase 2 and the query of
-- phase 3. The functions of phase 1 are in Heap. Phases 4 and 5 print fixed figures.
use living_codebase.Prelude.{
  ◌≡◌, ◌≢◌, refl, ℕ, zero, suc, ◌+◌, ◌*◌, min, String, Bool, true, ◌&&◌, List, [], ◌∷◌, leb,
  if◌then◌else◌,
}
use living_codebase.Prelude.Int.{pos, ltb_ℤ, leb_ℤ}
use living_codebase.Python.Syntax.{Node}
use living_codebase.Engine.Programs.{buggy_process, bounds_process}
use living_codebase.Engine.Verifier.{Constraint, Solver, IsSound, unknown, is_sat, answer_sat}
use living_codebase.Heap.{Demo, empty_heap, demo_malloc, demo_free, demo_write}

-- Phase 1: a block that is written to after it was freed, and a write to no block.
unfoldable pub target_run : Demo
unfolding demo_malloc demo_free demo_write
target_run =
    let d₁ = demo_malloc 4096 64 (record { heap = empty_heap; faults = [] }) in
    let d₂ = demo_free 4096 d₁ in
    let (r₃, d₃) = demo_write 4096 d₂ in
    let d₄ = demo_malloc 8192 32 d₃ in let (r₅, d₅) = demo_write 39321 d₄ in d₅

-- `BUGGY` and `PATCHED`, which the script does not run: the patch engine's programs.
abbrev pub demo_buggy : Node
demo_buggy = buggy_process

abbrev pub demo_patched : Node
demo_patched = bounds_process

-- `for i in range(5): …`, for the rounds left: the scores
unfoldable pub generations : ℕ → ℕ → List ℕ
generations zero i = []
generations (suc rounds) i =
    let rest = generations rounds (suc i) in
    let score = min (30 + i * 30) 150 in score ∷ (if leb 150 score then [] else rest)

-- What phase 3 adds to its solver.
unfoldable pub safety_query : Constraint
safety_query idx size = ltb_ℤ (pos 0) size && leb_ℤ (pos 0) idx && ltb_ℤ idx size

-- `props`
unfoldable pub safety_props : Solver → List (String × Bool)
safety_props z3 =
    ("null pointer safety", is_sat (z3 safety_query))
    ∷ ("array bounds safety", is_sat (z3 safety_query))
    ∷ ("division by zero safe", is_sat (z3 safety_query))
    ∷ ("no UAF possible", is_sat (z3 safety_query))
    ∷ []

-- What the script prints of its phases: the addresses of the faults, the scores, the properties.
unfoldable pub full_demo : Solver → List ℕ × List ℕ × List (String × Bool)
unfolding target_run generations safety_props
full_demo z3 = (target_run.faults, generations 5 0, safety_props z3)

-- With a sound Z3 that decides the query the script reports one use after free, the scores 30 to
-- 150, the highest in the last of five generations, and all four properties.
pub full_demo_lem :
    (z3 : Solver)
    → IsSound z3
    → z3 safety_query ≢ unknown
    → full_demo z3 ≡ (
      4096 ∷ [],
      30 ∷ 60 ∷ 90 ∷ 120 ∷ 150 ∷ [],
      ("null pointer safety", true)
          ∷ ("array bounds safety", true)
          ∷ ("division by zero safe", true)
          ∷ ("no UAF possible", true)
          ∷ [],
    )
unfolding full_demo safety_query
full_demo_lem z3 sound decided =
    rw (
      answer_sat (z3 safety_query) (λ e. cc (sound.no_model safety_query e (pos 0) (pos 1)))
        decided)

-- More than five rounds do not change the scores.
pub generations_stop :
    (rounds : ℕ) → generations (suc (suc (suc (suc (suc rounds))))) 0 ≡ generations 5 0
unfolding generations
generations_stop rounds = refl
