-- ===== src/Engine/Genetic/Small.antt =====
-- Runs of the genetic algorithm with fewer than four candidates.
use living_codebase.Prelude.{
  ◌≡◌, ◌≢◌, ◌⊎◌, ◌<◌, ◌∙◌, ℕ, zero, suc, inl, inr, refl, ap, Option, none, some, List, [], All,
  length, leb, arith, true, false, ◌/◌, ◌-◌,
}
use living_codebase.Python.Syntax.{Node}
use living_codebase.Python.Value.{ok, raised, index_error}
use living_codebase.Engine.Programs.{buggy_code, mutate_add_bounds_check}
use living_codebase.Engine.Verifier.{Solver, IsSound, assertions, unknown}
use living_codebase.Engine.Genetic.{
  Draws, Scored, State, choice, ranked, next_population, survivors_of, keep_best, evolve, run_ga,
}
use living_codebase.Engine.Genetic.Rounds.{IsCandidate, initial_lem, top_lem}
use living_codebase.Engine.Genetic.Runs.{candidate_score, score_pos}
use living_codebase.Engine.Genetic.Convergence.{keep_best_higher}

-- Without four candidates a quarter of them is none, and no parent can be chosen.
no_survivors :
    (z3 : Solver) (draws : Draws) (n : ℕ) (scored : List Scored)
    → n < 4
    → survivors_of z3 draws n scored ≡ []
unfolding survivors_of
no_survivors z3 draws n scored h = let none_left : n / 4 ≡ 0 = omega arith in rw none_left

next_population_fails :
    (z3 : Solver) (draws : Draws) (n : ℕ) (scored : List Scored) (calls : ℕ)
    → 0 < n
    → n < 4
    → next_population z3 draws n scored calls ≡ raised index_error
unfolding next_population choice
next_population_fails z3 draws zero scored calls p h = absurd (omega arith)
next_population_fails z3 draws (suc n) scored calls p h =
    rw (no_survivors z3 draws (suc n) scored h)
      (let all : suc n - 0 ≡ suc n = omega arith in rw all)

module _ (z3 : Solver) (draws : Draws) (sound : IsSound z3)
    (decided : z3 assertions ≢ unknown) where
  abbrev Perfect : Option Node → ℕ → Type 0
  Perfect c score = (c ≡ some (mutate_add_bounds_check buggy_code)) × (score ≡ 150)

  evolve_small :
      (generations n : ℕ) (s : State)
      → 0 < n
      → n < 4
      → All IsCandidate s.population
      → 0 < length s.population
      → s.best_score ≡ 0
      → ((s' : State) × (evolve z3 draws (suc generations) n s ≡ ok s')
          × Perfect s'.best_patch s'.best_score)
        ⊎ (evolve z3 draws (suc generations) n s ≡ raised index_error)
  unfolding evolve
  evolve_small generations n s p h a l z =
      let (top, e, scored, best) = top_lem z3 draws s.population a l in
      let s₁ : State = keep_best top s in
      let better : 0 < top.1 =
        omega (arith, scored.1, score_pos z3 sound decided draws top.0 scored.0) in
      let (b, q) = keep_best_higher top s (ground arith) in
      elim (candidate_score z3 sound decided draws top.0 scored.0) [
        | inl (low, _) ↦
            let more : leb 150 s₁.best_score ≡ false = ground (arith, scored.1) in
            inr (
              rw (
                e,
                more,
                next_population_fails z3 draws n (ranked z3 draws s.population) s₁.calls p h,
              ))
        | inr (high, c) ↦
            let stop : leb 150 s₁.best_score ≡ true = ground (arith, scored.1) in
            inl (s₁, rw (e, stop), (b ∙ ap some c, omega (arith, scored.1)))
      ]

  -- With a sound Z3 that decides the assertions: a run with one to three candidates and at least
  -- one generation returns the program with bounds checks and the score 150, or raises IndexError.
  pub run_ga_small :
      (generations n : ℕ)
      → 0 < n
      → n < 4
      → (run_ga z3 draws (suc generations) n ≡ ok (some (mutate_add_bounds_check buggy_code), 150))
        ⊎ (run_ga z3 draws (suc generations) n ≡ raised index_error)
  unfolding run_ga
  run_ga_small generations n p h =
      let (r, e, a, l) = initial_lem z3 draws n [] 0 tt in
      let s : State = record { population = r.0; best_patch = none; best_score = 0; calls = r.1 } in
      elim (evolve_small generations n s p h a (omega arith) refl) [
        | inl (s', e₂, (b, q)) ↦ inl (rw (e, e₂, b, q))
        | inr fails ↦ inr (rw (e, fails))
      ]
