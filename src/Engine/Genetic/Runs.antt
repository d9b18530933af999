-- ===== src/Engine/Genetic/Runs.antt =====
-- Whole runs of the genetic algorithm.
use living_codebase.Prelude.{
  ◌≡◌, ◌≢◌, ◌⊎◌, ◌≤◌, ◌<◌, ℕ, zero, suc, inl, inr, refl, ap, none, some, List, [], ◌∷◌, Bool-cases,
  All, length, ltb, leb, arith, false,
}
use living_codebase.Prelude.Int.{ℤ}
use living_codebase.Python.Syntax.{Node}
use living_codebase.Python.Value.{Value, ok}
use living_codebase.Python.Exec.{exec_module, call_function}
use living_codebase.Engine.Programs.{buggy_code, bounds_process, mutate_add_bounds_check}
use living_codebase.Engine.Programs.Process.{data_list, bounds_result, bounds_process_lem}
use living_codebase.Engine.Verifier.{Solver, IsSound, assertions, unknown}
use living_codebase.Engine.Fitness.{fitness}
use living_codebase.Engine.Fitness.Scores.{fitness-bounds, fitness-null, fitness-buggy}
use living_codebase.Engine.Genetic.{Draws, Scored, State, keep_best, evolve, run_ga}
use living_codebase.Engine.Genetic.Rounds.{
  IsCandidate, buggy, bounds_checked, null_checked, IsScored, initial_lem, top_lem,
  next_population_lem,
}

module _ (z3 : Solver) (sound : IsSound z3) (decided : z3 assertions ≢ unknown)
    (draws : Draws) where
  -- Only the program with bounds checks has the perfect score.
  abbrev pub ScoreOf : Node → ℕ → Type 0
  ScoreOf c n =
      ((n ≡ 100) × (c ≢ mutate_add_bounds_check buggy_code))
      ⊎ ((n ≡ 150) × (c ≡ mutate_add_bounds_check buggy_code))

  pub candidate_score : (c : Node) → IsCandidate c → ScoreOf c (fitness z3 c)
  candidate_score c (buggy e) =
      rw (e, fitness-buggy z3 sound decided)
        (inl (
          refl,
          λ p. absurd (
              omega (
                arith,
                ap (fitness z3) p,
                fitness-buggy z3 sound decided,
                fitness-bounds z3 sound decided buggy_code,
              )),
        ))
  candidate_score c (bounds_checked e) = inr (rw e (fitness-bounds z3 sound decided _), e)
  candidate_score c (null_checked e) =
      rw (e, fitness-null z3 sound decided _)
        (inl (
          refl,
          λ p. absurd (
              omega (
                arith,
                ap (fitness z3) p,
                fitness-null z3 sound decided buggy_code,
                fitness-bounds z3 sound decided buggy_code,
              )),
        ))

  pub score_pos : (c : Node) → IsCandidate c → 0 < fitness z3 c
  score_pos c i = ground (arith, candidate_score c i)

  -- The best patch so far is a candidate with its score, or there is none yet.
  data HasBest (s : State) : Type 0 where
    nothing : s.best_patch ≡ none → s.best_score ≡ 0 → HasBest s
    just :
        (c : Node) → s.best_patch ≡ some c → IsCandidate c → s.best_score ≡ fitness z3 c → HasBest s

  record IsFound (s : State) : Type 0 where
    patch : Node
    is_best : s.best_patch ≡ some patch
    is_candidate : IsCandidate patch
    has_score : s.best_score ≡ fitness z3 patch

  IsFound-HasBest : {s : State} → IsFound s → HasBest s
  IsFound-HasBest f = just f.patch f.is_best f.is_candidate f.has_score

  keep_best-IsFound :
      (top : Scored) (s : State) → IsScored z3 top → HasBest s → IsFound (keep_best top s)
  unfolding keep_best
  keep_best-IsFound top s (c, e) h = elim (Bool-cases (ltb s.best_score top.1)) [
    | inl b ↦ rw b (record { patch = top.0; is_best = refl; is_candidate = c; has_score = e })
    | inr b ↦ rw b (old b h)
  ]
    where
      old : ltb s.best_score top.1 ≡ false → HasBest s → IsFound s
      old b (nothing p q) = absurd (ground (arith, score_pos top.0 c))
      old b (just d p i q) = record { patch = d; is_best = p; is_candidate = i; has_score = q }

  keep_best-population : (top : Scored) (s : State) → (keep_best top s).population ≡ s.population
  unfolding keep_best
  keep_best-population top s = ground arith

  -- The loop does not fail, and if it made a round then it has found a patch.
  evolve-IsFound :
      (generations n : ℕ) (s : State)
      → 4 ≤ n
      → All IsCandidate s.population
      → length s.population ≡ n
      → HasBest s
      → (generations ≡ 0 → IsFound s)
      → (s' : State) × (evolve z3 draws generations n s ≡ ok s') × IsFound s'
  unfolding evolve
  evolve-IsFound zero n s h a l b found = (s, refl, found refl)
  evolve-IsFound (suc generations) n s h a l b found =
      let (top, e, scored, best) = top_lem z3 draws s.population a (omega arith) in
      let s₁ : State = keep_best top s in
      let f : IsFound s₁ = keep_best-IsFound top s scored b in
      let (r, e', a', l') = next_population_lem z3 draws n s.population s₁.calls h a l in
      let s₂ : State = record s₁ { population = r.0; calls = r.1 } in
      let f₂ : IsFound s₂ = record {
        patch = f.patch;
        is_best = f.is_best;
        is_candidate = f.is_candidate;
        has_score = f.has_score;
      } in
      let (s', e₂, f') = evolve-IsFound generations n s₂ h a' l' (IsFound-HasBest f₂) (λ _. f₂) in
      elim (Bool-cases (leb 150 s₁.best_score)) [
        | inl stop ↦ (s₁, rw (e, stop), f)
        | inr more ↦ (s', rw (e, more, e') e₂, f')
      ]

  -- With a sound Z3 that decides the assertions, four candidates or more and at least one
  -- generation: a run raises no error, whatever is drawn, and returns a patch, one of the three
  -- programs, together with the fitness of that patch.
  pub run_ga_total :
      (generations n : ℕ)
      → 0 < generations
      → 4 ≤ n
      → (c : Node) × (run_ga z3 draws generations n ≡ ok (some c, fitness z3 c)) × IsCandidate c
  unfolding run_ga
  run_ga_total generations n g h =
      let (r, e, a, l) = initial_lem z3 draws n [] 0 tt in
      let s : State = record { population = r.0; best_patch = none; best_score = 0; calls = r.1 } in
      let (s', e', f) =
        evolve-IsFound generations n s h a (omega arith) (nothing refl refl)
          (λ z. absurd (omega arith)) in
      (f.patch, rw (e, e', f.is_best, f.has_score), f.is_candidate)

  -- With a sound Z3 that decides the assertions, four candidates or more and at least one
  -- generation: a patch that a run reports with the score 150 defines a `process` that returns, for
  -- every list of integers and every index, 0 for the empty list and otherwise the item at the
  -- index, moved into the list, divided by the length.
  pub run_ga_perfect :
      (generations n : ℕ) (c : Node)
      → 0 < generations
      → 4 ≤ n
      → run_ga z3 draws generations n ≡ ok (some c, 150)
      → (fn : Node) × (exec_module c "process" ≡ ok fn)
        × ((xs : List ℤ) (i : ℤ)
            → call_function fn (data_list xs ∷ Value.int i ∷ []) ≡ bounds_result xs i)
  unfolding exec_module mutate_add_bounds_check
  run_ga_perfect generations n c g h e =
      let (d, e', i) = run_ga_total generations n g h in
      let same : d ≡ c = cc in
      let score : fitness z3 d ≡ 150 = cc in
      elim (candidate_score d i) [
        | inl (low, _) ↦ absurd (omega arith)
        | inr (_, p) ↦ (bounds_process, rw (← same, p) refl, bounds_process_lem)
      ]
