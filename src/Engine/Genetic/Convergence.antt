-- ===== src/Engine/Genetic/Convergence.antt =====
-- When a run of the genetic algorithm ends in its first generation, and when it fails.
use living_codebase.Prelude.{
  sym, ◌≡◌, ◌≢◌, ◌⊎◌, ◌≤◌, ◌<◌, ◌+◌, ◌%◌, ◌∙◌, ℕ, zero, suc, inl, inr, refl, ap, none, some, List,
  [], ◌∷◌, ◌++◌, map, All, length, ltb, leb, arith, true,
}
use living_codebase.Python.Syntax.{Node}
use living_codebase.Python.Value.{Result, ok}
use living_codebase.Engine.Programs.{buggy_code, mutate_add_bounds_check}
use living_codebase.Engine.Verifier.{Solver, IsSound, assertions, unknown}
use living_codebase.Engine.Fitness.{fitness}
use living_codebase.Engine.Fitness.Scores.{fitness-bounds}
use living_codebase.Engine.Genetic.{
  Draws, Scored, State, mutations, choice, initial, ranked, keep_best, evolve, run_ga,
}
use living_codebase.Engine.Genetic.Ranking.{with_score, with_score-sort_scored, choice_lem}
use living_codebase.Engine.Genetic.Rounds.{IsCandidate, initial_lem, top_lem}
use living_codebase.Engine.Genetic.Runs.{candidate_score}

-- The program with bounds checks is among the candidates.
abbrev Has : List Node → Type 0
Has [] = ⊥
Has (c ∷ cs) = (c ≡ mutate_add_bounds_check buggy_code) ⊎ Has cs

Has-append_left : (xs ys : List Node) → Has xs → Has (xs ++ ys)
Has-append_left (x ∷ xs) ys (inl e) = inl e
Has-append_left (x ∷ xs) ys (inr h) = inr (Has-append_left xs ys h)
Has-append_left [] ys h = absurd h

Has-append_right : (xs ys : List Node) → Has ys → Has (xs ++ ys)
Has-append_right [] ys h = h
Has-append_right (x ∷ xs) ys h = inr (Has-append_right xs ys h)

-- Draw 0 is the mutation that adds bounds checks.
choice-bounds :
    (draws : Draws) (calls : ℕ)
    → draws calls % 3 ≡ 0
    → choice draws mutations calls ≡ ok mutate_add_bounds_check
unfolding choice mutations
choice-bounds draws calls h = rw h

bounds_code : (t : Node) → mutate_add_bounds_check t ≡ mutate_add_bounds_check buggy_code
unfolding mutate_add_bounds_check
bounds_code t = refl

choice-mutations :
    (draws : Draws) (calls : ℕ) → (op : Node → Node) × (choice draws mutations calls ≡ ok op)
unfolding mutations
choice-mutations draws calls =
    let (op, e, _) =
      choice_lem (λ _. Unit {0}) draws mutations calls (tt, (tt, (tt, tt))) (omega arith) in
    (op, e)

pub keep_best_higher :
    (top : Scored) (s : State)
    → ltb s.best_score top.1 ≡ true
    → ((keep_best top s).best_patch ≡ some top.0) × ((keep_best top s).best_score ≡ top.1)
unfolding keep_best
keep_best_higher top s h = ground arith

module _ (z3 : Solver) (draws : Draws) where
  abbrev Filled : Result (List Node × ℕ) → Type 0
  Filled m = (r : List Node × ℕ) × (m ≡ ok r) × Has r.0

  initial-Has :
      (n : ℕ) (population : List Node) (calls : ℕ)
      → Has population ⊎ ((k : ℕ) × (k < n) × (draws (calls + k) % 3 ≡ 0))
      → Filled (initial z3 draws n population calls)
  unfolding initial
  initial-Has zero population calls (inl h) = ((population, calls), refl, h)
  initial-Has zero population calls (inr (k, lt, d)) = absurd (omega arith)
  initial-Has (suc n) population calls (inl h) =
      let (op, e) = choice-mutations draws calls in
      let (r, e', h') =
        initial-Has n (population ++ op buggy_code ∷ []) (suc calls)
          (inl (Has-append_left population _ h)) in
      (r, rw e e', h')
  initial-Has (suc n) population calls (inr (zero, lt, d)) =
      let now : calls + 0 ≡ calls = omega arith in
      let e = choice-bounds draws calls (rw now at d) in
      let (r, e', h') =
        initial-Has n (population ++ mutate_add_bounds_check buggy_code ∷ []) (suc calls)
          (inl (Has-append_right population _ (inl refl))) in
      (r, rw e e', h')
  initial-Has (suc n) population calls (inr (suc k, lt, d)) =
      let (op, e) = choice-mutations draws calls in
      let next : calls + suc k ≡ suc calls + k = omega arith in
      let (r, e', h') =
        initial-Has n (population ++ op buggy_code ∷ []) (suc calls)
          (inr (k, omega arith, rw next at d)) in
      (r, rw e e', h')

  with_score-Has :
      (population : List Node)
      → fitness z3 (mutate_add_bounds_check buggy_code) ≡ 150
      → Has population
      → with_score 150 (map (λ c. (c, fitness z3 c)) population) ≢ []
  unfolding with_score
  with_score-Has (c ∷ cs) f (inl e) = ground (arith, ap (fitness z3) e)
  with_score-Has (c ∷ cs) f (inr h) = ground (arith, with_score-Has cs f h)
  with_score-Has [] f h = absurd h

  with_score-All :
      (m : ℕ) (ps : List Scored) → All (λ q. q.1 ≤ m) ps → with_score 150 ps ≢ [] → 150 ≤ m
  unfolding with_score
  with_score-All m [] a h = absurd (h refl)
  with_score-All m (p ∷ ps) (a, as') h = ground (arith, with_score-All m ps as')

  module _ (sound : IsSound z3) (decided : z3 assertions ≢ unknown) where
    evolve-Has :
        (generations n : ℕ) (s : State)
        → All IsCandidate s.population
        → 0 < length s.population
        → Has s.population
        → s.best_score ≡ 0
        → (s' : State) × (evolve z3 draws (suc generations) n s ≡ ok s')
          × (s'.best_patch ≡ some (mutate_add_bounds_check buggy_code))
          × (s'.best_score ≡ 150)
    unfolding evolve ranked
    evolve-Has generations n s a l h z =
        let (top, e, scored, best) = top_lem z3 draws s.population a l in
        let full : 150 ≤ top.1 = with_score-All top.1 _ best (λ p.
          with_score-Has s.population (fitness-bounds z3 sound decided buggy_code) h
            (sym (with_score-sort_scored 150 _) ∙ p)) in
        let s₁ : State = keep_best top s in
        elim (candidate_score z3 sound decided draws top.0 scored.0) [
          | inl (low, _) ↦ absurd (omega (arith, scored.1))
          | inr (high, p) ↦
              let (b, q) = keep_best_higher top s (ground arith) in
              let stop : leb 150 s₁.best_score ≡ true = ground arith in
              (s₁, rw (e, stop), b ∙ ap some p, omega (arith, scored.1))
        ]

    -- With a sound Z3 that decides the assertions: if one of the draws that make the first
    -- candidates is the mutation that adds bounds checks, then a run of at least one generation
    -- returns the program with bounds checks and the score 150.
    pub run_ga_converges :
        (generations n k : ℕ)
        → k < n
        → draws k % 3 ≡ 0
        → run_ga z3 draws (suc generations) n ≡ ok (some (mutate_add_bounds_check buggy_code), 150)
    unfolding run_ga
    run_ga_converges generations n k lt d =
        let (r, e, a, l) = initial_lem z3 draws n [] 0 tt in
        let first : 0 + k ≡ k = omega arith in
        let (r', e', h') = initial-Has n [] 0 (inr (k, lt, rw first d)) in
        let same : r' ≡ r = cc in
        let h : Has r.0 = rw (← same) h' in
        let s : State = record {
          population = r.0;
          best_patch = none;
          best_score = 0;
          calls = r.1;
        } in
        let (s', e₂, b, q) = evolve-Has generations n s a (omega arith) h refl in rw (e, e₂, b, q)
