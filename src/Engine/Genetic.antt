-- ===== src/Engine/Genetic.antt =====
-- `run_ga` of healing/patch_engine.py. `draws k` decides the k-th call of `random.choice`.
pub mod Ranking
pub mod Rounds
pub mod Runs
pub mod Convergence
pub mod Small
use living_codebase.Prelude.{
  ℕ, zero, suc, ◌-◌, ◌/◌, ◌%◌, Option, none, some, List, [], ◌∷◌, ◌++◌, map, length, take, ltb, leb,
  if◌then◌else◌,
}
use living_codebase.Python.Syntax.{Node}
use living_codebase.Python.Value.{Result, ok, raised, index_error, ◌>>=◌}
use living_codebase.Engine.Programs.{
  buggy_code, mutate_add_bounds_check, mutate_add_null_check, mutate_swap_operator,
}
use living_codebase.Engine.Verifier.{Solver}
use living_codebase.Engine.Fitness.{fitness}

-- `MUTATIONS`
unfoldable pub mutations : List (Node → Node)
unfolding mutate_add_bounds_check mutate_add_null_check mutate_swap_operator
mutations = mutate_add_bounds_check ∷ mutate_add_null_check ∷ mutate_swap_operator ∷ []

abbrev pub item_at {ℓ} : {A : Type ℓ} → List A → ℕ → Result A
item_at [] n = raised index_error
item_at (x ∷ xs) zero = ok x
item_at (x ∷ xs) (suc n) = item_at xs n

abbrev pub Draws : Type 0
Draws = ℕ → ℕ

-- `random.choice(xs)`, an IndexError for no items
unfoldable pub choice {ℓ} : {A : Type ℓ} → Draws → List A → ℕ → Result A
choice draws xs calls = item_at xs (draws calls % length xs)

abbrev pub Scored : Type 0
Scored = Node × ℕ

-- `scored.sort(key=…, reverse=True)`: stable, so that an earlier candidate stays before its equals.
unfoldable pub insert_scored : Scored → List Scored → List Scored
insert_scored p [] = p ∷ []
insert_scored p (q ∷ qs) =
    let rest = insert_scored p qs in if ltb p.1 q.1 then q ∷ rest else p ∷ q ∷ qs

unfoldable pub sort_scored : List Scored → List Scored
unfolding insert_scored
sort_scored [] = []
sort_scored (p ∷ ps) = insert_scored p (sort_scored ps)

-- The variables of the loop; `calls` counts the calls of `random.choice`.
pub record State : Type 0 where
  pub population : List Node
  pub best_patch : Option Node
  pub best_score : ℕ
  pub calls : ℕ

-- `if top_score > best_score: …`
unfoldable pub keep_best : Scored → State → State
keep_best top s =
    if ltb s.best_score top.1 then record s { best_patch = some top.0; best_score = top.1 } else s

module _ (z3 : Solver) (draws : Draws) where
  -- `for _ in range(pop_size): …`, from the population so far
  unfoldable pub initial : ℕ → List Node → ℕ → Result (List Node × ℕ)
  unfolding mutations choice buggy_code
  initial zero population calls = ok (population, calls)
  initial (suc n) population calls = do
    op ← choice draws mutations calls
    initial n (population ++ op buggy_code ∷ []) (suc calls)

  -- `while len(population) < pop_size: …`, for the candidates that are missing
  unfoldable pub refill : ℕ → List Node → List Node → ℕ → Result (List Node × ℕ)
  unfolding mutations choice
  refill zero survivors population calls = ok (population, calls)
  refill (suc n) survivors population calls = do
    parent ← choice draws survivors calls
    op ← choice draws mutations (suc calls)
    refill n survivors (population ++ op parent ∷ []) (suc (suc calls))

  unfoldable pub ranked : List Node → List Scored
  unfolding sort_scored
  ranked population = sort_scored (map (λ c. (c, fitness z3 c)) population)

  -- The quarter of the population that survives.
  unfoldable pub survivors_of : ℕ → List Scored → List Node
  survivors_of pop_size scored = map (λ (c, _). c) (take (pop_size / 4) scored)

  unfoldable pub next_population : ℕ → List Scored → ℕ → Result (List Node × ℕ)
  unfolding refill survivors_of
  next_population pop_size scored calls =
      let survivors = survivors_of pop_size scored in
      refill (pop_size - length survivors) survivors survivors calls

  -- `for gen in range(generations): …`; a perfect score ends the loop.
  unfoldable pub evolve : ℕ → ℕ → State → Result State
  unfolding ranked next_population keep_best
  evolve zero pop_size s = ok s
  evolve (suc generations) pop_size s = do
    top ← item_at (ranked s.population) 0
    let s₁ = keep_best top s
    let again = next_population pop_size (ranked s.population) s₁.calls >>= λ (population, calls).
        evolve generations pop_size (record s₁ { population = population; calls = calls })
    if leb 150 s₁.best_score then ok s₁ else again

  unfoldable pub run_ga : ℕ → ℕ → Result (Option Node × ℕ)
  unfolding initial evolve
  run_ga generations pop_size = do
    (population, calls) ← initial pop_size [] 0
    s ←
        evolve generations pop_size
          (record { population = population; best_patch = none; best_score = 0; calls = calls })
    ok (s.best_patch, s.best_score)
