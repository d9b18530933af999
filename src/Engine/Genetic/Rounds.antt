-- ===== src/Engine/Genetic/Rounds.antt =====
-- One round of the genetic algorithm: which candidates it makes, and that it does not fail.
use living_codebase.Prelude.{
  min, ◌∙◌, ◌≡◌, ◌≢◌, ◌≤◌, ◌<◌, ◌+◌, ◌-◌, ◌/◌, ℕ, zero, suc, refl, List, [], ◌∷◌, ◌++◌, All, length,
  take, map, length-append, length-take, length-map, arith,
}
use living_codebase.Python.Syntax.{Node}
use living_codebase.Python.Value.{
  Result, ok, raised, unsupported, get_item, binary, unary, truthy, compare_values,
}
use living_codebase.Python.Eval.{eval, const_value, builtin}
use living_codebase.Python.Exec.{exec_module, call_by}
use living_codebase.Engine.Programs.Process.{data_list}
use living_codebase.Engine.Programs.{
  buggy_process, bounds_process, null_process, buggy_code, mutate_add_bounds_check,
  mutate_add_null_check, mutate_swap_operator,
}
use living_codebase.Engine.Verifier.{Solver}
use living_codebase.Engine.Fitness.{fitness, test_results}
use living_codebase.Engine.Genetic.{
  Draws, Scored, mutations, item_at, initial, refill, ranked, survivors_of, next_population,
}
use living_codebase.Engine.Genetic.Ranking.{
  choice_lem, All-append, All-take, All-sort_scored, length-sort_scored, sort_scored-IsRanked,
  IsRanked,
}

-- The mutations make no other program than these.
pub data IsCandidate (c : Node) : Type 0 where
  buggy : c ≡ buggy_code → IsCandidate c
  bounds_checked : c ≡ mutate_add_bounds_check buggy_code → IsCandidate c
  null_checked : c ≡ mutate_add_null_check buggy_code → IsCandidate c

-- Every candidate defines `process`, and in none of its tests does the model leave the fragment.
no_test-unsupported :
    (c : Node)
    → IsCandidate c
    → (fn : Node) × (exec_module c "process" ≡ ok fn)
      × All (λ r. r ≢ raised unsupported) (test_results fn)
unfolding exec_module test_results call_by buggy_code mutate_add_bounds_check mutate_add_null_check
    bounds_process null_process buggy_process eval const_value get_item binary unary builtin truthy
    compare_values data_list
no_test-unsupported c (buggy e) = (buggy_process, rw e refl, (cc, (cc, (cc, (cc, tt)))))
no_test-unsupported c (bounds_checked e) = (bounds_process, rw e refl, (cc, (cc, (cc, (cc, tt)))))
no_test-unsupported c (null_checked e) = (null_process, rw e refl, (cc, (cc, (cc, (cc, tt)))))

abbrev Keeps : (Node → Node) → Type 0
Keeps op = (c : Node) → IsCandidate c → IsCandidate (op c)

mutations-Keeps : All Keeps mutations
unfolding mutations mutate_swap_operator mutate_add_bounds_check mutate_add_null_check
mutations-Keeps = (λ c h. bounds_checked refl, (λ c h. null_checked refl, (λ c h. h, tt)))

three_mutations : 0 < length mutations
unfolding mutations
three_mutations = omega arith

module _ (z3 : Solver) (draws : Draws) where
  abbrev pub Grown : Result (List Node × ℕ) → ℕ → Type 0
  Grown m n = (r : List Node × ℕ) × (m ≡ ok r) × All IsCandidate r.0 × (length r.0 ≡ n)

  pub initial_lem :
      (n : ℕ) (population : List Node) (calls : ℕ)
      → All IsCandidate population
      → Grown (initial z3 draws n population calls) (length population + n)
  unfolding initial
  initial_lem zero population calls a = ((population, calls), refl, a, omega arith)
  initial_lem (suc n) population calls a =
      let (op, e, keeps) = choice_lem Keeps draws mutations calls mutations-Keeps three_mutations in
      let more : List Node = op buggy_code ∷ [] in
      let (r, e', a', l) =
        initial_lem n (population ++ more) (suc calls)
          (All-append IsCandidate population more a (keeps buggy_code (buggy refl), tt)) in
      (r, rw e e', a', omega (arith, length-append population more))

  refill_lem :
      (n : ℕ) (survivors population : List Node) (calls : ℕ)
      → All IsCandidate survivors
      → 0 < length survivors
      → All IsCandidate population
      → Grown (refill z3 draws n survivors population calls) (length population + n)
  unfolding refill
  refill_lem zero survivors population calls s p a = ((population, calls), refl, a, omega arith)
  refill_lem (suc n) survivors population calls s p a =
      let (parent, e₁, c) = choice_lem IsCandidate draws survivors calls s p in
      let (op, e₂, keeps) =
        choice_lem Keeps draws mutations (suc calls) mutations-Keeps three_mutations in
      let more : List Node = op parent ∷ [] in
      let (r, e', a', l) =
        refill_lem n survivors (population ++ more) (suc (suc calls)) s p
          (All-append IsCandidate population more a (keeps parent c, tt)) in
      (r, rw (e₁, e₂) e', a', omega (arith, length-append population more))

module _ (z3 : Solver) where
  -- A scored candidate with its own score.
  abbrev pub IsScored : Scored → Type 0
  IsScored p = IsCandidate p.0 × (p.1 ≡ fitness z3 p.0)

  scores-IsScored :
      (population : List Node)
      → All IsCandidate population
      → All IsScored (map (λ c. (c, fitness z3 c)) population)
  scores-IsScored [] a = tt
  scores-IsScored (c ∷ cs) (a, as') = ((a, refl), scores-IsScored cs as')

  candidates :
      (scored : List Scored) → All IsScored scored → All IsCandidate (map (λ (c, _). c) scored)
  candidates [] a = tt
  candidates (p ∷ ps) (a, as') = (a.0, candidates ps as')

module _ (z3 : Solver) (draws : Draws) where
  pub ranked-IsScored :
      (population : List Node)
      → All IsCandidate population
      → All (IsScored z3) (ranked z3 draws population)
  unfolding ranked
  ranked-IsScored population a = All-sort_scored (IsScored z3) _ (scores-IsScored z3 population a)

  length-ranked : (population : List Node) → length (ranked z3 draws population) ≡ length population
  unfolding ranked
  length-ranked population = length-sort_scored _ ∙ length-map (λ c. (c, fitness z3 c)) population

  pub ranked-IsRanked : (population : List Node) → IsRanked (ranked z3 draws population)
  unfolding ranked
  ranked-IsRanked population = sort_scored-IsRanked (map (λ c. (c, fitness z3 c)) population)

  length-survivors_of :
      (n : ℕ) (scored : List Scored)
      → length (survivors_of z3 draws n scored) ≡ min (n / 4) (length scored)
  unfolding survivors_of
  length-survivors_of n scored =
      length-map (λ ((c, _) : Scored). c) (take (n / 4) scored) ∙ length-take (n / 4) scored

  -- The first of the ranking is a candidate with its score, and no candidate has a better one.
  pub top_lem :
      (population : List Node)
      → All IsCandidate population
      → 0 < length population
      → (top : Scored) × (item_at (ranked z3 draws population) 0 ≡ ok top)
        × IsScored z3 top
        × All (λ q. q.1 ≤ top.1) (ranked z3 draws population)
  top_lem population a h =
      first (ranked z3 draws population) (ranked-IsScored population a) (ranked-IsRanked population)
        (omega (arith, length-ranked population))
    where
      first :
          (ps : List Scored)
          → All (IsScored z3) ps
          → IsRanked ps
          → 0 < length ps
          → (top : Scored) × (item_at ps 0 ≡ ok top) × IsScored z3 top × All (λ q. q.1 ≤ top.1) ps
      first [] b r h = absurd (omega arith)
      first (p ∷ ps) (b, bs) (r, rs) h = (p, refl, b, (omega arith, r))

  -- With four candidates or more the next population is made, and is as large.
  pub next_population_lem :
      (n : ℕ) (population : List Node) (calls : ℕ)
      → 4 ≤ n
      → All IsCandidate population
      → length population ≡ n
      → Grown z3 draws (next_population z3 draws n (ranked z3 draws population) calls) n
  unfolding next_population survivors_of
  next_population_lem n population calls h a l =
      let scored = ranked z3 draws population in
      let s : List Node = survivors_of z3 draws n scored in
      let c : All IsCandidate s =
        candidates z3 _ (All-take (IsScored z3) (n / 4) scored (ranked-IsScored population a)) in
      let many : length s ≡ n / 4 =
        omega (arith, length-survivors_of n scored, length-ranked population) in
      let (r, e, a', l') = refill_lem z3 draws (n - length s) s s calls c (omega arith) c in
      (r, e, a', omega arith)
