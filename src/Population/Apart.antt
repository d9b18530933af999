-- ===== src/Population/Apart.antt =====
-- The candidates of a population share no object, with each other or with the original tree.
use living_codebase.Prelude.{
  ◌≡◌, ◌≤◌, ◌<◌, ◌∙◌, ap, ℕ, zero, suc, ◌+◌, ◌%◌, String, Option, none, some, List, [], ◌∷◌, All,
  length, arith, refl, str_eq, if◌then◌else◌, Bool, true, false,
}
use living_codebase.Python.Objects.{
  Address, Memory, Run, ok, recursion_error, M, pure, and_then, ◌>>=◌, deepcopy,
}
use living_codebase.Python.Objects.Frame.{Within, IsOwn, Same, Keeps, Keeps-and_then, Keeps-visit}
use living_codebase.Python.Objects.Copies.{Keeps-deepcopy}
use living_codebase.Mutator.Mutate.{Draws, mutation_ops}
use living_codebase.Population.{
  swap_operator_kind, swap_comparison_kind, replace_literal_kind, rewrite_of, visit_with,
  mutate_objects, nth_or, without, sample, mutate_each, new_candidate, generate_population,
}
use living_codebase.Population.Frame.{
  InPlace, Gives, insert_null_check_at-InPlace, insert_bounds_check_at-InPlace,
  add_early_return_at-InPlace, rekind_at-InPlace,
}

-- The objects from `lo` up to `hi` refer only to each other.
abbrev pub Closed : ℕ → ℕ → Memory → Type 0
Closed lo hi m = (x : ℕ) → lo ≤ x → x < hi → All (λ c. (lo ≤ c) × (c < hi)) (m.objects x).children

-- Each candidate has its own range of addresses, from `lo` on.
abbrev pub IsApart : Memory → ℕ → List Address → Type 0
IsApart m lo [] = Unit
IsApart m lo (c ∷ cs) = (hi : ℕ) × (lo ≤ c) × (c < hi) × Closed lo hi m × IsApart m hi cs

-- The objects that were there are as they were, and the candidates stand apart above them.
abbrev pub Populates : Memory → ℕ → Run (List Address) → Type 0
Populates m size (ok cs m') = Same m.next m m' × (length cs ≡ size) × IsApart m' m.next cs
Populates m size (recursion_error m') = Same m.next m m'

module _ (draws : Draws) (stack : ℕ) where
  module _ (b : ℕ) where
    AllInPlace : Option (Address → M Address) → Type 0
    AllInPlace none = Unit
    AllInPlace (some f) = InPlace b f

    named :
        (t : Bool) (f : Address → M Address) (o : Option (Address → M Address))
        → InPlace b f
        → AllInPlace o
        → AllInPlace (if t then some f else o)
    unfolding AllInPlace
    named true f o h k = h
    named false f o h k = k

    rewrite_of-AllInPlace : (op : String) → AllInPlace (rewrite_of draws op)
    unfolding AllInPlace
    rewrite_of-AllInPlace op =
        named (str_eq op "insert_null_check") _ _ (insert_null_check_at-InPlace b) (
          named (str_eq op "swap_operator") _ _ (rekind_at-InPlace b swap_operator_kind) (
            named (str_eq op "insert_bounds_check") _ _ (insert_bounds_check_at-InPlace b) (
              named (str_eq op "add_early_return") _ _ (add_early_return_at-InPlace b) (
                named (str_eq op "replace_literal") _ _
                  (rekind_at-InPlace b (replace_literal_kind draws))
                  (named (str_eq op "swap_comparison") _ none
                    (rekind_at-InPlace b swap_comparison_kind) tt)))))

    visit_with-Gives :
        (o : Option (Address → M Address)) (a : ℕ) (m : Memory)
        → AllInPlace o
        → IsOwn b m
        → Within b m a
        → Gives b m (visit_with draws stack o a m)
    unfolding AllInPlace
    visit_with-Gives none a m h own w = (λ x h. refl, omega arith, own, w)
    visit_with-Gives (some f) a m h own w = Keeps-visit b f h stack a m own w

    mutate_objects-Gives :
        (op : String) (a : ℕ) (m : Memory)
        → IsOwn b m
        → Gives b m (mutate_objects draws stack op a m)
    unfolding mutate_objects
    mutate_objects-Gives op a m own =
        Keeps-and_then b m (λ c m'. Within b m' c) (λ c m'. Within b m' c) (deepcopy stack a m)
          (visit_with draws stack (rewrite_of draws op))
          (Keeps-deepcopy b stack a m own.base own.closed)
          λ c m' mono own' w.
            visit_with-Gives (rewrite_of draws op) c m' (rewrite_of-AllInPlace op) own' w

    mutate_each-Gives :
        (ops : List String) (a : ℕ) (m : Memory)
        → IsOwn b m
        → Within b m a
        → Gives b m (mutate_each draws stack ops a m)
    unfolding mutate_each
    mutate_each-Gives [] a m own w = (λ x h. refl, omega arith, own, w)
    mutate_each-Gives (op ∷ ops) a m own w =
        Keeps-and_then b m (λ c m'. Within b m' c) (λ c m'. Within b m' c)
          (mutate_objects draws stack op a m) (mutate_each draws stack ops)
          (mutate_objects-Gives op a m own) λ c m' mono own' w'. mutate_each-Gives ops c m' own' w'

  -- A sample changes nothing but the count of the calls.
  sample_lem :
      (k : ℕ) (ops : List String) (m : Memory)
      → (chosen : List String) × (calls : ℕ) × (sample draws k ops m
          ≡ ok chosen (record m { calls = calls }))
  unfolding sample
  sample_lem zero ops m = ([], m.calls, refl)
  sample_lem (suc k) ops m =
      let i : ℕ = draws m.calls % length ops in
      let (rest, calls, e) = sample_lem k (without i ops) (record m { calls = suc m.calls }) in
      (nth_or i "" ops ∷ rest, calls, rw e)

  new_candidate-Gives : (a : ℕ) (m : Memory) → Gives m.next m (new_candidate draws stack a m)
  unfolding new_candidate
  new_candidate-Gives a m =
      let k : ℕ = draws m.calls % 2 in
      let (ops, calls, e) = sample_lem (1 + k) mutation_ops (record m { calls = suc m.calls }) in
      rw (e, Keeps)
        (Keeps-and_then m.next m (λ c m'. Within m.next m' c) (λ c m'. Within m.next m' c)
          (deepcopy stack a (record m { calls = calls })) (mutate_each draws stack ops)
          (Keeps-deepcopy m.next stack a (record m { calls = calls }) (omega arith)
            (λ x h k. absurd (omega arith)))
          λ c m' mono own w. mutate_each-Gives m.next ops c m' own w)

  -- A later run that leaves the candidate alone leaves it closed.
  Closed-later : (lo : ℕ) (m m' : Memory) → IsOwn lo m → Same m.next m m' → Closed lo m.next m'
  Closed-later lo m m' own same x h k = rw (same x k) (own.closed x h k)

  -- Whatever the draws of `random`, `generate_population` leaves every object that was there as it
  -- was, the original tree with them, also when it ends in RecursionError; and if it returns, then it
  -- returns `size` candidates, each among new objects of its own that refer only to each other: no
  -- candidate shares an object with another one or with the original tree.
  pub generate_population_apart :
      (size a : ℕ) (m : Memory) → Populates m size (generate_population draws stack size a m)
  unfolding generate_population
  generate_population_apart zero a m = (λ x h. refl, refl, tt)
  generate_population_apart (suc size) a m =
      first (new_candidate draws stack a m) (new_candidate-Gives a m)
        (generate_population_apart size a)
    where
      rest : Address → M (List Address)
      rest c = generate_population draws stack size a >>= λ cs. pure (c ∷ cs)

      more :
          (c : Address) (m₁ : Memory) (r : Run (List Address))
          → Gives m.next m (ok c m₁)
          → Populates m₁ size r
          → Populates m (suc size) (and_then r λ cs. pure (c ∷ cs))
      more c m₁ (ok cs m₂) (same, mono, own, (lo, hi)) (same', len, apart) = (
        λ x h. same' x (omega arith) ∙ same x h,
        ap suc len,
        (m₁.next, lo, hi, Closed-later m.next m₁ m₂ own same', apart),
      )
      more c m₁ (recursion_error m₂) (same, mono, own, w) same' =
          λ x h. same' x (omega arith) ∙ same x h

      first :
          (r : Run Address)
          → Gives m.next m r
          → ((m₁ : Memory) → Populates m₁ size (generate_population draws stack size a m₁))
          → Populates m (suc size) (and_then r rest)
      first (ok c m₁) given others =
          more c m₁ (generate_population draws stack size a m₁) given (others m₁)
      first (recursion_error m₁) same others = same
