-- ===== src/Mutator/Mutate/Targets.antt =====
-- Which mutations leave the assignments of a tree their targets.
use living_codebase.Prelude.{
  ◌≡◌, ◌∙◌, refl, ℕ, String, Bool, true, false, ◌&&◌, Option, none, some, str_eq, if◌then◌else◌,
  arith,
}
use living_codebase.Prelude.Int.{ℤ}
use living_codebase.Python.Syntax.{Node, bin_op, compare, constant, Constant, function_def}
use living_codebase.Python.Targets.{targets_valid, is_target}
use living_codebase.Mutator.{
  op_swap, comparison_swap, early_return, data_guard, swap_operator, swap_comparison,
  add_early_return, insert_null_check, insert_bounds_check,
}
use living_codebase.Mutator.Guarded.{
  unguarded_targets, insert_null_check-targets_valid, insert_bounds_check-targets_valid,
}
use living_codebase.Mutator.Mutate.{
  Draws, int_literal, redraw, literal_replace, replace_literal, mutate,
}
use living_codebase.Python.TargetVisits.{targets_valid-visit}
use living_codebase.Python.TargetStates.{targets_valid-visit_state}

targets_valid-op_swap : (n : Node) → targets_valid (op_swap n) ≡ targets_valid n
unfolding op_swap targets_valid
targets_valid-op_swap (bin_op l o r) = refl
targets_valid-op_swap n = refl

is_target-op_swap : (n : Node) → is_target (op_swap n) ≡ is_target n
unfolding op_swap
is_target-op_swap (bin_op l o r) = refl
is_target-op_swap n = refl

targets_valid-comparison_swap : (n : Node) → targets_valid (comparison_swap n) ≡ targets_valid n
unfolding comparison_swap targets_valid
targets_valid-comparison_swap (compare l os rs) = refl
targets_valid-comparison_swap n = refl

is_target-comparison_swap : (n : Node) → is_target (comparison_swap n) ≡ is_target n
unfolding comparison_swap
is_target-comparison_swap (compare l os rs) = refl
is_target-comparison_swap n = refl

targets_valid-early_return : (n : Node) → targets_valid (early_return n) ≡ targets_valid n
unfolding early_return data_guard targets_valid
targets_valid-early_return (function_def g ps b ds) = refl
targets_valid-early_return n = refl

is_target-early_return : (n : Node) → is_target (early_return n) ≡ is_target n
unfolding early_return
is_target-early_return (function_def g ps b ds) = refl
is_target-early_return n = refl

-- What an operation asks for besides valid targets.
abbrev pub keeps_targets : String → Node → Bool
keeps_targets op n =
    if str_eq op "insert_null_check"
    then unguarded_targets false n
    else if str_eq op "swap_operator"
    then true
    else if str_eq op "insert_bounds_check"
    then unguarded_targets true n
    else true

module _ (draws : Draws) where
  targets_valid-redraw :
      (o : Option ℤ) (k : Constant) (s : ℕ) → targets_valid (redraw draws o k s).0 ≡ true
  unfolding targets_valid
  targets_valid-redraw none k s = refl
  targets_valid-redraw (some v) k s = refl

  is_target-redraw :
      (o : Option ℤ) (k : Constant) (s : ℕ) → is_target (redraw draws o k s).0 ≡ false
  is_target-redraw none k s = refl
  is_target-redraw (some v) k s = refl

  targets_valid-literal_replace :
      (n : Node) (s : ℕ) → targets_valid (literal_replace draws n s).0 ≡ targets_valid n
  unfolding literal_replace targets_valid
  targets_valid-literal_replace (constant k) s = targets_valid-redraw (int_literal k) k s
  targets_valid-literal_replace n s = refl

  is_target-literal_replace :
      (n : Node) (s : ℕ) → is_target (literal_replace draws n s).0 ≡ is_target n
  unfolding literal_replace
  is_target-literal_replace (constant k) s = is_target-redraw (int_literal k) k s
  is_target-literal_replace n s = refl

  -- After a mutation each target of each assignment statement is a name, an attribute, a subscript
  -- or a node of a kind that Python/Syntax does not describe (a tuple, say, which is not looked
  -- into), if and only if this was so before and, for insert_null_check, no target is an attribute or
  -- a subscript, or, for insert_bounds_check, none is a subscript; the other operations, and unknown
  -- ones, ask for no more. Augmented and annotated assignments are no assignment statements here.
  pub mutate-targets_valid :
      (n : Node) (op : String) (calls : ℕ)
      → targets_valid (mutate draws n op calls).0 ≡ (targets_valid n && keeps_targets op n)
  unfolding mutate swap_operator swap_comparison add_early_return replace_literal
  mutate-targets_valid n op calls =
      either (str_eq op "insert_null_check") (insert_null_check n, calls) _ _ _
        (insert_null_check-targets_valid n)
        (either (str_eq op "swap_operator") (swap_operator n, calls) _ true _
          (targets_valid-visit op_swap targets_valid-op_swap is_target-op_swap n ∙ and_true)
          (either (str_eq op "insert_bounds_check") (insert_bounds_check n, calls) _ _ true
            (insert_bounds_check-targets_valid n) (others ∙ and_true)))
    where
      and_true : targets_valid n ≡ (targets_valid n && true)
      and_true = ground arith

      either :
          (t : Bool) (r r' : Node × ℕ) (c c' : Bool)
          → targets_valid r.0 ≡ (targets_valid n && c)
          → targets_valid r'.0 ≡ (targets_valid n && c')
          → targets_valid (if t then r else r').0 ≡ (targets_valid n && (if t then c else c'))
      either true r r' c c' h k = h
      either false r r' c c' h k = k

      or_else :
          (t : Bool) (r r' : Node × ℕ)
          → targets_valid r.0 ≡ targets_valid n
          → targets_valid r'.0 ≡ targets_valid n
          → targets_valid (if t then r else r').0 ≡ targets_valid n
      or_else true r r' h k = h
      or_else false r r' h k = k

      others :
          targets_valid
            (if str_eq op "add_early_return"
              then (add_early_return n, calls)
              else if str_eq op "replace_literal"
              then replace_literal draws n calls
              else if str_eq op "swap_comparison"
              then (swap_comparison n, calls)
              else (n, calls)).0
          ≡ targets_valid n
      others =
          or_else (str_eq op "add_early_return") (add_early_return n, calls) _
            (targets_valid-visit early_return targets_valid-early_return is_target-early_return n)
            (or_else (str_eq op "replace_literal") (replace_literal draws n calls) _
              (targets_valid-visit_state (literal_replace draws) targets_valid-literal_replace
                is_target-literal_replace n calls)
              (or_else (str_eq op "swap_comparison") (swap_comparison n, calls) (n, calls)
                (targets_valid-visit comparison_swap targets_valid-comparison_swap
                  is_target-comparison_swap n)
                refl))
