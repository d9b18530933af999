-- ===== src/Population/Mutated.antt =====
-- `mutate` on objects does to a tree without shared nodes what `mutate` of Mutator does.
use living_codebase.Prelude.{
  ◌≡◌, ◌≤◌, ◌<◌, ◌∙◌, sym, ℕ, ◌+◌, String, Option, none, some, arith, refl, str_eq, if◌then◌else◌,
  Bool, true, false,
}
use living_codebase.Python.Syntax.{Node}
use living_codebase.Python.Objects.{
  Address, Memory, Run, ok, recursion_error, M, pure, and_then, visit, deepcopy,
}
use living_codebase.Python.Trees.{size, Fits, Rewriting, visit_tree, tree_of}
use living_codebase.Python.Trees.Held.{Holds, Holds-frame, Holds-Laid}
use living_codebase.Python.Trees.Visited.{Returns, Rewrites, Returns-visit}
use living_codebase.Python.Trees.Copied.{addresses, Distinct, Copied, Copied-copy_object}
use living_codebase.Python.Trees.OfNodes.{visit_tree-visit}
use living_codebase.Python.Trees.OfStates.{visit_tree-visit_state}
use living_codebase.Mutator.{
  null_check, op_swap, bounds_check, early_return, comparison_swap, insert_null_check,
  swap_operator, insert_bounds_check, add_early_return, swap_comparison,
}
use living_codebase.Mutator.Mutate.{Draws, literal_replace, replace_literal, mutate}
use living_codebase.Population.{
  swap_operator_kind, swap_comparison_kind, replace_literal_kind, insert_null_check_at,
  insert_bounds_check_at, add_early_return_at, rekind_at, visit_with, mutate_objects,
}
use living_codebase.Population.Roots.{
  null_check-at_root, bounds_check-at_root, early_return-at_root, op_swap-at_root,
  comparison_swap-at_root, literal_replace-at_root,
}
use living_codebase.Population.Rewritings.{
  null_rewriting, bounds_rewriting, early_return_rewriting, rekind_rewriting,
}
use living_codebase.Population.Rewritten.{
  Rewrites-null_check, Rewrites-bounds_check, Rewrites-early_return, Rewrites-rekind_at,
}

-- A run returns an object that stands for the tree of the node, all of new objects; those that were
-- there are as they were, and `random` was called as often as the second part says.
abbrev pub Mutates : Memory → Node × ℕ → Run Address → Type 0
Mutates m r (ok c m') =
    ((x : ℕ) → x < m.next → m'.objects x ≡ m.objects x)
    × (m'.calls ≡ r.1)
    × Holds (λ x. (m.next ≤ x) × (x < m'.next)) m'.objects c (tree_of r.0)
Mutates m r (recursion_error m') = ⊥

-- The object stands for the tree of the node, no object is shared, and the tree fits the stack.
pub record Stands (stack : ℕ) (a : Address) (m : Memory) (n : Node) : Type 0 where
  pub holds : Holds (λ x. x < m.next) m.objects a (tree_of n)
  pub distinct : Distinct (addresses m.objects a (tree_of n))
  pub fits : Fits stack (tree_of n)

module _ (draws : Draws) (stack a : ℕ) (m : Memory) (n : Node) (stands : Stands stack a m n) where
  pub copies :
      Copied
        (record m { memo = λ x. none })
        (addresses m.objects a (tree_of n))
        (tree_of n)
        (deepcopy stack a m)
  unfolding deepcopy
  copies =
      Copied-copy_object m.next m.objects stack a (tree_of n) (record m { memo = λ x. none })
        stands.fits stands.holds stands.distinct (omega arith, λ x h. refl, λ x h. refl)

  abbrev Right : Node × ℕ → Option (Address → M Address) → Type 0
  Right r o = Mutates m r (and_then (deepcopy stack a m) (visit_with draws stack o))

  visited :
      (r : Node × ℕ) (run : Run Address) (m₁ : Memory) (hi : ℕ)
      → m.next ≤ m₁.next
      → hi ≤ m₁.next
      → ((x : ℕ) → x < m.next → m₁.objects x ≡ m.objects x)
      → Returns m.next hi m₁.next m₁ (tree_of r.0, r.1) run
      → Mutates m r run
  visited r (recursion_error m₂) m₁ hi mono top same absent = absurd absent
  visited r (ok c m₂) m₁ hi mono top same ((mono', same'), calls, h) = (
    λ x i. same' x (omega arith) (ground arith) ∙ same x i,
    calls,
    Holds-frame (λ x i. ground arith) (λ x i. refl) c (tree_of r.0) h,
  )

  Right-some :
      (w : Rewriting) (f : Address → M Address) (r : Node × ℕ)
      → Rewrites w f
      → visit_tree w (tree_of n) m.calls ≡ (tree_of r.0, r.1)
      → Right r (some f)
  Right-some w f r works e = from_copy (deepcopy stack a m) copies
    where
      from_copy :
          (run : Run Address)
          → Copied
              (record m { memo = λ x. none })
              (addresses m.objects a (tree_of n))
              (tree_of n)
              run
          → Mutates m r (and_then run (visit f stack))
      from_copy (recursion_error m₁) absent = absurd absent
      from_copy (ok c m₁) (here, (next, same, calls, memo), laid) = rw here (
          visited r (visit f stack m.next m₁) m₁ (m.next + size (tree_of n)) (omega arith)
            (omega arith) same
            (rw (sym e, sym calls)
              (Returns-visit w f works stack m.next (tree_of n) m₁ stands.fits (omega arith) laid)))

  Right-none : Right (n, m.calls) none
  Right-none = from_copy (deepcopy stack a m) copies
    where
      from_copy :
          (run : Run Address)
          → Copied
              (record m { memo = λ x. none })
              (addresses m.objects a (tree_of n))
              (tree_of n)
              run
          → Mutates m (n, m.calls) (and_then run (λ c. pure c))
      from_copy (recursion_error m₁) absent = absurd absent
      from_copy (ok c m₁) (here, (next, same, calls, memo), laid) =
          rw here
            (same, calls, Holds-Laid m₁.objects m.next (tree_of n) (λ x i j. (i, omega arith)) laid)

  chosen :
      (t : Bool) (f : Address → M Address) (o : Option (Address → M Address)) (r r' : Node × ℕ)
      → Right r (some f)
      → Right r' o
      → Right (if t then r else r') (if t then some f else o)
  chosen true f o r r' h k = h
  chosen false f o r r' h k = k

  -- On a tree whose nodes share no object, and with a stack that is as deep as the tree, `mutate`
  -- on objects does not raise RecursionError, and returns an object that stands for the tree that
  -- `mutate` of Mutator/Mutate gives, made of new objects only; it leaves the objects of the tree as
  -- they were, and calls `random` as often.
  pub mutate_objects_lem :
      (op : String) → Mutates m (mutate draws n op m.calls) (mutate_objects draws stack op a m)
  unfolding mutate_objects mutate insert_null_check insert_bounds_check add_early_return
      swap_operator swap_comparison replace_literal
  mutate_objects_lem op =
      chosen (str_eq op "insert_null_check") _ _ _ _
        (Right-some null_rewriting insert_null_check_at (insert_null_check n, m.calls)
          Rewrites-null_check
          (visit_tree-visit null_check null_rewriting null_check-at_root n m.calls))
        (chosen (str_eq op "swap_operator") _ _ _ _
          (Right-some (rekind_rewriting swap_operator_kind) (rekind_at swap_operator_kind)
            (swap_operator n, m.calls) (Rewrites-rekind_at swap_operator_kind)
            (visit_tree-visit op_swap (rekind_rewriting swap_operator_kind) op_swap-at_root n
              m.calls))
          (chosen (str_eq op "insert_bounds_check") _ _ _ _
            (Right-some bounds_rewriting insert_bounds_check_at (insert_bounds_check n, m.calls)
              Rewrites-bounds_check
              (visit_tree-visit bounds_check bounds_rewriting bounds_check-at_root n m.calls))
            (chosen (str_eq op "add_early_return") _ _ _ _
              (Right-some early_return_rewriting add_early_return_at (add_early_return n, m.calls)
                Rewrites-early_return
                (visit_tree-visit early_return early_return_rewriting early_return-at_root n
                  m.calls))
              (chosen (str_eq op "replace_literal") _ _ _ _
                (Right-some (rekind_rewriting (replace_literal_kind draws))
                  (rekind_at (replace_literal_kind draws)) (replace_literal draws n m.calls)
                  (Rewrites-rekind_at (replace_literal_kind draws))
                  (visit_tree-visit_state (literal_replace draws)
                    (rekind_rewriting (replace_literal_kind draws)) (literal_replace-at_root draws)
                    n m.calls))
                (chosen (str_eq op "swap_comparison") _ none _ _
                  (Right-some (rekind_rewriting swap_comparison_kind)
                    (rekind_at swap_comparison_kind) (swap_comparison n, m.calls)
                    (Rewrites-rekind_at swap_comparison_kind)
                    (visit_tree-visit comparison_swap (rekind_rewriting swap_comparison_kind)
                      comparison_swap-at_root n m.calls))
                  Right-none)))))
