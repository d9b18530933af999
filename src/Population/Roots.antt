-- ===== src/Population/Roots.antt =====
-- The methods of the transformers, on the trees of nodes, are those of Mutator.
use living_codebase.Prelude.{◌≡◌, ℕ, Option, none, some, refl}
use living_codebase.Prelude.Int.{ℤ}
use living_codebase.Python.Syntax.{
  Node, attribute, subscript, bin_op, compare, constant, function_def, Constant,
}
use living_codebase.Python.Trees.{Tree, tree, no_trees, tree_of}
use living_codebase.Python.Trees.Parts.{at_root}
use living_codebase.Mutator.{
  null_check, op_swap, bounds_check, early_return, comparison_swap, null_guard, in_bounds,
  data_guard,
}
use living_codebase.Mutator.Mutate.{Draws, int_literal, redraw, literal_replace}
use living_codebase.Population.{
  swap_operator_kind, swap_comparison_kind, redraw_kind, replace_literal_kind,
}
use living_codebase.Population.Rewritings.{
  null_rewriting, bounds_rewriting, early_return_rewriting, rekind_rewriting,
}

pub null_check-at_root :
    (n : Node) (s : ℕ) → at_root null_rewriting (tree_of n) s ≡ (tree_of (null_check n), s)
unfolding null_check null_guard
null_check-at_root (attribute v a c) s = refl
null_check-at_root (subscript v i c) s = refl
null_check-at_root n s = refl

pub bounds_check-at_root :
    (n : Node) (s : ℕ) → at_root bounds_rewriting (tree_of n) s ≡ (tree_of (bounds_check n), s)
unfolding bounds_check in_bounds
bounds_check-at_root (subscript v i c) s = refl
bounds_check-at_root n s = refl

pub early_return-at_root :
    (n : Node) (s : ℕ)
    → at_root early_return_rewriting (tree_of n) s ≡ (tree_of (early_return n), s)
unfolding early_return data_guard
early_return-at_root (function_def f ps b ds) s = refl
early_return-at_root n s = refl

pub op_swap-at_root :
    (n : Node) (s : ℕ)
    → at_root (rekind_rewriting swap_operator_kind) (tree_of n) s ≡ (tree_of (op_swap n), s)
unfolding op_swap swap_operator_kind
op_swap-at_root (bin_op l o r) s = refl
op_swap-at_root n s = refl

pub comparison_swap-at_root :
    (n : Node) (s : ℕ)
    → at_root (rekind_rewriting swap_comparison_kind) (tree_of n) s
      ≡ (tree_of (comparison_swap n), s)
unfolding comparison_swap swap_comparison_kind
comparison_swap-at_root (compare l os rs) s = refl
comparison_swap-at_root n s = refl

module _ (draws : Draws) where
  redraw-at_root :
      (o : Option ℤ) (k : Constant) (s : ℕ)
      → ◌≡◌ {A = Tree × ℕ}
          (tree (redraw_kind draws o k s).0 no_trees, (redraw_kind draws o k s).1)
          (tree_of (redraw draws o k s).0, (redraw draws o k s).1)
  redraw-at_root none k s = refl
  redraw-at_root (some v) k s = refl

  pub literal_replace-at_root :
      (n : Node) (s : ℕ)
      → at_root (rekind_rewriting (replace_literal_kind draws)) (tree_of n) s
        ≡ (tree_of (literal_replace draws n s).0, (literal_replace draws n s).1)
  unfolding literal_replace replace_literal_kind
  literal_replace-at_root (constant k) s = redraw-at_root (int_literal k) k s
  literal_replace-at_root n s = refl
