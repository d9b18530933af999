-- ===== src/Population/Exchanged.antt =====
-- `_swap_operator` and `_swap_comparison` against a map over all the nodes of a tree.
use living_codebase.Prelude.{◌≡◌, ◌∙◌, sym, ap, fun_ext, refl, ℕ, map}
use living_codebase.Python.Syntax.{
  Operator, add, sub, mult, div, CmpOp, lt, gt, lt_e, gt_e, eq, not_eq, Node,
}
use living_codebase.Python.Objects.{Kind}
use living_codebase.Python.Trees.{
  Tree, Trees, tree, no_trees, ◌▸◌, visit_tree, visit_trees, tree_of,
}
use living_codebase.Python.Trees.OfNodes.{visit_tree-visit}
use living_codebase.Mutator.{
  op_swap, comparison_swap, swap_operator, swap_comparison, swap_arith, swap_cmp,
}
use living_codebase.Mutator.Swaps.{swap_operator-swap_operator, swap_comparison-swap_comparison}
use living_codebase.Population.{Rekind, swap_operator_kind, swap_comparison_kind}
use living_codebase.Population.Rewritings.{rekind_rewriting}
use living_codebase.Population.Roots.{op_swap-at_root, comparison_swap-at_root}

module _ (g : Kind → Kind) where
  -- The same tree with other kinds.
  abbrev mutual
    pub map_kinds : Tree → Tree
    map_kinds (tree k ts) = tree (g k) (map_all_kinds ts)

    pub map_all_kinds : Trees → Trees
    map_all_kinds no_trees = no_trees
    map_all_kinds (t ▸ ts) = map_kinds t ▸ map_all_kinds ts

module _ (f : Rekind) (g : Kind → Kind) (same : (k : Kind) (s : ℕ) → f k s ≡ (g k, s)) where
  mutual
    visit_tree-map_kinds :
        (t : Tree) (s : ℕ) → visit_tree (rekind_rewriting f) t s ≡ (map_kinds g t, s)
    visit_tree-map_kinds (tree k ts) s = rw (visit_trees-map_all_kinds ts s, same k s) refl

    visit_trees-map_all_kinds :
        (ts : Trees) (s : ℕ) → visit_trees (rekind_rewriting f) ts s ≡ (map_all_kinds g ts, s)
    visit_trees-map_all_kinds no_trees s = refl
    visit_trees-map_all_kinds (t ▸ ts) s =
        rw (visit_tree-map_kinds t s, visit_trees-map_all_kinds ts s) refl

-- Add and Sub change places, and Mult and Div.
abbrev pub exchange_operator : Kind → Kind
exchange_operator (Kind.bin_op add) = Kind.bin_op sub
exchange_operator (Kind.bin_op sub) = Kind.bin_op add
exchange_operator (Kind.bin_op mult) = Kind.bin_op div
exchange_operator (Kind.bin_op div) = Kind.bin_op mult
exchange_operator k = k

-- Lt and LtE change places, Gt and GtE, and Eq and NotEq.
abbrev pub partner : CmpOp → CmpOp
partner lt = lt_e
partner lt_e = lt
partner gt = gt_e
partner gt_e = gt
partner eq = not_eq
partner not_eq = eq
partner o = o

abbrev pub exchange_comparisons : Kind → Kind
exchange_comparisons (Kind.compare os) = Kind.compare (map partner os)
exchange_comparisons k = k

operator_same : (k : Kind) (s : ℕ) → swap_operator_kind k s ≡ (exchange_operator k, s)
unfolding swap_operator_kind swap_arith
operator_same (Kind.bin_op add) s = refl
operator_same (Kind.bin_op sub) s = refl
operator_same (Kind.bin_op mult) s = refl
operator_same (Kind.bin_op div) s = refl
operator_same (Kind.bin_op (Operator.other o)) s = refl
operator_same k s = refl

partner_same : (o : CmpOp) → swap_cmp o ≡ partner o
unfolding swap_cmp
partner_same lt = refl
partner_same lt_e = refl
partner_same gt = refl
partner_same gt_e = refl
partner_same eq = refl
partner_same not_eq = refl
partner_same o = refl

comparison_same : (k : Kind) (s : ℕ) → swap_comparison_kind k s ≡ (exchange_comparisons k, s)
unfolding swap_comparison_kind
comparison_same (Kind.compare os) s = ap (λ h. (Kind.compare (map h os), s)) (fun_ext partner_same)
comparison_same k s = refl

-- `_swap_operator` makes the operator of every BinOp of the tree, wherever it stands, Sub where it was
-- Add, Add where it was Sub, Div where it was Mult and Mult where it was Div, and changes nothing
-- else; so that doing it twice gives the tree back.
pub swap_operator_lem :
    (t : Node)
    → (tree_of (swap_operator t) ≡ map_kinds exchange_operator (tree_of t))
      × (swap_operator (swap_operator t) ≡ t)
unfolding swap_operator
swap_operator_lem t = (
  ap (λ r. r.0)
      (sym (visit_tree-visit op_swap (rekind_rewriting swap_operator_kind) op_swap-at_root t 0)
        ∙ visit_tree-map_kinds swap_operator_kind exchange_operator operator_same (tree_of t) 0),
  swap_operator-swap_operator t,
)

-- `_swap_comparison` changes, in the operators of every Compare of the tree, wherever it stands, Lt to
-- LtE and LtE to Lt, Gt to GtE and GtE to Gt, Eq to NotEq and NotEq to Eq, and changes nothing else;
-- so that doing it twice gives the tree back.
pub swap_comparison_lem :
    (t : Node)
    → (tree_of (swap_comparison t) ≡ map_kinds exchange_comparisons (tree_of t))
      × (swap_comparison (swap_comparison t) ≡ t)
unfolding swap_comparison
swap_comparison_lem t = (
  ap (λ r. r.0)
      (sym (
          visit_tree-visit comparison_swap (rekind_rewriting swap_comparison_kind)
            comparison_swap-at_root t 0)
        ∙ visit_tree-map_kinds swap_comparison_kind exchange_comparisons comparison_same (tree_of t)
            0),
  swap_comparison-swap_comparison t,
)
