-- ===== src/Mutator/Swaps.antt =====
-- `_swap_operator` and `_swap_comparison`: both only relabel nodes, so two passes fuse into one.
use mathlib.Core.List.{map-map, map-id}
use living_codebase.Prelude.{◌≡◌, refl, ◌∙◌, sym, fun_ext, map}
use living_codebase.Python.Syntax.{
  Operator, add, CmpOp, lt, Node, Nodes, attribute, subscript, bin_op, unary_op, bool_op, compare,
  call, constant, if_exp, name, assign, if_stmt, return_stmt, function_def, arguments, module_node,
  end, ◌⨾◌,
}
use living_codebase.Python.Visitor.{visit, visit_all}
use living_codebase.Mutator.{
  swap_arith, op_swap, swap_cmp, comparison_swap, swap_operator, swap_comparison,
}

-- Both swaps at once: `f` on arithmetic operators and `g` on comparisons.
relabel : (Operator → Operator) → (CmpOp → CmpOp) → Node → Node
relabel f g (bin_op l o r) = bin_op l (f o) r
relabel f g (compare l os rs) = compare l (map g os) rs
relabel f g n = n

module _ (f f' : Operator → Operator) (g g' : CmpOp → CmpOp) where
  mutual
    unfolding visit relabel

    visit-visit :
        (t : Node)
        → visit (relabel f g) (visit (relabel f' g') t)
          ≡ visit (relabel (λ o. f (f' o)) (λ o. g (g' o))) t
    visit-visit (attribute v a c) = rw (visit-visit v)
    visit-visit (subscript v s c) = rw (visit-visit v, visit-visit s)
    visit-visit (bin_op l o r) = rw (visit-visit l, visit-visit r)
    visit-visit (unary_op o e) = rw (visit-visit e)
    visit-visit (bool_op o es) = rw (visit_all-visit_all es)
    visit-visit (compare l os rs) = rw (visit-visit l, visit_all-visit_all rs, map-map g g' os)
    visit-visit (call h args kws) =
        rw (visit-visit h, visit_all-visit_all args, visit_all-visit_all kws)
    visit-visit (constant k) = refl
    visit-visit (if_exp t b o) = rw (visit-visit t, visit-visit b, visit-visit o)
    visit-visit (name x c) = refl
    visit-visit (assign ts v) = rw (visit_all-visit_all ts, visit-visit v)
    visit-visit (if_stmt t b o) = rw (visit-visit t, visit_all-visit_all b, visit_all-visit_all o)
    visit-visit (return_stmt v) = rw (visit-visit v)
    visit-visit (function_def h ps b ds) =
        rw (visit-visit ps, visit_all-visit_all b, visit_all-visit_all ds)
    visit-visit (arguments xs ds) = rw (visit_all-visit_all ds)
    visit-visit (module_node b) = rw (visit_all-visit_all b)
    visit-visit (Node.other k ns) = rw (visit_all-visit_all ns)

    visit_all-visit_all :
        (ts : Nodes)
        → visit_all (relabel f g) (visit_all (relabel f' g') ts)
          ≡ visit_all (relabel (λ o. f (f' o)) (λ o. g (g' o))) ts
    visit_all-visit_all end = refl
    visit_all-visit_all (t ⨾ ts) = rw (visit-visit t, visit_all-visit_all ts)

mutual
  unfolding visit relabel

  visit-relabel_id : (t : Node) → visit (relabel (λ o. o) (λ o. o)) t ≡ t
  visit-relabel_id (attribute v a c) = rw (visit-relabel_id v)
  visit-relabel_id (subscript v s c) = rw (visit-relabel_id v, visit-relabel_id s)
  visit-relabel_id (bin_op l o r) = rw (visit-relabel_id l, visit-relabel_id r)
  visit-relabel_id (unary_op o e) = rw (visit-relabel_id e)
  visit-relabel_id (bool_op o es) = rw (visit_all-relabel_id es)
  visit-relabel_id (compare l os rs) = rw (visit-relabel_id l, visit_all-relabel_id rs, map-id os)
  visit-relabel_id (call h args kws) =
      rw (visit-relabel_id h, visit_all-relabel_id args, visit_all-relabel_id kws)
  visit-relabel_id (constant k) = refl
  visit-relabel_id (if_exp t b o) = rw (visit-relabel_id t, visit-relabel_id b, visit-relabel_id o)
  visit-relabel_id (name x c) = refl
  visit-relabel_id (assign ts v) = rw (visit_all-relabel_id ts, visit-relabel_id v)
  visit-relabel_id (if_stmt t b o) =
      rw (visit-relabel_id t, visit_all-relabel_id b, visit_all-relabel_id o)
  visit-relabel_id (return_stmt v) = rw (visit-relabel_id v)
  visit-relabel_id (function_def h ps b ds) =
      rw (visit-relabel_id ps, visit_all-relabel_id b, visit_all-relabel_id ds)
  visit-relabel_id (arguments xs ds) = rw (visit_all-relabel_id ds)
  visit-relabel_id (module_node b) = rw (visit_all-relabel_id b)
  visit-relabel_id (Node.other k ns) = rw (visit_all-relabel_id ns)

  visit_all-relabel_id : (ts : Nodes) → visit_all (relabel (λ o. o) (λ o. o)) ts ≡ ts
  visit_all-relabel_id end = refl
  visit_all-relabel_id (t ⨾ ts) = rw (visit-relabel_id t, visit_all-relabel_id ts)

op_swap-eq-relabel : op_swap ≡ relabel swap_arith (λ o. o)
unfolding op_swap relabel
op_swap-eq-relabel = fun_ext (elim [ compare l os rs ↦ rw (map-id os) | _ ↦ refl ])

comparison_swap-eq-relabel : comparison_swap ≡ relabel (λ o. o) swap_cmp
unfolding comparison_swap relabel
comparison_swap-eq-relabel = fun_ext (elim [ compare l os rs ↦ refl | _ ↦ refl ])

swap_arith-swap_arith : (o : Operator) → swap_arith (swap_arith o) ≡ o
unfolding swap_arith
swap_arith-swap_arith add = refl
swap_arith-swap_arith _ = refl

swap_cmp-swap_cmp : (o : CmpOp) → swap_cmp (swap_cmp o) ≡ o
unfolding swap_cmp
swap_cmp-swap_cmp lt = refl
swap_cmp-swap_cmp _ = refl

-- Applying `_swap_operator` twice to a tree gives the tree back.
pub swap_operator-swap_operator : (t : Node) → swap_operator (swap_operator t) ≡ t
unfolding swap_operator
swap_operator-swap_operator t =
    rw (op_swap-eq-relabel, visit-visit, fun_ext swap_arith-swap_arith) (visit-relabel_id t)

-- Applying `_swap_comparison` twice to a tree gives the tree back.
pub swap_comparison-swap_comparison : (t : Node) → swap_comparison (swap_comparison t) ≡ t
unfolding swap_comparison
swap_comparison-swap_comparison t =
    rw (comparison_swap-eq-relabel, visit-visit, fun_ext swap_cmp-swap_cmp) (visit-relabel_id t)

-- The swap of the operators and the swap of the comparisons commute, on every tree.
pub swap_operator-swap_comparison :
    (t : Node) → swap_operator (swap_comparison t) ≡ swap_comparison (swap_operator t)
unfolding swap_operator swap_comparison
swap_operator-swap_comparison t =
    rw (op_swap-eq-relabel, comparison_swap-eq-relabel)
      (visit-visit _ _ _ _ t ∙ sym (visit-visit _ _ _ _ t))
