-- ===== src/Mutator/Guarded.antt =====
-- Guards and the targets of assignments: a guard is no target.
use living_codebase.Prelude.{◌≡◌, ◌∙◌, refl, String, Bool, true, false, ◌&&◌, arith}
use living_codebase.Python.Syntax.{
  Ctx, Node, Nodes, attribute, subscript, bin_op, unary_op, bool_op, compare, call, constant,
  if_exp, name, assign, if_stmt, return_stmt, function_def, arguments, module_node, end, ◌⨾◌,
}
use living_codebase.Python.Visitor.{visit, visit_all}
use living_codebase.Python.Targets.{targets_valid, all_valid, is_target, are_targets}
use living_codebase.Mutator.{null_guard, in_bounds, insert_null_check, insert_bounds_check}
use living_codebase.Mutator.Guards.{guards}
use living_codebase.Mutator.NullCheck.{null_check-eq-guards}
use living_codebase.Mutator.BoundsCheck.{bounds_check-eq-guards}

-- No assignment has a target that is guarded: never a subscript, and an attribute only if
-- `attributes` allows it.
module _ (attributes : Bool) where
  pub stays_target : Node → Bool
  stays_target (attribute v a c) = attributes
  stays_target (subscript v s c) = false
  stays_target t = is_target t

  stay_targets : Nodes → Bool
  stay_targets end = true
  stay_targets (t ⨾ ts) = stays_target t && stay_targets ts

  mutual
    pub unguarded_targets : Node → Bool
    unguarded_targets (attribute v a c) = unguarded_targets v
    unguarded_targets (subscript v s c) = unguarded_targets v && unguarded_targets s
    unguarded_targets (bin_op l o r) = unguarded_targets l && unguarded_targets r
    unguarded_targets (unary_op o e) = unguarded_targets e
    unguarded_targets (bool_op o es) = all_unguarded es
    unguarded_targets (compare l os rs) = unguarded_targets l && all_unguarded rs
    unguarded_targets (call f args kws) =
        unguarded_targets f && (all_unguarded args && all_unguarded kws)
    unguarded_targets (constant k) = true
    unguarded_targets (if_exp t b o) =
        unguarded_targets t && (unguarded_targets b && unguarded_targets o)
    unguarded_targets (name x c) = true
    unguarded_targets (assign ts v) = stay_targets ts && (all_unguarded ts && unguarded_targets v)
    unguarded_targets (if_stmt t b o) = unguarded_targets t && (all_unguarded b && all_unguarded o)
    unguarded_targets (return_stmt v) = unguarded_targets v
    unguarded_targets (function_def f ps b ds) =
        unguarded_targets ps && (all_unguarded b && all_unguarded ds)
    unguarded_targets (arguments xs ds) = all_unguarded ds
    unguarded_targets (module_node b) = all_unguarded b
    unguarded_targets (Node.other k ns) = all_unguarded ns

    all_unguarded : Nodes → Bool
    all_unguarded end = true
    all_unguarded (t ⨾ ts) = unguarded_targets t && all_unguarded ts

  stay_targets_lem : (ts : Nodes) → stay_targets ts ≡ true → are_targets ts ≡ true
  unfolding stay_targets stays_target
  stay_targets_lem end h = refl
  stay_targets_lem (t ⨾ ts) h = ground (arith, stay_targets_lem ts)

  module _ (at_attr : Node → String → Ctx → Node) (at_item : Node → Node → Ctx → Node)
      (attr_valid : (v : Node) (a : String) (c : Ctx)
        → targets_valid (at_attr v a c) ≡ targets_valid v)
      (item_valid : (v s : Node) (c : Ctx)
        → targets_valid (at_item v s c) ≡ (targets_valid v && targets_valid s))
      (attr_target : (v : Node) (a : String) (c : Ctx) → is_target (at_attr v a c) ≡ attributes)
      (item_target : (v s : Node) (c : Ctx) → is_target (at_item v s c) ≡ false) where
    abbrev guarded : Node → Node
    guarded = visit (guards at_attr at_item)

    abbrev all_guarded : Nodes → Nodes
    all_guarded = visit_all (guards at_attr at_item)

    is_target-guarded : (t : Node) → is_target (guarded t) ≡ stays_target t
    unfolding visit guards stays_target
    is_target-guarded (attribute v a c) = attr_target _ a c
    is_target-guarded (subscript v s c) = item_target _ _ c
    is_target-guarded _ = refl

    are_targets-guarded : (ts : Nodes) → are_targets (all_guarded ts) ≡ stay_targets ts
    unfolding visit stay_targets
    are_targets-guarded end = refl
    are_targets-guarded (t ⨾ ts) = rw (is_target-guarded t, are_targets-guarded ts)

    mutual
      unfolding targets_valid visit guards unguarded_targets

      targets_valid-guarded :
          (t : Node) → targets_valid (guarded t) ≡ (targets_valid t && unguarded_targets t)
      targets_valid-guarded (attribute v a c) = attr_valid _ a c ∙ targets_valid-guarded v
      targets_valid-guarded (subscript v s c) =
          item_valid _ _ c ∙ ground (arith, targets_valid-guarded v, targets_valid-guarded s)
      targets_valid-guarded (bin_op l o r) =
          ground (arith, targets_valid-guarded l, targets_valid-guarded r)
      targets_valid-guarded (unary_op o e) = targets_valid-guarded e
      targets_valid-guarded (bool_op o es) = all_valid-guarded es
      targets_valid-guarded (compare l os rs) =
          ground (arith, targets_valid-guarded l, all_valid-guarded rs)
      targets_valid-guarded (call f args kws) =
          ground (arith, targets_valid-guarded f, all_valid-guarded args, all_valid-guarded kws)
      targets_valid-guarded (constant k) = refl
      targets_valid-guarded (if_exp t b o) =
          ground (arith, targets_valid-guarded t, targets_valid-guarded b, targets_valid-guarded o)
      targets_valid-guarded (name x c) = refl
      targets_valid-guarded (assign ts v) = ground (
        arith,
        are_targets-guarded ts,
        stay_targets_lem ts,
        all_valid-guarded ts,
        targets_valid-guarded v,
      )
      targets_valid-guarded (if_stmt t b o) =
          ground (arith, targets_valid-guarded t, all_valid-guarded b, all_valid-guarded o)
      targets_valid-guarded (return_stmt v) = targets_valid-guarded v
      targets_valid-guarded (function_def f ps b ds) =
          ground (arith, targets_valid-guarded ps, all_valid-guarded b, all_valid-guarded ds)
      targets_valid-guarded (arguments xs ds) = all_valid-guarded ds
      targets_valid-guarded (module_node b) = all_valid-guarded b
      targets_valid-guarded (Node.other k ns) = all_valid-guarded ns

      all_valid-guarded :
          (ts : Nodes) → all_valid (all_guarded ts) ≡ (all_valid ts && all_unguarded ts)
      all_valid-guarded end = refl
      all_valid-guarded (t ⨾ ts) = ground (arith, targets_valid-guarded t, all_valid-guarded ts)

targets_valid-null_guard :
    (v n : Node) → targets_valid (null_guard v n) ≡ (targets_valid v && targets_valid n)
unfolding null_guard targets_valid
targets_valid-null_guard v n = ground arith

-- With null checks inserted the assignments of a tree have targets if and only if they did before
-- and none is an attribute or a subscript. Targets that are tuples or lists are not looked into.
pub insert_null_check-targets_valid :
    (t : Node)
    → targets_valid (insert_null_check t) ≡ (targets_valid t && unguarded_targets false t)
unfolding insert_null_check targets_valid
insert_null_check-targets_valid t = rw null_check-eq-guards (
    targets_valid-guarded false _ _
      (λ v a c. targets_valid-null_guard v (attribute v a c) ∙ ground arith)
      (λ v s c. targets_valid-null_guard v (subscript v s c) ∙ ground arith) (λ v a c. refl)
      (λ v s c. refl) t)

-- With bounds checks inserted the assignments of a tree have targets if and only if they did before
-- and none is a subscript. Targets that are tuples or lists are not looked into.
pub insert_bounds_check-targets_valid :
    (t : Node)
    → targets_valid (insert_bounds_check t) ≡ (targets_valid t && unguarded_targets true t)
unfolding insert_bounds_check targets_valid in_bounds
insert_bounds_check-targets_valid t = rw bounds_check-eq-guards (
    targets_valid-guarded true _ _ (λ v a c. refl) (λ v s c. ground arith) (λ v a c. refl)
      (λ v s c. refl) t)
