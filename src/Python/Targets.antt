-- ===== src/Python/Targets.antt =====
-- Whether each assignment statement of a tree (`Assign`) has targets, as Python's grammar demands.
-- This is one condition for a program among many: augmented and annotated assignments, `for`,
-- `with`, `del`, `global` and all else that `compile` refuses are not looked at.
use living_codebase.Prelude.{Bool, true, false, ◌&&◌}
use living_codebase.Python.Syntax.{
  Node, Nodes, attribute, subscript, bin_op, unary_op, bool_op, compare, call, constant, if_exp,
  name, assign, if_stmt, return_stmt, function_def, arguments, module_node, end, ◌⨾◌,
}

-- Names, attributes, subscripts, and the tuples, lists and starred targets among the others.
abbrev pub is_target : Node → Bool
is_target (attribute v a c) = true
is_target (subscript v s c) = true
is_target (name x c) = true
is_target (Node.other k ns) = true
is_target _ = false

abbrev pub are_targets : Nodes → Bool
are_targets end = true
are_targets (t ⨾ ts) = is_target t && are_targets ts

unfoldable mutual
  pub targets_valid : Node → Bool
  targets_valid (attribute v a c) = targets_valid v
  targets_valid (subscript v s c) = targets_valid v && targets_valid s
  targets_valid (bin_op l o r) = targets_valid l && targets_valid r
  targets_valid (unary_op o e) = targets_valid e
  targets_valid (bool_op o es) = all_valid es
  targets_valid (compare l os rs) = targets_valid l && all_valid rs
  targets_valid (call f args kws) = targets_valid f && (all_valid args && all_valid kws)
  targets_valid (constant k) = true
  targets_valid (if_exp t b o) = targets_valid t && (targets_valid b && targets_valid o)
  targets_valid (name x c) = true
  targets_valid (assign ts v) = are_targets ts && (all_valid ts && targets_valid v)
  targets_valid (if_stmt t b o) = targets_valid t && (all_valid b && all_valid o)
  targets_valid (return_stmt v) = targets_valid v
  targets_valid (function_def f ps b ds) = targets_valid ps && (all_valid b && all_valid ds)
  targets_valid (arguments xs ds) = all_valid ds
  targets_valid (module_node b) = all_valid b
  targets_valid (Node.other k ns) = all_valid ns

  pub all_valid : Nodes → Bool
  all_valid end = true
  all_valid (n ⨾ ns) = targets_valid n && all_valid ns
