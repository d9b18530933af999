-- ===== src/Mutator.antt =====
-- healing/mutator.py: the transformers of `ASTMutator`, each as its rewriting of one node, and
-- `mutate`. A tree that `ast.parse` returns holds each node once, so a pure function stands for the
-- rewriting in place.
pub mod Swaps
pub mod Guards
pub mod NullCheck
pub mod Mutate
pub mod EarlyReturn
pub mod BoundsCheck
pub mod Functions
pub mod Kept
pub mod Guarded
use living_codebase.Prelude.{String, map, ◌∷◌, []}
use living_codebase.Prelude.Int.{pos, negsuc}
use living_codebase.Python.Syntax.{
  load, Operator, add, sub, mult, div, CmpOp, lt, gt, lt_e, gt_e, eq, not_eq, is, is_not, Constant,
  BoolOp, Node, attribute, subscript, bin_op, bool_op, compare, call, constant, if_exp, name,
  if_stmt, return_stmt, function_def, end, ◌⨾◌,
}
use living_codebase.Python.Visitor.{visit}

-- `ast.Constant(None)`, `ast.Constant(0)` and `ast.Name(id=x, ctx=ast.Load())`
abbrev pub none_node : Node
none_node = constant Constant.none

abbrev pub zero_node : Node
zero_node = constant (Constant.int (pos 0))

abbrev pub load_name : String → Node
load_name x = name x load

-- `if value is not None else 0` around a node
unfoldable pub null_guard : Node → Node → Node
null_guard value node = if_exp (compare value (is_not ∷ []) (none_node ⨾ end)) node zero_node

-- `NullCheckInserter`
unfoldable pub null_check : Node → Node
unfolding null_guard
null_check (attribute v a c) = null_guard v (attribute v a c)
null_check (subscript v s c) = null_guard v (subscript v s c)
null_check n = n

-- `swap_map` of `_swap_operator`; an operator that it lacks stays.
unfoldable pub swap_arith : Operator → Operator
swap_arith add = sub
swap_arith sub = add
swap_arith mult = div
swap_arith div = mult
swap_arith (Operator.other k) = Operator.other k

-- `OpSwapper`
unfoldable pub op_swap : Node → Node
unfolding swap_arith
op_swap (bin_op l o r) = bin_op l (swap_arith o) r
op_swap n = n

-- `len(array) > idx and idx >= 0`
unfoldable pub in_bounds : Node → Node → Node
in_bounds value index = bool_op BoolOp.and (
    compare (call (load_name "len") (value ⨾ end) end) (gt ∷ []) (index ⨾ end)
    ⨾ compare index (gt_e ∷ []) (zero_node ⨾ end)
    ⨾ end)

-- `BoundsCheckInserter`
unfoldable pub bounds_check : Node → Node
unfolding in_bounds
bounds_check (subscript v s c) = if_exp (in_bounds v s) (subscript v s c) zero_node
bounds_check n = n

-- `if data is None: return -1`
unfoldable pub data_guard : Node
data_guard =
    if_stmt (compare (load_name "data") (is ∷ []) (none_node ⨾ end))
      (return_stmt (constant (Constant.int (negsuc 0))) ⨾ end) end

-- `EarlyReturnAdder`
unfoldable pub early_return : Node → Node
unfolding data_guard
early_return (function_def f ps body ds) = function_def f ps (data_guard ⨾ body) ds
early_return n = n

-- `swap_map` of `_swap_comparison`
unfoldable pub swap_cmp : CmpOp → CmpOp
swap_cmp lt = lt_e
swap_cmp gt = gt_e
swap_cmp lt_e = lt
swap_cmp gt_e = gt
swap_cmp eq = not_eq
swap_cmp not_eq = eq
swap_cmp is = is
swap_cmp is_not = is_not
swap_cmp (CmpOp.other k) = CmpOp.other k

-- `ComparisonSwapper`
unfoldable pub comparison_swap : Node → Node
unfolding swap_cmp
comparison_swap (compare l os rs) = compare l (map swap_cmp os) rs
comparison_swap n = n

unfoldable pub insert_null_check : Node → Node
unfolding null_check visit
insert_null_check = visit null_check

unfoldable pub swap_operator : Node → Node
unfolding op_swap visit
swap_operator = visit op_swap

unfoldable pub insert_bounds_check : Node → Node
unfolding bounds_check visit
insert_bounds_check = visit bounds_check

unfoldable pub add_early_return : Node → Node
unfolding early_return visit
add_early_return = visit early_return

unfoldable pub swap_comparison : Node → Node
unfolding comparison_swap visit
swap_comparison = visit comparison_swap
