-- ===== src/Engine/Programs.antt =====
-- The program texts of healing/patch_engine.py, as `ast.parse` reads them, and `MUTATIONS`.
pub mod Process
pub mod Guarded
use living_codebase.Prelude.{ℕ, String, List, [], ◌∷◌}
use living_codebase.Prelude.Int.{pos}
use living_codebase.Python.Syntax.{
  load, store, sub, div, eq, not_eq, is, or, UnaryOp, Constant, Node, Nodes, subscript, bin_op,
  unary_op, bool_op, compare, call, constant, if_exp, name, assign, if_stmt, return_stmt,
  function_def, arguments, module_node, end, ◌⨾◌,
}

abbrev int : ℕ → Node
int n = constant (Constant.int (pos n))

abbrev var : String → Node
var x = name x load

abbrev set : String → Node → Node
set x e = assign (name x store ⨾ end) e

abbrev len_data : Node
len_data = call (var "len") (var "data" ⨾ end) end

-- `def process(data, index): …`
abbrev process : Nodes → Node
process body = function_def "process" (arguments ("data" ∷ "index" ∷ []) end) body end

-- The function of `BUGGY_CODE`.
unfoldable pub buggy_process : Node
buggy_process = process (
    set "result" (subscript (var "data") (var "index") load)
    ⨾ set "value" (bin_op (var "result") div len_data)
    ⨾ return_stmt (var "value")
    ⨾ end)

-- The function that `mutate_add_bounds_check` parses.
unfoldable pub bounds_process : Node
bounds_process = process (
    if_stmt (unary_op UnaryOp.not (var "data")) (return_stmt (int 0) ⨾ end) end
    ⨾ set "index" (
        call (var "max")
          (int 0 ⨾ call (var "min") (var "index" ⨾ bin_op len_data sub (int 1) ⨾ end) end ⨾ end)
          end)
    ⨾ set "result" (subscript (var "data") (var "index") load)
    ⨾ set "value" (
        if_exp (compare len_data (not_eq ∷ []) (int 0 ⨾ end)) (bin_op (var "result") div len_data)
          (int 0))
    ⨾ return_stmt (var "value")
    ⨾ end)

-- The function that `mutate_add_null_check` parses.
unfoldable pub null_process : Node
null_process = process (
    if_stmt
      (bool_op or (
        compare (var "data") (is ∷ []) (constant Constant.none ⨾ end)
        ⨾ compare len_data (eq ∷ []) (int 0 ⨾ end)
        ⨾ end))
      (return_stmt (int 0) ⨾ end) end
    ⨾ set "result" (subscript (var "data") (var "index") load)
    ⨾ set "value" (bin_op (var "result") div len_data)
    ⨾ return_stmt (var "value")
    ⨾ end)

-- `ast.parse(BUGGY_CODE)`
unfoldable pub buggy_code : Node
unfolding buggy_process
buggy_code = module_node (buggy_process ⨾ end)

unfoldable pub mutate_add_bounds_check : Node → Node
unfolding bounds_process
mutate_add_bounds_check tree = module_node (bounds_process ⨾ end)

unfoldable pub mutate_add_null_check : Node → Node
unfolding null_process
mutate_add_null_check tree = module_node (null_process ⨾ end)

-- "random operator tweak": the copy of the tree
unfoldable pub mutate_swap_operator : Node → Node
mutate_swap_operator tree = tree
