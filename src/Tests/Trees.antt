-- ===== src/Tests/Trees.antt =====
-- The transformers and the versions of `process` at small trees and lists.
use living_codebase.Prelude.{◌≡◌, ◌+◌, refl, ℕ, List, [], ◌∷◌, length}
use living_codebase.Prelude.Int.{ℤ, pos, negsuc}
use living_codebase.Python.Syntax.{
  load, add, lt, Node, subscript, bin_op, compare, name, constant, Constant, return_stmt,
  function_def, arguments, end, ◌⨾◌,
}
use living_codebase.Python.Visitor.{visit}
use living_codebase.Python.Value.{
  Value, Items, nil, item, list, ok, raised, none_error, index_error, get_item,
}
use living_codebase.Python.Eval.{Env, eval}
use living_codebase.Python.Exec.{call_function, bind_name, bind_params, empty_env}
use living_codebase.Mutator.{add_early_return, swap_operator, swap_comparison}
use living_codebase.Python.Trees.{tree_of}
use living_codebase.Population.Exchanged.{
  map_kinds, exchange_operator, exchange_comparisons, swap_operator_lem, swap_comparison_lem,
}
use living_codebase.Mutator.BoundsCheck.{get_item_from_start}
use living_codebase.Mutator.EarlyReturn.{call_function-add_early_return}
use living_codebase.Mutator.Mutate.{replace_literal}
use living_codebase.Mutator.Mutate.Literals.{literals, redrawn, blank, replace_literal_lem}
use living_codebase.Engine.Programs.{buggy_process, bounds_process}
use living_codebase.Engine.Programs.Process.{
  data_list, share, bounds_result, buggy_process_lem, bounds_process_lem,
}

-- `data[index]`
abbrev item_expr : Node
item_expr = subscript (name "data" load) (name "index" load) load

-- `data[index] + 7 < index`
abbrev test_expr : Node
test_expr =
    compare (bin_op item_expr add (constant (Constant.int (pos 7)))) (lt ∷ [])
      (name "index" load ⨾ end)

abbrev ten_twenty : Items
ten_twenty = item (Value.int (pos 10)) (item (Value.int (pos 20)) nil)

-- `data` is a list of two, and `index` the last one.
abbrev inside : Env
inside = bind_name "data" (list ten_twenty) (bind_name "index" (Value.int (pos 1)) empty_env)

abbrev outside : Env
outside = bind_name "data" (list ten_twenty) (bind_name "index" (Value.int (pos 9)) empty_env)

abbrev without_data : Env
without_data = bind_name "data" Value.none (bind_name "index" (Value.int (pos 1)) empty_env)

swap_operator_lem_example :
    (tree_of (swap_operator test_expr) ≡ map_kinds exchange_operator (tree_of test_expr))
    × (swap_operator (swap_operator test_expr) ≡ test_expr)
swap_operator_lem_example = swap_operator_lem test_expr

swap_comparison_lem_example :
    (tree_of (swap_comparison test_expr) ≡ map_kinds exchange_comparisons (tree_of test_expr))
    × (swap_comparison (swap_comparison test_expr) ≡ test_expr)
swap_comparison_lem_example = swap_comparison_lem test_expr

item_raises : eval get_item without_data item_expr ≡ raised none_error
unfolding eval get_item
item_raises = refl

item_inside : eval get_item inside item_expr ≡ ok (Value.int (pos 20))
unfolding eval get_item
item_inside = refl

item_inside_from_start : eval get_item_from_start inside item_expr ≡ ok (Value.int (pos 20))
unfolding eval get_item get_item_from_start
item_inside_from_start = refl

item_past : eval get_item outside item_expr ≡ raised index_error
unfolding eval get_item
item_past = refl

-- `def first(data): return data[0]`
abbrev first : Node
first =
    function_def "first" (arguments ("data" ∷ []) end)
      (return_stmt (subscript (name "data" load) (constant (Constant.int (pos 0))) load) ⨾ end) end

abbrev data_none : List Value
data_none = Value.none ∷ []

call_function-add_early_return_example :
    call_function (add_early_return first) data_none ≡ ok (Value.int (negsuc 0))
unfolding bind_params
call_function-add_early_return_example =
    call_function-add_early_return "first" ("data" ∷ [])
      (return_stmt (subscript (name "data" load) (constant (Constant.int (pos 0))) load) ⨾ end) end
      data_none (bind_name "data" Value.none empty_env) Value.none refl refl

abbrev always : ℕ → ℕ → ℕ
always n k = n

replace_literal_lem_example :
    let (t', calls') = replace_literal (always 1) test_expr 4 in
    (literals t' ≡ redrawn (always 1) 4 (literals test_expr))
    × (calls' ≡ 4 + length (literals test_expr))
    × (visit blank t' ≡ visit blank test_expr)
replace_literal_lem_example = replace_literal_lem (always 1) test_expr 4

abbrev four_six : List ℤ
four_six = pos 4 ∷ pos 6 ∷ []

buggy_process_lem_example :
    call_function buggy_process (data_list four_six ∷ Value.int (negsuc 0) ∷ [])
    ≡ share four_six (negsuc 0)
buggy_process_lem_example = buggy_process_lem four_six (negsuc 0)

bounds_process_lem_example :
    call_function bounds_process (data_list four_six ∷ Value.int (pos 99) ∷ [])
    ≡ bounds_result four_six (pos 99)
bounds_process_lem_example = bounds_process_lem four_six (pos 99)
