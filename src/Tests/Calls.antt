-- ===== src/Tests/Calls.antt =====
-- Calls of the patch engine's buggy function with guards inserted.
use living_codebase.Prelude.{◌≡◌, ◌≢◌, refl, ◌∷◌, [], List}
use living_codebase.Prelude.Int.{ℤ, pos}
use living_codebase.Python.Syntax.{
  load, Node, Nodes, Constant, subscript, constant, name, return_stmt, function_def, arguments, end,
  ◌⨾◌,
}
use living_codebase.Python.Value.{Value, float, get_item, ok, raised, none_error, index_error}
use living_codebase.Python.Eval.{eval, const_value}
use living_codebase.Python.Exec.{call_function, call_by}
use living_codebase.Mutator.{insert_null_check, insert_bounds_check}
use living_codebase.Mutator.Functions.{null_checked_call-avoids, bounds_checked_call-avoids}
use living_codebase.Engine.Programs.{buggy_process}
use living_codebase.Engine.Programs.Guarded.{guarded_share, guarded_buggy_process_lem}
use living_codebase.Engine.Programs.Process.{data_list}

abbrev four_six : List ℤ
four_six = pos 4 ∷ pos 6 ∷ []

-- At the last item.
abbrev inside : List Value
inside = data_list four_six ∷ Value.int (pos 1) ∷ []

-- `def first(data): return data[0]`
abbrev params : Node
params = arguments ("data" ∷ []) end

abbrev body : Nodes
body = return_stmt (subscript (name "data" load) (constant (Constant.int (pos 0))) load) ⨾ end

first_of_none :
    call_function (function_def "first" params body end) (Value.none ∷ []) ≡ raised none_error
unfolding call_by eval get_item const_value
first_of_none = refl

first_of_empty :
    call_function (function_def "first" params body end) (data_list [] ∷ []) ≡ raised index_error
unfolding call_by eval get_item const_value data_list
first_of_empty = refl

null_checked_call-avoids_example :
    call_function (insert_null_check (function_def "first" params body end)) (Value.none ∷ [])
    ≢ raised none_error
null_checked_call-avoids_example =
    null_checked_call-avoids "first" params body end (Value.none ∷ [])

bounds_checked_call-avoids_example :
    call_function (insert_bounds_check (function_def "first" params body end)) (data_list [] ∷ [])
    ≢ raised index_error
bounds_checked_call-avoids_example =
    bounds_checked_call-avoids "first" params body end (data_list [] ∷ [])

guarded_buggy_process_lem_example :
    call_function (insert_bounds_check buggy_process) inside ≡ ok (float (pos 6) 2)
unfolding guarded_share
guarded_buggy_process_lem_example = guarded_buggy_process_lem four_six (pos 1)
