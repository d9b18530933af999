-- ===== src/Python/Exec.antt =====
-- Statements, function calls, and the loading of a module by `exec`.
use living_codebase.Prelude.{String, true, false, none, some, List, [], ◌∷◌, if◌then◌else◌, str_eq}
use living_codebase.Python.Syntax.{
  Node, Nodes, assign, if_stmt, return_stmt, function_def, arguments, module_node, name, end, ◌⨾◌,
}
use living_codebase.Python.Value.{
  Value, Result, ok, raised, type_error, key_error, unsupported, ◌>>=◌, truthy, get_item,
}
use living_codebase.Python.Eval.{Env, eval}

-- How a statement ends: by going on, or with the function's result.
pub data Flow : Type 0 where
  next : Env → Flow
  returned : Value → Flow

abbrev pub bind_name : String → Value → Env → Env
bind_name x v env y = if str_eq x y then some v else env y

abbrev after : (Env → Result Flow) → Flow → Result Flow
after k (next env) = k env
after k (returned v) = ok (returned v)

abbrev branch {ℓ} : {A : Type ℓ} → Result A → Result A → Value → Result A
branch yes' no' v = elim (truthy v) [ true ↦ yes' | false ↦ no' ]

-- `get` is the meaning of a subscript.
module _ (get : Value → Value → Result Value) where
  unfoldable mutual
    pub exec_by : Node → Env → Result Flow
    exec_by (assign (name x c ⨾ end) e) env = do v ← eval get env e; ok (next (bind_name x v env))
    exec_by (if_stmt t b o) env = eval get env t >>= λ v. elim (truthy v) [
      | true ↦ exec_block_by b env
      | false ↦ exec_block_by o env
    ]
    exec_by (return_stmt e) env = do v ← eval get env e; ok (returned v)
    exec_by _ env = raised unsupported

    pub exec_block_by : Nodes → Env → Result Flow
    exec_block_by end env = ok (next env)
    exec_block_by (s ⨾ b) env = exec_by s env >>= after (exec_block_by b)

abbrev pub exec : Node → Env → Result Flow
exec = exec_by get_item

abbrev pub exec_block : Nodes → Env → Result Flow
exec_block = exec_block_by get_item

-- A call binds exactly the parameters; a missing or surplus argument is a TypeError.
unfoldable pub bind_params : List String → List Value → Env → Result Env
bind_params [] [] env = ok env
bind_params (x ∷ xs) (v ∷ vs) env = bind_params xs vs (bind_name x v env)
bind_params _ _ env = raised type_error

abbrev pub result : Flow → Value
result (next env) = Value.none
result (returned v) = v

abbrev pub empty_env : Env
empty_env x = none

-- `fn(args)`; defaults are outside the fragment.
unfoldable pub call_by : (Value → Value → Result Value) → Node → List Value → Result Value
unfolding exec_by bind_params
call_by get (function_def f (arguments xs end) body ds) vs = do
  env ← bind_params xs vs empty_env
  r ← exec_block_by get body env
  ok (result r)
call_by get _ vs = raised unsupported

abbrev pub call_function : Node → List Value → Result Value
call_function = call_by get_item

-- `ns = {}; exec(code, ns); ns[f]` for a module of function definitions: the last one of the name,
-- or the KeyError. Other statements are outside the fragment.
unfoldable pub find_function : String → Nodes → Result Node → Result Node
find_function f end found = found
find_function f (function_def g ps b ds ⨾ rest) found =
    find_function f rest (if str_eq f g then ok (function_def g ps b ds) else found)
find_function f (n ⨾ rest) found = raised unsupported

unfoldable pub exec_module : Node → String → Result Node
unfolding find_function
exec_module (module_node body) f = find_function f body (raised key_error)
exec_module _ f = raised unsupported
