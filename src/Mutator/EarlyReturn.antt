-- ===== src/Mutator/EarlyReturn.antt =====
-- `_add_early_return` on functions: what a call of the rewritten function does.
use living_codebase.Prelude.{
  ◌≡◌, ◌∙◌, refl, String, List, [], ◌∷◌, false, some, arith, fun_ext, ap, if◌then◌else◌,
}
use living_codebase.Prelude.Int.{negsuc}
use living_codebase.Python.Syntax.{
  Node, Nodes, attribute, subscript, bin_op, unary_op, bool_op, compare, call, if_exp, name, assign,
  if_stmt, return_stmt, function_def, arguments, end, ◌⨾◌, and, or,
}
use living_codebase.Python.Visitor.{visit, visit_all}
use living_codebase.Python.Value.{
  Value, Result, ok, ◌>>=◌, is_none, truthy, get_item, compare_values,
}
use living_codebase.Python.Eval.{Env, eval, eval_all, eval_chain, eval_bool, const_value}
use living_codebase.Python.Exec.{
  exec, exec_block, call_function, bind_params, empty_env, returned, next, Flow, result, exec_by,
  call_by,
}
use living_codebase.Python.Laws.{bind_ext, branch_ext}
use living_codebase.Mutator.{early_return, add_early_return, data_guard}

-- Expressions hold no function definition that the fragment could run.
module _ (env : Env) where
  mutual
    unfolding eval visit early_return

    eval-visit : (t : Node) → eval get_item env (visit early_return t) ≡ eval get_item env t
    eval-visit (attribute v a c) = rw (eval-visit v)
    eval-visit (subscript v s c) = rw (eval-visit v, eval-visit s)
    eval-visit (bin_op l o r) = rw (eval-visit l, eval-visit r)
    eval-visit (unary_op o t) = rw (eval-visit t)
    eval-visit (bool_op o ts) = rw (eval_bool-visit ts)
    eval-visit (compare l os rs) = rw (eval-visit l, eval_chain-visit rs)
    eval-visit (call (name f c) args end) = rw (eval_all-visit args)
    eval-visit (if_exp t b o) =
        bind_ext _ _ (eval-visit t) λ x. branch_ext (truthy x) (eval-visit b) (eval-visit o)
    eval-visit _ = refl

    eval_all-visit :
        (ts : Nodes) → eval_all get_item env (visit_all early_return ts) ≡ eval_all get_item env ts
    eval_all-visit end = refl
    eval_all-visit (t ⨾ ts) = rw (eval-visit t, eval_all-visit ts)

    eval_chain-visit :
        (ts : Nodes)
        → eval_chain get_item env (visit_all early_return ts) ≡ eval_chain get_item env ts
    eval_chain-visit end = refl
    eval_chain-visit (t ⨾ ts) = fun_ext λ x. fun_ext (elim [
      | [] ↦ refl
      | o ∷ os ↦ bind_ext _ _ (eval-visit t) λ y.
          bind_ext (compare_values o x y) _ refl
            λ b. branch_ext b {y = ok (Value.bool false)} (λ i. eval_chain-visit ts i y os) refl
    ])

    eval_bool-visit :
        (ts : Nodes)
        → eval_bool get_item env (visit_all early_return ts) ≡ eval_bool get_item env ts
    eval_bool-visit end = refl
    eval_bool-visit (t ⨾ end) = fun_ext λ o. rw (eval-visit t)
    eval_bool-visit (t ⨾ u ⨾ ts) = fun_ext (elim [
      | and ↦
          bind_ext _ _ (eval-visit t)
            λ x. branch_ext (truthy x) (λ i. eval_bool-visit (u ⨾ ts) i and) refl
      | or ↦
          bind_ext _ _ (eval-visit t)
            λ x. branch_ext (truthy x) refl (λ i. eval_bool-visit (u ⨾ ts) i or)
    ])

mutual
  unfolding exec_by visit early_return

  exec-visit : (t : Node) (env : Env) → exec (visit early_return t) env ≡ exec t env
  exec-visit (assign (name x c ⨾ end) e) env = rw (eval-visit env e)
  exec-visit (if_stmt t b o) env =
      bind_ext _ _ (eval-visit env t)
        λ x. branch_ext (truthy x) (exec_block-visit b env) (exec_block-visit o env)
  exec-visit (return_stmt e) env = rw (eval-visit env e)
  exec-visit _ env = refl

  exec_block-visit :
      (ts : Nodes) (env : Env) → exec_block (visit_all early_return ts) env ≡ exec_block ts env
  exec_block-visit end env = refl
  exec_block-visit (t ⨾ ts) env =
      bind_ext _ _ (exec-visit t env)
        (elim [ next env' ↦ exec_block-visit ts env' | returned v ↦ refl ])

block-data_guard :
    (body : Nodes) (env : Env) (v : Value)
    → env "data" ≡ some v
    → (exec_block (data_guard ⨾ body) env >>= λ r. ok (result r)) ≡ (
        if is_none v
        then ok (Value.int (negsuc 0))
        else (exec_block body env >>= λ r. ok (result r)))
unfolding exec_by eval data_guard compare_values truthy const_value
block-data_guard body env v e = ground (arith, e)

-- A function of the modelled fragment with a parameter `data`, called with an argument for each
-- parameter: rewritten, it returns -1 if `data` is `None`, and otherwise does what it did.
pub call_function-add_early_return :
    (f : String) (xs : List String) (body ds : Nodes) (vs : List Value) (env : Env) (v : Value)
    → bind_params xs vs empty_env ≡ ok env
    → env "data" ≡ some v
    → let fn = function_def f (arguments xs end) body ds in
      call_function (add_early_return fn) vs
      ≡ (if is_none v then ok (Value.int (negsuc 0)) else call_function fn vs)
unfolding call_by add_early_return
call_function-add_early_return f xs body ds vs env v bound e = rw bound (
    block-data_guard _ env v e
    ∙ ap
        (λ (m : Result Flow).
          if is_none v then ok (Value.int (negsuc 0)) else (m >>= λ r. ok (result r)))
        (exec_block-visit body env))
