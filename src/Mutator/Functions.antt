-- ===== src/Mutator/Functions.antt =====
-- The guards of two mutations in whole functions: what a call of the rewritten function does.
use living_codebase.Prelude.{◌≡◌, ◌≢◌, ap, arith, String, List, [], ◌∷◌}
use living_codebase.Python.Syntax.{
  Ctx, Node, Nodes, attribute, subscript, name, assign, if_stmt, return_stmt, function_def,
  arguments, end, ◌⨾◌,
}
use living_codebase.Python.Visitor.{visit, visit_all}
use living_codebase.Python.Value.{Error, none_error, index_error, Value, raised, truthy, get_item}
use living_codebase.Python.Eval.{Env, eval}
use living_codebase.Python.Exec.{
  next, returned, exec, exec_block, bind_params, bind_name, empty_env, call_function, exec_by,
  call_by,
}
use living_codebase.Python.Laws.{
  bind_avoids, bind_mono, branch_avoids, branch_mono, ◌⊑◌, IsGuarded, unsupported_avoids,
}
use living_codebase.Mutator.{null_guard, in_bounds, insert_null_check, insert_bounds_check}
use living_codebase.Mutator.Guards.{guards}
use living_codebase.Mutator.NullCheck.{null_check-eq-guards, insert_null_check-avoids}
use living_codebase.Mutator.NullCheck
use living_codebase.Mutator.BoundsCheck.{bounds_check-eq-guards, insert_bounds_check-avoids}
use living_codebase.Mutator.BoundsCheck

module _ (at_attr : Node → String → Ctx → Node) (at_item : Node → Node → Ctx → Node) where
  abbrev w : Node → Node
  w = guards at_attr at_item

  module _
      (keeps : (env : Env) (t : Node) → eval get_item env t ⊑ eval get_item env (visit w t)) where
    mutual
      unfolding exec_by visit guards

      exec-visit : (s : Node) (env : Env) → exec s env ⊑ exec (visit w s) env
      exec-visit (assign (name x c ⨾ end) e) env = bind_mono _ _ (keeps env e) λ v _ p. p
      exec-visit (if_stmt t b o) env =
          bind_mono _ _ (keeps env t)
            λ v. branch_mono (truthy v) (exec_block-visit b env) (exec_block-visit o env)
      exec-visit (return_stmt e) env = bind_mono _ _ (keeps env e) λ v _ p. p
      exec-visit _ env = λ _ p. cc

      exec_block-visit : (b : Nodes) (env : Env) → exec_block b env ⊑ exec_block (visit_all w b) env
      exec_block-visit end env = λ _ p. p
      exec_block-visit (s ⨾ b) env =
          bind_mono _ _ (exec-visit s env)
            (elim [ next env' ↦ exec_block-visit b env' | returned v ↦ λ _ p. p ])

  module _ (e : Error) (g : IsGuarded e)
      (no_stmt : (v : Node) (a : String) (c : Ctx) (env : Env)
        → exec (at_attr v a c) env ≢ raised e)
      (no_stmt' : (v s : Node) (c : Ctx) (env : Env) → exec (at_item v s c) env ≢ raised e)
      (avoids : (env : Env) (t : Node) → eval get_item env (visit w t) ≢ raised e) where
    -- An assignment to one name, or one that is not in the fragment.
    assign_avoids :
        (ts : Nodes) (v : Node) (env : Env)
        → eval get_item env v ≢ raised e
        → exec (assign ts v) env ≢ raised e
    unfolding exec_by
    assign_avoids (name x c ⨾ end) v env h = bind_avoids _ h λ y. cc
    assign_avoids _ v env h = unsupported_avoids e g

    mutual
      unfolding exec_by visit guards

      exec_avoids : (s : Node) (env : Env) → exec (visit w s) env ≢ raised e
      exec_avoids (attribute v a c) env = no_stmt _ a c env
      exec_avoids (subscript v s c) env = no_stmt' _ _ c env
      exec_avoids (assign ts t) env = assign_avoids (visit_all w ts) (visit w t) env (avoids env t)
      exec_avoids (if_stmt t b o) env = bind_avoids _ (avoids env t) λ v.
          branch_avoids (truthy v) (λ _. exec_block_avoids b env) (λ _. exec_block_avoids o env)
      exec_avoids (return_stmt t) env = bind_avoids _ (avoids env t) λ v. cc
      exec_avoids _ env = unsupported_avoids e g

      exec_block_avoids : (b : Nodes) (env : Env) → exec_block (visit_all w b) env ≢ raised e
      exec_block_avoids end env = cc
      exec_block_avoids (s ⨾ b) env =
          bind_avoids _ (exec_avoids s env)
            (elim [ next env' ↦ exec_block_avoids b env' | returned v ↦ cc ])

    bind_params_avoids :
        (xs : List String) (vs : List Value) (env : Env) → bind_params xs vs env ≢ raised e
    unfolding bind_params
    bind_params_avoids [] [] env = cc
    bind_params_avoids (x ∷ xs) (v ∷ vs) env = bind_params_avoids xs vs (bind_name x v env)
    bind_params_avoids [] (v ∷ vs) env = ground arith
    bind_params_avoids (x ∷ xs) [] env = ground arith

    -- A call of a function whose body does not raise `e`.
    body_avoids :
        (f : String) (ps : Node) (body ds : Nodes) (vs : List Value)
        → ((env : Env) → exec_block body env ≢ raised e)
        → call_function (function_def f ps body ds) vs ≢ raised e
    unfolding call_by
    body_avoids f (arguments xs end) body ds vs h =
        bind_avoids _ (bind_params_avoids xs vs empty_env) λ env. bind_avoids _ (h env) λ r. cc
    body_avoids f _ body ds vs h = unsupported_avoids e g

    call_function_avoids :
        (f : String) (ps : Node) (body ds : Nodes) (vs : List Value)
        → call_function (visit w (function_def f ps body ds)) vs ≢ raised e
    unfolding visit guards
    call_function_avoids f ps body ds vs =
        body_avoids f (visit w ps) (visit_all w body) (visit_all w ds) vs (exec_block_avoids body)

insert_null_check-guards :
    (n : Node) → insert_null_check n ≡ visit (guards NullCheck.at_attr NullCheck.at_item) n
unfolding insert_null_check
insert_null_check-guards n = ap (λ (r : Node → Node). visit r n) null_check-eq-guards

insert_bounds_check-guards :
    (n : Node) → insert_bounds_check n ≡ visit (guards attribute BoundsCheck.at_item) n
unfolding insert_bounds_check
insert_bounds_check-guards n = ap (λ (r : Node → Node). visit r n) bounds_check-eq-guards

-- With null checks inserted, no call of a function definition of the modelled fragment raises the
-- error of a subscript or an attribute of `None`.
pub null_checked_call-avoids :
    (f : String) (ps : Node) (body ds : Nodes) (vs : List Value)
    → call_function (insert_null_check (function_def f ps body ds)) vs ≢ raised none_error
unfolding null_guard
null_checked_call-avoids f ps body ds vs = rw insert_null_check-guards (
    call_function_avoids NullCheck.at_attr NullCheck.at_item none_error tt
      (λ v a c env. unfold exec_by in cc) (λ v s c env. unfold exec_by in cc)
      (λ env t. rw insert_null_check-guards at (insert_null_check-avoids env t)) f ps body ds vs)

-- With bounds checks inserted, no call of a function definition of the modelled fragment raises
-- IndexError.
pub bounds_checked_call-avoids :
    (f : String) (ps : Node) (body ds : Nodes) (vs : List Value)
    → call_function (insert_bounds_check (function_def f ps body ds)) vs ≢ raised index_error
unfolding in_bounds
bounds_checked_call-avoids f ps body ds vs = rw insert_bounds_check-guards (
    call_function_avoids attribute BoundsCheck.at_item index_error tt
      (λ v a c env. unfold exec_by in cc) (λ v s c env. unfold exec_by in cc)
      (λ env t. rw insert_bounds_check-guards at (insert_bounds_check-avoids env t)) f ps body ds
      vs)
