-- ===== src/Mutator/Guards.antt =====
-- What guards around attributes and subscripts do to the expressions that hold them: an induction
-- that `_insert_null_check` and `_insert_bounds_check` share.
use living_codebase.Prelude.{◌≢◌, String, List, [], ◌∷◌, true, false}
use living_codebase.Python.Syntax.{
  Ctx, CmpOp, BoolOp, and, or, Node, Nodes, attribute, subscript, bin_op, unary_op, bool_op,
  compare, call, constant, if_exp, name, end, ◌⨾◌,
}
use living_codebase.Python.Visitor.{visit, visit_all}
use living_codebase.Python.Value.{Error, Value, Result, ok, raised, truthy, compare_values}
use living_codebase.Python.Eval.{Env, eval, eval_all, eval_chain, eval_bool}
use living_codebase.Python.Laws.{
  bind_avoids, bind_mono, branch_avoids, branch_mono, ◌⊑◌, IsGuarded, const_value_avoids,
  binary_avoids, unary_avoids, compare_values_avoids, apply_avoids, found_avoids,
  unsupported_avoids,
}

-- A rewriting of attributes and subscripts only.
unfoldable pub guards : (Node → String → Ctx → Node) → (Node → Node → Ctx → Node) → Node → Node
guards at_attr at_item (attribute v a c) = at_attr v a c
guards at_attr at_item (subscript v s c) = at_item v s c
guards at_attr at_item n = n

abbrev pub Meaning : Type 0
Meaning = Value → Value → Result Value

-- The function is a builtin's name, or the call is not in the fragment.
call_avoids :
    (env : Env) (get : Meaning) (e : Error) (g : IsGuarded e) (f : Node) (args kws : Nodes)
    → eval_all get env args ≢ raised e
    → eval get env (call f args kws) ≢ raised e
unfolding eval
call_avoids env get e g (name f c) args end h = bind_avoids _ h λ xs. apply_avoids e g (env f) f xs
call_avoids env get e g _ args kws h = unsupported_avoids e g

module _ (env : Env) (get : Meaning) (e : Error) (g : IsGuarded e)
    (at_attr : Node → String → Ctx → Node) (at_item : Node → Node → Ctx → Node)
    (attr_avoids : (v : Node) (a : String) (c : Ctx)
      → eval get env v ≢ raised e
      → eval get env (at_attr v a c) ≢ raised e)
    (item_avoids : (v s : Node) (c : Ctx)
      → eval get env v ≢ raised e
      → eval get env s ≢ raised e
      → eval get env (at_item v s c) ≢ raised e) where
  mutual
    unfolding eval visit guards

    -- If no guarded access raises `e`, then neither does an expression of guarded accesses.
    pub guards_avoid : (t : Node) → eval get env (visit (guards at_attr at_item) t) ≢ raised e
    guards_avoid (attribute v a c) = attr_avoids _ a c (guards_avoid v)
    guards_avoid (subscript v s c) = item_avoids _ _ c (guards_avoid v) (guards_avoid s)
    guards_avoid (bin_op l o r) =
        bind_avoids _ (guards_avoid l)
          λ x. bind_avoids _ (guards_avoid r) λ y. binary_avoids e g o x y
    guards_avoid (unary_op o t) = bind_avoids _ (guards_avoid t) λ x. unary_avoids e g o x
    guards_avoid (bool_op o ts) = bool_avoids ts o
    guards_avoid (compare l os rs) = bind_avoids _ (guards_avoid l) λ x. chain_avoids rs x os
    guards_avoid (call f args kws) =
        let w = guards at_attr at_item in
        call_avoids env get e g (visit w f) (visit_all w args) (visit_all w kws) (all_avoid args)
    guards_avoid (constant k) = const_value_avoids e g k
    guards_avoid (if_exp t b o) =
        bind_avoids _ (guards_avoid t)
          λ x. branch_avoids (truthy x) (λ _. guards_avoid b) (λ _. guards_avoid o)
    guards_avoid (name x c) = found_avoids e g (env x)
    guards_avoid _ = unsupported_avoids e g

    all_avoid : (ts : Nodes) → eval_all get env (visit_all (guards at_attr at_item) ts) ≢ raised e
    all_avoid end = cc
    all_avoid (t ⨾ ts) = bind_avoids _ (guards_avoid t) λ x. bind_avoids _ (all_avoid ts) λ xs. cc

    chain_avoids :
        (ts : Nodes) (x : Value) (os : List CmpOp)
        → eval_chain get env (visit_all (guards at_attr at_item) ts) x os ≢ raised e
    chain_avoids end x os = cc
    chain_avoids (t ⨾ ts) x [] = unsupported_avoids e g
    chain_avoids (t ⨾ ts) x (o ∷ os) = bind_avoids _ (guards_avoid t) λ y.
        bind_avoids _ (compare_values_avoids e g o x y)
          (elim [ true ↦ chain_avoids ts y os | false ↦ cc ])

    bool_avoids :
        (ts : Nodes) (o : BoolOp)
        → eval_bool get env (visit_all (guards at_attr at_item) ts) o ≢ raised e
    bool_avoids end o = unsupported_avoids e g
    bool_avoids (t ⨾ end) o = guards_avoid t
    bool_avoids (t ⨾ u ⨾ ts) and =
        bind_avoids _ (guards_avoid t)
          λ x. branch_avoids (truthy x) (λ _. bool_avoids (u ⨾ ts) and) (λ _. cc)
    bool_avoids (t ⨾ u ⨾ ts) or =
        bind_avoids _ (guards_avoid t)
          λ x. branch_avoids (truthy x) (λ _. cc) (λ _. bool_avoids (u ⨾ ts) or)

module _ (env : Env) (get get' : Meaning) (at_attr : Node → String → Ctx → Node)
    (at_item : Node → Node → Ctx → Node)
    (attr_keeps : (v v' : Node) (a : String) (c : Ctx)
      → eval get env v ⊑ eval get' env v'
      → eval get env (attribute v a c) ⊑ eval get' env (at_attr v' a c))
    (item_keeps : (v v' s s' : Node) (c : Ctx)
      → eval get env v ⊑ eval get' env v'
      → eval get env s ⊑ eval get' env s'
      → eval get env (subscript v s c) ⊑ eval get' env (at_item v' s' c)) where
  mutual
    unfolding eval visit guards

    -- If every guarded access keeps the value of the access, then so does an expression of them.
    pub guards_keep : (t : Node) → eval get env t ⊑ eval get' env (visit (guards at_attr at_item) t)
    guards_keep (attribute v a c) = attr_keeps v _ a c (guards_keep v)
    guards_keep (subscript v s c) = item_keeps v _ s _ c (guards_keep v) (guards_keep s)
    guards_keep (bin_op l o r) =
        bind_mono _ _ (guards_keep l) λ x. bind_mono _ _ (guards_keep r) λ y _ p. p
    guards_keep (unary_op o t) = bind_mono _ _ (guards_keep t) λ x _ p. p
    guards_keep (bool_op o ts) = bool_keeps ts o
    guards_keep (compare l os rs) = bind_mono _ _ (guards_keep l) λ x. chain_keeps rs x os
    guards_keep (call (name f c) args end) = bind_mono _ _ (all_keep args) λ xs _ p. p
    guards_keep (constant k) = λ _ p. p
    guards_keep (if_exp t b o) =
        bind_mono _ _ (guards_keep t) λ x. branch_mono (truthy x) (guards_keep b) (guards_keep o)
    guards_keep (name x c) = λ _ p. p
    guards_keep _ = λ _ p. cc

    all_keep :
        (ts : Nodes)
        → eval_all get env ts ⊑ eval_all get' env (visit_all (guards at_attr at_item) ts)
    all_keep end = λ _ p. p
    all_keep (t ⨾ ts) = bind_mono _ _ (guards_keep t) λ x. bind_mono _ _ (all_keep ts) λ xs _ p. p

    chain_keeps :
        (ts : Nodes) (x : Value) (os : List CmpOp)
        → eval_chain get env ts x os
          ⊑ eval_chain get' env (visit_all (guards at_attr at_item) ts) x os
    chain_keeps end x os = λ _ p. p
    chain_keeps (t ⨾ ts) x [] = λ _ p. cc
    chain_keeps (t ⨾ ts) x (o ∷ os) = bind_mono _ _ (guards_keep t) λ y.
        bind_mono (compare_values o x y) _ (λ _ p. p)
          λ b. branch_mono b {y = ok (Value.bool false)} (chain_keeps ts y os) (λ _ p. p)

    bool_keeps :
        (ts : Nodes) (o : BoolOp)
        → eval_bool get env ts o ⊑ eval_bool get' env (visit_all (guards at_attr at_item) ts) o
    bool_keeps end o = λ _ p. cc
    bool_keeps (t ⨾ end) o = guards_keep t
    bool_keeps (t ⨾ u ⨾ ts) and =
        bind_mono _ _ (guards_keep t)
          λ x. branch_mono (truthy x) (bool_keeps (u ⨾ ts) and) (λ _ p. p)
    bool_keeps (t ⨾ u ⨾ ts) or =
        bind_mono _ _ (guards_keep t)
          λ x. branch_mono (truthy x) (λ _ p. p) (bool_keeps (u ⨾ ts) or)
