-- ===== src/Mutator/NullCheck.antt =====
-- `_insert_null_check` on expressions: what the rewritten expression evaluates to.
use living_codebase.Prelude.{◌≡◌, ◌≢◌, ◌∙◌, refl, String, true, false, fun_ext, arith}
use living_codebase.Prelude.Int.{pos}
use living_codebase.Python.Syntax.{Ctx, Node, attribute, subscript}
use living_codebase.Python.Value.{
  none_error, Value, Result, ok, raised, ◌>>=◌, is_none, truthy, get_attr, get_item, compare_values,
}
use living_codebase.Python.Eval.{Env, eval, const_value}
use living_codebase.Python.Laws.{
  bind_avoids, branch_avoids, get_attr_avoids, get_item_avoids, ◌⊑◌, bind_mono,
}
use living_codebase.Mutator.{null_guard, null_check, insert_null_check}
use living_codebase.Mutator.Guards.{guards, guards_avoid, guards_keep}

abbrev pub at_attr : Node → String → Ctx → Node
at_attr v a c = null_guard v (attribute v a c)

abbrev pub at_item : Node → Node → Ctx → Node
at_item v s c = null_guard v (subscript v s c)

pub null_check-eq-guards : null_check ≡ guards at_attr at_item
unfolding null_check guards
null_check-eq-guards = fun_ext (elim [ attribute v a c ↦ refl | _ ↦ refl ])

module _ (env : Env) where
  abbrev run : Node → Result Value
  run = eval get_item env

  -- A guarded node looks at the value first. The guard evaluates it once more than the source did.
  run-null_guard :
      (v n : Node)
      → run (null_guard v n)
        ≡ (run v >>= λ x. elim (is_none x) [ true ↦ ok (Value.int (pos 0)) | false ↦ run n ])
  unfolding null_guard eval compare_values truthy const_value
  run-null_guard v n = ground arith

  run-at_item :
      (v s : Node) (c : Ctx)
      → run (at_item v s c) ≡ (
          run v >>= λ x. elim (is_none x) [
            | true ↦ ok (Value.int (pos 0))
            | false ↦ run s >>= λ i. get_item x i
          ])
  unfolding eval
  run-at_item v s c = run-null_guard v (subscript v s c) ∙ ground arith

  run-at_attr :
      (v : Node) (a : String) (c : Ctx)
      → run (at_attr v a c)
        ≡ (run v >>= λ x. elim (is_none x) [ true ↦ ok (Value.int (pos 0)) | false ↦ get_attr x a ])
  unfolding eval
  run-at_attr v a c = run-null_guard v (attribute v a c) ∙ ground arith

  attr_avoids :
      (v : Node) (a : String) (c : Ctx)
      → run v ≢ raised none_error
      → run (at_attr v a c) ≢ raised none_error
  attr_avoids v a c h =
      rw run-at_attr (
        bind_avoids _ h
          λ x. branch_avoids (is_none x) (λ _. cc) (get_attr_avoids none_error tt x a))

  item_avoids :
      (v s : Node) (c : Ctx)
      → run v ≢ raised none_error
      → run s ≢ raised none_error
      → run (at_item v s c) ≢ raised none_error
  item_avoids v s c h k = rw run-at_item (
      bind_avoids _ h λ x.
        branch_avoids (is_none x) (λ _. cc)
          (λ some'. bind_avoids _ k λ i. get_item_avoids x i some'))

  -- Where the source gets a value, the guard takes its first branch.
  attr_guard :
      (x : Value) (a : String)
      → get_attr x a ⊑ elim (is_none x) [ true ↦ ok (Value.int (pos 0)) | false ↦ get_attr x a ]
  unfolding get_attr
  attr_guard x a w p = ground arith

  item_guard :
      (x : Value) (m m' : Result Value)
      → m ⊑ m'
      → (m >>= λ i. get_item x i)
        ⊑ elim (is_none x) [ true ↦ ok (Value.int (pos 0)) | false ↦ m' >>= λ i. get_item x i ]
  unfolding get_item
  item_guard x (ok i) m' h w p = ground (arith, h i refl)
  item_guard x (raised e) m' h w p = cc

  attr_keeps :
      (v v' : Node) (a : String) (c : Ctx)
      → run v ⊑ run v'
      → run (attribute v a c) ⊑ run (at_attr v' a c)
  unfolding eval
  attr_keeps v v' a c h = rw run-at_attr (bind_mono _ _ h λ x. attr_guard x a)

  item_keeps :
      (v v' s s' : Node) (c : Ctx)
      → run v ⊑ run v'
      → run s ⊑ run s'
      → run (subscript v s c) ⊑ run (at_item v' s' c)
  unfolding eval
  item_keeps v v' s s' c h k = rw run-at_item (bind_mono _ _ h λ x. item_guard x (run s) (run s') k)

  -- With null checks inserted, an expression of the modelled fragment never raises the error of a
  -- subscript or an attribute of `None`.
  pub insert_null_check-avoids :
      (t : Node) → eval get_item env (insert_null_check t) ≢ raised none_error
  unfolding insert_null_check
  insert_null_check-avoids t =
      rw null_check-eq-guards
        (guards_avoid env get_item none_error tt at_attr at_item attr_avoids item_avoids t)

  -- With null checks inserted, an expression that had a value still has that value.
  pub insert_null_check-keeps :
      (t : Node) (v : Value)
      → eval get_item env t ≡ ok v
      → eval get_item env (insert_null_check t) ≡ ok v
  unfolding insert_null_check
  insert_null_check-keeps t v =
      rw null_check-eq-guards
        (guards_keep env get_item get_item at_attr at_item attr_keeps item_keeps t v)
