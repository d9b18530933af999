-- ===== src/Mutator/BoundsCheck.antt =====
-- `_insert_bounds_check` on expressions: what the rewritten expression evaluates to.
use living_codebase.Prelude.{
  ◌≡◌, ◌≢◌, ◌<◌, ℕ, zero, suc, refl, String, true, false, fun_ext, arith, Option,
}
use living_codebase.Prelude.Int.{pos, negsuc}
use living_codebase.Python.Syntax.{gt, gt_e, Ctx, Node, attribute, subscript}
use living_codebase.Python.Value.{
  index_error, Value, Items, nil, item, size, nth, Result, ok, raised, ◌>>=◌, truthy, get_attr,
  get_item, compare_values,
}
use living_codebase.Python.Eval.{Env, eval, const_value, apply, builtin}
use living_codebase.Python.Laws.{bind_avoids, get_attr_avoids, ◌⊑◌, bind_mono}
use living_codebase.Mutator.{in_bounds, bounds_check, insert_bounds_check}
use living_codebase.Mutator.Guards.{guards, guards_avoid, guards_keep}
use living_codebase.Python.Syntax.{if_exp}
use living_codebase.Mutator.{zero_node}

abbrev pub at_item : Node → Node → Ctx → Node
at_item v s c = if_exp (in_bounds v s) (subscript v s c) zero_node

pub bounds_check-eq-guards : bounds_check ≡ guards attribute at_item
unfolding bounds_check guards
bounds_check-eq-guards = fun_ext (elim [ subscript v s c ↦ refl | _ ↦ refl ])

-- A subscript that refuses negative indices, as the guard does.
unfoldable pub get_item_from_start : Value → Value → Result Value
get_item_from_start (Value.list xs) (Value.int (negsuc n)) = raised index_error
get_item_from_start x i = get_item x i

-- The guard on values: `len(x)` is `n`, and `i` is the index.
guarded : Value → Value → Value → Result Value
guarded x n i = compare_values gt n i >>= λ b. elim b [
  | false ↦ ok (Value.int (pos 0))
  | true ↦ compare_values gt_e i (Value.int (pos 0)) >>= λ b'. elim b' [
    | false ↦ ok (Value.int (pos 0))
    | true ↦ get_item x i
  ]
]

nth-ne-index_error : (xs : Items) (n : ℕ) → n < size xs → nth xs n ≢ raised index_error
unfolding size nth
nth-ne-index_error nil n h = absurd (omega arith)
nth-ne-index_error (item x xs) zero h = cc
nth-ne-index_error (item x xs) (suc n) h = nth-ne-index_error xs n (omega arith)

nth-lt : (xs : Items) (n : ℕ) (v : Value) → nth xs n ≡ ok v → n < size xs
unfolding size nth
nth-lt nil n v p = cc
nth-lt (item x xs) zero v p = omega arith
nth-lt (item x xs) (suc n) v p = omega (arith, nth-lt xs n v p)

-- A list of that length is not indexed outside its bounds.
guarded_list_avoids :
    (xs : Items) (i : Value)
    → guarded (Value.list xs) (Value.int (pos (size xs))) i ≢ raised index_error
unfolding guarded compare_values get_item
guarded_list_avoids xs (Value.int (pos n)) = ground (arith, nth-ne-index_error xs n)
guarded_list_avoids xs (Value.int (negsuc n)) = ground arith
guarded_list_avoids xs (Value.bool true) = ground (arith, nth-ne-index_error xs 1)
guarded_list_avoids xs (Value.bool false) = ground (arith, nth-ne-index_error xs 0)
guarded_list_avoids xs _ = ground arith

guarded_list_keeps :
    (xs : Items) (i v : Value)
    → get_item_from_start (Value.list xs) i ≡ ok v
    → guarded (Value.list xs) (Value.int (pos (size xs))) i ≡ ok v
unfolding guarded compare_values get_item get_item_from_start
guarded_list_keeps xs (Value.int (pos n)) v p = ground (arith, nth-lt xs n v)
guarded_list_keeps xs (Value.int (negsuc n)) v p = cc
guarded_list_keeps xs (Value.bool true) v p = ground (arith, nth-lt xs 1 v)
guarded_list_keeps xs (Value.bool false) v p = ground (arith, nth-lt xs 0 v)
guarded_list_keeps xs _ v p = cc

-- The whole test, from the value of the array on. A variable called `len` makes the call fail.
checked_avoids :
    (o : Option Value) (x : Value) (m : Result Value)
    → m ≢ raised index_error
    → (apply o "len" (item x nil) >>= λ n. m >>= λ i. guarded x n i) ≢ raised index_error
unfolding builtin
checked_avoids (Option.some w) x m h = cc
checked_avoids Option.none (Value.list xs) m h = bind_avoids m h (guarded_list_avoids xs)
checked_avoids Option.none _ m h = cc

checked_keeps :
    (x : Value) (m m' : Result Value)
    → m ⊑ m'
    → (m >>= λ i. get_item_from_start x i)
      ⊑ (apply Option.none "len" (item x nil) >>= λ n. m' >>= λ i. guarded x n i)
unfolding builtin get_item_from_start get_item
checked_keeps (Value.list xs) m m' h v p = bind_mono m m' h (guarded_list_keeps xs) v p
checked_keeps _ (ok i) m' h v p = cc
checked_keeps _ (raised e) m' h v p = cc

get_attr-ne-index_error : (x : Value) (a : String) → get_attr x a ≢ raised index_error
get_attr-ne-index_error Value.none a = unfold get_attr in cc
get_attr-ne-index_error (Value.obj fields) a =
    get_attr_avoids index_error tt (Value.obj fields) a refl
get_attr-ne-index_error _ a = get_attr_avoids index_error tt _ a refl

module _ (env : Env) where
  abbrev run : Node → Result Value
  run = eval get_item env

  run-at_item :
      (v s : Node) (c : Ctx)
      → run (at_item v s c) ≡ (
          run v >>= λ x. apply (env "len") "len" (item x nil) >>= λ n. run s >>= λ i. guarded x n i)
  unfolding in_bounds eval truthy const_value guarded
  run-at_item v s c = ground arith

  item_avoids :
      (v s : Node) (c : Ctx)
      → run v ≢ raised index_error
      → run s ≢ raised index_error
      → run (at_item v s c) ≢ raised index_error
  item_avoids v s c h k =
      rw run-at_item (bind_avoids _ h λ x. checked_avoids (env "len") x (run s) k)

  attr_avoids :
      (v : Node) (a : String) (c : Ctx)
      → run v ≢ raised index_error
      → run (attribute v a c) ≢ raised index_error
  unfolding eval
  attr_avoids v a c h = bind_avoids _ h λ x. get_attr-ne-index_error x a

  -- With bounds checks inserted, an expression of the modelled fragment never raises IndexError.
  pub insert_bounds_check-avoids :
      (t : Node) → eval get_item env (insert_bounds_check t) ≢ raised index_error
  unfolding insert_bounds_check
  insert_bounds_check-avoids t =
      rw bounds_check-eq-guards
        (guards_avoid env get_item index_error tt attribute at_item attr_avoids item_avoids t)

module _ (env : Env) (builtin_len : env "len" ≡ Option.none) where
  attr_keeps :
      (v v' : Node) (a : String) (c : Ctx)
      → eval get_item_from_start env v ⊑ run env v'
      → eval get_item_from_start env (attribute v a c) ⊑ run env (attribute v' a c)
  unfolding eval
  attr_keeps v v' a c h = bind_mono _ _ h λ x w p. p

  item_keeps :
      (v v' s s' : Node) (c : Ctx)
      → eval get_item_from_start env v ⊑ run env v'
      → eval get_item_from_start env s ⊑ run env s'
      → eval get_item_from_start env (subscript v s c) ⊑ run env (at_item v' s' c)
  unfolding eval
  item_keeps v v' s s' c h k =
      rw (run-at_item, builtin_len) (bind_mono _ _ h λ x. checked_keeps x _ (run env s') k)

  -- An expression that has a value when negative indices are refused has that value with bounds
  -- checks inserted, unless a variable hides `len`.
  pub insert_bounds_check-keeps :
      (t : Node) (v : Value)
      → eval get_item_from_start env t ≡ ok v
      → eval get_item env (insert_bounds_check t) ≡ ok v
  unfolding insert_bounds_check
  insert_bounds_check-keeps t v =
      rw bounds_check-eq-guards
        (guards_keep env get_item_from_start get_item attribute at_item attr_keeps item_keeps t v)
