-- ===== src/Population.antt =====
-- healing/mutator.py, `generate_population`: the transformers in place, on objects that a guard may
-- share. `stack` is the number of nested visits that Python's recursion limit allows; `draws` are
-- the values of the calls of `random`.
pub mod Frame
pub mod Rewritings
pub mod Rewritten
pub mod Roots
pub mod Mutated
pub mod Rekinded
pub mod Candidates
pub mod Apart
pub mod Exchanged
use living_codebase.Prelude.{
  ℕ, zero, suc, ◌+◌, ◌%◌, String, Option, none, some, List, [], ◌∷◌, length, map, if◌then◌else◌,
  str_eq,
}
use living_codebase.Prelude.Int.{ℤ, pos, negsuc}
use living_codebase.Python.Syntax.{load, gt, gt_e, is, is_not, Constant, BoolOp}
use living_codebase.Python.Objects.{
  Kind, Address, Object, Memory, Run, ok, M, pure, ◌>>=◌, ◌>>◌, Expr, there, make, end, ◌⨾◌, build,
  set_kind, put_object, visit, deepcopy,
}
use living_codebase.Mutator.{swap_arith, swap_cmp}
use living_codebase.Mutator.Mutate.{Draws, new_literal, int_literal, mutation_ops}

-- `ast.Constant(…)` and `ast.Name(id=x, ctx=ast.Load())`
abbrev pub constant_expr : Constant → Expr
constant_expr c = make (Kind.constant c) end

abbrev pub name_expr : String → Expr
name_expr x = make (Kind.name x load) end

-- `NullCheckInserter`, after the visit of the children
unfoldable pub null_guard_expr : Address → Address → Expr
null_guard_expr value node = make Kind.if_exp (
    make (Kind.compare (is_not ∷ [])) (there value ⨾ constant_expr Constant.none ⨾ end)
    ⨾ there node
    ⨾ constant_expr (Constant.int (pos 0))
    ⨾ end)

abbrev pub null_guard_at : Address → Kind → List Address → M Address
null_guard_at a (Kind.attribute x c) (v ∷ []) = build (null_guard_expr v a)
null_guard_at a (Kind.subscript c) (v ∷ i ∷ []) = build (null_guard_expr v a)
null_guard_at a _ _ = pure a

unfoldable pub insert_null_check_at : Address → M Address
unfolding build null_guard_expr
insert_null_check_at a m = null_guard_at a (m.objects a).kind (m.objects a).children m

-- `BoundsCheckInserter`: `node.slice` is the left side of one comparison and the right side of
-- another.
unfoldable pub bounds_guard_expr : Address → Address → Address → Expr
bounds_guard_expr value index node = make Kind.if_exp (
    make (Kind.bool_op BoolOp.and) (
      make (Kind.compare (gt ∷ []))
        (make (Kind.call 1) (name_expr "len" ⨾ there value ⨾ end) ⨾ there index ⨾ end)
      ⨾ make (Kind.compare (gt_e ∷ [])) (there index ⨾ constant_expr (Constant.int (pos 0)) ⨾ end)
      ⨾ end)
    ⨾ there node
    ⨾ constant_expr (Constant.int (pos 0))
    ⨾ end)

abbrev pub bounds_guard_at : Address → Kind → List Address → M Address
bounds_guard_at a (Kind.subscript c) (v ∷ i ∷ []) = build (bounds_guard_expr v i a)
bounds_guard_at a _ _ = pure a

unfoldable pub insert_bounds_check_at : Address → M Address
unfolding build bounds_guard_expr
insert_bounds_check_at a m = bounds_guard_at a (m.objects a).kind (m.objects a).children m

-- `EarlyReturnAdder`: the guard goes to the front of the body.
unfoldable pub data_guard_expr : Expr
data_guard_expr = make (Kind.if_stmt 1) (
    make (Kind.compare (is ∷ [])) (name_expr "data" ⨾ constant_expr Constant.none ⨾ end)
    ⨾ make Kind.return_stmt (constant_expr (Constant.int (negsuc 0)) ⨾ end)
    ⨾ end)

unfoldable pub put_object_at : Address → Object → M Address
put_object_at a o m = ok a (record m { objects = put_object a o m.objects })

abbrev pub early_return_at : Address → Kind → List Address → M Address
early_return_at a (Kind.function_def f n) (ps ∷ rest) = build data_guard_expr >>= λ guard.
    put_object_at a (record { kind = Kind.function_def f (suc n); children = ps ∷ guard ∷ rest })
early_return_at a _ _ = pure a

unfoldable pub add_early_return_at : Address → M Address
unfolding build data_guard_expr put_object_at
add_early_return_at a m = early_return_at a (m.objects a).kind (m.objects a).children m

-- `OpSwapper`, `ComparisonSwapper` and `LiteralReplacer` change the kind of the node; the new kind
-- may take the value of the next call of `random`.
abbrev pub Rekind : Type 0
Rekind = Kind → ℕ → Kind × ℕ

unfoldable pub swap_operator_kind : Rekind
unfolding swap_arith
swap_operator_kind (Kind.bin_op o) calls = (Kind.bin_op (swap_arith o), calls)
swap_operator_kind k calls = (k, calls)

unfoldable pub swap_comparison_kind : Rekind
unfolding swap_cmp
swap_comparison_kind (Kind.compare os) calls = (Kind.compare (map swap_cmp os), calls)
swap_comparison_kind k calls = (k, calls)

module _ (draws : Draws) where
  abbrev pub redraw_kind : Option ℤ → Constant → ℕ → Kind × ℕ
  redraw_kind (some v) k calls =
      (Kind.constant (Constant.int (new_literal (draws calls) v)), suc calls)
  redraw_kind none k calls = (Kind.constant k, calls)

  unfoldable pub replace_literal_kind : Rekind
  unfolding int_literal
  replace_literal_kind (Kind.constant k) calls = redraw_kind (int_literal k) k calls
  replace_literal_kind k calls = (k, calls)

unfoldable pub rekind_at : Rekind → Address → M Address
unfolding set_kind
rekind_at f a m =
    let r = f (m.objects a).kind m.calls in (set_kind a r.0 >> pure a) (record m { calls = r.1 })

abbrev pub nth_or : ℕ → String → List String → String
nth_or n d [] = d
nth_or zero d (x ∷ xs) = x
nth_or (suc n) d (x ∷ xs) = nth_or n d xs

abbrev pub without : ℕ → List String → List String
without n [] = []
without zero (x ∷ xs) = xs
without (suc n) (x ∷ xs) = x ∷ without n xs

module _ (draws : Draws) where
  -- The next call of `random`, as a number below `n`.
  abbrev pub below : ℕ → M ℕ
  below n m = ok (draws m.calls % n) (record m { calls = suc m.calls })

  -- `random.sample(ops, k)`: one item after the other, each from those that are left, which stay in
  -- their order here, as the documentation leaves open
  unfoldable pub sample : ℕ → List String → M (List String)
  sample zero ops = pure []
  sample (suc k) ops = do
    i ← below (length ops)
    rest ← sample k (without i ops)
    pure (nth_or i "" ops ∷ rest)

  abbrev pub rewrite_of : String → Option (Address → M Address)
  rewrite_of op =
      if str_eq op "insert_null_check"
      then some insert_null_check_at
      else if str_eq op "swap_operator"
      then some (rekind_at swap_operator_kind)
      else if str_eq op "insert_bounds_check"
      then some insert_bounds_check_at
      else if str_eq op "add_early_return"
      then some add_early_return_at
      else if str_eq op "replace_literal"
      then some (rekind_at (replace_literal_kind draws))
      else if str_eq op "swap_comparison"
      then some (rekind_at swap_comparison_kind)
      else none

module _ (draws : Draws) (stack : ℕ) where
  abbrev pub visit_with : Option (Address → M Address) → Address → M Address
  visit_with (some rewrite) a = visit rewrite stack a
  visit_with none a = pure a

  -- `mutate`
  unfoldable pub mutate_objects : String → Address → M Address
  unfolding deepcopy visit insert_null_check_at insert_bounds_check_at add_early_return_at rekind_at
      swap_operator_kind swap_comparison_kind replace_literal_kind
  mutate_objects op tree = deepcopy stack tree >>= visit_with (rewrite_of draws op)

  -- `for op in ops: candidate = self.mutate(candidate, op)`
  unfoldable pub mutate_each : List String → Address → M Address
  unfolding mutate_objects
  mutate_each [] candidate = pure candidate
  mutate_each (op ∷ ops) candidate = mutate_objects op candidate >>= mutate_each ops

  -- A round of the loop of `generate_population`.
  unfoldable pub new_candidate : Address → M Address
  unfolding sample mutate_each deepcopy
  new_candidate original_ast = do
    k ← below draws 2
    ops ← sample draws (1 + k) mutation_ops
    candidate ← deepcopy stack original_ast
    mutate_each ops candidate

  unfoldable pub generate_population : ℕ → Address → M (List Address)
  unfolding new_candidate
  generate_population zero original_ast = pure []
  generate_population (suc size) original_ast = do
    candidate ← new_candidate original_ast
    rest ← generate_population size original_ast
    pure (candidate ∷ rest)
