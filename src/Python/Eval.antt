-- ===== src/Python/Eval.antt =====
-- The value of an expression. The fragment has no side effects: names, constants, attributes,
-- subscripts, operators, comparisons and the builtins `len`, `max` and `min`.
use living_codebase.Prelude.{String, true, false, Option, List, [], ◌∷◌, if◌then◌else◌, str_eq}
use living_codebase.Prelude.Int.{ℤ, pos, ltb_ℤ}
use living_codebase.Python.Syntax.{
  CmpOp, BoolOp, and, or, Constant, Node, Nodes, attribute, subscript, bin_op, unary_op, bool_op,
  compare, call, constant, if_exp, name, end, ◌⨾◌,
}
use living_codebase.Python.Value.{
  Value, Items, list, nil, item, size, Result, ok, raised, type_error, unsupported, ◌>>=◌, as_int,
  truthy, get_attr, binary, unary, compare_values,
}

abbrev pub Env : Type 0
Env = String → Option Value

unfoldable pub const_value : Constant → Result Value
const_value Constant.none = ok Value.none
const_value (Constant.bool b) = ok (Value.bool b)
const_value (Constant.int i) = ok (Value.int i)
const_value (Constant.str s) = ok (Value.str s)
const_value (Constant.other k) = raised unsupported

-- A name that no local variable has may be a global, a builtin or a NameError: what it is bound to
-- outside of the function is not in the fragment.
abbrev pub found : Option Value → Result Value
found (Option.some v) = ok v
found Option.none = raised unsupported

unfoldable pub len : Value → Result Value
unfolding size
len (list xs) = ok (Value.int (pos (size xs)))
len (Value.str s) = raised unsupported
len (Value.obj as') = raised unsupported
len _ = raised type_error

-- `max(x, y)` and `min(x, y)` of integers: the first argument, unless the second is better.
abbrev larger : Option ℤ → Option ℤ → Value → Value → Result Value
larger (Option.some a) (Option.some b) x y = ok (if ltb_ℤ a b then y else x)
larger _ _ x y = raised unsupported

abbrev smaller : Option ℤ → Option ℤ → Value → Value → Result Value
smaller (Option.some a) (Option.some b) x y = ok (if ltb_ℤ b a then y else x)
smaller _ _ x y = raised unsupported

abbrev two_args : (Value → Value → Result Value) → Items → Result Value
two_args f (item x (item y nil)) = f x y
two_args f _ = raised unsupported

abbrev one_arg : (Value → Result Value) → Items → Result Value
one_arg f (item x nil) = f x
one_arg f _ = raised type_error

unfoldable pub builtin : String → Items → Result Value
unfolding len
builtin f xs =
    if str_eq f "len"
    then one_arg len xs
    else if str_eq f "max"
    then two_args (λ x y. larger (as_int x) (as_int y) x y) xs
    else if str_eq f "min"
    then two_args (λ x y. smaller (as_int x) (as_int y) x y) xs
    else raised unsupported

-- A local variable of the builtin's name hides it; no value of the fragment can be called. No global
-- of the module has the name of a builtin.
abbrev pub apply : Option Value → String → Items → Result Value
apply (Option.some v) f xs = raised type_error
apply Option.none f xs = builtin f xs

-- `get` is the meaning of a subscript.
module _ (get : Value → Value → Result Value) (env : Env) where
  unfoldable mutual
    pub eval : Node → Result Value
    eval (attribute v a c) = do x ← eval v; get_attr x a
    eval (subscript v s c) = do x ← eval v; i ← eval s; get x i
    eval (bin_op l o r) = do x ← eval l; y ← eval r; binary o x y
    eval (unary_op o e) = do x ← eval e; unary o x
    eval (bool_op o es) = eval_bool es o
    eval (compare l os rs) = do x ← eval l; eval_chain rs x os
    eval (call (name f c) args end) = do xs ← eval_all args; apply (env f) f xs
    eval (constant k) = const_value k
    eval (if_exp t b o) = do x ← eval t; elim (truthy x) [ true ↦ eval b | false ↦ eval o ]
    eval (name x c) = found (env x)
    eval _ = raised unsupported

    pub eval_all : Nodes → Result Items
    eval_all end = ok nil
    eval_all (e ⨾ es) = do x ← eval e; xs ← eval_all es; ok (item x xs)

    -- `x op₁ e₁ op₂ e₂ …` stops at the first comparison that fails.
    pub eval_chain : Nodes → Value → List CmpOp → Result Value
    eval_chain end x os = ok (Value.bool true)
    eval_chain (e ⨾ es) x [] = raised unsupported
    eval_chain (e ⨾ es) x (o ∷ os) = do
      y ← eval e
      b ← compare_values o x y
      elim b [ true ↦ eval_chain es y os | false ↦ ok (Value.bool false) ]

    -- `and` and `or` give the operand that decides.
    pub eval_bool : Nodes → BoolOp → Result Value
    eval_bool end o = raised unsupported
    eval_bool (e ⨾ end) o = eval e
    eval_bool (e ⨾ es) and = do
      x ← eval e
      elim (truthy x) [ true ↦ eval_bool es and | false ↦ ok x ]
    eval_bool (e ⨾ es) or = do x ← eval e; elim (truthy x) [ true ↦ ok x | false ↦ eval_bool es or ]
