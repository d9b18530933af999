-- ===== src/Python/Value.antt =====
-- Values of the fragment, and the operations on them. An `int` is unbounded. A true division gives
-- its exact quotient, a numerator over a positive denominator, where Python rounds it to a float and
-- raises OverflowError for a quotient beyond the floats, which the model does not.
use living_codebase.Prelude.{
  ℕ, zero, suc, ◌-◌, String, Bool, true, false, not, Option, if◌then◌else◌, leb, str_eq,
}
use living_codebase.Prelude.Int.{ℤ, pos, negsuc, ◌+ℤ◌, ◌-ℤ◌, ◌*ℤ◌, negate, ltb_ℤ, leb_ℤ, eqb_ℤ}
use living_codebase.Python.Syntax.{
  Operator, add, sub, mult, div, CmpOp, lt, gt, lt_e, gt_e, eq, not_eq, is, is_not, UnaryOp,
}

-- The exceptions. `none_error` is the TypeError or AttributeError of a subscript or an attribute
-- of `None`, `type_error` any other TypeError. `unsupported` has no counterpart in Python: the
-- fragment does not say what happens.
pub data Error : Type 0 where
  index_error none_error type_error zero_division key_error attribute_error unsupported : Error

pub data Result {ℓ} (A : Type ℓ) : Type ℓ where
  ok : A → Result A
  raised : Error → Result A

infixl 5 ◌>>=◌
abbrev pub ◌>>=◌ {ℓ κ} : {A : Type ℓ} {B : Type κ} → Result A → (A → Result B) → Result B
ok a >>= f = f a
raised e >>= f = raised e

mutual
  pub data Value : Type 0 where
    none : Value
    bool : Bool → Value
    int : ℤ → Value
    float : ℤ → ℕ → Value
    str : String → Value
    list : Items → Value
    obj : Attrs → Value

  pub data Items : Type 0 where
    nil : Items
    item : Value → Items → Items

  pub data Attrs : Type 0 where
    no_attrs : Attrs
    attr : String → Value → Attrs → Attrs

unfoldable pub size : Items → ℕ
size nil = 0
size (item x xs) = suc (size xs)

unfoldable pub nth : Items → ℕ → Result Value
nth nil n = raised index_error
nth (item x xs) zero = ok x
nth (item x xs) (suc n) = nth xs n

-- `bool` is a subclass of `int`.
abbrev pub as_int : Value → Option ℤ
as_int (Value.int i) = Option.some i
as_int (Value.bool true) = Option.some (pos 1)
as_int (Value.bool false) = Option.some (pos 0)
as_int _ = Option.none

abbrev pub as_ratio : Value → Option (ℤ × ℕ)
as_ratio (Value.int i) = Option.some (i, 1)
as_ratio (Value.bool true) = Option.some (pos 1, 1)
as_ratio (Value.bool false) = Option.some (pos 0, 1)
as_ratio (float n d) = Option.some (n, d)
as_ratio _ = Option.none

unfoldable pub truthy : Value → Bool
truthy Value.none = false
truthy (Value.bool b) = b
truthy (Value.int i) = not (eqb_ℤ i (pos 0))
truthy (float n d) = not (eqb_ℤ n (pos 0))
truthy (Value.str s) = not (str_eq s "")
truthy (list nil) = false
truthy (list (item x xs)) = true
truthy (obj as') = true

-- `xs[i]`: a negative index counts from the end.
unfoldable pub index_items : Items → ℤ → Result Value
unfolding size nth
index_items xs (pos n) = nth xs n
index_items xs (negsuc n) =
    if leb (suc n) (size xs) then nth xs (size xs - suc n) else raised index_error

abbrev index_or_raise : Items → Option ℤ → Result Value
index_or_raise xs (Option.some i) = index_items xs i
index_or_raise xs Option.none = raised type_error

-- `x[i]`
unfoldable pub get_item : Value → Value → Result Value
unfolding index_items
get_item (list xs) i = index_or_raise xs (as_int i)
get_item Value.none i = raised none_error
get_item (obj as') i = raised unsupported
get_item (Value.str s) i = raised unsupported
get_item _ i = raised type_error

unfoldable pub lookup_attr : String → Attrs → Result Value
lookup_attr a no_attrs = raised attribute_error
lookup_attr a (attr b v as') = if str_eq a b then ok v else lookup_attr a as'

-- `x.a`
unfoldable pub get_attr : Value → String → Result Value
unfolding lookup_attr
get_attr (obj as') a = lookup_attr a as'
get_attr Value.none a = raised none_error
get_attr _ a = raised unsupported

-- Division of integers; the sign moves to the numerator.
unfoldable pub true_div : ℤ → ℤ → Result Value
true_div a (pos zero) = raised zero_division
true_div a (pos (suc d)) = ok (float a (suc d))
true_div a (negsuc d) = ok (float (negate a) (suc d))

abbrev int_op : Operator → ℤ → ℤ → Result Value
int_op add a b = ok (Value.int (a +ℤ b))
int_op sub a b = ok (Value.int (a -ℤ b))
int_op mult a b = ok (Value.int (a *ℤ b))
int_op div a b = true_div a b
int_op (Operator.other k) a b = raised unsupported

abbrev on_ints {ℓ} : {A : Type ℓ} → Option ℤ → Option ℤ → (ℤ → ℤ → Result A) → Result A
on_ints (Option.some a) (Option.some b) f = f a b
on_ints _ _ f = raised unsupported

unfoldable pub binary : Operator → Value → Value → Result Value
unfolding true_div ◌+ℤ◌ ◌-ℤ◌ ◌*ℤ◌
binary o x y = on_ints (as_int x) (as_int y) (int_op o)

abbrev negated : Option ℤ → Result Value
negated (Option.some i) = ok (Value.int (negate i))
negated Option.none = raised unsupported

unfoldable pub unary : UnaryOp → Value → Result Value
unfolding truthy ◌-ℤ◌
unary UnaryOp.not x = ok (Value.bool (not (truthy x)))
unary UnaryOp.u_sub x = negated (as_int x)
unary (UnaryOp.other k) x = raised unsupported

abbrev pub is_none : Value → Bool
is_none Value.none = true
is_none _ = false

-- Numbers compare by their cross products. Any other order is a TypeError, or not in the fragment.
abbrev order_error : Value → Value → Error
order_error Value.none y = type_error
order_error x Value.none = type_error
order_error _ _ = unsupported

abbrev on_ratios : Option (ℤ × ℕ) → Option (ℤ × ℕ) → Error → (ℤ → ℤ → Bool) → Result Bool
on_ratios (Option.some (n, d)) (Option.some (m, e)) err f = ok (f (n *ℤ pos e) (m *ℤ pos d))
on_ratios _ _ err f = raised err

unfoldable pub equal_values : Value → Value → Result Bool
unfolding ◌*ℤ◌
equal_values Value.none y = ok (is_none y)
equal_values (Value.int i) Value.none = ok false
equal_values x y = on_ratios (as_ratio x) (as_ratio y) unsupported eqb_ℤ

-- `is` is in the fragment only against `None`.
abbrev identical : Value → Value → Result Bool
identical x Value.none = ok (is_none x)
identical _ _ = raised unsupported

abbrev negate_result : Result Bool → Result Bool
negate_result (ok b) = ok (not b)
negate_result (raised e) = raised e

unfoldable pub compare_values : CmpOp → Value → Value → Result Bool
unfolding ◌*ℤ◌ equal_values
compare_values lt x y = on_ratios (as_ratio x) (as_ratio y) (order_error x y) ltb_ℤ
compare_values gt x y = on_ratios (as_ratio x) (as_ratio y) (order_error x y) (λ a b. ltb_ℤ b a)
compare_values lt_e x y = on_ratios (as_ratio x) (as_ratio y) (order_error x y) leb_ℤ
compare_values gt_e x y = on_ratios (as_ratio x) (as_ratio y) (order_error x y) (λ a b. leb_ℤ b a)
compare_values eq x y = equal_values x y
compare_values not_eq x y = negate_result (equal_values x y)
compare_values is x y = identical x y
compare_values is_not x y = negate_result (identical x y)
compare_values (CmpOp.other k) x y = raised unsupported
