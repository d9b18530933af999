-- ===== src/Python/Laws.antt =====
-- Sequencing of results, and which operations can raise which exceptions.
use mathlib.Core.Path.{ap₂}
use living_codebase.Prelude.{
  fun_ext, ◌≡◌, ◌≢◌, ◌-◌, refl, arith, ℕ, zero, suc, String, Bool, true, false, Option,
}
use living_codebase.Prelude.Int.{ℤ, pos, negsuc}
use living_codebase.Python.Syntax.{Operator, CmpOp, UnaryOp, Constant}
use living_codebase.Python.Value.{
  Error, index_error, none_error, unsupported, Value, Items, nil, item, Attrs, no_attrs, attr,
  is_none, lookup_attr, get_attr, nth, index_items, get_item, size, Result, ok, raised, ◌>>=◌,
  binary, unary, compare_values,
}
use living_codebase.Python.Eval.{const_value, builtin, apply, found}

module _ {ℓ κ} {A : Type ℓ} {B : Type κ} {e : Error} {f : A → Result B} where
  pub bind_avoids :
      (m : Result A) → m ≢ raised e → ((a : A) → f a ≢ raised e) → (m >>= f) ≢ raised e
  bind_avoids (ok a) h k = k a
  bind_avoids (raised e') h k = λ p. h (cc)

module _ {ℓ κ} {A : Type ℓ} {B : Type κ} {f f' : A → Result B} where
  pub bind_ext : (m m' : Result A) → m ≡ m' → ((a : A) → f a ≡ f' a) → (m >>= f) ≡ (m' >>= f')
  bind_ext m m' p q = ap₂ (λ (x : Result A) (k : A → Result B). x >>= k) p (fun_ext q)

module _ {ℓ} {A : Type ℓ} where
  pub branch_ext :
      (b : Bool) {x x' y y' : A}
      → x ≡ x'
      → y ≡ y'
      → elim b [ true ↦ x | false ↦ y ] ≡ elim b [ true ↦ x' | false ↦ y' ]
  branch_ext true p q = p
  branch_ext false p q = q

-- Whatever the left result gives, the right one gives too.
infix 4 ◌⊑◌
abbrev pub ◌⊑◌ {ℓ} : {A : Type ℓ} → Result A → Result A → Type ℓ
◌⊑◌ {A} m m' = (a : A) → m ≡ ok a → m' ≡ ok a

module _ {ℓ κ} {A : Type ℓ} {B : Type κ} {f f' : A → Result B} where
  pub bind_mono : (m m' : Result A) → m ⊑ m' → ((a : A) → f a ⊑ f' a) → (m >>= f) ⊑ (m' >>= f')
  bind_mono (ok a) m' h k b p = rw (h a refl) (k a b p)
  bind_mono (raised e) m' h k b p = cc

module _ {ℓ} {A : Type ℓ} where
  pub branch_mono :
      (b : Bool) {x x' y y' : Result A}
      → x ⊑ x'
      → y ⊑ y'
      → elim b [ true ↦ x | false ↦ y ] ⊑ elim b [ true ↦ x' | false ↦ y' ]
  branch_mono true h k = h
  branch_mono false h k = k

module _ {ℓ} {A : Type ℓ} {e : Error} where
  -- Both branches of a test on a computed value.
  pub branch_avoids :
      (b : Bool) {x y : Result A}
      → (b ≡ true → x ≢ raised e)
      → (b ≡ false → y ≢ raised e)
      → elim b [ true ↦ x | false ↦ y ] ≢ raised e
  branch_avoids true h k = h refl
  branch_avoids false h k = k refl

-- The two exceptions that the guards are about.
abbrev pub IsGuarded : Error → Type 0
IsGuarded index_error = Unit
IsGuarded none_error = Unit
IsGuarded _ = ⊥

module _ (e : Error) (g : IsGuarded e) where
  pub const_value_avoids : (k : Constant) → const_value k ≢ raised e
  unfolding const_value
  const_value_avoids k = ground arith

  pub binary_avoids : (o : Operator) (x y : Value) → binary o x y ≢ raised e
  unfolding binary
  binary_avoids o x y = ground arith

  pub unary_avoids : (o : UnaryOp) (x : Value) → unary o x ≢ raised e
  unfolding unary
  unary_avoids o x = ground arith

  pub compare_values_avoids : (o : CmpOp) (x y : Value) → compare_values o x y ≢ raised e
  unfolding compare_values
  compare_values_avoids o x y = ground arith

  pub builtin_avoids : (f : String) (xs : Items) → builtin f xs ≢ raised e
  unfolding builtin
  builtin_avoids f xs = ground arith

  pub apply_avoids : (o : Option Value) (f : String) (xs : Items) → apply o f xs ≢ raised e
  apply_avoids o f xs = ground (arith, builtin_avoids f xs)

  pub found_avoids : (o : Option Value) → found o ≢ raised e
  found_avoids o = ground arith

  lookup_attr_avoids : (a : String) (fields : Attrs) → lookup_attr a fields ≢ raised e
  unfolding lookup_attr
  lookup_attr_avoids a no_attrs = ground arith
  lookup_attr_avoids a (attr b v fields) = ground (arith, lookup_attr_avoids a fields)

  pub get_attr_avoids : (x : Value) (a : String) → is_none x ≡ false → get_attr x a ≢ raised e
  unfolding get_attr
  get_attr_avoids (Value.obj fields) a h = lookup_attr_avoids a fields
  get_attr_avoids _ a h = ground arith

-- An index raises IndexError and nothing else.
nth_avoids : (xs : Items) (n : ℕ) → nth xs n ≢ raised none_error
unfolding nth
nth_avoids nil n = cc
nth_avoids (item x xs) zero = cc
nth_avoids (item x xs) (suc n) = nth_avoids xs n

index_items_avoids : (xs : Items) (i : ℤ) → index_items xs i ≢ raised none_error
unfolding index_items
index_items_avoids xs (pos n) = nth_avoids xs n
index_items_avoids xs (negsuc n) = ground (arith, nth_avoids xs (size xs - suc n))

pub get_item_avoids : (x i : Value) → is_none x ≡ false → get_item x i ≢ raised none_error
unfolding get_item
get_item_avoids (Value.list xs) (Value.int i) h = index_items_avoids xs i
get_item_avoids (Value.list xs) (Value.bool true) h = index_items_avoids xs (pos 1)
get_item_avoids (Value.list xs) (Value.bool false) h = index_items_avoids xs (pos 0)
get_item_avoids (Value.list xs) _ h = cc
get_item_avoids _ i h = ground arith

pub unsupported_avoids {ℓ} :
    {A : Type ℓ} (e : Error) → IsGuarded e → ◌≢◌ {A = Result A} (raised unsupported) (raised e)
unsupported_avoids e g = ground arith
