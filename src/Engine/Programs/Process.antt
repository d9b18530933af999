-- ===== src/Engine/Programs/Process.antt =====
-- What the three versions of `process` return, for every list of integers and every index.
use living_codebase.Prelude.{
  sym, ◌≡◌, ◌∙◌, ◌<◌, ◌≤◌, ◌-◌, ℕ, zero, suc, refl, ap, List, [], ◌∷◌, length, true, false, ltb,
  if◌then◌else◌, Option, some, none, Option-cases, inl, inr, arith,
}
use living_codebase.Prelude.Int.{ℤ, pos, negsuc, ltb_ℤ}
use living_codebase.Python.Syntax.{sub, div, eq, not_eq, is}
use living_codebase.Python.Value.{
  Value, Items, nil, item, float, list, size, nth, Result, ok, raised, index_error, truthy,
  get_item, index_items, binary, unary, compare_values,
}
use living_codebase.Python.Eval.{eval, const_value, builtin}
use living_codebase.Python.Exec.{call_function, call_by}
use living_codebase.Engine.Programs.{buggy_process, bounds_process, null_process}

-- A Python list of integers.
abbrev pub ints : List ℤ → Items
ints [] = nil
ints (x ∷ xs) = item (Value.int x) (ints xs)

unfoldable pub data_list : List ℤ → Value
data_list xs = list (ints xs)

size-ints : (xs : List ℤ) → size (ints xs) ≡ length xs
unfolding size
size-ints [] = refl
size-ints (x ∷ xs) = ap suc (size-ints xs)

abbrev pub get_or : List ℤ → ℕ → ℤ → ℤ
get_or [] n d = d
get_or (x ∷ xs) zero d = x
get_or (x ∷ xs) (suc n) d = get_or xs n d

nth-ints :
    (xs : List ℤ) (n : ℕ) → n < length xs → nth (ints xs) n ≡ ok (Value.int (get_or xs n (pos 0)))
unfolding nth
nth-ints [] n h = absurd (omega arith)
nth-ints (x ∷ xs) zero h = refl
nth-ints (x ∷ xs) (suc n) h = nth-ints xs n (omega arith)

nth-ints_past : (xs : List ℤ) (n : ℕ) → length xs ≤ n → nth (ints xs) n ≡ raised index_error
unfolding nth
nth-ints_past [] n h = refl
nth-ints_past (x ∷ xs) zero h = absurd (omega arith)
nth-ints_past (x ∷ xs) (suc n) h = nth-ints_past xs n (omega arith)

-- `xs[i]`, where a negative index counts from the end; `none` outside the list.
unfoldable pub pick : List ℤ → ℤ → Option ℤ
pick xs (pos n) = if ltb n (length xs) then some (get_or xs n (pos 0)) else none
pick xs (negsuc n) =
    if ltb n (length xs) then some (get_or xs (length xs - suc n) (pos 0)) else none

abbrev pub int_or_fail : Option ℤ → Result Value
int_or_fail (some v) = ok (Value.int v)
int_or_fail none = raised index_error

index-ints : (xs : List ℤ) (i : ℤ) → index_items (ints xs) i ≡ int_or_fail (pick xs i)
unfolding index_items pick
index-ints xs (pos n) = ground (arith, nth-ints xs n, nth-ints_past xs n)
index-ints xs (negsuc n) = ground (arith, size-ints xs, nth-ints xs (length xs - suc n))

-- `xs[i] / len(xs)`, or the IndexError.
abbrev share_or_fail : Option ℤ → ℕ → Result Value
share_or_fail (some v) n = ok (float v n)
share_or_fail none n = raised index_error

abbrev pub share : List ℤ → ℤ → Result Value
share xs i = share_or_fail (pick xs i) (length xs)

pick-nil : (i : ℤ) → pick [] i ≡ none
unfolding pick
pick-nil (pos n) = ground arith
pick-nil (negsuc n) = ground arith

-- For every list of integers and every index the buggy program divides the item at the index by the
-- length of the list, and raises IndexError for an index outside the list: also for the empty one,
-- so that it never divides by zero.
pub buggy_process_lem :
    (xs : List ℤ) (i : ℤ)
    → call_function buggy_process (data_list xs ∷ Value.int i ∷ []) ≡ share xs i
unfolding call_by buggy_process eval data_list const_value get_item binary builtin
buggy_process_lem [] i = rw (index-ints [] i) (rw (pick-nil i))
buggy_process_lem (x ∷ xs) i =
    rw (index-ints (x ∷ xs) i)
      (elim (Option-cases (pick (x ∷ xs) i)) [ inl e ↦ rw e | inr (v, e) ↦ rw (e, size-ints xs) ])

-- The index moved into the list: 0 if it is negative, the last one if it is too large.
unfoldable pub clamp : ℤ → ℕ → ℕ
clamp (pos n) len = if ltb (len - 1) n then len - 1 else n
clamp (negsuc n) len = 0

unfoldable pub bounds_result : List ℤ → ℤ → Result Value
bounds_result [] i = ok (Value.int (pos 0))
bounds_result (x ∷ xs) i = share (x ∷ xs) (pos (clamp i (length (x ∷ xs))))

pub len-ints :
    (xs : List ℤ) → builtin "len" (item (list (ints xs)) nil) ≡ ok (Value.int (pos (length xs)))
unfolding builtin
len-ints xs = rw (size-ints xs)

sub-one_int :
    (n : ℕ) → binary sub (Value.int (pos (suc n))) (Value.int (pos 1)) ≡ ok (Value.int (pos n))
unfolding binary
sub-one_int n = ground arith

abbrev lower : ℤ → ℕ → ℤ
lower i n = if ltb_ℤ (pos n) i then pos n else i

min-ints :
    (i : ℤ) (n : ℕ)
    → builtin "min" (item (Value.int i) (item (Value.int (pos n)) nil)) ≡ ok (Value.int (lower i n))
unfolding builtin
min-ints i n = ground arith

max-lower :
    (i : ℤ) (n : ℕ)
    → builtin "max" (item (Value.int (pos 0)) (item (Value.int (lower i n)) nil))
      ≡ ok (Value.int (pos (clamp i (suc n))))
unfolding builtin clamp
max-lower i n = ground arith

pub get_item-ints :
    (xs : List ℤ) (i : ℤ) → get_item (list (ints xs)) (Value.int i) ≡ int_or_fail (pick xs i)
unfolding get_item
get_item-ints xs i = index-ints xs i

pick-clamp :
    (x : ℤ) (xs : List ℤ) (i : ℤ)
    → let n = clamp i (suc (length xs)) in pick (x ∷ xs) (pos n) ≡ some (get_or (x ∷ xs) n (pos 0))
unfolding pick clamp
pick-clamp x xs (pos n) = ground arith
pick-clamp x xs (negsuc n) = ground arith

suc-ne-zero :
    (n : ℕ) → compare_values not_eq (Value.int (pos (suc n))) (Value.int (pos 0)) ≡ ok true
unfolding compare_values
suc-ne-zero n = ground arith

pub div-suc :
    (v : ℤ) (n : ℕ) → binary div (Value.int v) (Value.int (pos (suc n))) ≡ ok (float v (suc n))
unfolding binary
div-suc v n = refl

ruleset steps =
    (len-ints, sub-one_int, min-ints, max-lower, get_item-ints, pick-clamp, suc-ne-zero, div-suc)

-- For every list of integers and every index the program with bounds checks returns 0 for the empty
-- list, and for any other the item at the index, moved into the list, divided by the length.
pub bounds_process_lem :
    (xs : List ℤ) (i : ℤ)
    → call_function bounds_process (data_list xs ∷ Value.int i ∷ []) ≡ bounds_result xs i
unfolding call_by bounds_process eval data_list const_value unary truthy bounds_result
bounds_process_lem [] i = refl
bounds_process_lem (x ∷ xs) i = simp steps

unfoldable pub null_result : List ℤ → ℤ → Result Value
null_result [] i = ok (Value.int (pos 0))
null_result (x ∷ xs) i = share (x ∷ xs) i

equal-zero : (n : ℕ) → compare_values eq (Value.int (pos (suc n))) (Value.int (pos 0)) ≡ ok false
unfolding compare_values
equal-zero n = ground arith

is-none : (xs : List ℤ) → compare_values is (list (ints xs)) Value.none ≡ ok false
unfolding compare_values
is-none xs = refl

-- For every list of integers and every index the program with null checks returns 0 for the empty
-- list, and is otherwise the buggy program: an index outside the list still raises IndexError.
pub null_process_lem :
    (xs : List ℤ) (i : ℤ)
    → call_function null_process (data_list xs ∷ Value.int i ∷ []) ≡ null_result xs i
unfolding call_by null_process eval data_list const_value truthy null_result
null_process_lem [] i = unfold compare_values builtin in refl
null_process_lem (x ∷ xs) i = elim (Option-cases (pick (x ∷ xs) i)) [
  | inl e ↦ simp (steps, equal-zero, is-none (x ∷ xs), e)
  | inr (v, e) ↦ simp (steps, equal-zero, is-none (x ∷ xs), e)
]

-- For every list of integers, at an index from 0 to the last, the program with bounds checks agrees
-- with the buggy one.
pub bounds_process-eq-buggy_process :
    (xs : List ℤ) (n : ℕ)
    → n < length xs
    → call_function bounds_process (data_list xs ∷ Value.int (pos n) ∷ [])
      ≡ call_function buggy_process (data_list xs ∷ Value.int (pos n) ∷ [])
unfolding bounds_result clamp
bounds_process-eq-buggy_process [] n h = absurd (omega arith)
bounds_process-eq-buggy_process (x ∷ xs) n h =
    bounds_process_lem (x ∷ xs) (pos n) ∙ (ground arith ∙ sym (buggy_process_lem (x ∷ xs) (pos n)))
