-- ===== src/Engine/Programs/Guarded.antt =====
-- The patch engine's buggy program with the bounds checks of healing/mutator.py.
use living_codebase.Prelude.{
  ◌≡◌, ◌∙◌, ℕ, refl, List, [], ◌∷◌, length, true, false, ltb, if◌then◌else◌, Bool-cases, inl, inr,
  arith,
}
use living_codebase.Prelude.Int.{ℤ, pos, negsuc}
use living_codebase.Python.Syntax.{gt, gt_e, div}
use living_codebase.Python.Value.{
  Value, float, list, Result, ok, raised, zero_division, truthy, get_item, binary, compare_values,
}
use living_codebase.Python.Eval.{eval, const_value}
use living_codebase.Python.Exec.{call_by, call_function}
use living_codebase.Mutator.{insert_bounds_check, bounds_check, in_bounds}
use living_codebase.Engine.Programs.{buggy_process}
use living_codebase.Engine.Programs.Process.{
  data_list, get_or, ints, pick, len-ints, get_item-ints, div-suc,
}

-- The item at an index from 0 on, or 0, divided by the length.
unfoldable pub guarded_share : List ℤ → ℤ → Result Value
guarded_share [] i = raised zero_division
guarded_share (x ∷ xs) (pos n) =
    ok (
      float (if ltb n (length (x ∷ xs)) then get_or (x ∷ xs) n (pos 0) else pos 0)
        (length (x ∷ xs)))
guarded_share (x ∷ xs) (negsuc n) = ok (float (pos 0) (length (x ∷ xs)))

gt-pos : (m n : ℕ) → compare_values gt (Value.int (pos m)) (Value.int (pos n)) ≡ ok (ltb n m)
unfolding compare_values
gt-pos m n = ground arith

gt-negsuc : (m n : ℕ) → compare_values gt (Value.int (pos m)) (Value.int (negsuc n)) ≡ ok true
unfolding compare_values
gt-negsuc m n = ground arith

gt_e-pos : (n : ℕ) → compare_values gt_e (Value.int (pos n)) (Value.int (pos 0)) ≡ ok true
unfolding compare_values
gt_e-pos n = ground arith

gt_e-negsuc : (n : ℕ) → compare_values gt_e (Value.int (negsuc n)) (Value.int (pos 0)) ≡ ok false
unfolding compare_values
gt_e-negsuc n = ground arith

div-zero : (v : ℤ) → binary div (Value.int v) (Value.int (pos 0)) ≡ raised zero_division
unfolding binary
div-zero v = refl

item-inside :
    (xs : List ℤ) (n : ℕ)
    → ltb n (length xs) ≡ true
    → get_item (list (ints xs)) (Value.int (pos n)) ≡ ok (Value.int (get_or xs n (pos 0)))
unfolding pick
item-inside xs n h = get_item-ints xs (pos n) ∙ rw h

ltb-zero : (n : ℕ) → ltb n 0 ≡ false
ltb-zero n = ground arith

ruleset guard_steps =
    (ltb-zero, len-ints, gt-pos, gt-negsuc, gt_e-pos, gt_e-negsuc, div-zero, div-suc)

-- For every list of integers and every index the buggy program with the mutator's bounds checks
-- divides the item at the index by the length, or 0 where the index is negative or past the end; for
-- the empty list it raises ZeroDivisionError.
pub guarded_buggy_process_lem :
    (xs : List ℤ) (i : ℤ)
    → call_function (insert_bounds_check buggy_process) (data_list xs ∷ Value.int i ∷ [])
      ≡ guarded_share xs i
unfolding call_by buggy_process eval data_list const_value insert_bounds_check bounds_check
    in_bounds truthy guarded_share
guarded_buggy_process_lem [] (pos n) = simp guard_steps
guarded_buggy_process_lem [] (negsuc n) = simp guard_steps
guarded_buggy_process_lem (x ∷ xs) (pos n) = elim (Bool-cases (ltb n (length (x ∷ xs)))) [
  | inl e ↦ simp (guard_steps, item-inside (x ∷ xs) n e, e)
  | inr e ↦ simp (guard_steps, e)
]
guarded_buggy_process_lem (x ∷ xs) (negsuc n) = simp guard_steps
