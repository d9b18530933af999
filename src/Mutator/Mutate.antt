-- ===== src/Mutator/Mutate.antt =====
-- healing/mutator.py: `_replace_literal`, which is random, and `mutate`, which picks a transformer
-- by its name.
pub mod Literals
pub mod Targets
use mathlib.Core.Path.{◌≡◌}
use living_codebase.Prelude.{
  ℕ, zero, suc, ◌%◌, String, Bool, true, false, Option, none, some, List, [], ◌∷◌, if◌then◌else◌,
  str_eq,
}
use living_codebase.Prelude.Int.{ℤ, pos, negsuc, ◌+ℤ◌, negate, ◌-ℤ◌}
use living_codebase.Python.Syntax.{Node, constant, Constant}
use living_codebase.Python.StateVisitor.{visit_state}
use living_codebase.Mutator.{
  insert_null_check, swap_operator, insert_bounds_check, add_early_return, swap_comparison,
}

-- The k-th call of `random.choice` picks the item at index `draws k % len(items)`.
abbrev pub Draws : Type 0
Draws = ℕ → ℕ

abbrev third : ℕ → ℤ → ℤ
third zero v = negsuc 0
third (suc zero) v = pos 1
third (suc (suc n)) v = negate v

-- `value + random.choice([-1, 1, -value])`
unfoldable pub new_literal : ℕ → ℤ → ℤ
unfolding ◌+ℤ◌ ◌-ℤ◌
new_literal draw v = v +ℤ third (draw % 3) v

-- `isinstance(value, int)`, which a `bool` meets too
unfoldable pub int_literal : Constant → Option ℤ
int_literal (Constant.int i) = some i
int_literal (Constant.bool true) = some (pos 1)
int_literal (Constant.bool false) = some (pos 0)
int_literal _ = none

module _ (draws : Draws) where
  abbrev pub redraw : Option ℤ → Constant → ℕ → Node × ℕ
  redraw (some v) k calls = (constant (Constant.int (new_literal (draws calls) v)), suc calls)
  redraw none k calls = (constant k, calls)

  -- `LiteralReplacer`; the state counts the calls of `random.choice`
  unfoldable pub literal_replace : Node → ℕ → Node × ℕ
  unfolding int_literal
  literal_replace (constant k) calls = redraw (int_literal k) k calls
  literal_replace n calls = (n, calls)

  unfoldable pub replace_literal : Node → ℕ → Node × ℕ
  unfolding literal_replace visit_state
  replace_literal = visit_state literal_replace

  unfoldable pub mutate : Node → String → ℕ → Node × ℕ
  mutate tree op calls =
      if str_eq op "insert_null_check"
      then (insert_null_check tree, calls)
      else if str_eq op "swap_operator"
      then (swap_operator tree, calls)
      else if str_eq op "insert_bounds_check"
      then (insert_bounds_check tree, calls)
      else if str_eq op "add_early_return"
      then (add_early_return tree, calls)
      else if str_eq op "replace_literal"
      then replace_literal tree calls
      else if str_eq op "swap_comparison"
      then (swap_comparison tree, calls)
      else (tree, calls)

  -- `for op in ops: candidate = self.mutate(candidate, op)`
  unfoldable pub mutate_all : List String → Node → ℕ → Node × ℕ
  unfolding mutate
  mutate_all [] candidate calls = (candidate, calls)
  mutate_all (op ∷ ops) candidate calls =
      let (candidate', calls') = mutate candidate op calls in mutate_all ops candidate' calls'

-- `MUTATION_OPS`
abbrev pub mutation_ops : List String
mutation_ops =
    "swap_operator" ∷ "insert_null_check" ∷ "insert_bounds_check" ∷ "replace_literal"
    ∷ "swap_comparison" ∷ "add_early_return" ∷ []
