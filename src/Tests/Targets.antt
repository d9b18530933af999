-- ===== src/Tests/Targets.antt =====
-- Guards and the targets of assignments.
use living_codebase.Prelude.{◌≡◌, ◌&&◌}
use living_codebase.Prelude.Int.{pos}
use living_codebase.Python.Syntax.{
  load, store, Node, subscript, name, constant, Constant, assign, end, ◌⨾◌,
}
use living_codebase.Python.Targets.{targets_valid}
use living_codebase.Mutator.Mutate.{mutate}
use living_codebase.Mutator.Mutate.Targets.{keeps_targets, mutate-targets_valid}

-- `data[index] = 7`
abbrev item_assigned : Node
item_assigned =
    assign (subscript (name "data" load) (name "index" load) store ⨾ end)
      (constant (Constant.int (pos 7)))

mutate-targets_valid_example :
    targets_valid (mutate (λ k. 0) item_assigned "insert_bounds_check" 0).0
    ≡ (targets_valid item_assigned && keeps_targets "insert_bounds_check" item_assigned)
mutate-targets_valid_example = mutate-targets_valid (λ k. 0) item_assigned "insert_bounds_check" 0
