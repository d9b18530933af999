-- ===== src/Engine/Verifier.antt =====
-- `verify_with_z3` of healing/patch_engine.py. Z3 is a parameter: a function from a constraint on
-- the two integers `idx` and `size` to its answer.
use living_codebase.Prelude.{◌≡◌, ◌≢◌, ℕ, Bool, true, false, ◌&&◌, ◌||◌, if◌then◌else◌, arith, refl}
use living_codebase.Prelude.Int.{ℤ, pos, negsuc, ◌-ℤ◌, ltb_ℤ, leb_ℤ, eqb_ℤ}
use living_codebase.Python.Syntax.{Node}

pub data Answer : Type 0 where
  sat unsat unknown : Answer

abbrev pub is_sat : Answer → Bool
is_sat sat = true
is_sat _ = false

-- A constraint, as its truth for each `idx` and `size`.
abbrev pub Constraint : Type 0
Constraint = ℤ → ℤ → Bool

abbrev pub Solver : Type 0
Solver = Constraint → Answer

-- What Z3 promises: `sat` means that there is a model, and `unsat` that there is none.
pub record IsSound (z3 : Solver) : Type 0 where
  pub model : (c : Constraint) → z3 c ≡ sat → ∥ ((idx : ℤ) × (size : ℤ) × (c idx size ≡ true)) ∥₁
  pub no_model : (c : Constraint) → z3 c ≡ unsat → (idx size : ℤ) → c idx size ≡ false

-- `If(idx < 0, 0, If(idx >= size, size - 1, idx))`
unfoldable pub clamped : ℤ → ℤ → ℤ
unfolding ◌-ℤ◌
clamped idx size =
    if ltb_ℤ idx (pos 0) then pos 0 else if leb_ℤ size idx then size -ℤ pos 1 else idx

-- `clamped >= 0` and `clamped < If(size == 0, 1, size)`
unfoldable pub in_range : Constraint
unfolding clamped
in_range idx size =
    leb_ℤ (pos 0) (clamped idx size)
    && ltb_ℤ (clamped idx size) (if eqb_ℤ size (pos 0) then pos 1 else size)

-- `size >= 0` and `Or(idx < 0, idx >= size)`
unfoldable pub adversarial : Constraint
adversarial idx size = leb_ℤ (pos 0) size && (ltb_ℤ idx (pos 0) || leb_ℤ size idx)

-- All that `verify_with_z3` adds to its solver.
unfoldable pub assertions : Constraint
unfolding adversarial in_range
assertions idx size = adversarial idx size && in_range idx size

pub answer_sat : (a : Answer) → (a ≡ unsat → ⊥) → a ≢ unknown → is_sat a ≡ true
answer_sat sat h k = refl
answer_sat unsat h k = absurd (h refl)
answer_sat unknown h k = absurd (k refl)

module _ (z3 : Solver) where
  -- The candidate's source is an argument of the function, and is not used.
  unfoldable pub verify_with_z3 : Node → ℕ
  verify_with_z3 candidate = if is_sat (z3 assertions) then 90 else 0

  -- With a sound Z3 that decides the assertions the score is 90, whatever the candidate.
  pub verify_with_z3_lem :
      IsSound z3 → z3 assertions ≢ unknown → (candidate : Node) → verify_with_z3 candidate ≡ 90
  unfolding verify_with_z3 assertions
  verify_with_z3_lem sound decided candidate = rw (
      answer_sat (z3 assertions) (λ e. cc (sound.no_model assertions e (negsuc 0) (pos 1))) decided)

-- The assertions have a model although the clamped index is out of range for another adversarial
-- input, the empty list: an answer `sat` does not say that every index is moved into range.
pub assertions_do_not_verify :
    ((idx : ℤ) × (size : ℤ) × (assertions idx size ≡ true))
    × ((idx : ℤ) × (size : ℤ) × (adversarial idx size ≡ true) × (in_range idx size ≡ false))
unfolding assertions
assertions_do_not_verify = ((negsuc 0, pos 1, refl), (pos 0, pos 0, refl, refl))

-- For every size of at least 1 and every index the clamped index is in range.
pub in_range_nonempty : (idx size : ℤ) → leb_ℤ (pos 1) size ≡ true → in_range idx size ≡ true
unfolding in_range
in_range_nonempty idx size h = ground arith
