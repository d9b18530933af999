-- ===== src/Engine/Fitness/Scores.antt =====
-- The scores of the three candidates that the mutations can make.
use living_codebase.Prelude.{◌∙◌, ◌≡◌, ◌≢◌, refl, true, false, if◌then◌else◌, arith}
use living_codebase.Python.Syntax.{Node}
use living_codebase.Python.Targets.{targets_valid}
use living_codebase.Engine.Programs.{buggy_code, mutate_add_bounds_check, mutate_add_null_check}
use living_codebase.Engine.Verifier.{Solver, IsSound, assertions, unknown, verify_with_z3_lem}
use living_codebase.Engine.Fitness.{passes, fitness}

bounds_passes : (t : Node) → passes (mutate_add_bounds_check t) ≡ true
unfolding passes mutate_add_bounds_check
bounds_passes t = refl

null_fails : (t : Node) → passes (mutate_add_null_check t) ≡ false
unfolding passes mutate_add_null_check
null_fails t = refl

buggy_fails : passes buggy_code ≡ false
unfolding passes buggy_code
buggy_fails = refl

module _ (z3 : Solver) (sound : IsSound z3) (decided : z3 assertions ≢ unknown) where
  -- With a sound Z3 that decides the assertions.
  pub fitness_lem :
      (c : Node) → fitness z3 c ≡ (if targets_valid c then (if passes c then 150 else 100) else 0)
  unfolding fitness
  fitness_lem c = ground (arith, verify_with_z3_lem z3 sound decided c)

  pub fitness-bounds : (t : Node) → fitness z3 (mutate_add_bounds_check t) ≡ 150
  fitness-bounds t =
      fitness_lem _ ∙ rw bounds_passes (unfold targets_valid mutate_add_bounds_check in refl)

  pub fitness-null : (t : Node) → fitness z3 (mutate_add_null_check t) ≡ 100
  fitness-null t =
      fitness_lem _ ∙ rw null_fails (unfold targets_valid mutate_add_null_check in refl)

  pub fitness-buggy : fitness z3 buggy_code ≡ 100
  fitness-buggy = fitness_lem _ ∙ rw buggy_fails (unfold targets_valid buggy_code in refl)
