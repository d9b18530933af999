-- ===== src/Mutator/Kept.antt =====
-- Bounds checks in whole functions, where negative indices are refused and no parameter or
-- assignment hides `len`.
use living_codebase.Prelude.{
  ◌≡◌, refl, arith, String, Bool, List, [], ◌∷◌, true, false, not, ◌&&◌, str_eq, none,
}
use living_codebase.Python.Syntax.{
  Node, Nodes, name, assign, if_stmt, return_stmt, function_def, arguments, end, ◌⨾◌,
}
use living_codebase.Python.Visitor.{visit, visit_all}
use living_codebase.Python.Value.{Value, Result, ok, raised, ◌>>=◌, truthy, get_item}
use living_codebase.Python.Eval.{Env, eval}
use living_codebase.Python.Exec.{Flow, next, returned, exec_by, exec_block_by}
use living_codebase.Python.Laws.{bind_mono, branch_mono, ◌⊑◌}
use living_codebase.Mutator.{bounds_check, insert_bounds_check}
use living_codebase.Mutator.BoundsCheck.{get_item_from_start, insert_bounds_check-keeps}

-- Statements that do not assign to the name.
unfoldable mutual
  pub leaves : String → Node → Bool
  leaves x (assign (name y c ⨾ end) e) = not (str_eq y x)
  leaves x (if_stmt t b o) = leaves_all x b && leaves_all x o
  leaves x _ = true

  pub leaves_all : String → Nodes → Bool
  leaves_all x end = true
  leaves_all x (s ⨾ b) = leaves x s && leaves_all x b

abbrev pub none_of : String → List String → Bool
none_of x [] = true
none_of x (y ∷ ys) = not (str_eq y x) && none_of x ys

-- A function that binds the name nowhere.
unfoldable pub function_leaves : String → Node → Bool
unfolding leaves
function_leaves x (function_def f (arguments xs end) body ds) = none_of x xs && leaves_all x body
function_leaves x _ = true

-- Where a block goes on, the name is still unbound.
abbrev Unbound : String → Flow → Type 0
Unbound x (next env) = env x ≡ none
Unbound x (returned v) = Unit

-- What holds of the value, if there is one.
abbrev Gives {ℓ} : {A : Type ℓ} → (A → Type 0) → Result A → Type 0
Gives P (ok a) = P a
Gives P (raised e) = Unit

module _ {ℓ κ} {A : Type ℓ} {B : Type κ} where
  bind-Gives :
      (P : B → Type 0) (m : Result A) (f : A → Result B)
      → ((a : A) → m ≡ ok a → Gives P (f a))
      → Gives P (m >>= f)
  bind-Gives P (ok a) f h = h a refl
  bind-Gives P (raised e) f h = tt

  bind_mono_at :
      (m m' : Result A) (f f' : A → Result B)
      → m ⊑ m'
      → ((a : A) → m ≡ ok a → f a ⊑ f' a)
      → (m >>= f) ⊑ (m' >>= f')
  bind_mono_at (ok a) m' f f' h k b p = rw (h a refl) (k a refl b p)
  bind_mono_at (raised e) m' f f' h k b p = cc

branch-Gives :
    (P : Flow → Type 0) (b : Bool) (m m' : Result Flow)
    → Gives P m
    → Gives P m'
    → Gives P (elim b [ true ↦ m | false ↦ m' ])
branch-Gives P true m m' h k = h
branch-Gives P false m m' h k = k

and_left : (a b : Bool) → (a && b) ≡ true → a ≡ true
and_left a b h = ground arith

and_right : (a b : Bool) → (a && b) ≡ true → b ≡ true
and_right a b h = ground arith

module _ (get : Value → Value → Result Value) (x : String) where
  mutual
    unfolding exec_by leaves

    exec_by-leaves :
        (s : Node) (env : Env)
        → leaves x s ≡ true
        → env x ≡ none
        → Gives (Unbound x) (exec_by get s env)
    exec_by-leaves (assign (name y c ⨾ end) e) env h u =
        bind-Gives (Unbound x) (eval get env e) _ λ v q. ground arith
    exec_by-leaves (if_stmt t b o) env h u = bind-Gives (Unbound x) (eval get env t) _ λ v q.
        branch-Gives (Unbound x) (truthy v) _ _
          (exec_block_by-leaves b env (and_left (leaves_all x b) (leaves_all x o) h) u)
          (exec_block_by-leaves o env (and_right (leaves_all x b) (leaves_all x o) h) u)
    exec_by-leaves (return_stmt e) env h u = bind-Gives (Unbound x) (eval get env e) _ λ v q. tt
    exec_by-leaves _ env h u = tt

    exec_block_by-leaves :
        (b : Nodes) (env : Env)
        → leaves_all x b ≡ true
        → env x ≡ none
        → Gives (Unbound x) (exec_block_by get b env)
    exec_block_by-leaves end env h u = u
    exec_block_by-leaves (s ⨾ b) env h u = bind-Gives (Unbound x) (exec_by get s env) _ (elim [
      | next env' ↦ λ q.
          exec_block_by-leaves b env' (and_right (leaves x s) (leaves_all x b) h)
            (rw q at (exec_by-leaves s env (and_left (leaves x s) (leaves_all x b) h) u))
      | returned v ↦ λ q. tt
    ])

mutual
  unfolding exec_by visit bounds_check leaves insert_bounds_check

  exec_by-visit :
      (s : Node) (env : Env)
      → leaves "len" s ≡ true
      → env "len" ≡ none
      → exec_by get_item_from_start s env ⊑ exec_by get_item (visit bounds_check s) env
  exec_by-visit (assign (name x c ⨾ end) e) env h u =
      bind_mono _ _ (insert_bounds_check-keeps env u e) λ v _ p. p
  exec_by-visit (if_stmt t b o) env h u = bind_mono _ _ (insert_bounds_check-keeps env u t) λ v.
      branch_mono (truthy v)
        (exec_block_by-visit b env (and_left (leaves_all "len" b) (leaves_all "len" o) h) u)
        (exec_block_by-visit o env (and_right (leaves_all "len" b) (leaves_all "len" o) h) u)
  exec_by-visit (return_stmt e) env h u =
      bind_mono _ _ (insert_bounds_check-keeps env u e) λ v _ p. p
  exec_by-visit _ env h u = λ _ p. cc

  exec_block_by-visit :
      (b : Nodes) (env : Env)
      → leaves_all "len" b ≡ true
      → env "len" ≡ none
      → exec_block_by get_item_from_start b env
        ⊑ exec_block_by get_item (visit_all bounds_check b) env
  exec_block_by-visit end env h u = λ _ p. p
  exec_block_by-visit (s ⨾ b) env h u =
      let here = and_left (leaves "len" s) (leaves_all "len" b) h in
      bind_mono_at (exec_by get_item_from_start s env) _ _ _ (exec_by-visit s env here u) (elim [
        | next env' ↦ λ q.
            exec_block_by-visit b env' (and_right (leaves "len" s) (leaves_all "len" b) h)
              (rw q at (exec_by-leaves get_item_from_start "len" s env here u))
        | returned v ↦ λ q _ p. p
      ])
