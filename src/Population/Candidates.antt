-- ===== src/Population/Candidates.antt =====
-- A round of `generate_population`: the operations in a row, when all but the last change kinds
-- only, so that no object gets a second parent before a visit.
use living_codebase.Prelude.{
  ◌≡◌, ◌≤◌, ◌<◌, ◌∙◌, ap, sym, ℕ, suc, ◌+◌, ◌%◌, String, none, List, [], ◌∷◌, ◌++◌, All, arith,
  refl, ◌⊎◌, inl, inr,
}
use mathlib.Core.Path.{subst}
use living_codebase.Python.Syntax.{Node}
use living_codebase.Python.Objects.{
  Address, Memory, Run, ok, recursion_error, M, pure, and_then, visit, deepcopy,
}
use living_codebase.Python.Trees.{size, Fits, visit_tree, tree_of}
use living_codebase.Python.Trees.Held.{Holds-frame, Holds-Laid, Laid}
use living_codebase.Python.Trees.Copied.{addresses, Copied}
use living_codebase.Python.Trees.OfNodes.{visit_tree-visit}
use living_codebase.Python.Trees.OfStates.{visit_tree-visit_state}
use living_codebase.Python.Trees.Places.{Distinct-addresses}
use living_codebase.Mutator.{op_swap, comparison_swap, swap_operator, swap_comparison}
use living_codebase.Mutator.Mutate.{
  Draws, literal_replace, replace_literal, mutate, mutate_all, mutation_ops,
}
use living_codebase.Population.{
  Rekind, swap_operator_kind, swap_comparison_kind, replace_literal_kind, rekind_at, mutate_objects,
  sample, mutate_each, new_candidate,
}
use living_codebase.Population.Rewritings.{rekind_rewriting}
use living_codebase.Population.Roots.{
  op_swap-at_root, comparison_swap-at_root, literal_replace-at_root,
}
use living_codebase.Population.Rekinded.{size-rekind, Fits-rekind, Rekinded, Rekinded-visit}
use living_codebase.Population.Mutated.{Mutates, Stands, copies, mutate_objects_lem}

-- The operations that change kinds only.
abbrev pub KeepsPlaces : String → Type 0
KeepsPlaces op = (op ≡ "swap_operator") ⊎ (op ≡ "swap_comparison") ⊎ (op ≡ "replace_literal")

module _ (draws : Draws) (stack : ℕ) where
  -- The run returns an object that stands for the node, and shares no object.
  abbrev Rests : Memory → Node × ℕ → Run Address → Type 0
  Rests m r (ok c m') =
      (m.next ≤ m'.next)
      × ((x : ℕ) → x < m.next → m'.objects x ≡ m.objects x)
      × (m'.calls ≡ r.1)
      × Stands stack c m' r.0
  Rests m r (recursion_error m') = ⊥

  Stands-Laid :
      (c : ℕ) (m : Memory) (n : Node)
      → c + size (tree_of n) ≤ m.next
      → Fits stack (tree_of n)
      → Laid m.objects c (tree_of n)
      → Stands stack c m n
  Stands-Laid c m n h fits laid = record {
    holds = Holds-Laid m.objects c (tree_of n) (λ x i j. omega arith) laid;
    distinct = Distinct-addresses m.objects c (tree_of n) laid;
    fits = fits;
  }

  module _ (a : ℕ) (m : Memory) (n : Node) (stands : Stands stack a m n) where
    Rests-copy : Rests m (n, m.calls) (deepcopy stack a m)
    Rests-copy = from_copy (deepcopy stack a m) (copies draws stack a m n stands)
      where
        from_copy :
            (run : Run Address)
            → Copied
                (record m { memo = λ x. none })
                (addresses m.objects a (tree_of n))
                (tree_of n)
                run
            → Rests m (n, m.calls) run
        from_copy (recursion_error m₁) absent = absurd absent
        from_copy (ok c m₁) (here, (next, same, calls, memo), laid) =
            rw here
              (omega arith, same, calls, Stands-Laid m.next m₁ n (omega arith) stands.fits laid)

    Rests-rekind :
        (f : Rekind) (r : Node × ℕ)
        → visit_tree (rekind_rewriting f) (tree_of n) m.calls ≡ (tree_of r.0, r.1)
        → Rests m r (and_then (deepcopy stack a m) (visit (rekind_at f) stack))
    Rests-rekind f (n', s) e = from_copy (deepcopy stack a m) (copies draws stack a m n stands)
      where
        same_size : size (tree_of n') ≡ size (tree_of n)
        same_size = ap (λ r. size r.0) (sym e) ∙ size-rekind f (tree_of n) m.calls

        fits' : Fits stack (tree_of n')
        fits' = subst (λ r. Fits stack r.0) e (Fits-rekind f stack (tree_of n) m.calls stands.fits)

        visited :
            (run : Run Address) (m₁ : Memory)
            → m₁.next ≡ m.next + size (tree_of n)
            → ((x : ℕ) → x < m.next → m₁.objects x ≡ m.objects x)
            → Rekinded m.next (m.next + size (tree_of n)) m₁ (tree_of n', s) run
            → Rests m (n', s) run
        visited (recursion_error m₂) m₁ next same absent = absurd absent
        visited (ok c m₂) m₁ next same (here, (next', calls, same'), laid) = rw here (
          omega arith,
          λ x i. same' x (inl i) ∙ same x i,
          calls,
          Stands-Laid m.next m₂ n' (omega (arith, same_size)) fits' laid,
        )

        from_copy :
            (run : Run Address)
            → Copied
                (record m { memo = λ x. none })
                (addresses m.objects a (tree_of n))
                (tree_of n)
                run
            → Rests m (n', s) (and_then run (visit (rekind_at f) stack))
        from_copy (recursion_error m₁) absent = absurd absent
        from_copy (ok c m₁) (here, (next, same, calls, memo), laid) = rw here (
            visited (visit (rekind_at f) stack m.next m₁) m₁ next same (
              rw (sym e, sym calls)
                (Rekinded-visit f stack m.next (tree_of n) m₁ stands.fits laid)))

    Rests-mutate :
        (op : String)
        → KeepsPlaces op
        → Rests m (mutate draws n op m.calls) (mutate_objects draws stack op a m)
    unfolding mutate mutate_objects swap_operator swap_comparison replace_literal
    Rests-mutate op (inl e) = rw e (
        Rests-rekind swap_operator_kind (swap_operator n, m.calls)
          (visit_tree-visit op_swap (rekind_rewriting swap_operator_kind) op_swap-at_root n
            m.calls))
    Rests-mutate op (inr (inl e)) = rw e (
        Rests-rekind swap_comparison_kind (swap_comparison n, m.calls)
          (visit_tree-visit comparison_swap (rekind_rewriting swap_comparison_kind)
            comparison_swap-at_root n m.calls))
    Rests-mutate op (inr (inr e)) = rw e (
        Rests-rekind (replace_literal_kind draws) (replace_literal draws n m.calls) (
          visit_tree-visit_state (literal_replace draws)
            (rekind_rewriting (replace_literal_kind draws)) (literal_replace-at_root draws) n
            m.calls))

  -- A later run that leaves what was there alone.
  Mutates-later :
      (m m₁ : Memory) (r : Node × ℕ) (run : Run Address)
      → m.next ≤ m₁.next
      → ((x : ℕ) → x < m.next → m₁.objects x ≡ m.objects x)
      → Mutates m₁ r run
      → Mutates m r run
  Mutates-later m m₁ r (recursion_error m₂) mono same absent = absurd absent
  Mutates-later m m₁ r (ok c m₂) mono same (same', calls, h) = (
    λ x i. same' x (omega arith) ∙ same x i,
    calls,
    Holds-frame (λ x (i, j). (omega arith, j)) (λ x i. refl) c (tree_of r.0) h,
  )

  Mutates-and_then :
      (m : Memory) (r : Node × ℕ) (q : Node → ℕ → Node × ℕ) (run : Run Address)
      (next : Address → M Address)
      → Rests m r run
      → ((c : Address) (m₁ : Memory) (n : Node)
          → Stands stack c m₁ n
          → Mutates m₁ (q n m₁.calls) (next c m₁))
      → Mutates m (q r.0 r.1) (and_then run next)
  Mutates-and_then m r q (recursion_error m₁) next absent rest = absurd absent
  Mutates-and_then m r q (ok c m₁) next (mono, same, calls, stands) rest =
      rw (sym calls)
        (Mutates-later m m₁ (q r.0 m₁.calls) (next c m₁) mono same (rest c m₁ r.0 stands))

  Mutates-pure :
      (m : Memory) (r : Node × ℕ) (run : Run Address)
      → Mutates m r run
      → Mutates m r (and_then run λ c. pure c)
  Mutates-pure m r (recursion_error m₁) absent = absent
  Mutates-pure m r (ok c m₁) h = h

  mutate_each_lem :
      (ops : List String) (last : String)
      → All KeepsPlaces ops
      → (a : ℕ) (m : Memory) (n : Node) → Stands stack a m n
      → Mutates m
          (mutate_all draws (ops ++ (last ∷ [])) n m.calls)
          (mutate_each draws stack (ops ++ (last ∷ [])) a m)
  unfolding mutate_each mutate_all
  mutate_each_lem [] last keeps a m n stands =
      Mutates-pure m (mutate draws n last m.calls) (mutate_objects draws stack last a m)
        (mutate_objects_lem draws stack a m n stands last)
  mutate_each_lem (op ∷ ops) last (keep, keeps) a m n stands =
      Mutates-and_then m (mutate draws n op m.calls) (mutate_all draws (ops ++ (last ∷ [])))
        (mutate_objects draws stack op a m) (mutate_each draws stack (ops ++ (last ∷ [])))
        (Rests-mutate a m n stands op keep) (mutate_each_lem ops last keeps)

  -- A round of `generate_population`, with a tree whose nodes share no object and a stack that is as
  -- deep as the tree, in which `random.sample` picks `ops` and then `last`, and `ops` are among
  -- swap_operator, swap_comparison and replace_literal: it does not raise RecursionError, and its
  -- candidate stands for the tree that `mutate` of Mutator/Mutate gives for the operations in a row,
  -- made of new objects only; the objects that were there are as they were.
  pub new_candidate_lem :
      (ops : List String) (last : String) (a calls : ℕ) (m : Memory) (n : Node)
      → Stands stack a m n
      → All KeepsPlaces ops
      → sample draws (1 + draws m.calls % 2) mutation_ops (record m { calls = suc m.calls })
        ≡ ok (ops ++ (last ∷ [])) (record m { calls = calls })
      → Mutates m (mutate_all draws (ops ++ (last ∷ [])) n calls) (new_candidate draws stack a m)
  unfolding new_candidate
  new_candidate_lem ops last a calls m n stands keeps picked = rw picked (
      Mutates-and_then (record m { calls = calls }) (n, calls)
        (mutate_all draws (ops ++ (last ∷ []))) (deepcopy stack a (record m { calls = calls }))
        (mutate_each draws stack (ops ++ (last ∷ [])))
        (Rests-copy a (record m { calls = calls }) n
          (record { holds = stands.holds; distinct = stands.distinct; fits = stands.fits }))
        (mutate_each_lem ops last keeps))
