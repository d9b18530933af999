-- ===== src/Python/Trees/Visited.antt =====
-- `ast.NodeTransformer` in place, on a tree whose nodes share no object.
use living_codebase.Prelude.{
  ℕ, zero, suc, ◌+◌, ◌≤◌, ◌<◌, ◌≡◌, ◌∙◌, ◌⊎◌, inl, inr, refl, sym, List, [], ◌∷◌, arith,
}
use living_codebase.Python.Objects.{
  Address, Object, Memory, Run, ok, recursion_error, M, pure, and_then, ◌>>=◌, ◌>>◌, put_object,
  set_children, each, visit,
}
use living_codebase.Python.Trees.{
  Tree, Trees, tree, no_trees, ◌▸◌, size, sizes, Fits, FitAll, Rewriting, visit_tree, visit_trees,
}
use living_codebase.Python.Trees.Held.{
  In, Holds, HoldsAll, Holds-frame, HoldsAll-frame, Laid, LaidAll, LaidAll-frame,
}

-- From `m` to `m'`, what stands below `n` changes from `lo` up to `hi` at most.
abbrev pub Changes : ℕ → ℕ → ℕ → Memory → Memory → Type 0
Changes lo hi n m m' =
    (m.next ≤ m'.next) × ((x : ℕ) → x < n → (x < lo) ⊎ (hi ≤ x) → m'.objects x ≡ m.objects x)

-- A run returns an object that stands for the first part of `r`, after as many calls of `random` as
-- the second part says; the object stands where the change took place.
abbrev pub Returns : ℕ → ℕ → ℕ → Memory → Tree × ℕ → Run Address → Type 0
Returns lo hi n m r (ok c m') =
    Changes lo hi n m m' × (m'.calls ≡ r.1) × Holds (In lo hi n m'.next) m'.objects c r.0
Returns lo hi n m r (recursion_error m') = ⊥

abbrev pub ReturnsAll : ℕ → ℕ → ℕ → Memory → Trees × ℕ → Run (List Address) → Type 0
ReturnsAll lo hi n m r (ok cs m') =
    Changes lo hi n m m' × (m'.calls ≡ r.1) × HoldsAll (In lo hi n m'.next) m'.objects cs r.0
ReturnsAll lo hi n m r (recursion_error m') = ⊥

-- The method of a transformer, on an object whose children are visited, does what `rewriting` does.
abbrev pub Rewrites : Rewriting → (Address → M Address) → Type 0
Rewrites rewriting method =
    (a hi n : ℕ) (m : Memory) (ts : Trees)
    → a < hi
    → hi ≤ n
    → n ≤ m.next
    → HoldsAll (In (suc a) hi n m.next) m.objects (m.objects a).children ts
    → Returns a hi n m (rewriting (m.objects a).kind ts m.calls) (method a m)

Changes-trans :
    (lo hi n : ℕ) (m m' m'' : Memory)
    → Changes lo hi n m m'
    → Changes lo hi n m' m''
    → Changes lo hi n m m''
Changes-trans lo hi n m m' m'' (mono, same) (mono', same') =
    (omega arith, λ x h k. same' x h k ∙ same x h k)

pub Returns-trans :
    (lo hi n : ℕ) (m m' : Memory) (r : Tree × ℕ) (run : Run Address)
    → Changes lo hi n m m'
    → Returns lo hi n m' r run
    → Returns lo hi n m r run
Returns-trans lo hi n m m' r (ok c m'') change (change', e, h) =
    (Changes-trans lo hi n m m' m'' change change', e, h)
Returns-trans lo hi n m m' r (recursion_error m'') change absent = absurd absent

pub put_object_same :
    (a : ℕ) (o : Object) (objects : Address → Object) → put_object a o objects a ≡ o
put_object_same a o objects = ground arith

pub put_object_other :
    (a : ℕ) (o : Object) (objects : Address → Object) (x : ℕ)
    → (x < a) ⊎ (a < x)
    → put_object a o objects x ≡ objects x
put_object_other a o objects x h = ground arith

module _ (lo mid hi : ℕ) (m : Memory) (lo_mid : lo ≤ mid) (mid_hi : mid ≤ hi)
    (hi_next : hi ≤ m.next) where
  both :
      (t : Tree) (c : Address) (m₁ : Memory) (rs : Trees × ℕ) (run : Run (List Address))
      → Changes lo mid m.next m m₁
      → Holds (In lo mid m.next m₁.next) m₁.objects c t
      → ReturnsAll mid hi m₁.next m₁ rs run
      → ReturnsAll lo hi m.next m (t ▸ rs.0, rs.1) (and_then run λ cs. pure (c ∷ cs))
  both t c m₁ rs (ok cs m₂) (mono, same) h ((mono', same'), e, all) = (
    (omega arith, λ x i j. same' x (omega arith) (ground arith) ∙ same x i (ground arith)),
    e,
    (
      Holds-frame (λ x i. ground arith) (λ x i. same' x (ground arith) (ground arith)) c t h,
      HoldsAll-frame (λ x i. ground arith) (λ x i. refl) cs rs.0 all,
    ),
  )
  both t c m₁ rs (recursion_error m₂) change h absent = absurd absent

  -- One run after the other, on objects further on.
  after :
      (r : Tree × ℕ) (rs : ℕ → Trees × ℕ) (run : Run Address) (next : M (List Address))
      → Returns lo mid m.next m r run
      → ((m₁ : Memory)
          → Changes lo mid m.next m m₁
          → ReturnsAll mid hi m₁.next m₁ (rs m₁.calls) (next m₁))
      → ReturnsAll lo hi m.next m
          (r.0 ▸ (rs r.1).0, (rs r.1).1)
          (and_then run λ c. next >>= λ cs. pure (c ∷ cs))
  after r rs (ok c m₁) next (change, e, h) rest =
      rw (sym e) (both r.0 c m₁ (rs m₁.calls) (next m₁) change h (rest m₁ change))
  after r rs (recursion_error m₁) next absent rest = absurd absent

module _ (rewriting : Rewriting) (method : Address → M Address)
    (works : Rewrites rewriting method) where
  -- After the visit of the children.
  rewritten :
      (a hi : ℕ) (m : Memory) (ts : Trees × ℕ) (run : Run (List Address))
      → a < hi
      → hi ≤ m.next
      → ReturnsAll (suc a) hi m.next m ts run
      → Returns a hi m.next m
          (rewriting (m.objects a).kind ts.0 ts.1)
          (and_then run λ cs. set_children a cs >> method a)
  unfolding set_children
  rewritten a hi m (ts, s) (recursion_error m₁) h k absent = absurd absent
  rewritten a hi m (ts, s) (ok cs m₁) h k ((mono, same), e, all) =
      Returns-trans a hi m.next m m₂ (rewriting (m.objects a).kind ts s) (method a m₂)
        (
          mono,
          λ x h' k'. put_object_other a o m₁.objects x (ground arith) ∙ same x h' (ground arith),
        )
        (rw (sym kind, sym e) (works a hi m.next m₂ ts h k mono held))
    where
      o : Object
      o = record (m₁.objects a) { children = cs }

      m₂ : Memory
      m₂ = record m₁ { objects = put_object a o m₁.objects }

      here : m₂.objects a ≡ o
      here = put_object_same a o m₁.objects

      kind : (m₂.objects a).kind ≡ (m.objects a).kind
      kind = rw (here, same a (omega arith) (inl (omega arith))) refl

      held : HoldsAll (In (suc a) hi m.next m₂.next) m₂.objects (m₂.objects a).children ts
      held =
          rw (here, HoldsAll)
            (HoldsAll-frame (λ x h. h) (λ x i. put_object_other a o m₁.objects x (ground arith)) cs
              ts all)

  mutual
    unfolding visit each

    pub Returns-visit :
        (stack a : ℕ) (t : Tree) (m : Memory)
        → Fits stack t
        → a + size t ≤ m.next
        → Laid m.objects a t
        → Returns a (a + size t) m.next m (visit_tree rewriting t m.calls) (visit method stack a m)
    Returns-visit zero a (tree k ts) m fits h laid = absurd fits
    Returns-visit (suc stack) a (tree k ts) m fits h (e, laid) =
        rw (sym e, split)
          (rewritten a (suc a + sizes ts) m (visit_trees rewriting ts m.calls)
            (each (visit method stack) (m.objects a).children m) (omega arith) (omega arith)
            (ReturnsAll-each stack (suc a) (m.objects a).children ts m fits (omega arith) laid))
      where
        split : a + suc (sizes ts) ≡ suc a + sizes ts
        split = omega arith

    ReturnsAll-each :
        (stack a : ℕ) (cs : List Address) (ts : Trees) (m : Memory)
        → FitAll stack ts
        → a + sizes ts ≤ m.next
        → LaidAll m.objects a cs ts
        → ReturnsAll a
            (a + sizes ts)
            m.next
            m
            (visit_trees rewriting ts m.calls)
            (each (visit method stack) cs m)
    ReturnsAll-each stack a [] no_trees m fits h laid = ((omega arith, λ x h k. refl), refl, tt)
    ReturnsAll-each stack a [] (t ▸ ts) m fits h laid = absurd laid
    ReturnsAll-each stack a (c ∷ cs) no_trees m fits h laid = absurd laid
    ReturnsAll-each stack a (c ∷ cs) (t ▸ ts) m (fits, fits') h (e, laid, laid') =
        rw (e, split)
          (after a (a + size t) (a + size t + sizes ts) m (omega arith) (omega arith) (omega arith)
            (visit_tree rewriting t m.calls) (visit_trees rewriting ts) (visit method stack a m)
            (each (visit method stack) cs) (Returns-visit stack a t m fits (omega arith) laid)
            λ m₁ (mono, same).
              ReturnsAll-each stack (a + size t) cs ts m₁ fits' (omega arith)
                (LaidAll-frame (a + size t) cs ts (λ x i j. same x (omega arith) (inr i)) laid'))
      where
        split : a + (size t + sizes ts) ≡ a + size t + sizes ts
        split = omega arith
