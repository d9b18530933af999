-- ===== src/Population/Rekinded.antt =====
-- The transformers that change kinds only: the objects of a tree stay where they stand.
use living_codebase.Prelude.{
  ◌≡◌, ◌≤◌, ◌<◌, ◌∙◌, ap, sym, ℕ, zero, suc, ◌+◌, List, [], ◌∷◌, arith, refl, ◌⊎◌, inl, inr,
}
use living_codebase.Python.Objects.{
  Address, Object, Memory, Run, ok, recursion_error, M, pure, and_then, ◌>>=◌, ◌>>◌, put_object,
  set_children, set_kind, each, visit,
}
use living_codebase.Python.Trees.{
  Tree, Trees, tree, no_trees, ◌▸◌, size, sizes, Fits, FitAll, visit_tree, visit_trees,
}
use living_codebase.Python.Trees.Held.{Laid, LaidAll, Laid-frame, LaidAll-frame}
use living_codebase.Python.Trees.Visited.{put_object_same, put_object_other}
use living_codebase.Population.{Rekind, rekind_at}
use living_codebase.Population.Rewritings.{rekind_rewriting}

module _ (f : Rekind) where
  mutual
    -- The shape of the tree stays.
    pub size-rekind : (t : Tree) (s : ℕ) → size (visit_tree (rekind_rewriting f) t s).0 ≡ size t
    size-rekind (tree k ts) s = ap suc (sizes-rekind ts s)

    sizes-rekind : (ts : Trees) (s : ℕ) → sizes (visit_trees (rekind_rewriting f) ts s).0 ≡ sizes ts
    sizes-rekind no_trees s = refl
    sizes-rekind (t ▸ ts) s =
        rw (size-rekind t s, sizes-rekind ts (visit_tree (rekind_rewriting f) t s).1) refl

  mutual
    pub Fits-rekind :
        (stack : ℕ) (t : Tree) (s : ℕ)
        → Fits stack t
        → Fits stack (visit_tree (rekind_rewriting f) t s).0
    Fits-rekind zero (tree k ts) s fits = fits
    Fits-rekind (suc stack) (tree k ts) s fits = FitAll-rekind stack ts s fits

    FitAll-rekind :
        (stack : ℕ) (ts : Trees) (s : ℕ)
        → FitAll stack ts
        → FitAll stack (visit_trees (rekind_rewriting f) ts s).0
    FitAll-rekind stack no_trees s fits = tt
    FitAll-rekind stack (t ▸ ts) s (fits, fits') = (
      Fits-rekind stack t s fits,
      FitAll-rekind stack ts (visit_tree (rekind_rewriting f) t s).1 fits',
    )

-- No object is new, and those outside of `lo` to `hi` are as they were.
abbrev Inside : ℕ → ℕ → Memory → ℕ → Memory → Type 0
Inside lo hi m calls m' =
    (m'.next ≡ m.next)
    × (m'.calls ≡ calls)
    × ((x : ℕ) → (x < lo) ⊎ (hi ≤ x) → m'.objects x ≡ m.objects x)

abbrev pub Rekinded : ℕ → ℕ → Memory → Tree × ℕ → Run Address → Type 0
Rekinded lo hi m r (ok c m') = (c ≡ lo) × Inside lo hi m r.1 m' × Laid m'.objects lo r.0
Rekinded lo hi m r (recursion_error m') = ⊥

abbrev RekindedAll : ℕ → ℕ → Memory → Trees × ℕ → Run (List Address) → Type 0
RekindedAll lo hi m r (ok cs m') = Inside lo hi m r.1 m' × LaidAll m'.objects lo cs r.0
RekindedAll lo hi m r (recursion_error m') = ⊥

module _ (lo mid hi : ℕ) (m : Memory) (lo_mid : lo ≤ mid) (mid_hi : mid ≤ hi) where
  both :
      (t : Tree) (c : Address) (m₁ : Memory) (s : ℕ) (rs : Trees × ℕ) (run : Run (List Address))
      → lo + size t ≡ mid
      → Rekinded lo mid m (t, s) (ok c m₁)
      → RekindedAll mid hi m₁ rs run
      → RekindedAll lo hi m (t ▸ rs.0, rs.1) (and_then run λ cs. pure (c ∷ cs))
  both t c m₁ s rs (recursion_error m₂) e first absent = absurd absent
  both t c m₁ s rs (ok cs m₂) e (here, (next, calls, same), laid) ((next', calls', same'), all) = (
    (next' ∙ next, calls', λ x i. same' x (ground arith) ∙ same x (ground arith)),
    (here, Laid-frame lo t (λ x i j. same' x (inl (omega arith))) laid, rw (e, LaidAll) all),
  )

  after :
      (r : Tree × ℕ) (rs : ℕ → Trees × ℕ) (run : Run Address) (next : M (List Address))
      → lo + size r.0 ≡ mid
      → Rekinded lo mid m r run
      → ((c : Address) (m₁ : Memory)
          → Rekinded lo mid m r (ok c m₁)
          → RekindedAll mid hi m₁ (rs m₁.calls) (next m₁))
      → RekindedAll lo hi m
          (r.0 ▸ (rs r.1).0, (rs r.1).1)
          (and_then run λ c. next >>= λ cs. pure (c ∷ cs))
  after r rs (recursion_error m₁) next e absent rest = absurd absent
  after r rs (ok c m₁) next e done rest =
      rw (sym done.1.1) (both r.0 c m₁ r.1 (rs m₁.calls) (next m₁) e done (rest c m₁ done))

module _ (f : Rekind) where
  rekinded :
      (a hi : ℕ) (ts : Trees) (m m₁ : Memory)
      → a < hi
      → Inside a hi m m₁.calls m₁
      → LaidAll m₁.objects (suc a) (m₁.objects a).children ts
      → Rekinded a hi m (rekind_rewriting f (m₁.objects a).kind ts m₁.calls) (rekind_at f a m₁)
  unfolding rekind_at set_kind
  rekinded a hi ts m m₁ h (next, calls, same) laid = (
    refl,
    (next, refl, λ x i. put_object_other a o m₁.objects x (ground arith) ∙ same x i),
    rw (put_object_same a o m₁.objects, Laid)
        (
          refl,
          LaidAll-frame (suc a) (m₁.objects a).children ts
              (λ x i j. put_object_other a o m₁.objects x (inr i)) laid,
        ),
  )
    where
      o : Object
      o = record (m₁.objects a) { kind = (f (m₁.objects a).kind m₁.calls).0 }

  changed :
      (a hi : ℕ) (m : Memory) (ts : Trees × ℕ) (run : Run (List Address))
      → a < hi
      → RekindedAll (suc a) hi m ts run
      → Rekinded a hi m
          (rekind_rewriting f (m.objects a).kind ts.0 ts.1)
          (and_then run λ cs. set_children a cs >> rekind_at f a)
  unfolding set_children
  changed a hi m ts (recursion_error m₁) h absent = absurd absent
  changed a hi m (ts, s) (ok cs m₁) h ((next, calls, same), laid) =
      rw (sym kind, sym calls)
        (rekinded a hi ts m m₂ h
          (
            next,
            refl,
            λ x i. put_object_other a o m₁.objects x (ground arith) ∙ same x (ground arith),
          )
          held)
    where
      o : Object
      o = record (m₁.objects a) { children = cs }

      m₂ : Memory
      m₂ = record m₁ { objects = put_object a o m₁.objects }

      kind : (m₂.objects a).kind ≡ (m.objects a).kind
      kind = rw (put_object_same a o m₁.objects, same a (inl (omega arith))) refl

      held : LaidAll m₂.objects (suc a) (m₂.objects a).children ts
      held =
          rw (put_object_same a o m₁.objects, LaidAll)
            (LaidAll-frame (suc a) cs ts (λ x i j. put_object_other a o m₁.objects x (inr i)) laid)

  mutual
    unfolding visit each

    pub Rekinded-visit :
        (stack a : ℕ) (t : Tree) (m : Memory)
        → Fits stack t
        → Laid m.objects a t
        → Rekinded a
            (a + size t)
            m
            (visit_tree (rekind_rewriting f) t m.calls)
            (visit (rekind_at f) stack a m)
    Rekinded-visit zero a (tree k ts) m fits laid = absurd fits
    Rekinded-visit (suc stack) a (tree k ts) m fits (e, laid) =
        rw (sym e, split)
          (changed a (suc a + sizes ts) m (visit_trees (rekind_rewriting f) ts m.calls)
            (each (visit (rekind_at f) stack) (m.objects a).children m) (omega arith)
            (RekindedAll-each stack (suc a) (m.objects a).children ts m fits laid))
      where
        split : a + suc (sizes ts) ≡ suc a + sizes ts
        split = omega arith

    RekindedAll-each :
        (stack a : ℕ) (cs : List Address) (ts : Trees) (m : Memory)
        → FitAll stack ts
        → LaidAll m.objects a cs ts
        → RekindedAll a
            (a + sizes ts)
            m
            (visit_trees (rekind_rewriting f) ts m.calls)
            (each (visit (rekind_at f) stack) cs m)
    RekindedAll-each stack a [] no_trees m fits laid = ((refl, refl, λ x i. refl), tt)
    RekindedAll-each stack a [] (t ▸ ts) m fits laid = absurd laid
    RekindedAll-each stack a (c ∷ cs) no_trees m fits laid = absurd laid
    RekindedAll-each stack a (c ∷ cs) (t ▸ ts) m (fits, fits') (e, laid, laid') =
        rw (e, split)
          (after a (a + size t) (a + size t + sizes ts) m (omega arith) (omega arith)
            (visit_tree (rekind_rewriting f) t m.calls) (visit_trees (rekind_rewriting f) ts)
            (visit (rekind_at f) stack a m) (each (visit (rekind_at f) stack) cs)
            (ap (λ k. a + k) (size-rekind f t m.calls)) (Rekinded-visit stack a t m fits laid)
            λ c' m₁ (here, (next, calls, same), laid₁).
              RekindedAll-each stack (a + size t) cs ts m₁ fits'
                (LaidAll-frame (a + size t) cs ts (λ x i j. same x (inr i)) laid'))
      where
        split : a + (size t + sizes ts) ≡ a + size t + sizes ts
        split = omega arith
