-- ===== src/Python/Trees/Built.antt =====
-- The trees that expressions build, from objects that stand for trees.
use living_codebase.Prelude.{ℕ, ◌≤◌, ◌<◌, ◌≡◌, ◌∙◌, inr, refl, sym, List, ◌∷◌, arith}
use living_codebase.Python.Objects.{
  Kind, Address, Object, Memory, Run, ok, recursion_error, M, pure, and_then, ◌>>=◌, new, Expr,
  Exprs, there, make, end, ◌⨾◌, build, build_all,
}
use living_codebase.Python.Trees.{Tree, Trees, tree, no_trees, ◌▸◌}
use living_codebase.Python.Trees.Held.{In, Holds, HoldsAll, Holds-frame, HoldsAll-frame}
use living_codebase.Python.Trees.Visited.{put_object_same, put_object_other}

module _ (S : Address → Type 0) (objects : Address → Object) where
  abbrev mutual
    pub Makes : Expr → Tree → Type 0
    Makes (there a) t = Holds S objects a t
    Makes (make k es) (tree k' ts) = (k ≡ k') × MakesAll es ts

    pub MakesAll : Exprs → Trees → Type 0
    MakesAll end no_trees = Unit
    MakesAll end (t ▸ ts) = ⊥
    MakesAll (e ⨾ es) no_trees = ⊥
    MakesAll (e ⨾ es) (t ▸ ts) = Makes e t × MakesAll es ts

module _ {S R : Address → Type 0} {objects other : Address → Object}
    (grow : (x : Address) → S x → R x) (same : (x : Address) → S x → other x ≡ objects x) where
  mutual
    Makes-frame : (e : Expr) (t : Tree) → Makes S objects e t → Makes R other e t
    Makes-frame (there a) t h = Holds-frame grow same a t h
    Makes-frame (make k es) (tree k' ts) (e, all) = (e, MakesAll-frame es ts all)

    MakesAll-frame : (es : Exprs) (ts : Trees) → MakesAll S objects es ts → MakesAll R other es ts
    MakesAll-frame end no_trees all = tt
    MakesAll-frame end (t ▸ ts) all = absurd all
    MakesAll-frame (e ⨾ es) no_trees all = absurd all
    MakesAll-frame (e ⨾ es) (t ▸ ts) (h, all) = (Makes-frame e t h, MakesAll-frame es ts all)

-- A run only adds objects.
abbrev pub Extends : Memory → Memory → Type 0
Extends m m' =
    (m.next ≤ m'.next) × ((x : ℕ) → x < m.next → m'.objects x ≡ m.objects x) × (m'.calls ≡ m.calls)

module _ (lo hi n : ℕ) where
  abbrev pub Adds : Memory → Tree → Run Address → Type 0
  Adds m t (ok c m') = Extends m m' × Holds (In lo hi n m'.next) m'.objects c t
  Adds m t (recursion_error m') = ⊥

  abbrev AddsAll : Memory → Trees → Run (List Address) → Type 0
  AddsAll m ts (ok cs m') = Extends m m' × HoldsAll (In lo hi n m'.next) m'.objects cs ts
  AddsAll m ts (recursion_error m') = ⊥

  Adds-new :
      (k : Kind) (ts : Trees) (m : Memory) (run : Run (List Address))
      → hi ≤ m.next
      → n ≤ m.next
      → AddsAll m ts run
      → Adds m (tree k ts) (and_then run λ cs. new k cs)
  unfolding new
  Adds-new k ts m (recursion_error m₁) h j absent = absurd absent
  Adds-new k ts m (ok cs m₁) h j ((mono, same, calls), all) = (
    (omega arith, λ x i. put_object_other m₁.next _ m₁.objects x (ground arith) ∙ same x i, calls),
    rw (put_object_same m₁.next (record { kind = k; children = cs }) m₁.objects, Holds)
        (
          inr (omega arith, omega arith),
          refl,
          HoldsAll-frame (λ x i. ground arith)
              (λ x i. put_object_other m₁.next _ m₁.objects x (ground arith)) cs ts all,
        ),
  )

  Adds-both :
      (t : Tree) (ts : Trees) (m m₁ : Memory) (c : Address) (run : Run (List Address))
      → hi ≤ m.next
      → n ≤ m.next
      → Extends m m₁
      → Holds (In lo hi n m₁.next) m₁.objects c t
      → AddsAll m₁ ts run
      → AddsAll m (t ▸ ts) (and_then run λ cs. pure (c ∷ cs))
  Adds-both t ts m m₁ c (recursion_error m₂) i j ext h absent = absurd absent
  Adds-both t ts m m₁ c (ok cs m₂) i j (mono, same, calls) h ((mono', same', calls'), all) = (
    (omega arith, λ x k. same' x (omega arith) ∙ same x k, calls' ∙ calls),
    (Holds-frame (λ x k. ground arith) (λ x k. same' x (ground arith)) c t h, all),
  )

  Adds-next :
      (t : Tree) (ts : Trees) (m : Memory) (run : Run Address) (next : M (List Address))
      → hi ≤ m.next
      → n ≤ m.next
      → Adds m t run
      → ((m₁ : Memory) → Extends m m₁ → AddsAll m₁ ts (next m₁))
      → AddsAll m (t ▸ ts) (and_then run λ c. next >>= λ cs. pure (c ∷ cs))
  Adds-next t ts m (recursion_error m₁) next i j absent rest = absurd absent
  Adds-next t ts m (ok c m₁) next i j (ext, h) rest =
      Adds-both t ts m m₁ c (next m₁) i j ext h (rest m₁ ext)

  mutual
    unfolding build

    pub Adds-build :
        (e : Expr) (t : Tree) (m : Memory)
        → hi ≤ m.next
        → n ≤ m.next
        → Makes (In lo hi n m.next) m.objects e t
        → Adds m t (build e m)
    Adds-build (there a) t m i j h = ((omega arith, λ x k. refl, refl), h)
    Adds-build (make k es) (tree k' ts) m i j (e, all) =
        rw (sym e) (Adds-new k ts m (build_all es m) i j (AddsAll-build es ts m i j all))

    AddsAll-build :
        (es : Exprs) (ts : Trees) (m : Memory)
        → hi ≤ m.next
        → n ≤ m.next
        → MakesAll (In lo hi n m.next) m.objects es ts
        → AddsAll m ts (build_all es m)
    AddsAll-build end no_trees m i j all = ((omega arith, λ x k. refl, refl), tt)
    AddsAll-build end (t ▸ ts) m i j all = absurd all
    AddsAll-build (e ⨾ es) no_trees m i j all = absurd all
    AddsAll-build (e ⨾ es) (t ▸ ts) m i j (h, all) =
        Adds-next t ts m (build e m) (build_all es) i j (Adds-build e t m i j h)
          λ m₁ (mono, same, calls).
            AddsAll-build es ts m₁ (omega arith) (omega arith)
              (MakesAll-frame (λ x k. ground arith) (λ x k. same x (ground arith)) es ts all)
