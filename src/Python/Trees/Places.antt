-- ===== src/Python/Trees/Places.antt =====
-- The addresses of a tree whose objects stand one after the other.
use living_codebase.Prelude.{
  ℕ, suc, ◌+◌, ◌≤◌, ◌<◌, ◌≡◌, refl, Bool-cases, inl, inr, List, [], ◌∷◌, ◌++◌, arith, ◌==◌, true,
  false,
}
use living_codebase.Python.Objects.{Address, Object}
use living_codebase.Python.Trees.{Tree, Trees, tree, no_trees, ◌▸◌, size, sizes}
use living_codebase.Python.Trees.Held.{Laid, LaidAll}
use living_codebase.Python.Trees.Copied.{has, has-append, Distinct, addresses, addresses_all}

-- All of them stand from `lo` up to `hi`.
abbrev Between : ℕ → ℕ → List Address → Type 0
Between lo hi xs = (x : Address) → has x xs ≡ true → (lo ≤ x) × (x < hi)

below-Between : (x lo hi : ℕ) (xs : List Address) → x < lo → Between lo hi xs → has x xs ≡ false
below-Between x lo hi xs i h = elim (Bool-cases (has x xs)) [
  | inl e ↦ absurd (omega (arith, h x e))
  | inr e ↦ e
]

has-append_cases :
    (x lo mid hi : ℕ) (xs ys : List Address)
    → lo ≤ mid
    → mid ≤ hi
    → Between lo mid xs
    → Between mid hi ys
    → has x (xs ++ ys) ≡ true
    → (lo ≤ x) × (x < hi)
has-append_cases x lo mid hi xs ys i j h k e = elim (Bool-cases (has x xs)) [
  | inl f ↦ omega (arith, h x f)
  | inr f ↦ omega (arith, k x (ground (arith, has-append x xs ys)))
]

Distinct-append_below :
    (xs ys : List Address) (lo mid hi : ℕ)
    → Distinct xs
    → Distinct ys
    → Between lo mid xs
    → Between mid hi ys
    → Distinct (xs ++ ys)
Distinct-append_below [] ys lo mid hi d d' h k = d'
Distinct-append_below (x ∷ xs) ys lo mid hi (out, d) d' h k =
    (out_of_both, Distinct-append_below xs ys lo mid hi d d' (λ y e. h y (ground arith)) k)
  where
    out_of_both : has x (xs ++ ys) ≡ false
    out_of_both =
        let outside : has x ys ≡ false = below-Between x mid hi ys (h x (ground arith)).1 k in
        rw (has-append x xs ys, out, outside) refl

module _ (objects : Address → Object) where
  mutual
    pub Between-addresses :
        (a : Address) (t : Tree) → Laid objects a t → Between a (a + size t) (addresses objects a t)
    Between-addresses a (tree k ts) (e, laid) x h = elim (Bool-cases (a == x)) [
      | inl f ↦ ground arith
      | inr f ↦
          omega (arith, Between-addresses_all (suc a) (objects a).children ts laid x (ground arith))
    ]

    Between-addresses_all :
        (a : Address) (cs : List Address) (ts : Trees)
        → LaidAll objects a cs ts
        → Between a (a + sizes ts) (addresses_all objects cs ts)
    Between-addresses_all a [] no_trees laid x h = absurd (ground arith)
    Between-addresses_all a [] (t ▸ ts) laid x h = absurd laid
    Between-addresses_all a (c ∷ cs) no_trees laid x h = absurd laid
    Between-addresses_all a (c ∷ cs) (t ▸ ts) (e, laid, all) x h =
        has-append_cases x a (a + size t) (a + sizes (t ▸ ts)) (addresses objects c t)
          (addresses_all objects cs ts) (omega arith) (omega arith)
          (rw e (Between-addresses a t laid))
          (λ y f. let (i, j) = Between-addresses_all (a + size t) cs ts all y f in (i, omega arith))
          h

  mutual
    pub Distinct-addresses :
        (a : Address) (t : Tree) → Laid objects a t → Distinct (addresses objects a t)
    Distinct-addresses a (tree k ts) (e, laid) = (
      below-Between a (suc a) (suc a + sizes ts) (addresses_all objects (objects a).children ts)
          (omega arith) (Between-addresses_all (suc a) (objects a).children ts laid),
      Distinct-addresses_all (suc a) (objects a).children ts laid,
    )

    Distinct-addresses_all :
        (a : Address) (cs : List Address) (ts : Trees)
        → LaidAll objects a cs ts
        → Distinct (addresses_all objects cs ts)
    Distinct-addresses_all a [] no_trees laid = tt
    Distinct-addresses_all a [] (t ▸ ts) laid = absurd laid
    Distinct-addresses_all a (c ∷ cs) no_trees laid = absurd laid
    Distinct-addresses_all a (c ∷ cs) (t ▸ ts) (e, laid, all) =
        Distinct-append_below (addresses objects c t) (addresses_all objects cs ts) a (a + size t)
          (a + size t + sizes ts) (rw e (Distinct-addresses a t laid))
          (Distinct-addresses_all (a + size t) cs ts all) (rw e (Between-addresses a t laid))
          (Between-addresses_all (a + size t) cs ts all)
