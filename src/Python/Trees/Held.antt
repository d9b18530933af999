-- ===== src/Python/Trees/Held.antt =====
-- Which tree an object stands for, and which objects can change without changing it.
use living_codebase.Prelude.{ℕ, suc, ◌+◌, ◌≤◌, ◌<◌, ◌≡◌, ◌⊎◌, List, [], ◌∷◌, arith}
use living_codebase.Python.Objects.{Address, Object}
use living_codebase.Python.Trees.{Tree, Trees, tree, no_trees, ◌▸◌, size, sizes}

-- From `lo` up to `hi`, or from `n` up to `top`.
abbrev pub In : ℕ → ℕ → ℕ → ℕ → ℕ → Type 0
In lo hi n top x = ((lo ≤ x) × (x < hi)) ⊎ ((n ≤ x) × (x < top))

module _ (S : Address → Type 0) (objects : Address → Object) where
  abbrev mutual
    -- The object at an address stands for a tree, with objects of `S` only.
    pub Holds : Address → Tree → Type 0
    Holds a (tree k ts) = S a × ((objects a).kind ≡ k) × HoldsAll (objects a).children ts

    pub HoldsAll : List Address → Trees → Type 0
    HoldsAll [] no_trees = Unit
    HoldsAll [] (t ▸ ts) = ⊥
    HoldsAll (a ∷ as') no_trees = ⊥
    HoldsAll (a ∷ as') (t ▸ ts) = Holds a t × HoldsAll as' ts

module _ {S R : Address → Type 0} {objects other : Address → Object}
    (grow : (x : Address) → S x → R x) (same : (x : Address) → S x → other x ≡ objects x) where
  mutual
    -- Other objects, that are the same on `S`.
    pub Holds-frame : (a : Address) (t : Tree) → Holds S objects a t → Holds R other a t
    Holds-frame a (tree k ts) (s, e, all) =
        rw (same a s, Holds) (grow a s, e, HoldsAll-frame (objects a).children ts all)

    pub HoldsAll-frame :
        (as' : List Address) (ts : Trees) → HoldsAll S objects as' ts → HoldsAll R other as' ts
    HoldsAll-frame [] no_trees all = tt
    HoldsAll-frame [] (t ▸ ts) all = absurd all
    HoldsAll-frame (a ∷ as') no_trees all = absurd all
    HoldsAll-frame (a ∷ as') (t ▸ ts) (h, all) = (Holds-frame a t h, HoldsAll-frame as' ts all)

module _ (objects : Address → Object) where
  abbrev mutual
    -- The objects of a tree stand one after the other from an address on, each parent before its
    -- children: no object is shared.
    pub Laid : Address → Tree → Type 0
    Laid a (tree k ts) = ((objects a).kind ≡ k) × LaidAll (suc a) (objects a).children ts

    pub LaidAll : Address → List Address → Trees → Type 0
    LaidAll a [] no_trees = Unit
    LaidAll a [] (t ▸ ts) = ⊥
    LaidAll a (c ∷ cs) no_trees = ⊥
    LaidAll a (c ∷ cs) (t ▸ ts) = (c ≡ a) × Laid a t × LaidAll (a + size t) cs ts

module _ {objects other : Address → Object} where
  mutual
    pub Laid-frame :
        (a : Address) (t : Tree)
        → ((x : Address) → a ≤ x → x < a + size t → other x ≡ objects x)
        → Laid objects a t
        → Laid other a t
    Laid-frame a (tree k ts) same (e, all) =
        rw (same a (omega arith) (omega arith), Laid)
          (
            e,
            LaidAll-frame (suc a) (objects a).children ts
                (λ x h k. same x (omega arith) (omega arith)) all,
          )

    pub LaidAll-frame :
        (a : Address) (cs : List Address) (ts : Trees)
        → ((x : Address) → a ≤ x → x < a + sizes ts → other x ≡ objects x)
        → LaidAll objects a cs ts
        → LaidAll other a cs ts
    LaidAll-frame a [] no_trees same all = tt
    LaidAll-frame a [] (t ▸ ts) same all = absurd all
    LaidAll-frame a (c ∷ cs) no_trees same all = absurd all
    LaidAll-frame a (c ∷ cs) (t ▸ ts) same (e, laid, all) = (
      e,
      Laid-frame a t (λ x h k. same x h (omega arith)) laid,
      LaidAll-frame (a + size t) cs ts (λ x h k. same x (omega arith) (omega arith)) all,
    )

module _ {S : Address → Type 0} (objects : Address → Object) where
  mutual
    pub Holds-Laid :
        (a : Address) (t : Tree)
        → ((x : Address) → a ≤ x → x < a + size t → S x)
        → Laid objects a t
        → Holds S objects a t
    Holds-Laid a (tree k ts) inside (e, all) = (
      inside a (omega arith) (omega arith),
      e,
      HoldsAll-LaidAll (suc a) (objects a).children ts
          (λ x i j. inside x (omega arith) (omega arith)) all,
    )

    HoldsAll-LaidAll :
        (a : Address) (cs : List Address) (ts : Trees)
        → ((x : Address) → a ≤ x → x < a + sizes ts → S x)
        → LaidAll objects a cs ts
        → HoldsAll S objects cs ts
    HoldsAll-LaidAll a [] no_trees inside all = tt
    HoldsAll-LaidAll a [] (t ▸ ts) inside all = absurd all
    HoldsAll-LaidAll a (c ∷ cs) no_trees inside all = absurd all
    HoldsAll-LaidAll a (c ∷ cs) (t ▸ ts) inside (e, laid, all) = (
      rw e (Holds-Laid a t (λ x i j. inside x i (omega arith)) laid),
      HoldsAll-LaidAll (a + size t) cs ts (λ x i j. inside x (omega arith) (omega arith)) all,
    )
