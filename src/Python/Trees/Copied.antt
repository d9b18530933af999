-- ===== src/Python/Trees/Copied.antt =====
-- `copy.deepcopy` of a tree whose nodes share no object: the copies stand one after the other.
use living_codebase.Prelude.{
  ℕ, zero, suc, ◌+◌, ◌≤◌, ◌<◌, ◌≡◌, ◌∙◌, refl, sym, ap, Bool, Bool-cases, inl, inr, ◌||◌, List, [],
  ◌∷◌, ◌++◌, Option, none, some, arith, ◌==◌, true, false, if◌then◌else◌,
}
use living_codebase.Python.Objects.{
  Kind, Address, Object, Memory, Run, ok, recursion_error, M, pure, and_then, ◌>>=◌, ◌>>◌,
  put_object, new, set_children, remember, each, copy_object,
}
use living_codebase.Python.Trees.{Tree, Trees, tree, no_trees, ◌▸◌, size, sizes, Fits, FitAll}
use living_codebase.Python.Trees.Held.{Holds, HoldsAll, Laid, LaidAll, Laid-frame, LaidAll-frame}
use living_codebase.Python.Trees.Visited.{put_object_same, put_object_other}

abbrev pub has : Address → List Address → Bool
has a [] = false
has a (x ∷ xs) = (x == a) || has a xs

abbrev pub Distinct : List Address → Type 0
Distinct [] = Unit
Distinct (x ∷ xs) = (has x xs ≡ false) × Distinct xs

abbrev Disjoint : List Address → List Address → Type 0
Disjoint xs ys = (x : Address) → has x xs ≡ true → has x ys ≡ false

pub has-append : (a : Address) (xs ys : List Address) → has a (xs ++ ys) ≡ (has a xs || has a ys)
has-append a [] ys = refl
has-append a (x ∷ xs) ys = ground (arith, has-append a xs ys)

Distinct-append :
    (xs ys : List Address) → Distinct (xs ++ ys) → Distinct xs × Distinct ys × Disjoint xs ys
Distinct-append [] ys d = (tt, d, λ x e. cc)
Distinct-append (x ∷ xs) ys (out, d) =
    let (d₁, d₂, apart) = Distinct-append xs ys d in
    (
      (ground (arith, has-append x xs ys), d₁),
      d₂,
      λ y e. elim (Bool-cases (x == y)) [
        | inl t ↦
            let same : x ≡ y = ground arith in rw (sym same) (ground (arith, has-append x xs ys))
        | inr f ↦ apart y (ground arith)
      ],
    )

module _ (x : Address) (xs ys : List Address) where
  has-left : has x xs ≡ true → has x (xs ++ ys) ≡ true
  has-left e = rw (has-append x xs ys, e) refl

  has-right : has x ys ≡ true → has x (xs ++ ys) ≡ true
  has-right e = ground (arith, has-append x xs ys)

  Disjoint-sym : Disjoint xs ys → has x ys ≡ true → has x xs ≡ false
  Disjoint-sym apart e = elim (Bool-cases (has x xs)) [
    | inl t ↦ absurd (ground (arith, apart x t))
    | inr f ↦ f
  ]

unknown_yet :
    (a x : Address) (as' : List Address) (o : Option Address) (c : Address)
    → has a as' ≡ false
    → has x as' ≡ true
    → o ≡ none
    → (if a == x then some c else o) ≡ none
unknown_yet a x as' o c out i e = elim (Bool-cases (a == x)) [
  | inl t ↦ let same : a ≡ x = ground arith in absurd (ground (arith, ap (λ z. has z as') same))
  | inr f ↦ rw f e
]

module _ (objects : Address → Object) where
  -- The objects of a tree, in the order of visits.
  abbrev mutual
    pub addresses : Address → Tree → List Address
    addresses a (tree k ts) = a ∷ addresses_all (objects a).children ts

    pub addresses_all : List Address → Trees → List Address
    addresses_all [] ts = []
    addresses_all (c ∷ cs) no_trees = []
    addresses_all (c ∷ cs) (t ▸ ts) = addresses c t ++ addresses_all cs ts

-- So many objects are new, the others are as they were, and the dictionary has new entries for
-- `copied` at most.
abbrev After : Memory → List Address → ℕ → Memory → Type 0
After m copied k m' =
    (m'.next ≡ m.next + k)
    × ((x : ℕ) → x < m.next → m'.objects x ≡ m.objects x)
    × (m'.calls ≡ m.calls)
    × ((x : Address) → has x copied ≡ false → m'.memo x ≡ m.memo x)

abbrev pub Copied : Memory → List Address → Tree → Run Address → Type 0
Copied m copied t (ok c m') = (c ≡ m.next) × After m copied (size t) m' × Laid m'.objects m.next t
Copied m copied t (recursion_error m') = ⊥

abbrev CopiedAll : Memory → List Address → Trees → Run (List Address) → Type 0
CopiedAll m copied ts (ok cs m') = After m copied (sizes ts) m' × LaidAll m'.objects m.next cs ts
CopiedAll m copied ts (recursion_error m') = ⊥

-- The run of `copy_object` before its children.
abbrev begun : Address → Kind → Memory → Memory
begun a k m = record {
  objects = put_object m.next (record { kind = k; children = [] }) m.objects;
  next = suc m.next;
  memo = λ x. if a == x then some m.next else m.memo x;
  calls = m.calls;
}

filled :
    (a : Address) (k : Kind) (copied : List Address) (ts : Trees) (m : Memory)
    (run : Run (List Address))
    → CopiedAll (begun a k m) copied ts run
    → Copied m (a ∷ copied) (tree k ts) (and_then run λ cs. set_children m.next cs >> pure m.next)
unfolding set_children
filled a k copied ts m (recursion_error m₁) absent = absurd absent
filled a k copied ts m (ok cs m₁) ((next, same, calls, memo), laid) = (
  refl,
  (
    omega arith,
    λ x i.
        put_object_other m.next o m₁.objects x (inl i)
        ∙ same x (omega arith)
        ∙ put_object_other m.next _ m.objects x (inl i),
    calls,
    λ x e. memo x (ground arith) ∙ ground arith,
  ),
  rw (put_object_same m.next o m₁.objects, Laid)
      (
        kind,
        LaidAll-frame (suc m.next) cs ts (λ x i j. put_object_other m.next o m₁.objects x (inr i))
            laid,
      ),
)
  where
    o : Object
    o = record (m₁.objects m.next) { children = cs }

    kind : (m₁.objects m.next).kind ≡ k
    kind = rw (same m.next (omega arith), put_object_same m.next _ m.objects) refl

module _ (m : Memory) (xs ys : List Address) (apart : Disjoint xs ys) where
  both :
      (t : Tree) (ts : Trees) (c : Address) (m₁ : Memory) (run : Run (List Address))
      → Copied m xs t (ok c m₁)
      → CopiedAll m₁ ys ts run
      → CopiedAll m (xs ++ ys) (t ▸ ts) (and_then run λ cs. pure (c ∷ cs))
  both t ts c m₁ (recursion_error m₂) done absent = absurd absent
  both t ts c m₁ (ok cs m₂) (e, (next, same, calls, memo), laid)
        ((next', same', calls', memo'), all) =
      (
        (
          omega arith,
          λ x i. same' x (omega arith) ∙ same x i,
          calls' ∙ calls,
          λ x i.
              memo' x (ground (arith, has-append x xs ys))
              ∙ memo x (ground (arith, has-append x xs ys)),
        ),
        (e, Laid-frame m.next t (λ x i j. same' x (omega arith)) laid, rw (sym next, LaidAll) all),
      )

  after :
      (t : Tree) (ts : Trees) (run : Run Address) (next : M (List Address))
      → Copied m xs t run
      → ((c : Address) (m₁ : Memory) → Copied m xs t (ok c m₁) → CopiedAll m₁ ys ts (next m₁))
      → CopiedAll m (xs ++ ys) (t ▸ ts) (and_then run λ c. next >>= λ cs. pure (c ∷ cs))
  after t ts (recursion_error m₁) next absent rest = absurd absent
  after t ts (ok c m₁) next done rest = both t ts c m₁ (next m₁) done (rest c m₁ done)

-- The objects below `b` are as in `objects`, and none of `as'` is in the dictionary.
abbrev Ready : ℕ → (Address → Object) → List Address → Memory → Type 0
Ready b objects as' m =
    (b ≤ m.next)
    × ((x : ℕ) → x < b → m.objects x ≡ objects x)
    × ((x : Address) → has x as' ≡ true → m.memo x ≡ none)

module _ (b : ℕ) (objects : Address → Object) where
  mutual
    unfolding copy_object new remember each

    pub Copied-copy_object :
        (stack a : ℕ) (t : Tree) (m : Memory)
        → Fits stack t
        → Holds (λ x. x < b) objects a t
        → Distinct (addresses objects a t)
        → Ready b objects (addresses objects a t) m
        → Copied m (addresses objects a t) t (copy_object stack a m)
    Copied-copy_object zero a (tree k ts) m fits h d ready = absurd fits
    Copied-copy_object (suc stack) a (tree k ts) m fits (i, e, h) (out, d) (mono, same, memo) =
        let inside = addresses_all objects (objects a).children ts in
        rw (memo a (ground arith), same a i, e)
          (filled a k inside ts m (each (copy_object stack) (objects a).children (begun a k m)) (
            CopiedAll-each stack (objects a).children ts (begun a k m) fits h d (
              omega arith,
              λ x j. put_object_other m.next _ m.objects x (ground arith) ∙ same x j,
              λ x j. unknown_yet a x inside (m.memo x) m.next out j (memo x (rw j (ground arith))),
            )))

    CopiedAll-each :
        (stack : ℕ) (cs : List Address) (ts : Trees) (m : Memory)
        → FitAll stack ts
        → HoldsAll (λ x. x < b) objects cs ts
        → Distinct (addresses_all objects cs ts)
        → Ready b objects (addresses_all objects cs ts) m
        → CopiedAll m (addresses_all objects cs ts) ts (each (copy_object stack) cs m)
    CopiedAll-each stack [] no_trees m fits h d ready =
        ((omega arith, λ x i. refl, refl, λ x i. refl), tt)
    CopiedAll-each stack [] (t ▸ ts) m fits h d ready = absurd h
    CopiedAll-each stack (c ∷ cs) no_trees m fits h d ready = absurd h
    CopiedAll-each stack (c ∷ cs) (t ▸ ts) m (fits, fits') (h, h') d (mono, same, memo) =
        let first = addresses objects c t in
        let others = addresses_all objects cs ts in
        let (d₁, d₂, apart) = Distinct-append first others d in
        after m first others apart t ts (copy_object stack c m) (each (copy_object stack) cs)
          (Copied-copy_object stack c t m fits h d₁
            (mono, same, λ x i. memo x (has-left x first others i)))
          λ c' m₁ (e, (next', same', calls', memo'), laid).
            CopiedAll-each stack cs ts m₁ fits' h' d₂ (
              omega arith,
              λ x i. same' x (omega arith) ∙ same x i,
              λ x i.
                  memo' x (Disjoint-sym x first others apart i)
                  ∙ memo x (has-right x first others i),
            )
