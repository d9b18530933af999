-- ===== src/Population/Rewritten.antt =====
-- What the methods of the transformers make of a tree.
use living_codebase.Prelude.{ℕ, suc, ◌≤◌, ◌<◌, ◌≡◌, ◌∙◌, inl, refl, List, [], ◌∷◌, arith}
use living_codebase.Python.Objects.{
  Kind, Address, Object, Memory, Run, ok, recursion_error, and_then, set_kind, build,
}
use living_codebase.Python.Trees.{Tree, Trees, tree, no_trees, ◌▸◌}
use living_codebase.Python.Trees.Held.{In, Holds, HoldsAll, Holds-frame, HoldsAll-frame}
use living_codebase.Python.Trees.Visited.{Returns, Rewrites, put_object_same, put_object_other}
use living_codebase.Python.Trees.Built.{Adds, Adds-build}
use living_codebase.Population.{
  null_guard_expr, null_guard_at, insert_null_check_at, bounds_guard_expr, bounds_guard_at,
  insert_bounds_check_at, data_guard_expr, put_object_at, early_return_at, add_early_return_at,
  Rekind, rekind_at,
}
use living_codebase.Population.Rewritings.{
  null_guard_tree, null_rewriting, bounds_guard_tree, bounds_rewriting, data_guard_tree,
  early_return_rewriting, rekind_rewriting,
}

module _ (a hi n : ℕ) (a_hi : a < hi) (hi_n : hi ≤ n) (m : Memory) (n_next : n ≤ m.next) where
  -- The children `cs` stand for `ts`, and the object has the kind `k`.
  abbrev NodeAt : Kind → List Address → Trees → Type 0
  NodeAt k cs ts =
      ((m.objects a).kind ≡ k)
      × ((m.objects a).children ≡ cs)
      × HoldsAll (In (suc a) hi n m.next) m.objects cs ts

  -- The same with the object itself.
  around :
      (cs : List Address) (ts : Trees)
      → HoldsAll (In (suc a) hi n m.next) m.objects cs ts
      → HoldsAll (In a hi n m.next) m.objects cs ts
  around cs ts all = HoldsAll-frame (λ x i. ground arith) (λ x i. refl) cs ts all

  itself :
      (k : Kind) (cs : List Address) (ts : Trees)
      → NodeAt k cs ts
      → Holds (In a hi n m.next) m.objects a (tree k ts)
  itself k cs ts (e, e', all) =
      (inl (omega arith, omega arith), e, rw (e', HoldsAll) (around cs ts all))

  unchanged :
      (k : Kind) (cs : List Address) (ts : Trees)
      → NodeAt k cs ts
      → Returns a hi n m (tree k ts, m.calls) (ok a m)
  unchanged k cs ts node = ((omega arith, λ x i j. refl), refl, itself k cs ts node)

  Returns-Adds :
      (t : Tree) (run : Run Address) → Adds a hi n m t run → Returns a hi n m (t, m.calls) run
  Returns-Adds t (ok c m') ((mono, same, calls), h) =
      ((mono, λ x i j. same x (omega arith)), calls, h)
  Returns-Adds t (recursion_error m') absent = absurd absent

  Returns-null_guard_at :
      (k : Kind) (cs : List Address) (ts : Trees)
      → NodeAt k cs ts
      → Returns a hi n m (null_rewriting k ts m.calls) (null_guard_at a k cs m)
  unfolding null_guard_expr
  Returns-null_guard_at (Kind.attribute x c) (v ∷ []) (t ▸ no_trees) node =
      let all = around (v ∷ []) (t ▸ no_trees) node.2 in
      Returns-Adds (null_guard_tree t (tree (Kind.attribute x c) (t ▸ no_trees)))
        (build (null_guard_expr v a) m)
        (Adds-build a hi n (null_guard_expr v a)
          (null_guard_tree t (tree (Kind.attribute x c) (t ▸ no_trees))) m (omega arith) n_next
          (
            refl,
            (
              (refl, (all.0, ((refl, tt), tt))),
              (itself (Kind.attribute x c) (v ∷ []) (t ▸ no_trees) node, ((refl, tt), tt)),
            ),
          ))
  Returns-null_guard_at (Kind.attribute x c) (v ∷ []) no_trees (e, e', all) = absurd all
  Returns-null_guard_at (Kind.attribute x c) (v ∷ []) (t ▸ u ▸ ts) (e, e', (h, all)) = absurd all
  Returns-null_guard_at (Kind.attribute x c) [] (t ▸ ts) (e, e', all) = absurd all
  Returns-null_guard_at (Kind.attribute x c) (v ∷ w ∷ cs) (t ▸ no_trees) (e, e', (h, all)) =
      absurd all
  Returns-null_guard_at (Kind.subscript c) (v ∷ i ∷ []) (t ▸ u ▸ no_trees) node =
      let all = around (v ∷ i ∷ []) (t ▸ u ▸ no_trees) node.2 in
      Returns-Adds (null_guard_tree t (tree (Kind.subscript c) (t ▸ u ▸ no_trees)))
        (build (null_guard_expr v a) m)
        (Adds-build a hi n (null_guard_expr v a)
          (null_guard_tree t (tree (Kind.subscript c) (t ▸ u ▸ no_trees))) m (omega arith) n_next
          (
            refl,
            (
              (refl, (all.0, ((refl, tt), tt))),
              (itself (Kind.subscript c) (v ∷ i ∷ []) (t ▸ u ▸ no_trees) node, ((refl, tt), tt)),
            ),
          ))
  Returns-null_guard_at (Kind.subscript c) [] (t ▸ ts) (e, e', all) = absurd all
  Returns-null_guard_at (Kind.subscript c) (v ∷ cs) no_trees (e, e', all) = absurd all
  Returns-null_guard_at (Kind.subscript c) (v ∷ []) (t ▸ u ▸ ts) (e, e', (h, all)) = absurd all
  Returns-null_guard_at (Kind.subscript c) (v ∷ w ∷ cs) (t ▸ no_trees) (e, e', (h, all)) =
      absurd all
  Returns-null_guard_at (Kind.subscript c) (v ∷ w ∷ x ∷ cs) (t ▸ u ▸ no_trees)
        (e, e', (h, (h', all))) =
      absurd all
  Returns-null_guard_at (Kind.subscript c) (v ∷ w ∷ []) (t ▸ u ▸ r ▸ ts) (e, e', (h, (h', all))) =
      absurd all
  Returns-null_guard_at k cs ts node = unchanged k cs ts node

  Returns-bounds_guard_at :
      (k : Kind) (cs : List Address) (ts : Trees)
      → NodeAt k cs ts
      → Returns a hi n m (bounds_rewriting k ts m.calls) (bounds_guard_at a k cs m)
  unfolding bounds_guard_expr
  Returns-bounds_guard_at (Kind.subscript c) (v ∷ i ∷ []) (t ▸ u ▸ no_trees) node =
      let all = around (v ∷ i ∷ []) (t ▸ u ▸ no_trees) node.2 in
      Returns-Adds (bounds_guard_tree t u (tree (Kind.subscript c) (t ▸ u ▸ no_trees)))
        (build (bounds_guard_expr v i a) m)
        (Adds-build a hi n (bounds_guard_expr v i a)
          (bounds_guard_tree t u (tree (Kind.subscript c) (t ▸ u ▸ no_trees))) m (omega arith)
          n_next
          (
            refl,
            (
              (
                refl,
                (
                  (refl, ((refl, ((refl, tt), (all.0, tt))), (all.1.0, tt))),
                  ((refl, (all.1.0, ((refl, tt), tt))), tt),
                ),
              ),
              (itself (Kind.subscript c) (v ∷ i ∷ []) (t ▸ u ▸ no_trees) node, ((refl, tt), tt)),
            ),
          ))
  Returns-bounds_guard_at (Kind.subscript c) [] (t ▸ ts) (e, e', all) = absurd all
  Returns-bounds_guard_at (Kind.subscript c) (v ∷ cs) no_trees (e, e', all) = absurd all
  Returns-bounds_guard_at (Kind.subscript c) (v ∷ []) (t ▸ u ▸ ts) (e, e', (h, all)) = absurd all
  Returns-bounds_guard_at (Kind.subscript c) (v ∷ w ∷ cs) (t ▸ no_trees) (e, e', (h, all)) =
      absurd all
  Returns-bounds_guard_at (Kind.subscript c) (v ∷ w ∷ x ∷ cs) (t ▸ u ▸ no_trees)
        (e, e', (h, (h', all))) =
      absurd all
  Returns-bounds_guard_at (Kind.subscript c) (v ∷ w ∷ []) (t ▸ u ▸ r ▸ ts) (e, e', (h, (h', all))) =
      absurd all
  Returns-bounds_guard_at k cs ts node = unchanged k cs ts node

  Returns-early_return_at :
      (k : Kind) (cs : List Address) (ts : Trees)
      → NodeAt k cs ts
      → Returns a hi n m (early_return_rewriting k ts m.calls) (early_return_at a k cs m)
  unfolding data_guard_expr put_object_at
  Returns-early_return_at (Kind.function_def f k) (c ∷ cs) (t ▸ ts) (e, e', (h, all)) =
      placed (build data_guard_expr m) (
        Adds-build (suc a) hi n data_guard_expr data_guard_tree m (omega arith) n_next
          (refl, ((refl, ((refl, tt), ((refl, tt), tt))), ((refl, ((refl, tt), tt)), tt))))
    where
      placed :
          (run : Run Address)
          → Adds (suc a) hi n m data_guard_tree run
          → Returns a hi n m (early_return_rewriting (Kind.function_def f k) (t ▸ ts) m.calls) (
              and_then run λ guard.
                put_object_at a
                  (record { kind = Kind.function_def f (suc k); children = c ∷ guard ∷ cs }))
      placed (recursion_error m₁) absent = absurd absent
      placed (ok g m₁) ((mono, same, calls), guard) = (
        (mono, λ x i j. put_object_other a o m₁.objects x (ground arith) ∙ same x (omega arith)),
        calls,
        rw (put_object_same a o m₁.objects, Holds)
            (
              inl (omega arith, omega arith),
              refl,
              (
                Holds-frame (λ x i. ground arith)
                    (λ x i.
                      put_object_other a o m₁.objects x (ground arith) ∙ same x (ground arith))
                    c t h,
                (
                  Holds-frame (λ x i. ground arith)
                      (λ x i. put_object_other a o m₁.objects x (ground arith)) g data_guard_tree
                      guard,
                  HoldsAll-frame (λ x i. ground arith)
                      (λ x i.
                        put_object_other a o m₁.objects x (ground arith) ∙ same x (ground arith))
                      cs ts all,
                ),
              ),
            ),
      )
        where
          o : Object
          o = record { kind = Kind.function_def f (suc k); children = c ∷ g ∷ cs }
  Returns-early_return_at (Kind.function_def f k) [] (t ▸ ts) (e, e', all) = absurd all
  Returns-early_return_at (Kind.function_def f k) (c ∷ cs) no_trees (e, e', all) = absurd all
  Returns-early_return_at k cs ts node = unchanged k cs ts node

  Returns-rekind_at :
      (f : Rekind) (ts : Trees)
      → HoldsAll (In (suc a) hi n m.next) m.objects (m.objects a).children ts
      → Returns a hi n m (rekind_rewriting f (m.objects a).kind ts m.calls) (rekind_at f a m)
  unfolding rekind_at set_kind
  Returns-rekind_at f ts all = (
    (omega arith, λ x i j. put_object_other a o m.objects x (ground arith)),
    refl,
    rw (put_object_same a o m.objects, Holds)
        (
          inl (omega arith, omega arith),
          refl,
          HoldsAll-frame (λ x i. ground arith)
              (λ x i. put_object_other a o m.objects x (ground arith)) (m.objects a).children ts
              all,
        ),
  )
    where
      o : Object
      o = record (m.objects a) { kind = (f (m.objects a).kind m.calls).0 }

pub Rewrites-null_check : Rewrites null_rewriting insert_null_check_at
unfolding insert_null_check_at
Rewrites-null_check a hi n m ts i j k all =
    Returns-null_guard_at a hi n i j m k (m.objects a).kind (m.objects a).children ts
      (refl, refl, all)

pub Rewrites-bounds_check : Rewrites bounds_rewriting insert_bounds_check_at
unfolding insert_bounds_check_at
Rewrites-bounds_check a hi n m ts i j k all =
    Returns-bounds_guard_at a hi n i j m k (m.objects a).kind (m.objects a).children ts
      (refl, refl, all)

pub Rewrites-early_return : Rewrites early_return_rewriting add_early_return_at
unfolding add_early_return_at
Rewrites-early_return a hi n m ts i j k all =
    Returns-early_return_at a hi n i j m k (m.objects a).kind (m.objects a).children ts
      (refl, refl, all)

pub Rewrites-rekind_at : (f : Rekind) → Rewrites (rekind_rewriting f) (rekind_at f)
Rewrites-rekind_at f a hi n m ts i j k all = Returns-rekind_at a hi n i j m k f ts all
