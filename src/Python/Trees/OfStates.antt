-- ===== src/Python/Trees/OfStates.antt =====
-- The transformers that keep state, on the trees of nodes.
use living_codebase.Prelude.{ℕ, ◌≡◌, refl, sym}
use living_codebase.Python.Syntax.{
  Node, Nodes, attribute, subscript, bin_op, unary_op, bool_op, compare, call, constant, if_exp,
  name, assign, if_stmt, return_stmt, function_def, arguments, module_node, end, ◌⨾◌,
}
use living_codebase.Python.Objects.{Kind}
use living_codebase.Python.StateVisitor.{visit_state, visit_all_state}
use living_codebase.Python.Trees.{
  no_trees, ◌▸◌, ◌▸▸◌, Rewriting, visit_tree, visit_trees, count, tree_of, trees_of,
}
use living_codebase.Python.Trees.Parts.{at_root, root, first, joined, count-visit_all_state}

module _ (f : Node → ℕ → Node × ℕ) (w : Rewriting)
    (agree : (n : Node) (s : ℕ) → at_root w (tree_of n) s ≡ (tree_of (f n s).0, (f n s).1)) where
  mutual
    unfolding visit_state

    pub visit_tree-visit_state :
        (n : Node) (s : ℕ)
        → visit_tree w (tree_of n) s ≡ (tree_of (visit_state f n s).0, (visit_state f n s).1)
    visit_tree-visit_state (attribute v a c) s =
        rw (visit_tree-visit_state v s)
          (agree (attribute (visit_state f v s).0 a c) (visit_state f v s).1)
    visit_tree-visit_state (subscript v i c) s =
        rw (visit_tree-visit_state v s, visit_tree-visit_state i (visit_state f v s).1)
          (agree (subscript (visit_state f v s).0 (visit_state f i (visit_state f v s).1).0 c)
            (visit_state f i (visit_state f v s).1).1)
    visit_tree-visit_state (bin_op l o r) s =
        rw (visit_tree-visit_state l s, visit_tree-visit_state r (visit_state f l s).1)
          (agree (bin_op (visit_state f l s).0 o (visit_state f r (visit_state f l s).1).0)
            (visit_state f r (visit_state f l s).1).1)
    visit_tree-visit_state (unary_op o e) s =
        rw (visit_tree-visit_state e s)
          (agree (unary_op o (visit_state f e s).0) (visit_state f e s).1)
    visit_tree-visit_state (bool_op o es) s =
        rw (visit_trees-visit_all_state es s)
          (agree (bool_op o (visit_all_state f es s).0) (visit_all_state f es s).1)
    visit_tree-visit_state (compare l os rs) s =
        rw (visit_tree-visit_state l s, visit_trees-visit_all_state rs (visit_state f l s).1)
          (agree (compare (visit_state f l s).0 os (visit_all_state f rs (visit_state f l s).1).0)
            (visit_all_state f rs (visit_state f l s).1).1)
    visit_tree-visit_state (call h args kws) s =
        root w (Kind.call (count args)) (tree_of h ▸ (trees_of args ▸▸ trees_of kws))
          (tree_of (visit_state f h s).0
            ▸ (trees_of (visit_all_state f args (visit_state f h s).1).0
                ▸▸ trees_of
                    (visit_all_state f kws (visit_all_state f args (visit_state f h s).1).1).0))
          s (visit_all_state f kws (visit_all_state f args (visit_state f h s).1).1).1 _
          (first w (tree_of h) (tree_of (visit_state f h s).0) (trees_of args ▸▸ trees_of kws)
            (trees_of (visit_all_state f args (visit_state f h s).1).0
              ▸▸ trees_of
                  (visit_all_state f kws (visit_all_state f args (visit_state f h s).1).1).0)
            s (visit_state f h s).1
            (visit_all_state f kws (visit_all_state f args (visit_state f h s).1).1).1
            (visit_tree-visit_state h s)
            (joined w (trees_of args) (trees_of (visit_all_state f args (visit_state f h s).1).0)
              (trees_of kws)
              (trees_of (visit_all_state f kws (visit_all_state f args (visit_state f h s).1).1).0)
              (visit_state f h s).1 (visit_all_state f args (visit_state f h s).1).1
              (visit_all_state f kws (visit_all_state f args (visit_state f h s).1).1).1
              (visit_trees-visit_all_state args (visit_state f h s).1)
              (visit_trees-visit_all_state kws (visit_all_state f args (visit_state f h s).1).1)))
          (rw (sym (count-visit_all_state f args (visit_state f h s).1)) (
            agree
              (call (visit_state f h s).0 (visit_all_state f args (visit_state f h s).1).0
                (visit_all_state f kws (visit_all_state f args (visit_state f h s).1).1).0)
              (visit_all_state f kws (visit_all_state f args (visit_state f h s).1).1).1))
    visit_tree-visit_state (constant k) s = agree (constant k) s
    visit_tree-visit_state (if_exp t b o) s =
        rw
          (
            visit_tree-visit_state t s,
            visit_tree-visit_state b (visit_state f t s).1,
            visit_tree-visit_state o (visit_state f b (visit_state f t s).1).1,
          )
          (agree
            (if_exp (visit_state f t s).0 (visit_state f b (visit_state f t s).1).0
              (visit_state f o (visit_state f b (visit_state f t s).1).1).0)
            (visit_state f o (visit_state f b (visit_state f t s).1).1).1)
    visit_tree-visit_state (name x c) s = agree (name x c) s
    visit_tree-visit_state (assign ts v) s =
        root w Kind.assign (trees_of ts ▸▸ (tree_of v ▸ no_trees))
          (trees_of (visit_all_state f ts s).0
            ▸▸ (tree_of (visit_state f v (visit_all_state f ts s).1).0 ▸ no_trees))
          s (visit_state f v (visit_all_state f ts s).1).1 _
          (joined w (trees_of ts) (trees_of (visit_all_state f ts s).0) (tree_of v ▸ no_trees)
            (tree_of (visit_state f v (visit_all_state f ts s).1).0 ▸ no_trees) s
            (visit_all_state f ts s).1 (visit_state f v (visit_all_state f ts s).1).1
            (visit_trees-visit_all_state ts s)
            (first w (tree_of v) (tree_of (visit_state f v (visit_all_state f ts s).1).0) no_trees
              no_trees (visit_all_state f ts s).1 (visit_state f v (visit_all_state f ts s).1).1
              (visit_state f v (visit_all_state f ts s).1).1
              (visit_tree-visit_state v (visit_all_state f ts s).1) refl))
          (agree (assign (visit_all_state f ts s).0 (visit_state f v (visit_all_state f ts s).1).0)
            (visit_state f v (visit_all_state f ts s).1).1)
    visit_tree-visit_state (if_stmt t b o) s =
        root w (Kind.if_stmt (count b)) (tree_of t ▸ (trees_of b ▸▸ trees_of o))
          (tree_of (visit_state f t s).0
            ▸ (trees_of (visit_all_state f b (visit_state f t s).1).0
                ▸▸ trees_of (visit_all_state f o (visit_all_state f b (visit_state f t s).1).1).0))
          s (visit_all_state f o (visit_all_state f b (visit_state f t s).1).1).1 _
          (first w (tree_of t) (tree_of (visit_state f t s).0) (trees_of b ▸▸ trees_of o)
            (trees_of (visit_all_state f b (visit_state f t s).1).0
              ▸▸ trees_of (visit_all_state f o (visit_all_state f b (visit_state f t s).1).1).0)
            s (visit_state f t s).1
            (visit_all_state f o (visit_all_state f b (visit_state f t s).1).1).1
            (visit_tree-visit_state t s)
            (joined w (trees_of b) (trees_of (visit_all_state f b (visit_state f t s).1).0)
              (trees_of o)
              (trees_of (visit_all_state f o (visit_all_state f b (visit_state f t s).1).1).0)
              (visit_state f t s).1 (visit_all_state f b (visit_state f t s).1).1
              (visit_all_state f o (visit_all_state f b (visit_state f t s).1).1).1
              (visit_trees-visit_all_state b (visit_state f t s).1)
              (visit_trees-visit_all_state o (visit_all_state f b (visit_state f t s).1).1)))
          (rw (sym (count-visit_all_state f b (visit_state f t s).1)) (
            agree
              (if_stmt (visit_state f t s).0 (visit_all_state f b (visit_state f t s).1).0
                (visit_all_state f o (visit_all_state f b (visit_state f t s).1).1).0)
              (visit_all_state f o (visit_all_state f b (visit_state f t s).1).1).1))
    visit_tree-visit_state (return_stmt v) s =
        rw (visit_tree-visit_state v s)
          (agree (return_stmt (visit_state f v s).0) (visit_state f v s).1)
    visit_tree-visit_state (function_def g ps b ds) s =
        root w (Kind.function_def g (count b)) (tree_of ps ▸ (trees_of b ▸▸ trees_of ds))
          (tree_of (visit_state f ps s).0
            ▸ (trees_of (visit_all_state f b (visit_state f ps s).1).0
                ▸▸ trees_of
                    (visit_all_state f ds (visit_all_state f b (visit_state f ps s).1).1).0))
          s (visit_all_state f ds (visit_all_state f b (visit_state f ps s).1).1).1 _
          (first w (tree_of ps) (tree_of (visit_state f ps s).0) (trees_of b ▸▸ trees_of ds)
            (trees_of (visit_all_state f b (visit_state f ps s).1).0
              ▸▸ trees_of (visit_all_state f ds (visit_all_state f b (visit_state f ps s).1).1).0)
            s (visit_state f ps s).1
            (visit_all_state f ds (visit_all_state f b (visit_state f ps s).1).1).1
            (visit_tree-visit_state ps s)
            (joined w (trees_of b) (trees_of (visit_all_state f b (visit_state f ps s).1).0)
              (trees_of ds)
              (trees_of (visit_all_state f ds (visit_all_state f b (visit_state f ps s).1).1).0)
              (visit_state f ps s).1 (visit_all_state f b (visit_state f ps s).1).1
              (visit_all_state f ds (visit_all_state f b (visit_state f ps s).1).1).1
              (visit_trees-visit_all_state b (visit_state f ps s).1)
              (visit_trees-visit_all_state ds (visit_all_state f b (visit_state f ps s).1).1)))
          (rw (sym (count-visit_all_state f b (visit_state f ps s).1)) (
            agree
              (function_def g (visit_state f ps s).0 (visit_all_state f b (visit_state f ps s).1).0
                (visit_all_state f ds (visit_all_state f b (visit_state f ps s).1).1).0)
              (visit_all_state f ds (visit_all_state f b (visit_state f ps s).1).1).1))
    visit_tree-visit_state (arguments xs ds) s =
        rw (visit_trees-visit_all_state ds s)
          (agree (arguments xs (visit_all_state f ds s).0) (visit_all_state f ds s).1)
    visit_tree-visit_state (module_node b) s =
        rw (visit_trees-visit_all_state b s)
          (agree (module_node (visit_all_state f b s).0) (visit_all_state f b s).1)
    visit_tree-visit_state (Node.other k ns) s =
        rw (visit_trees-visit_all_state ns s)
          (agree (Node.other k (visit_all_state f ns s).0) (visit_all_state f ns s).1)

    visit_trees-visit_all_state :
        (ns : Nodes) (s : ℕ)
        → visit_trees w (trees_of ns) s
          ≡ (trees_of (visit_all_state f ns s).0, (visit_all_state f ns s).1)
    visit_trees-visit_all_state end s = refl
    visit_trees-visit_all_state (n ⨾ ns) s =
        rw (visit_tree-visit_state n s, visit_trees-visit_all_state ns (visit_state f n s).1) refl
