-- ===== src/Python/Trees/OfNodes.antt =====
-- The transformers on the trees of nodes.
use living_codebase.Prelude.{ℕ, ◌≡◌, refl, sym}
use living_codebase.Python.Syntax.{
  Node, Nodes, attribute, subscript, bin_op, unary_op, bool_op, compare, call, constant, if_exp,
  name, assign, if_stmt, return_stmt, function_def, arguments, module_node, end, ◌⨾◌,
}
use living_codebase.Python.Objects.{Kind}
use living_codebase.Python.Visitor.{visit, visit_all}
use living_codebase.Python.Trees.{
  no_trees, ◌▸◌, ◌▸▸◌, Rewriting, visit_tree, visit_trees, count, tree_of, trees_of,
}
use living_codebase.Python.Trees.Parts.{at_root, root, first, joined, count-visit_all}

module _ (f : Node → Node) (w : Rewriting)
    (agree : (n : Node) (s : ℕ) → at_root w (tree_of n) s ≡ (tree_of (f n), s)) where
  mutual
    unfolding visit

    pub visit_tree-visit :
        (n : Node) (s : ℕ) → visit_tree w (tree_of n) s ≡ (tree_of (visit f n), s)
    visit_tree-visit (attribute v a c) s =
        rw (visit_tree-visit v s) (agree (attribute (visit f v) a c) s)
    visit_tree-visit (subscript v i c) s =
        rw (visit_tree-visit v s, visit_tree-visit i s)
          (agree (subscript (visit f v) (visit f i) c) s)
    visit_tree-visit (bin_op l o r) s =
        rw (visit_tree-visit l s, visit_tree-visit r s) (agree (bin_op (visit f l) o (visit f r)) s)
    visit_tree-visit (unary_op o e) s = rw (visit_tree-visit e s) (agree (unary_op o (visit f e)) s)
    visit_tree-visit (bool_op o es) s =
        rw (visit_trees-visit_all es s) (agree (bool_op o (visit_all f es)) s)
    visit_tree-visit (compare l os rs) s =
        rw (visit_tree-visit l s, visit_trees-visit_all rs s)
          (agree (compare (visit f l) os (visit_all f rs)) s)
    visit_tree-visit (call h args kws) s =
        root w (Kind.call (count args)) (tree_of h ▸ (trees_of args ▸▸ trees_of kws))
          (tree_of (visit f h) ▸ (trees_of (visit_all f args) ▸▸ trees_of (visit_all f kws))) s s _
          (first w (tree_of h) (tree_of (visit f h)) (trees_of args ▸▸ trees_of kws)
            (trees_of (visit_all f args) ▸▸ trees_of (visit_all f kws)) s s s (visit_tree-visit h s)
            (joined w (trees_of args) (trees_of (visit_all f args)) (trees_of kws)
              (trees_of (visit_all f kws)) s s s (visit_trees-visit_all args s)
              (visit_trees-visit_all kws s)))
          (rw (sym (count-visit_all f args))
            (agree (call (visit f h) (visit_all f args) (visit_all f kws)) s))
    visit_tree-visit (constant k) s = agree (constant k) s
    visit_tree-visit (if_exp t b o) s =
        rw (visit_tree-visit t s, visit_tree-visit b s, visit_tree-visit o s)
          (agree (if_exp (visit f t) (visit f b) (visit f o)) s)
    visit_tree-visit (name x c) s = agree (name x c) s
    visit_tree-visit (assign ts v) s =
        root w Kind.assign (trees_of ts ▸▸ (tree_of v ▸ no_trees))
          (trees_of (visit_all f ts) ▸▸ (tree_of (visit f v) ▸ no_trees)) s s _
          (joined w (trees_of ts) (trees_of (visit_all f ts)) (tree_of v ▸ no_trees)
            (tree_of (visit f v) ▸ no_trees) s s s (visit_trees-visit_all ts s)
            (first w (tree_of v) (tree_of (visit f v)) no_trees no_trees s s s
              (visit_tree-visit v s) refl))
          (agree (assign (visit_all f ts) (visit f v)) s)
    visit_tree-visit (if_stmt t b o) s =
        root w (Kind.if_stmt (count b)) (tree_of t ▸ (trees_of b ▸▸ trees_of o))
          (tree_of (visit f t) ▸ (trees_of (visit_all f b) ▸▸ trees_of (visit_all f o))) s s _
          (first w (tree_of t) (tree_of (visit f t)) (trees_of b ▸▸ trees_of o)
            (trees_of (visit_all f b) ▸▸ trees_of (visit_all f o)) s s s (visit_tree-visit t s)
            (joined w (trees_of b) (trees_of (visit_all f b)) (trees_of o)
              (trees_of (visit_all f o)) s s s (visit_trees-visit_all b s)
              (visit_trees-visit_all o s)))
          (rw (sym (count-visit_all f b))
            (agree (if_stmt (visit f t) (visit_all f b) (visit_all f o)) s))
    visit_tree-visit (return_stmt v) s =
        rw (visit_tree-visit v s) (agree (return_stmt (visit f v)) s)
    visit_tree-visit (function_def g ps b ds) s =
        root w (Kind.function_def g (count b)) (tree_of ps ▸ (trees_of b ▸▸ trees_of ds))
          (tree_of (visit f ps) ▸ (trees_of (visit_all f b) ▸▸ trees_of (visit_all f ds))) s s _
          (first w (tree_of ps) (tree_of (visit f ps)) (trees_of b ▸▸ trees_of ds)
            (trees_of (visit_all f b) ▸▸ trees_of (visit_all f ds)) s s s (visit_tree-visit ps s)
            (joined w (trees_of b) (trees_of (visit_all f b)) (trees_of ds)
              (trees_of (visit_all f ds)) s s s (visit_trees-visit_all b s)
              (visit_trees-visit_all ds s)))
          (rw (sym (count-visit_all f b))
            (agree (function_def g (visit f ps) (visit_all f b) (visit_all f ds)) s))
    visit_tree-visit (arguments xs ds) s =
        rw (visit_trees-visit_all ds s) (agree (arguments xs (visit_all f ds)) s)
    visit_tree-visit (module_node b) s =
        rw (visit_trees-visit_all b s) (agree (module_node (visit_all f b)) s)
    visit_tree-visit (Node.other k ns) s =
        rw (visit_trees-visit_all ns s) (agree (Node.other k (visit_all f ns)) s)

    visit_trees-visit_all :
        (ns : Nodes) (s : ℕ) → visit_trees w (trees_of ns) s ≡ (trees_of (visit_all f ns), s)
    visit_trees-visit_all end s = refl
    visit_trees-visit_all (n ⨾ ns) s = rw (visit_tree-visit n s, visit_trees-visit_all ns s) refl
