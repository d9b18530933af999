-- ===== src/Python/Visitor.antt =====
-- `ast.NodeTransformer`: every class in healing/mutator.py calls `generic_visit`, which visits the
-- children in field order, and then rewrites the node itself. A class is its rewriting of one node.
use living_codebase.Python.Syntax.{
  Node, Nodes, attribute, subscript, bin_op, unary_op, bool_op, compare, call, constant, if_exp,
  name, assign, if_stmt, return_stmt, function_def, arguments, module_node, end, ◌⨾◌,
}

module _ (rewrite : Node → Node) where
  unfoldable mutual
    pub visit : Node → Node
    visit (attribute v a c) = rewrite (attribute (visit v) a c)
    visit (subscript v s c) = rewrite (subscript (visit v) (visit s) c)
    visit (bin_op l o r) = rewrite (bin_op (visit l) o (visit r))
    visit (unary_op o e) = rewrite (unary_op o (visit e))
    visit (bool_op o es) = rewrite (bool_op o (visit_all es))
    visit (compare l os rs) = rewrite (compare (visit l) os (visit_all rs))
    visit (call f args kws) = rewrite (call (visit f) (visit_all args) (visit_all kws))
    visit (constant k) = rewrite (constant k)
    visit (if_exp t b o) = rewrite (if_exp (visit t) (visit b) (visit o))
    visit (name x c) = rewrite (name x c)
    visit (assign ts v) = rewrite (assign (visit_all ts) (visit v))
    visit (if_stmt t b o) = rewrite (if_stmt (visit t) (visit_all b) (visit_all o))
    visit (return_stmt v) = rewrite (return_stmt (visit v))
    visit (function_def f ps b ds) =
        rewrite (function_def f (visit ps) (visit_all b) (visit_all ds))
    visit (arguments xs ds) = rewrite (arguments xs (visit_all ds))
    visit (module_node b) = rewrite (module_node (visit_all b))
    visit (Node.other k ns) = rewrite (Node.other k (visit_all ns))

    pub visit_all : Nodes → Nodes
    visit_all end = end
    visit_all (n ⨾ ns) = visit n ⨾ visit_all ns
