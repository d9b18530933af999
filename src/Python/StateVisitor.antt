-- ===== src/Python/StateVisitor.antt =====
-- A node transformer that keeps state: the children are visited in field order, then the node is
-- rewritten.
use living_codebase.Python.Syntax.{
  Node, Nodes, attribute, subscript, bin_op, unary_op, bool_op, compare, call, constant, if_exp,
  name, assign, if_stmt, return_stmt, function_def, arguments, module_node, end, ◌⨾◌,
}

module _ {S : Type 0} (rewrite : Node → S → Node × S) where
  unfoldable mutual
    pub visit_state : Node → S → Node × S
    visit_state (attribute v a c) s =
        let (v', s₁) = visit_state v s in rewrite (attribute v' a c) s₁
    visit_state (subscript v i c) s =
        let (v', s₁) = visit_state v s in
        let (i', s₂) = visit_state i s₁ in rewrite (subscript v' i' c) s₂
    visit_state (bin_op l o r) s =
        let (l', s₁) = visit_state l s in
        let (r', s₂) = visit_state r s₁ in rewrite (bin_op l' o r') s₂
    visit_state (unary_op o e) s = let (e', s₁) = visit_state e s in rewrite (unary_op o e') s₁
    visit_state (bool_op o es) s =
        let (es', s₁) = visit_all_state es s in rewrite (bool_op o es') s₁
    visit_state (compare l os rs) s =
        let (l', s₁) = visit_state l s in
        let (rs', s₂) = visit_all_state rs s₁ in rewrite (compare l' os rs') s₂
    visit_state (call f args kws) s =
        let (f', s₁) = visit_state f s in
        let (args', s₂) = visit_all_state args s₁ in
        let (kws', s₃) = visit_all_state kws s₂ in rewrite (call f' args' kws') s₃
    visit_state (constant k) s = rewrite (constant k) s
    visit_state (if_exp t b o) s =
        let (t', s₁) = visit_state t s in
        let (b', s₂) = visit_state b s₁ in
        let (o', s₃) = visit_state o s₂ in rewrite (if_exp t' b' o') s₃
    visit_state (name x c) s = rewrite (name x c) s
    visit_state (assign ts v) s =
        let (ts', s₁) = visit_all_state ts s in
        let (v', s₂) = visit_state v s₁ in rewrite (assign ts' v') s₂
    visit_state (if_stmt t b o) s =
        let (t', s₁) = visit_state t s in
        let (b', s₂) = visit_all_state b s₁ in
        let (o', s₃) = visit_all_state o s₂ in rewrite (if_stmt t' b' o') s₃
    visit_state (return_stmt v) s = let (v', s₁) = visit_state v s in rewrite (return_stmt v') s₁
    visit_state (function_def f ps b ds) s =
        let (ps', s₁) = visit_state ps s in
        let (b', s₂) = visit_all_state b s₁ in
        let (ds', s₃) = visit_all_state ds s₂ in rewrite (function_def f ps' b' ds') s₃
    visit_state (arguments xs ds) s =
        let (ds', s₁) = visit_all_state ds s in rewrite (arguments xs ds') s₁
    visit_state (module_node b) s =
        let (b', s₁) = visit_all_state b s in rewrite (module_node b') s₁
    visit_state (Node.other k ns) s =
        let (ns', s₁) = visit_all_state ns s in rewrite (Node.other k ns') s₁

    pub visit_all_state : Nodes → S → Nodes × S
    visit_all_state end s = (end, s)
    visit_all_state (n ⨾ ns) s =
        let (n', s₁) = visit_state n s in let (ns', s₂) = visit_all_state ns s₁ in (n' ⨾ ns', s₂)
