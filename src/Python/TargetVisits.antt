-- ===== src/Python/TargetVisits.antt =====
-- Transformers of which the rewriting keeps the targets of assignments valid keep them so themselves.
use living_codebase.Prelude.{◌≡◌, ◌∙◌, refl}
use living_codebase.Python.Syntax.{
  Node, Nodes, attribute, subscript, bin_op, unary_op, bool_op, compare, call, constant, if_exp,
  name, assign, if_stmt, return_stmt, function_def, arguments, module_node, end, ◌⨾◌,
}
use living_codebase.Python.Visitor.{visit, visit_all}
use living_codebase.Python.Targets.{targets_valid, all_valid, is_target, are_targets}

module _ (f : Node → Node) (keep : (n : Node) → targets_valid (f n) ≡ targets_valid n)
    (target : (n : Node) → is_target (f n) ≡ is_target n) where
  is_target-visit : (n : Node) → is_target (visit f n) ≡ is_target n
  unfolding visit
  is_target-visit (attribute v a c) = target (attribute (visit f v) a c)
  is_target-visit (subscript v i c) = target (subscript (visit f v) (visit f i) c)
  is_target-visit (bin_op l o r) = target (bin_op (visit f l) o (visit f r))
  is_target-visit (unary_op o e) = target (unary_op o (visit f e))
  is_target-visit (bool_op o es) = target (bool_op o (visit_all f es))
  is_target-visit (compare l os rs) = target (compare (visit f l) os (visit_all f rs))
  is_target-visit (call h args kws) = target (call (visit f h) (visit_all f args) (visit_all f kws))
  is_target-visit (constant k) = target (constant k)
  is_target-visit (if_exp t b o) = target (if_exp (visit f t) (visit f b) (visit f o))
  is_target-visit (name x c) = target (name x c)
  is_target-visit (assign ts v) = target (assign (visit_all f ts) (visit f v))
  is_target-visit (if_stmt t b o) = target (if_stmt (visit f t) (visit_all f b) (visit_all f o))
  is_target-visit (return_stmt v) = target (return_stmt (visit f v))
  is_target-visit (function_def g ps b ds) =
      target (function_def g (visit f ps) (visit_all f b) (visit_all f ds))
  is_target-visit (arguments xs ds) = target (arguments xs (visit_all f ds))
  is_target-visit (module_node b) = target (module_node (visit_all f b))
  is_target-visit (Node.other k ns) = target (Node.other k (visit_all f ns))

  are_targets-visit_all : (ns : Nodes) → are_targets (visit_all f ns) ≡ are_targets ns
  unfolding visit
  are_targets-visit_all end = refl
  are_targets-visit_all (n ⨾ ns) = rw (is_target-visit n, are_targets-visit_all ns) refl

  mutual
    unfolding visit targets_valid

    pub targets_valid-visit : (n : Node) → targets_valid (visit f n) ≡ targets_valid n
    targets_valid-visit (attribute v a c) = keep (attribute (visit f v) a c) ∙ targets_valid-visit v
    targets_valid-visit (subscript v i c) =
        keep (subscript (visit f v) (visit f i) c)
        ∙ rw (targets_valid-visit v, targets_valid-visit i) refl
    targets_valid-visit (bin_op l o r) =
        keep (bin_op (visit f l) o (visit f r))
        ∙ rw (targets_valid-visit l, targets_valid-visit r) refl
    targets_valid-visit (unary_op o e) = keep (unary_op o (visit f e)) ∙ targets_valid-visit e
    targets_valid-visit (bool_op o es) = keep (bool_op o (visit_all f es)) ∙ all_valid-visit_all es
    targets_valid-visit (compare l os rs) =
        keep (compare (visit f l) os (visit_all f rs))
        ∙ rw (targets_valid-visit l, all_valid-visit_all rs) refl
    targets_valid-visit (call h args kws) =
        keep (call (visit f h) (visit_all f args) (visit_all f kws))
        ∙ rw (targets_valid-visit h, all_valid-visit_all args, all_valid-visit_all kws) refl
    targets_valid-visit (constant k) = keep (constant k)
    targets_valid-visit (if_exp t b o) =
        keep (if_exp (visit f t) (visit f b) (visit f o))
        ∙ rw (targets_valid-visit t, targets_valid-visit b, targets_valid-visit o) refl
    targets_valid-visit (name x c) = keep (name x c)
    targets_valid-visit (assign ts v) =
        keep (assign (visit_all f ts) (visit f v))
        ∙ rw (are_targets-visit_all ts, all_valid-visit_all ts, targets_valid-visit v) refl
    targets_valid-visit (if_stmt t b o) =
        keep (if_stmt (visit f t) (visit_all f b) (visit_all f o))
        ∙ rw (targets_valid-visit t, all_valid-visit_all b, all_valid-visit_all o) refl
    targets_valid-visit (return_stmt v) = keep (return_stmt (visit f v)) ∙ targets_valid-visit v
    targets_valid-visit (function_def g ps b ds) =
        keep (function_def g (visit f ps) (visit_all f b) (visit_all f ds))
        ∙ rw (targets_valid-visit ps, all_valid-visit_all b, all_valid-visit_all ds) refl
    targets_valid-visit (arguments xs ds) =
        keep (arguments xs (visit_all f ds)) ∙ all_valid-visit_all ds
    targets_valid-visit (module_node b) = keep (module_node (visit_all f b)) ∙ all_valid-visit_all b
    targets_valid-visit (Node.other k ns) =
        keep (Node.other k (visit_all f ns)) ∙ all_valid-visit_all ns

    all_valid-visit_all : (ns : Nodes) → all_valid (visit_all f ns) ≡ all_valid ns
    all_valid-visit_all end = refl
    all_valid-visit_all (n ⨾ ns) = rw (targets_valid-visit n, all_valid-visit_all ns) refl
