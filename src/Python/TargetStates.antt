-- ===== src/Python/TargetStates.antt =====
-- The same for transformers with state.
use living_codebase.Prelude.{◌≡◌, ◌∙◌, refl, ℕ}
use living_codebase.Python.Syntax.{
  Node, Nodes, attribute, subscript, bin_op, unary_op, bool_op, compare, call, constant, if_exp,
  name, assign, if_stmt, return_stmt, function_def, arguments, module_node, end, ◌⨾◌,
}
use living_codebase.Python.StateVisitor.{visit_state, visit_all_state}
use living_codebase.Python.Targets.{targets_valid, all_valid, is_target, are_targets}

module _ (f : Node → ℕ → Node × ℕ)
    (keep : (n : Node) (s : ℕ) → targets_valid (f n s).0 ≡ targets_valid n)
    (target : (n : Node) (s : ℕ) → is_target (f n s).0 ≡ is_target n) where
  is_target-visit_state : (n : Node) (s : ℕ) → is_target (visit_state f n s).0 ≡ is_target n
  unfolding visit_state
  is_target-visit_state (attribute v a c) s =
      target (attribute (visit_state f v s).0 a c) (visit_state f v s).1
  is_target-visit_state (subscript v i c) s =
      target (subscript (visit_state f v s).0 (visit_state f i (visit_state f v s).1).0 c)
        (visit_state f i (visit_state f v s).1).1
  is_target-visit_state (bin_op l o r) s =
      target (bin_op (visit_state f l s).0 o (visit_state f r (visit_state f l s).1).0)
        (visit_state f r (visit_state f l s).1).1
  is_target-visit_state (unary_op o e) s =
      target (unary_op o (visit_state f e s).0) (visit_state f e s).1
  is_target-visit_state (bool_op o es) s =
      target (bool_op o (visit_all_state f es s).0) (visit_all_state f es s).1
  is_target-visit_state (compare l os rs) s =
      target (compare (visit_state f l s).0 os (visit_all_state f rs (visit_state f l s).1).0)
        (visit_all_state f rs (visit_state f l s).1).1
  is_target-visit_state (call h args kws) s =
      target
        (call (visit_state f h s).0 (visit_all_state f args (visit_state f h s).1).0
          (visit_all_state f kws (visit_all_state f args (visit_state f h s).1).1).0)
        (visit_all_state f kws (visit_all_state f args (visit_state f h s).1).1).1
  is_target-visit_state (constant k) s = target (constant k) s
  is_target-visit_state (if_exp t b o) s =
      target
        (if_exp (visit_state f t s).0 (visit_state f b (visit_state f t s).1).0
          (visit_state f o (visit_state f b (visit_state f t s).1).1).0)
        (visit_state f o (visit_state f b (visit_state f t s).1).1).1
  is_target-visit_state (name x c) s = target (name x c) s
  is_target-visit_state (assign ts v) s =
      target (assign (visit_all_state f ts s).0 (visit_state f v (visit_all_state f ts s).1).0)
        (visit_state f v (visit_all_state f ts s).1).1
  is_target-visit_state (if_stmt t b o) s =
      target
        (if_stmt (visit_state f t s).0 (visit_all_state f b (visit_state f t s).1).0
          (visit_all_state f o (visit_all_state f b (visit_state f t s).1).1).0)
        (visit_all_state f o (visit_all_state f b (visit_state f t s).1).1).1
  is_target-visit_state (return_stmt v) s =
      target (return_stmt (visit_state f v s).0) (visit_state f v s).1
  is_target-visit_state (function_def g ps b ds) s =
      target
        (function_def g (visit_state f ps s).0 (visit_all_state f b (visit_state f ps s).1).0
          (visit_all_state f ds (visit_all_state f b (visit_state f ps s).1).1).0)
        (visit_all_state f ds (visit_all_state f b (visit_state f ps s).1).1).1
  is_target-visit_state (arguments xs ds) s =
      target (arguments xs (visit_all_state f ds s).0) (visit_all_state f ds s).1
  is_target-visit_state (module_node b) s =
      target (module_node (visit_all_state f b s).0) (visit_all_state f b s).1
  is_target-visit_state (Node.other k ns) s =
      target (Node.other k (visit_all_state f ns s).0) (visit_all_state f ns s).1

  are_targets-visit_all_state :
      (ns : Nodes) (s : ℕ) → are_targets (visit_all_state f ns s).0 ≡ are_targets ns
  unfolding visit_state
  are_targets-visit_all_state end s = refl
  are_targets-visit_all_state (n ⨾ ns) s =
      rw (is_target-visit_state n s, are_targets-visit_all_state ns (visit_state f n s).1) refl

  mutual
    unfolding visit_state targets_valid

    pub targets_valid-visit_state :
        (n : Node) (s : ℕ) → targets_valid (visit_state f n s).0 ≡ targets_valid n
    targets_valid-visit_state (attribute v a c) s =
        keep (attribute (visit_state f v s).0 a c) (visit_state f v s).1
        ∙ targets_valid-visit_state v s
    targets_valid-visit_state (subscript v i c) s =
        keep (subscript (visit_state f v s).0 (visit_state f i (visit_state f v s).1).0 c)
          (visit_state f i (visit_state f v s).1).1
        ∙ rw (targets_valid-visit_state v s, targets_valid-visit_state i (visit_state f v s).1) refl
    targets_valid-visit_state (bin_op l o r) s =
        keep (bin_op (visit_state f l s).0 o (visit_state f r (visit_state f l s).1).0)
          (visit_state f r (visit_state f l s).1).1
        ∙ rw (targets_valid-visit_state l s, targets_valid-visit_state r (visit_state f l s).1) refl
    targets_valid-visit_state (unary_op o e) s =
        keep (unary_op o (visit_state f e s).0) (visit_state f e s).1
        ∙ targets_valid-visit_state e s
    targets_valid-visit_state (bool_op o es) s =
        keep (bool_op o (visit_all_state f es s).0) (visit_all_state f es s).1
        ∙ all_valid-visit_all_state es s
    targets_valid-visit_state (compare l os rs) s =
        keep (compare (visit_state f l s).0 os (visit_all_state f rs (visit_state f l s).1).0)
          (visit_all_state f rs (visit_state f l s).1).1
        ∙ rw (targets_valid-visit_state l s, all_valid-visit_all_state rs (visit_state f l s).1)
            refl
    targets_valid-visit_state (call h args kws) s =
        keep
          (call (visit_state f h s).0 (visit_all_state f args (visit_state f h s).1).0
            (visit_all_state f kws (visit_all_state f args (visit_state f h s).1).1).0)
          (visit_all_state f kws (visit_all_state f args (visit_state f h s).1).1).1
        ∙ rw
            (
              targets_valid-visit_state h s,
              all_valid-visit_all_state args (visit_state f h s).1,
              all_valid-visit_all_state kws (visit_all_state f args (visit_state f h s).1).1,
            )
            refl
    targets_valid-visit_state (constant k) s = keep (constant k) s
    targets_valid-visit_state (if_exp t b o) s =
        keep
          (if_exp (visit_state f t s).0 (visit_state f b (visit_state f t s).1).0
            (visit_state f o (visit_state f b (visit_state f t s).1).1).0)
          (visit_state f o (visit_state f b (visit_state f t s).1).1).1
        ∙ rw
            (
              targets_valid-visit_state t s,
              targets_valid-visit_state b (visit_state f t s).1,
              targets_valid-visit_state o (visit_state f b (visit_state f t s).1).1,
            )
            refl
    targets_valid-visit_state (name x c) s = keep (name x c) s
    targets_valid-visit_state (assign ts v) s =
        keep (assign (visit_all_state f ts s).0 (visit_state f v (visit_all_state f ts s).1).0)
          (visit_state f v (visit_all_state f ts s).1).1
        ∙ rw
            (
              are_targets-visit_all_state ts s,
              all_valid-visit_all_state ts s,
              targets_valid-visit_state v (visit_all_state f ts s).1,
            )
            refl
    targets_valid-visit_state (if_stmt t b o) s =
        keep
          (if_stmt (visit_state f t s).0 (visit_all_state f b (visit_state f t s).1).0
            (visit_all_state f o (visit_all_state f b (visit_state f t s).1).1).0)
          (visit_all_state f o (visit_all_state f b (visit_state f t s).1).1).1
        ∙ rw
            (
              targets_valid-visit_state t s,
              all_valid-visit_all_state b (visit_state f t s).1,
              all_valid-visit_all_state o (visit_all_state f b (visit_state f t s).1).1,
            )
            refl
    targets_valid-visit_state (return_stmt v) s =
        keep (return_stmt (visit_state f v s).0) (visit_state f v s).1
        ∙ targets_valid-visit_state v s
    targets_valid-visit_state (function_def g ps b ds) s =
        keep
          (function_def g (visit_state f ps s).0 (visit_all_state f b (visit_state f ps s).1).0
            (visit_all_state f ds (visit_all_state f b (visit_state f ps s).1).1).0)
          (visit_all_state f ds (visit_all_state f b (visit_state f ps s).1).1).1
        ∙ rw
            (
              targets_valid-visit_state ps s,
              all_valid-visit_all_state b (visit_state f ps s).1,
              all_valid-visit_all_state ds (visit_all_state f b (visit_state f ps s).1).1,
            )
            refl
    targets_valid-visit_state (arguments xs ds) s =
        keep (arguments xs (visit_all_state f ds s).0) (visit_all_state f ds s).1
        ∙ all_valid-visit_all_state ds s
    targets_valid-visit_state (module_node b) s =
        keep (module_node (visit_all_state f b s).0) (visit_all_state f b s).1
        ∙ all_valid-visit_all_state b s
    targets_valid-visit_state (Node.other k ns) s =
        keep (Node.other k (visit_all_state f ns s).0) (visit_all_state f ns s).1
        ∙ all_valid-visit_all_state ns s

    all_valid-visit_all_state :
        (ns : Nodes) (s : ℕ) → all_valid (visit_all_state f ns s).0 ≡ all_valid ns
    all_valid-visit_all_state end s = refl
    all_valid-visit_all_state (n ⨾ ns) s =
        rw (targets_valid-visit_state n s, all_valid-visit_all_state ns (visit_state f n s).1) refl
