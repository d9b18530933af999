-- ===== src/Mutator/Mutate/Literals.antt =====
-- What `_replace_literal` does to a tree: the integer literals, in the order of the visit, are
-- replaced one draw each, and nothing else changes.
use living_codebase.Prelude.{
  true, false, ◌≡◌, refl, sym, ap, ℕ, suc, ◌+◌, List, [], ◌∷◌, ◌++◌, length, length-append, Option,
  none, some, arith,
}
use living_codebase.Prelude.Int.{ℤ, pos}
use living_codebase.Python.Syntax.{
  Constant, Node, Nodes, attribute, subscript, bin_op, unary_op, bool_op, compare, call, constant,
  if_exp, name, assign, if_stmt, return_stmt, function_def, arguments, module_node, end, ◌⨾◌,
}
use living_codebase.Python.Visitor.{visit, visit_all}
use living_codebase.Python.StateVisitor.{visit_state, visit_all_state}
use living_codebase.Mutator.Mutate.{
  Draws, new_literal, int_literal, literal_replace, replace_literal,
}

-- The literals of a tree, in the order of the visit.
abbrev listed : Option ℤ → List ℤ
listed none = []
listed (some i) = i ∷ []

mutual
  pub literals : Node → List ℤ
  literals (attribute v a c) = literals v
  literals (subscript v s c) = literals v ++ literals s
  literals (bin_op l o r) = literals l ++ literals r
  literals (unary_op o e) = literals e
  literals (bool_op o es) = all_literals es
  literals (compare l os rs) = literals l ++ all_literals rs
  literals (call f args kws) = literals f ++ (all_literals args ++ all_literals kws)
  literals (constant k) = listed (int_literal k)
  literals (if_exp t b o) = literals t ++ (literals b ++ literals o)
  literals (name x c) = []
  literals (assign ts v) = all_literals ts ++ literals v
  literals (if_stmt t b o) = literals t ++ (all_literals b ++ all_literals o)
  literals (return_stmt v) = literals v
  literals (function_def f ps b ds) = literals ps ++ (all_literals b ++ all_literals ds)
  literals (arguments xs ds) = all_literals ds
  literals (module_node b) = all_literals b
  literals (Node.other k ns) = all_literals ns

  all_literals : Nodes → List ℤ
  all_literals end = []
  all_literals (n ⨾ ns) = literals n ++ all_literals ns

-- A tree without its literals.
pub blank : Node → Node
blank (constant k) = elim (int_literal k) [
  | some i ↦ constant (Constant.int (pos 0))
  | none ↦ constant k
]
blank n = n

module _ (draws : Draws) where
  -- The literals after the replacement, the first by the draw of call `calls`.
  pub redrawn : ℕ → List ℤ → List ℤ
  redrawn calls [] = []
  redrawn calls (v ∷ vs) = new_literal (draws calls) v ∷ redrawn (suc calls) vs

  redrawn-append :
      (calls : ℕ) (vs ws : List ℤ)
      → redrawn calls (vs ++ ws) ≡ redrawn calls vs ++ redrawn (calls + length vs) ws
  unfolding redrawn
  redrawn-append calls [] ws = ap (λ n. redrawn n ws) (omega arith)
  redrawn-append calls (v ∷ vs) ws = rw (redrawn-append (suc calls) vs ws) (
      ap (λ n. new_literal (draws calls) v ∷ (redrawn (suc calls) vs ++ redrawn n ws))
        (omega arith))

  -- A stretch of the visit, from the call it starts with to the one after its last.
  abbrev Replaced : ℕ → List ℤ → List ℤ → ℕ → Type 0
  Replaced calls vs ws calls' = (calls' ≡ calls + length vs) × (ws ≡ redrawn calls vs)

  Replaced-append :
      (m : ℕ) (vs vs' : List ℤ) (n : ℕ) (ws ws' : List ℤ) (k : ℕ)
      → Replaced m vs vs' n
      → Replaced n ws ws' k
      → Replaced m (vs ++ ws) (vs' ++ ws') k
  Replaced-append m vs vs' n ws ws' k (p, q) (r, s) =
      (omega (arith, length-append vs ws), rw (q, s, p) (sym (redrawn-append m vs ws)))

  abbrev after : Node → ℕ → Node × ℕ
  after = visit_state (literal_replace draws)

  abbrev after_all : Nodes → ℕ → Nodes × ℕ
  after_all = visit_all_state (literal_replace draws)

  mutual
    unfolding visit_state literals literal_replace redrawn int_literal

    visit_state_lem :
        (t : Node) (m : ℕ) → Replaced m (literals t) (literals (after t m).0) (after t m).1
    visit_state_lem (attribute v a c) m = visit_state_lem v m
    visit_state_lem (subscript v s c) m =
        Replaced-append m _ _ _ _ _ _ (visit_state_lem v m) (visit_state_lem s _)
    visit_state_lem (bin_op l o r) m =
        Replaced-append m _ _ _ _ _ _ (visit_state_lem l m) (visit_state_lem r _)
    visit_state_lem (unary_op o e) m = visit_state_lem e m
    visit_state_lem (bool_op o es) m = visit_all_state_lem es m
    visit_state_lem (compare l os rs) m =
        Replaced-append m _ _ _ _ _ _ (visit_state_lem l m) (visit_all_state_lem rs _)
    visit_state_lem (call f args kws) m =
        Replaced-append m _ _ _ _ _ _ (visit_state_lem f m)
          (Replaced-append _ _ _ _ _ _ _ (visit_all_state_lem args _) (visit_all_state_lem kws _))
    visit_state_lem (constant (Constant.int i)) m = (omega arith, refl)
    visit_state_lem (constant (Constant.bool true)) m = (omega arith, refl)
    visit_state_lem (constant (Constant.bool false)) m = (omega arith, refl)
    visit_state_lem (constant _) m = (omega arith, refl)
    visit_state_lem (if_exp t b o) m =
        Replaced-append m _ _ _ _ _ _ (visit_state_lem t m)
          (Replaced-append _ _ _ _ _ _ _ (visit_state_lem b _) (visit_state_lem o _))
    visit_state_lem (name x c) m = (omega arith, refl)
    visit_state_lem (assign ts v) m =
        Replaced-append m _ _ _ _ _ _ (visit_all_state_lem ts m) (visit_state_lem v _)
    visit_state_lem (if_stmt t b o) m =
        Replaced-append m _ _ _ _ _ _ (visit_state_lem t m)
          (Replaced-append _ _ _ _ _ _ _ (visit_all_state_lem b _) (visit_all_state_lem o _))
    visit_state_lem (return_stmt v) m = visit_state_lem v m
    visit_state_lem (function_def f ps b ds) m =
        Replaced-append m _ _ _ _ _ _ (visit_state_lem ps m)
          (Replaced-append _ _ _ _ _ _ _ (visit_all_state_lem b _) (visit_all_state_lem ds _))
    visit_state_lem (arguments xs ds) m = visit_all_state_lem ds m
    visit_state_lem (module_node b) m = visit_all_state_lem b m
    visit_state_lem (Node.other k ns) m = visit_all_state_lem ns m

    visit_all_state_lem :
        (ts : Nodes) (m : ℕ)
        → Replaced m (all_literals ts) (all_literals (after_all ts m).0) (after_all ts m).1
    visit_all_state_lem end m = (omega arith, refl)
    visit_all_state_lem (t ⨾ ts) m =
        Replaced-append m _ _ _ _ _ _ (visit_state_lem t m) (visit_all_state_lem ts _)

  mutual
    unfolding visit_state visit literal_replace blank int_literal

    visit-visit_state : (t : Node) (m : ℕ) → visit blank (after t m).0 ≡ visit blank t
    visit-visit_state (attribute v a c) m = rw (visit-visit_state v m)
    visit-visit_state (subscript v s c) m = rw (visit-visit_state v m, visit-visit_state s _)
    visit-visit_state (bin_op l o r) m = rw (visit-visit_state l m, visit-visit_state r _)
    visit-visit_state (unary_op o e) m = rw (visit-visit_state e m)
    visit-visit_state (bool_op o es) m = rw (visit_all-visit_all_state es m)
    visit-visit_state (compare l os rs) m =
        rw (visit-visit_state l m, visit_all-visit_all_state rs _)
    visit-visit_state (call f args kws) m =
        rw
          (visit-visit_state f m, visit_all-visit_all_state args _, visit_all-visit_all_state kws _)
    visit-visit_state (constant (Constant.int i)) m = refl
    visit-visit_state (constant (Constant.bool true)) m = refl
    visit-visit_state (constant (Constant.bool false)) m = refl
    visit-visit_state (constant _) m = refl
    visit-visit_state (if_exp t b o) m =
        rw (visit-visit_state t m, visit-visit_state b _, visit-visit_state o _)
    visit-visit_state (name x c) m = refl
    visit-visit_state (assign ts v) m = rw (visit_all-visit_all_state ts m, visit-visit_state v _)
    visit-visit_state (if_stmt t b o) m =
        rw (visit-visit_state t m, visit_all-visit_all_state b _, visit_all-visit_all_state o _)
    visit-visit_state (return_stmt v) m = rw (visit-visit_state v m)
    visit-visit_state (function_def f ps b ds) m =
        rw (visit-visit_state ps m, visit_all-visit_all_state b _, visit_all-visit_all_state ds _)
    visit-visit_state (arguments xs ds) m = rw (visit_all-visit_all_state ds m)
    visit-visit_state (module_node b) m = rw (visit_all-visit_all_state b m)
    visit-visit_state (Node.other k ns) m = rw (visit_all-visit_all_state ns m)

    visit_all-visit_all_state :
        (ts : Nodes) (m : ℕ) → visit_all blank (after_all ts m).0 ≡ visit_all blank ts
    visit_all-visit_all_state end m = refl
    visit_all-visit_all_state (t ⨾ ts) m =
        rw (visit-visit_state t m, visit_all-visit_all_state ts _)

  -- Every integer literal, in the order of the visit, is replaced by its own draw; a draw is made
  -- for each and for nothing else; and apart from its literals the tree stays as it was.
  pub replace_literal_lem :
      (t : Node) (calls : ℕ)
      → let (t', calls') = replace_literal draws t calls in
        (literals t' ≡ redrawn calls (literals t))
        × (calls' ≡ calls + length (literals t))
        × (visit blank t' ≡ visit blank t)
  unfolding replace_literal
  replace_literal_lem t calls =
      let p = visit_state_lem t calls in (p.1, p.0, visit-visit_state t calls)
