-- ===== src/Python/Trees.antt =====
-- The trees that objects stand for, whether or not nodes share objects: a kind and the trees of the
-- children.
pub mod Held
pub mod Visited
pub mod Built
pub mod Copied
pub mod Parts
pub mod OfNodes
pub mod OfStates
pub mod Places
use living_codebase.Prelude.{ℕ, zero, suc, ◌+◌, ◌≤◌, ◌<◌, ◌⊎◌, ◌≡◌, List, [], ◌∷◌}
use living_codebase.Python.Syntax.{
  Node, Nodes, attribute, subscript, bin_op, unary_op, bool_op, compare, call, constant, if_exp,
  name, assign, if_stmt, return_stmt, function_def, arguments, module_node, end, ◌⨾◌,
}
use living_codebase.Python.Objects.{Kind, Address, Object, Memory}

mutual
  pub data Tree : Type 0 where
    tree : Kind → Trees → Tree

  infixr 67 ◌▸◌
  pub data Trees : Type 0 where
    no_trees : Trees
    ◌▸◌ : Tree → Trees → Trees

abbrev mutual
  pub size : Tree → ℕ
  size (tree k ts) = suc (sizes ts)

  pub sizes : Trees → ℕ
  sizes no_trees = 0
  sizes (t ▸ ts) = size t + sizes ts

-- The tree fits under so many nested visits.
abbrev mutual
  pub Fits : ℕ → Tree → Type 0
  Fits zero (tree k ts) = ⊥
  Fits (suc stack) (tree k ts) = FitAll stack ts

  pub FitAll : ℕ → Trees → Type 0
  FitAll stack no_trees = Unit
  FitAll stack (t ▸ ts) = Fits stack t × FitAll stack ts

-- The rewriting of a node whose children are visited, with the number of the calls of `random`.
abbrev pub Rewriting : Type 0
Rewriting = Kind → Trees → ℕ → Tree × ℕ

module _ (rewrite : Rewriting) where
  abbrev mutual
    pub visit_tree : Tree → ℕ → Tree × ℕ
    visit_tree (tree k ts) s = let (ts', s₁) = visit_trees ts s in rewrite k ts' s₁

    pub visit_trees : Trees → ℕ → Trees × ℕ
    visit_trees no_trees s = (no_trees, s)
    visit_trees (t ▸ ts) s =
        let (t', s₁) = visit_tree t s in let (ts', s₂) = visit_trees ts s₁ in (t' ▸ ts', s₂)

infixr 66 ◌▸▸◌
abbrev pub ◌▸▸◌ : Trees → Trees → Trees
no_trees ▸▸ us = us
(t ▸ ts) ▸▸ us = t ▸ (ts ▸▸ us)

abbrev pub count : Nodes → ℕ
count end = 0
count (n ⨾ ns) = suc (count ns)

-- The children stand in field order.
abbrev mutual
  pub tree_of : Node → Tree
  tree_of (attribute v a c) = tree (Kind.attribute a c) (tree_of v ▸ no_trees)
  tree_of (subscript v s c) = tree (Kind.subscript c) (tree_of v ▸ tree_of s ▸ no_trees)
  tree_of (bin_op l o r) = tree (Kind.bin_op o) (tree_of l ▸ tree_of r ▸ no_trees)
  tree_of (unary_op o e) = tree (Kind.unary_op o) (tree_of e ▸ no_trees)
  tree_of (bool_op o es) = tree (Kind.bool_op o) (trees_of es)
  tree_of (compare l os rs) = tree (Kind.compare os) (tree_of l ▸ trees_of rs)
  tree_of (call f args kws) =
      tree (Kind.call (count args)) (tree_of f ▸ (trees_of args ▸▸ trees_of kws))
  tree_of (constant k) = tree (Kind.constant k) no_trees
  tree_of (if_exp t b o) = tree Kind.if_exp (tree_of t ▸ tree_of b ▸ tree_of o ▸ no_trees)
  tree_of (name x c) = tree (Kind.name x c) no_trees
  tree_of (assign ts v) = tree Kind.assign (trees_of ts ▸▸ (tree_of v ▸ no_trees))
  tree_of (if_stmt t b o) = tree (Kind.if_stmt (count b)) (tree_of t ▸ (trees_of b ▸▸ trees_of o))
  tree_of (return_stmt v) = tree Kind.return_stmt (tree_of v ▸ no_trees)
  tree_of (function_def f ps b ds) =
      tree (Kind.function_def f (count b)) (tree_of ps ▸ (trees_of b ▸▸ trees_of ds))
  tree_of (arguments xs ds) = tree (Kind.arguments xs) (trees_of ds)
  tree_of (module_node b) = tree Kind.module_node (trees_of b)
  tree_of (Node.other k ns) = tree (Kind.other k) (trees_of ns)

  pub trees_of : Nodes → Trees
  trees_of end = no_trees
  trees_of (n ⨾ ns) = tree_of n ▸ trees_of ns
