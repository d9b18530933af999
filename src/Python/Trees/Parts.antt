-- ===== src/Python/Trees/Parts.antt =====
-- Visits of a root, of a list of trees and of two lists in a row.
use living_codebase.Prelude.{ℕ, suc, ◌≡◌, refl, ap, ◌∙◌}
use living_codebase.Python.Syntax.{Node, Nodes, end, ◌⨾◌}
use living_codebase.Python.Objects.{Kind}
use living_codebase.Python.Visitor.{visit, visit_all}
use living_codebase.Python.StateVisitor.{visit_state, visit_all_state}
use living_codebase.Python.Trees.{
  Tree, Trees, tree, no_trees, ◌▸◌, ◌▸▸◌, Rewriting, visit_tree, visit_trees, count,
}

-- A rewriting of the root.
abbrev pub at_root : Rewriting → Tree → ℕ → Tree × ℕ
at_root w (tree k ts) s = w k ts s

module _ (w : Rewriting) where
  pub root :
      (k : Kind) (ts ts' : Trees) (s s₁ : ℕ) (r : Tree × ℕ)
      → visit_trees w ts s ≡ (ts', s₁)
      → w k ts' s₁ ≡ r
      → visit_tree w (tree k ts) s ≡ r
  root k ts ts' s s₁ r e e' = rw e e'

  pub first :
      (t t' : Tree) (ts ts' : Trees) (s s₁ s₂ : ℕ)
      → visit_tree w t s ≡ (t', s₁)
      → visit_trees w ts s₁ ≡ (ts', s₂)
      → visit_trees w (t ▸ ts) s ≡ (t' ▸ ts', s₂)
  first t t' ts ts' s s₁ s₂ e e' = rw (e, e') refl

  visit_trees-append :
      (ts us : Trees) (s : ℕ)
      → visit_trees w (ts ▸▸ us) s
        ≡ (let r = visit_trees w ts s in let q = visit_trees w us r.1 in (r.0 ▸▸ q.0, q.1))
  visit_trees-append no_trees us s = refl
  visit_trees-append (t ▸ ts) us s = rw (visit_trees-append ts us (visit_tree w t s).1) refl

  pub joined :
      (ts ts' us us' : Trees) (s s₁ s₂ : ℕ)
      → visit_trees w ts s ≡ (ts', s₁)
      → visit_trees w us s₁ ≡ (us', s₂)
      → visit_trees w (ts ▸▸ us) s ≡ (ts' ▸▸ us', s₂)
  joined ts ts' us us' s s₁ s₂ e e' = visit_trees-append ts us s ∙ rw (e, e') refl

pub count-visit_all : (f : Node → Node) (ns : Nodes) → count (visit_all f ns) ≡ count ns
unfolding visit
count-visit_all f end = refl
count-visit_all f (n ⨾ ns) = ap suc (count-visit_all f ns)

pub count-visit_all_state :
    (f : Node → ℕ → Node × ℕ) (ns : Nodes) (s : ℕ) → count (visit_all_state f ns s).0 ≡ count ns
unfolding visit_state
count-visit_all_state f end s = refl
count-visit_all_state f (n ⨾ ns) s = ap suc (count-visit_all_state f ns (visit_state f n s).1)
