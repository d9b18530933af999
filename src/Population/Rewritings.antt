-- ===== src/Population/Rewritings.antt =====
-- The transformers of healing/mutator.py on trees of kinds.
use living_codebase.Prelude.{suc, [], ◌∷◌}
use living_codebase.Prelude.Int.{pos, negsuc}
use living_codebase.Python.Syntax.{load, gt, gt_e, is, is_not, Constant, BoolOp}
use living_codebase.Python.Objects.{Kind}
use living_codebase.Python.Trees.{Tree, tree, no_trees, ◌▸◌, Rewriting}
use living_codebase.Population.{Rekind}

abbrev pub leaf : Kind → Tree
leaf k = tree k no_trees

abbrev pub null_guard_tree : Tree → Tree → Tree
null_guard_tree v node = tree Kind.if_exp (
    tree (Kind.compare (is_not ∷ [])) (v ▸ leaf (Kind.constant Constant.none) ▸ no_trees)
    ▸ node
    ▸ leaf (Kind.constant (Constant.int (pos 0)))
    ▸ no_trees)

abbrev pub null_rewriting : Rewriting
null_rewriting (Kind.attribute x c) (v ▸ no_trees) s =
    (null_guard_tree v (tree (Kind.attribute x c) (v ▸ no_trees)), s)
null_rewriting (Kind.subscript c) (v ▸ i ▸ no_trees) s =
    (null_guard_tree v (tree (Kind.subscript c) (v ▸ i ▸ no_trees)), s)
null_rewriting k ts s = (tree k ts, s)

abbrev pub bounds_guard_tree : Tree → Tree → Tree → Tree
bounds_guard_tree v i node = tree Kind.if_exp (
    tree (Kind.bool_op BoolOp.and) (
      tree (Kind.compare (gt ∷ []))
        (tree (Kind.call 1) (leaf (Kind.name "len" load) ▸ v ▸ no_trees) ▸ i ▸ no_trees)
      ▸ tree (Kind.compare (gt_e ∷ [])) (i ▸ leaf (Kind.constant (Constant.int (pos 0))) ▸ no_trees)
      ▸ no_trees)
    ▸ node
    ▸ leaf (Kind.constant (Constant.int (pos 0)))
    ▸ no_trees)

abbrev pub bounds_rewriting : Rewriting
bounds_rewriting (Kind.subscript c) (v ▸ i ▸ no_trees) s =
    (bounds_guard_tree v i (tree (Kind.subscript c) (v ▸ i ▸ no_trees)), s)
bounds_rewriting k ts s = (tree k ts, s)

abbrev pub data_guard_tree : Tree
data_guard_tree = tree (Kind.if_stmt 1) (
    tree (Kind.compare (is ∷ []))
      (leaf (Kind.name "data" load) ▸ leaf (Kind.constant Constant.none) ▸ no_trees)
    ▸ tree Kind.return_stmt (leaf (Kind.constant (Constant.int (negsuc 0))) ▸ no_trees)
    ▸ no_trees)

abbrev pub early_return_rewriting : Rewriting
early_return_rewriting (Kind.function_def f n) (ps ▸ rest) s =
    (tree (Kind.function_def f (suc n)) (ps ▸ data_guard_tree ▸ rest), s)
early_return_rewriting k ts s = (tree k ts, s)

abbrev pub rekind_rewriting : Rekind → Rewriting
rekind_rewriting f k ts s = (tree (f k s).0 ts, (f k s).1)
