-- ===== src/Python/Objects.antt =====
-- The nodes of Python's `ast` as objects in memory, which two nodes may share: `ast.NodeTransformer`
-- in place and `copy.deepcopy`. An operator, a context or a name is part of its node's kind.
pub mod Frame
pub mod Copies
use living_codebase.Prelude.{
  ℕ, zero, suc, Bool, String, Option, none, some, List, [], ◌∷◌, ◌==◌, if◌then◌else◌,
}
use living_codebase.Python.Syntax.{Ctx, Operator, UnaryOp, BoolOp, CmpOp, Constant}

-- The class of a node with the fields that are no nodes. The children are one list, in field order;
-- a kind with two lists of children has the length of the first.
pub data Kind : Type 0 where
  attribute : String → Ctx → Kind
  subscript : Ctx → Kind
  bin_op : Operator → Kind
  unary_op : UnaryOp → Kind
  bool_op : BoolOp → Kind
  compare : List CmpOp → Kind
  -- the number of positional arguments
  call : ℕ → Kind
  constant : Constant → Kind
  if_exp : Kind
  name : String → Ctx → Kind
  assign : Kind
  -- the length of the body
  if_stmt : ℕ → Kind
  return_stmt : Kind
  -- the name, and the length of the body
  function_def : String → ℕ → Kind
  arguments : List String → Kind
  module_node : Kind
  other : String → Kind

abbrev pub Address : Type 0
Address = ℕ

pub record Object : Type 0 where
  pub kind : Kind
  pub children : List Address

-- The objects, the next address, the dictionary `memo` of the running `deepcopy`, and the calls of
-- `random` so far. What stands at an address not yet given out does not matter.
pub record Memory : Type 0 where
  pub objects : Address → Object
  pub next : Address
  pub memo : Address → Option Address
  pub calls : ℕ

-- A run returns, or raises RecursionError.
pub data Run (A : Type 0) : Type 0 where
  ok : A → Memory → Run A
  recursion_error : Memory → Run A

abbrev pub M : Type 0 → Type 0
M A = Memory → Run A

abbrev pub pure : {A : Type 0} → A → M A
pure = ok

module _ {A B : Type 0} where
  abbrev pub and_then : Run A → (A → M B) → Run B
  and_then (ok a m) k = k a m
  and_then (recursion_error m) k = recursion_error m

  infixl 5 ◌>>=◌ ◌>>◌
  abbrev pub ◌>>=◌ : M A → (A → M B) → M B
  ◌>>=◌ c k m = and_then (c m) k

  abbrev pub ◌>>◌ : M A → M B → M B
  c >> k = c >>= λ _. k

abbrev pub put_object : Address → Object → (Address → Object) → Address → Object
put_object a o objects x = if a == x then o else objects x

-- A new object.
unfoldable pub new : Kind → List Address → M Address
new kind children m = ok m.next (record m {
  objects = put_object m.next (record { kind = kind; children = children }) m.objects;
  next = suc m.next;
})

unfoldable pub set_children : Address → List Address → M (Unit {0})
set_children a cs m =
    ok tt (record m { objects = put_object a (record (m.objects a) { children = cs }) m.objects })

unfoldable pub set_kind : Address → Kind → M (Unit {0})
set_kind a k m =
    ok tt (record m { objects = put_object a (record (m.objects a) { kind = k }) m.objects })

-- Every child in turn.
unfoldable pub each : (Address → M Address) → List Address → M (List Address)
each f [] = pure []
each f (a ∷ as') = do b ← f a; bs ← each f as'; pure (b ∷ bs)

-- `visit`, with as many nested calls as the stack allows: `generic_visit` visits the children and
-- puts what it gets in their places; `rewrite` is the rest of the method.
unfoldable pub visit : (Address → M Address) → ℕ → Address → M Address
unfolding each set_children
visit rewrite zero a m = recursion_error m
visit rewrite (suc stack) a m =
    (each (visit rewrite stack) (m.objects a).children >>= λ cs. set_children a cs >> rewrite a) m

unfoldable pub remember : Address → Address → M (Unit {0})
remember a b m = ok tt (record m { memo = λ x. if a == x then some b else m.memo x })

-- The copies of the children become those of the new object.
abbrev pub fill : (Address → M Address) → List Address → Address → M Address
fill copy children b = each copy children >>= λ cs. set_children b cs >> pure b

abbrev pub recall : Option Address → M Address → M Address
recall none fresh m = fresh m
recall (some b) fresh m = ok b m

-- `copy.deepcopy(x, memo)`: an object that was copied before is not copied again.
unfoldable pub copy_object : ℕ → Address → M Address
unfolding each new remember set_children
copy_object zero a m = recursion_error m
copy_object (suc stack) a m =
    recall (m.memo a)
      (new (m.objects a).kind [] >>= λ b.
        remember a b >> fill (copy_object stack) (m.objects a).children b)
      m

unfoldable pub deepcopy : ℕ → Address → M Address
unfolding copy_object
deepcopy stack a m = copy_object stack a (record m { memo = λ x. none })

-- An expression that makes nodes: a node that is there, or a constructor call, whose arguments are
-- evaluated first.
mutual
  pub data Expr : Type 0 where
    there : Address → Expr
    make : Kind → Exprs → Expr

  infixr 67 ◌⨾◌
  pub data Exprs : Type 0 where
    end : Exprs
    ◌⨾◌ : Expr → Exprs → Exprs

unfoldable mutual
  unfolding new

  pub build : Expr → M Address
  build (there a) m = ok a m
  build (make k es) m = (build_all es >>= λ cs. new k cs) m

  pub build_all : Exprs → M (List Address)
  build_all end m = ok [] m
  build_all (e ⨾ es) m = (build e >>= λ c. build_all es >>= λ cs. pure (c ∷ cs)) m
