-- ===== src/Python/Syntax.antt =====
-- Syntax trees, with the class names and field orders of Python's `ast`.
-- The classes that healing/mutator.py and healing/patch_engine.py inspect or build have a
-- constructor each; any other class is `other`, with its child nodes in field order.
use living_codebase.Prelude.{List, String, Bool}
use living_codebase.Prelude.Int.{ℤ}

pub data Ctx : Type 0 where
  load store del : Ctx

pub data Operator : Type 0 where
  add sub mult div : Operator
  other : String → Operator

pub data CmpOp : Type 0 where
  lt gt lt_e gt_e eq not_eq is is_not : CmpOp
  other : String → CmpOp

pub data BoolOp : Type 0 where
  and or : BoolOp

pub data UnaryOp : Type 0 where
  not u_sub : UnaryOp
  other : String → UnaryOp

-- The values of `Constant`; floats, bytes and `...` are `other`.
pub data Constant : Type 0 where
  none : Constant
  bool : Bool → Constant
  int : ℤ → Constant
  str : String → Constant
  other : String → Constant

mutual
  pub data Node : Type 0 where
    attribute : Node → String → Ctx → Node
    subscript : Node → Node → Ctx → Node
    bin_op : Node → Operator → Node → Node
    unary_op : UnaryOp → Node → Node
    bool_op : BoolOp → Nodes → Node
    compare : Node → List CmpOp → Nodes → Node
    -- function, positional arguments, keyword nodes
    call : Node → Nodes → Nodes → Node
    constant : Constant → Node
    -- test, body, orelse
    if_exp : Node → Node → Node → Node
    name : String → Ctx → Node
    -- targets, value
    assign : Nodes → Node → Node
    if_stmt : Node → Nodes → Nodes → Node
    -- a `return` with a value; a bare one is `other`
    return_stmt : Node → Node
    -- name, arguments, body, and the decorators, the result's annotation and the type parameters
    function_def : String → Node → Nodes → Nodes → Node
    -- the names of plain positional parameters, and the annotations and defaults below
    arguments : List String → Nodes → Node
    module_node : Nodes → Node
    -- the class with the fields that are no nodes, and the child nodes
    other : String → Nodes → Node

  infixr 67 ◌⨾◌
  pub data Nodes : Type 0 where
    end : Nodes
    ◌⨾◌ : Node → Nodes → Nodes
