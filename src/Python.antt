-- ===== src/Python.antt =====
-- The part of Python's `ast` module that the healing scripts use, and the meaning of the fragment
-- that they build and run: syntax trees, node transformers, values, and an evaluator.
pub mod Objects
pub mod Trees
pub mod TargetVisits
pub mod TargetStates
pub mod Syntax
pub mod Visitor
pub mod StateVisitor
pub mod Value
pub mod Eval
pub mod Exec
pub mod Targets
pub mod Laws
