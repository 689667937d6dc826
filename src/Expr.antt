-- ===== src/Expr.antt =====
-- src/exp.c: the expression evaluator.
pub mod Machine
pub mod Operators
pub mod Stack
pub mod Precedence
pub mod Literals
pub mod Eval
pub mod Steps
