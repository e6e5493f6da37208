-- ===== src/Macro.antt =====
-- libs/macro: the computer of `#if`, `#while` and `#eval` expressions.
pub mod Token
pub mod Arith
pub mod Operators
pub mod Computer
pub mod Expression
pub mod Value
pub mod Simulation
pub mod Priority
pub mod Pending
pub mod Brackets
pub mod Operand
pub mod Chain
pub mod Correct
pub mod Result
pub mod Signs
pub mod Termination
pub mod Unbalanced
pub mod Errors
pub mod Steps
pub mod Reports
mod Tests
