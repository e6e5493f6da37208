-- ===== src/Compiler/Parser.antt =====
-- libs/compiler/parser.c.
pub mod State
pub mod Expression
pub mod Grammar
pub mod Written
pub mod Roundtrip
pub mod Skip
pub mod Context
pub mod Statement
pub mod Total
pub mod Termination
mod Tests
