-- ===== src/Compiler/Parser/Roundtrip.antt =====
-- Expressions that are written by the grammar and read by parser.c.
pub mod Tokens
pub mod Rounds
pub mod Steps
pub mod Reads
pub mod Operators
pub mod Operands
pub mod Correct
pub mod Whole
