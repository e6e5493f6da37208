-- ===== src/Compiler.antt =====
-- libs/compiler: its operators, its lexer and its parser.
pub mod Operations
pub mod Lexer
pub mod Parser
