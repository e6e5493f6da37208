-- ===== src/Compiler/Lexer.antt =====
-- libs/compiler/lexer.c and the tokens of libs/compiler/token.c.
mod Tests
pub mod Source
pub mod Number
pub mod Text
pub mod Switch
pub mod Scanner
pub mod Comments
pub mod Digits
pub mod Decimal
pub mod Punctuators
pub mod Names
pub mod Tokens
pub mod Roundtrip
pub mod Behind
pub mod Strings
pub mod Cases
pub mod Termination
pub mod Unterminated
