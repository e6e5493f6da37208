-- ===== src/Utils/Utf8.antt =====
-- libs/utils/utf8.c: symbols, their bytes and the code pages. A string is the list of the bytes
-- before its zero; no argument is NULL.
pub mod Codepages
pub mod Encoding
pub mod Transliteration
pub mod Letters
pub mod Conversion
pub mod Roundtrip
pub mod Capitals
pub mod Symbols
mod Tests
