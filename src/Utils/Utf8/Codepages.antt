-- ===== src/Utils/Utf8/Codepages.antt =====
-- The code pages of libs/utils/utf8.c: a byte is a number below 256, a symbol a char32_t.
-- A table holds the cases of a `switch`, in its order.
mod Cases
mod Cp866
mod Cp1251
unfoldable pub use Cases.*
unfoldable pub use Cp866.*
unfoldable pub use Cp1251.*
