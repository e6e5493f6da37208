-- ===== src/Utils.antt =====
-- libs/utils: items, vectors and stacks.
pub mod Hash
pub mod Item
pub mod Vector
pub mod Strings
pub mod Stack
pub mod Utf8
mod Tests
