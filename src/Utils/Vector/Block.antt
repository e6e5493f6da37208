-- ===== src/Utils/Vector/Block.antt =====
-- The block of bytes that vector.c allocates for its cells. Its request is a number of bytes modulo
-- 2 ^ 64, so for 2 ^ 61 cells and more the block is shorter than `size_alloc` says.
use ru_c.Prelude.{ℕ, ◌*◌, ◌%◌, ◌^◌, ◌≤◌, ◌<◌, arith}
use ru_c.Utils.Item.{word, item_bytes}
use ru_c.Utils.Vector.{Vector, size}

-- The bytes that `malloc` or `realloc` was asked for last.
abbrev pub block : Vector → ℕ
block vec = vec.size_alloc * item_bytes % word

-- The cells fit the block, which has room for one at least.
pub record IsValid (vec : Vector) : Type 0 where
  pub fits : size vec * item_bytes ≤ block vec
  pub nonempty : item_bytes ≤ block vec

-- At most `n` cells, in a vector whose requests have not wrapped.
pub record IsWithin (n : ℕ) (vec : Vector) : Type 0 where
  pub few : size vec ≤ n
  pub fits : size vec ≤ vec.size_alloc
  pub nonempty : 1 ≤ vec.size_alloc
  pub small : vec.size_alloc < 2 ^ 61

pub IsWithin-IsValid : {n : ℕ} (vec : Vector) → IsWithin n vec → IsValid vec
IsWithin-IsValid vec w =
    let fits = w.fits in
    let nonempty = w.nonempty in
    let small = w.small in record { fits = omega arith; nonempty = omega arith }
