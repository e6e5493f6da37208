-- ===== src/Utils/Vector.antt =====
-- libs/utils/vector.c. `array` is `none` where the pointer is NULL, and else the cells below
-- `size`: `size` is their number. A cell at or past `size` is not kept, since `change_size` clears
-- it before any operation reads it. An argument `vec` is never NULL.
-- `grant` is the C allocator: whether a request for so many bytes succeeds. The bytes are those of the
-- request in C, modulo 2 ^ 64. Where they wrap, for 2 ^ 61 cells and more, C gets a shorter block and
-- what it does past it is undefined; the cells here stay those that the code means. Block says which
-- vectors have all their cells in the block.
pub mod Block
pub mod Access
pub mod Capacity
pub mod Resize
use ru_c.Prelude.{
  ℕ, zero, ◌+◌, ◌-◌, ◌*◌, ◌%◌, Bool, true, false, Option, none, some, List, [], ◌++◌, ltb, leb,
  ◌==◌, if◌then◌else◌, length, set, get_or, take, replicate,
}
use ru_c.Prelude.Int.{ℤ, pos, negsuc}
use ru_c.Utils.Item.{Item, Size, word, item_max, size_max, item_bytes}

pub record Vector : Type 0 where
  pub array : Option (List Item)
  pub size_alloc : Size

-- The cells of a correct vector.
abbrev pub cells : Vector → List Item
cells vec = elim vec.array [ none ↦ [] | some xs ↦ xs ]

-- `vec->size`
abbrev pub size : Vector → Size
size vec = length (cells vec)

abbrev pub vector_is_correct : Vector → Bool
vector_is_correct vec = elim vec.array [ none ↦ false | some xs ↦ true ]

-- The cells that `memset` and the assignment of `size` leave.
abbrev pub resize_cells : Size → List Item → List Item
resize_cells n xs = take n xs ++ replicate (n - length xs) 0

-- `alloc_new`
abbrev pub grown : Size → Size → Size
grown alloc n = let twice = 2 * alloc % word in if ltb twice n then n else twice

module _ (grant : ℕ → Bool) where
  unfoldable pub change_size : Vector → Size → Vector × ℤ
  change_size vec n =
      let resized = some (resize_cells n (cells vec)) in
      if ltb vec.size_alloc n
      then (let alloc_new = grown vec.size_alloc n in
          if grant (alloc_new * item_bytes % word)
          then (record { array = resized; size_alloc = alloc_new }, pos 0)
          else (vec, negsuc 0))
      else (record vec { array = resized }, pos 0)

  unfoldable pub vector_create : Size → Vector
  vector_create alloc =
      let n = if alloc == 0 then 1 else alloc in
      record { array = if grant (n * item_bytes % word) then some [] else none; size_alloc = n }

-- `vec->array[index] = value`
abbrev pub write : Vector → Size → Item → Vector
write vec index value = record vec { array = some (set (cells vec) index value) }

-- What `vector_add` does with the code of `change_size`.
abbrev pub add_last : Item → Vector × ℤ → Vector × Size
add_last value (vec, pos zero) =
    let last = (size vec + word - 1) % word in (write vec last value, last)
add_last value (vec, code) = (vec, size_max)

module _ (grant : ℕ → Bool) where
  unfoldable pub vector_add : Vector → Item → Vector × Size
  unfolding change_size
  vector_add vec value =
      if vector_is_correct vec
      then add_last value (change_size grant vec ((size vec + 1) % word))
      else (vec, size_max)

  unfoldable pub vector_increase : Vector → Size → Vector × ℤ
  unfolding change_size
  vector_increase vec n =
      if vector_is_correct vec
      then change_size grant vec ((size vec + n) % word)
      else (vec, negsuc 0)

  unfoldable pub vector_resize : Vector → Size → Vector × ℤ
  unfolding change_size
  vector_resize vec n = if vector_is_correct vec then change_size grant vec n else (vec, negsuc 0)

unfoldable pub vector_set : Vector → Size → Item → Vector × ℤ
vector_set vec index value =
    if vector_is_correct vec
    then (if leb (size vec) index then (vec, negsuc 0) else (write vec index value, pos 0))
    else (vec, negsuc 0)

unfoldable pub vector_get : Vector → Size → Item
vector_get vec index =
    if vector_is_correct vec
    then (if leb (size vec) index then item_max else get_or (cells vec) index item_max)
    else item_max

unfoldable pub vector_remove : Vector → Vector × Item
vector_remove vec =
    if vector_is_correct vec
    then (if size vec == 0
        then (vec, item_max)
        else (let last = size vec - 1 in
            (
              record vec { array = some (take last (cells vec)) },
              get_or (cells vec) last item_max,
            )))
    else (vec, item_max)

unfoldable pub vector_size : Vector → Size
vector_size vec = if vector_is_correct vec then size vec else size_max

unfoldable pub vector_clear : Vector → Vector × ℤ
vector_clear vec =
    if vector_is_correct vec then (record vec { array = none }, pos 0) else (vec, negsuc 0)
