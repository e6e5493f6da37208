-- ===== src/Utils/Vector/Access.antt =====
-- What vector.c reads and writes.
use ru_c.Prelude.{
  Bool-cases, inl, inr, ℕ, ◌+◌, ◌-◌, ◌*◌, ◌%◌, ◌<◌, ◌≡◌, Bool, true, some, List, [], ◌∷◌, ◌++◌, ltb,
  ◌==◌, if◌then◌else◌, length, get_or, take, replicate, arith, take_all, take-append_length,
  set-append_length, get_or-append_length, length-append, get_or-set, length-set, get_or-append,
  get_or-take, get_or-replicate, get_or_within, length-take, length-replicate, ◌&&◌,
}
use Prim.Native.Nat.{min}
use ru_c.Prelude.Int.{pos, negsuc}
use ru_c.Utils.Item.{Item, Size, word, item_max, size_max, item_bytes}
use ru_c.Utils.Vector.{
  Vector, cells, add_last, grown, resize_cells, change_size, vector_add, vector_set, vector_get,
  vector_remove, vector_size,
}

-- Whether a vector can hold `n` cells: they fit, or the allocator grants a larger array.
abbrev pub has_room : (ℕ → Bool) → Vector → Size → Bool
has_room grant vec n =
    if ltb vec.size_alloc n then grant (grown vec.size_alloc n * item_bytes % word) else true

resize_cells-suc : (xs : List Item) → resize_cells (length xs + 1) xs ≡ xs ++ 0 ∷ []
resize_cells-suc xs =
    let one : length xs + 1 - length xs ≡ 1 = omega arith in
    rw (take_all (length xs + 1) xs (omega arith), one)

-- The allocated size after a change to `n` cells.
abbrev pub alloc_for : Vector → Size → Size
alloc_for vec n = if ltb vec.size_alloc n then grown vec.size_alloc n else vec.size_alloc

pub change_size_lem :
    (grant : ℕ → Bool) (vec : Vector) (n : Size)
    → change_size grant vec n ≡ (
        if has_room grant vec n
        then (
          record { array = some (resize_cells n (cells vec)); size_alloc = alloc_for vec n },
          pos 0,
        )
        else (vec, negsuc 0))
unfolding change_size
change_size_lem grant vec n = ground arith

-- A correct vector with the cells `xs`.
abbrev pub holding : List Item → Size → Vector
holding xs alloc = record { array = some xs; size_alloc = alloc }

add_last_lem :
    (xs : List Item) (alloc : Size) (value : Item)
    → length xs < size_max
    → add_last value (holding (resize_cells (length xs + 1) xs) alloc, pos 0)
      ≡ (holding (xs ++ value ∷ []) alloc, length xs)
add_last_lem xs alloc value bound =
    let last : (length xs + 1 + word - 1) % word ≡ length xs = omega arith in
    rw (resize_cells-suc xs, length-append xs (0 ∷ []), last, set-append_length xs 0 value)

-- `vector_add` on a correct vector below the largest size: where there is room, the value becomes
-- the last cell and its index is returned; else SIZE_MAX is, and the vector is as before.
pub vector_add_cells :
    (grant : ℕ → Bool) (xs : List Item) (alloc : Size) (value : Item)
    → length xs < size_max
    → let vec : Vector = holding xs alloc in
      vector_add grant vec value ≡ (
        if has_room grant vec (length xs + 1)
        then (holding (xs ++ value ∷ []) (alloc_for vec (length xs + 1)), length xs)
        else (vec, size_max))
unfolding vector_add
vector_add_cells grant xs alloc value bound =
    let vec : Vector = holding xs alloc in
    let next : (length xs + 1) % word ≡ length xs + 1 = omega arith in
    rw (next, change_size_lem grant vec (length xs + 1))
      (elim (Bool-cases (has_room grant vec (length xs + 1))) [
        | inl e ↦ rw e (add_last_lem xs _ value bound)
        | inr e ↦ rw e
      ])

pub length-resize_cells : (n : ℕ) (xs : List Item) → length (resize_cells n xs) ≡ n
length-resize_cells n xs =
    rw
      (
        length-append (take n xs) (replicate (n - length xs) 0),
        length-take n xs,
        length-replicate {A = Item} (n - length xs) 0,
      )
      (omega arith)

get_or-resize_cells :
    (n : ℕ) (xs : List Item) (i : ℕ) (d : Item)
    → i < n
    → get_or (resize_cells n xs) i d ≡ (if ltb i (length xs) then get_or xs i 0 else 0)
get_or-resize_cells n xs i d h =
    rw (get_or-append (take n xs) (replicate (n - length xs) 0) i d, length-take n xs)
      (ground (
        arith,
        get_or-take n xs i d h,
        get_or_within xs i d 0,
        get_or-replicate (n - length xs) 0 (i - min n (length xs)) d,
      ))

pub get-resize_cells :
    (n : ℕ) (xs : List Item) (i : ℕ) (alloc : Size)
    → vector_get (holding (resize_cells n xs) alloc) i
      ≡ (if ltb i n then (if ltb i (length xs) then get_or xs i 0 else 0) else item_max)
unfolding vector_get
get-resize_cells n xs i alloc =
    rw (length-resize_cells n xs) (ground (arith, get_or-resize_cells n xs i item_max))

-- On a correct vector `vector_set` writes one existing cell and leaves the others and the size, and
-- out of range it returns -1 and every cell reads as before.
pub vector_get-vector_set :
    (xs : List Item) (alloc i j : Size) (value : Item)
    → let (vec, code) = vector_set (holding xs alloc) i value in
      (code ≡ (if ltb i (length xs) then pos 0 else negsuc 0))
      × (vector_get vec j
          ≡ (if ltb i (length xs) && i == j then value else vector_get (holding xs alloc) j))
      × (vector_size vec ≡ length xs)
unfolding vector_set vector_get vector_size
vector_get-vector_set xs alloc i j value =
    ground (arith, get_or-set xs i value j item_max, length-set xs i value)

pub vector_remove_lem :
    (xs : List Item) (x : Item) (alloc : Size)
    → vector_remove (holding (xs ++ x ∷ []) alloc) ≡ (holding xs alloc, x)
unfolding vector_remove
vector_remove_lem xs x alloc = rw (length-append xs (x ∷ [])) (
    let last : length xs + 1 - 1 ≡ length xs = omega arith in
    rw (last, take-append_length xs (x ∷ []), get_or-append_length xs x item_max) (ground arith))

-- Where there is room, `vector_remove` returns the value that `vector_add` put in, below the largest
-- size, and the cells are the old ones; the array stays as large as it grew.
vector_remove-vector_add :
    (grant : ℕ → Bool) (xs : List Item) (alloc : Size) (value : Item)
    → length xs < size_max
    → has_room grant (holding xs alloc) (length xs + 1) ≡ true
    → vector_remove (vector_add grant (holding xs alloc) value).0
      ≡ (holding xs (alloc_for (holding xs alloc) (length xs + 1)), value)
vector_remove-vector_add grant xs alloc value bound room =
    rw (vector_add_cells grant xs alloc value bound, room) (vector_remove_lem xs value _)
