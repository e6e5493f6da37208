-- ===== src/Utils/Vector/Resize.antt =====
-- `vector_add` and `vector_resize` of vector.c, and the bytes allocated.
use ru_c.Prelude.{
  Bool-cases, inl, inr, ℕ, ◌+◌, ◌-◌, [], ◌∷◌, ◌++◌, ◌^◌, ◌<◌, ◌≡◌, refl, Bool, List, ltb,
  if◌then◌else◌, length, get_or, arith,
}
use ru_c.Prelude.Int.{pos, negsuc}
use ru_c.Utils.Item.{Item, Size, item_max, size_max}
use ru_c.Utils.Vector.{Vector, vector_get, vector_add, vector_resize, vector_size}
use ru_c.Utils.Vector.Block.{IsValid, IsWithin, IsWithin-IsValid}
use ru_c.Utils.Vector.Access.{
  has_room, vector_add_cells, holding, alloc_for, change_size_lem, get-resize_cells,
  length-resize_cells,
}
use ru_c.Utils.Vector.Capacity.{Call, change_size-IsWithin, run_call-IsWithin, run_call}

-- `vector_add` on a correct vector of fewer than 2 ^ 60 - 1 cells, whose requests have not wrapped: where
-- there is room, the value becomes the last cell and its index is returned; else SIZE_MAX is, and the
-- vector is as before. The cells fit the bytes that are allocated.
pub vector_add_lem :
    (grant : ℕ → Bool) (xs : List Item) (alloc : Size) (value : Item)
    → IsWithin (2 ^ 60 - 2) (holding xs alloc)
    → let vec : Vector = holding xs alloc in
      (vector_add grant vec value ≡ (
        if has_room grant vec (length xs + 1)
        then (holding (xs ++ value ∷ []) (alloc_for vec (length xs + 1)), length xs)
        else (vec, size_max)))
      × IsValid (vector_add grant vec value).0
unfolding run_call
vector_add_lem grant xs alloc value within =
    let few = within.few in
    (
      vector_add_cells grant xs alloc value (omega arith),
      IsWithin-IsValid _ (
          run_call-IsWithin grant (Call.add value) (holding xs alloc) (2 ^ 60 - 2) within
            (omega arith)),
    )

-- `vector_resize` to fewer than 2 ^ 60 cells of a correct vector with fewer than that, whose requests
-- have not wrapped: it keeps the cells below both sizes, clears those above the old size, and takes
-- the cells past the new size away; where there is no room it returns -1, and the cells and the size
-- are as before. The cells fit the bytes that are allocated.
pub vector_resize_lem :
    (grant : ℕ → Bool) (xs : List Item) (alloc n : Size) (index : Size)
    → IsWithin (2 ^ 60 - 1) (holding xs alloc)
    → n < 2 ^ 60
    → let vec : Vector = holding xs alloc in
      let room = has_room grant vec n in
      (vector_get (vector_resize grant vec n).0 index ≡ (
        if room
        then (if ltb index n
            then (if ltb index (length xs) then get_or xs index 0 else 0)
            else item_max)
        else vector_get vec index))
      × ((vector_resize grant vec n).1 ≡ (if room then pos 0 else negsuc 0))
      × (vector_size (vector_resize grant vec n).0 ≡ (if room then n else length xs))
      × IsValid (vector_resize grant vec n).0
unfolding vector_resize vector_get vector_size
vector_resize_lem grant xs alloc n index within bound =
    let vec : Vector = holding xs alloc in
    let fits = IsWithin-IsValid _ (
      change_size-IsWithin grant vec n (2 ^ 60 - 1) (2 ^ 60 - 1) within (omega arith) (omega arith)
        (omega arith)) in
    let (read, code, sized) = reads grant xs alloc n index in (read, code, sized, fits)
  where
    reads :
        (grant : ℕ → Bool) (xs : List Item) (alloc n : Size) (index : Size)
        → let vec : Vector = holding xs alloc in
          let room = has_room grant vec n in
          (vector_get (vector_resize grant vec n).0 index ≡ (
            if room
            then (if ltb index n
                then (if ltb index (length xs) then get_or xs index 0 else 0)
                else item_max)
            else vector_get vec index))
          × ((vector_resize grant vec n).1 ≡ (if room then pos 0 else negsuc 0))
          × (vector_size (vector_resize grant vec n).0 ≡ (if room then n else length xs))
    reads grant xs alloc n index =
        let vec : Vector = holding xs alloc in
        rw (change_size_lem grant vec n) (elim (Bool-cases (has_room grant vec n)) [
          | inl e ↦
              rw e (get-resize_cells n xs index (alloc_for vec n), refl, length-resize_cells n xs)
          | inr e ↦ rw e (refl, refl, refl)
        ])
