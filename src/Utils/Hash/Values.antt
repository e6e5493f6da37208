-- ===== src/Utils/Hash/Values.antt =====
-- The values of a record, in libs/utils/hash.h.
use ru_c.Prelude.{
  ◌+◌, ◌≤◌, ◌<◌, ◌≡◌, ◌∙◌, ap, sym, true, not, ◌&&◌, List, length, get_or, get_or-set, set, ◌==◌,
  ltb, if◌then◌else◌, arith,
}
use ru_c.Prelude.Int.{pos, negsuc}
use ru_c.Utils.Item.{Item, Size, word, item_max, size_max}
use ru_c.Utils.Vector.{Vector, vector_get, vector_set}
use ru_c.Utils.Vector.Access.{holding}
use ru_c.Utils.Hash.{cell}
use ru_c.Utils.Hash.Lookup.{vector_set-holding, vector_get-holding, cell_small}
use ru_c.Utils.Hash.{hash_get_amount_by_index, hash_get_by_index}
use ru_c.Utils.Hash.{hash_set_by_index}

-- The amount reads from its cell.
amount_same :
    (xs ys : List Item) (alloc index : Size)
    → index + 2 < word
    → get_or ys (index + 2) item_max ≡ get_or xs (index + 2) item_max
    → hash_get_amount_by_index (holding ys alloc) index
      ≡ hash_get_amount_by_index (holding xs alloc) index
unfolding hash_get_amount_by_index
amount_same xs ys alloc index small e =
    let place = cell_small index 2 small in
    let read = λ (zs : List Item).
      vector_get-holding zs alloc (cell index 2) ∙ ap (λ j. get_or zs j item_max) place in
    ap (λ a. if not (index == size_max) && not (a == item_max) then a else 0)
      (read ys ∙ e ∙ sym (read xs))

-- A value reads from its cell.
value_at :
    (xs : List Item) (alloc index num : Size)
    → index + (3 + num) < word
    → num < hash_get_amount_by_index (holding xs alloc) index
    → hash_get_by_index (holding xs alloc) index num ≡ get_or xs (index + (3 + num)) item_max
unfolding hash_get_by_index
value_at xs alloc index num small lt =
    let inside : ltb num (hash_get_amount_by_index (holding xs alloc) index) ≡ true =
      ground arith in
    let place = cell_small index (3 + num) small in
    ap (λ b. if b then vector_get (holding xs alloc) (cell index (3 + num)) else item_max) inside
    ∙ vector_get-holding xs alloc (cell index (3 + num))
    ∙ ap (λ j. get_or xs j item_max) place

-- In a hash of fewer than ITEM_MAX cells, a record whose values are all there reads behind
-- `hash_set_by_index` within its amount as it is told: the value is written, the other values and the
-- amount are kept, and 0 is returned.
pub hash_get_by_index-hash_set_by_index :
    (xs : List Item) (alloc index num other value : Size)
    → length xs < item_max
    → index + (3 + hash_get_amount_by_index (holding xs alloc) index) ≤ length xs
    → num < hash_get_amount_by_index (holding xs alloc) index
    → other < hash_get_amount_by_index (holding xs alloc) index
    → (hs : Vector) × (hash_set_by_index (holding xs alloc) index num value ≡ (hs, pos 0))
      × (hash_get_amount_by_index hs index ≡ hash_get_amount_by_index (holding xs alloc) index)
      × (hash_get_by_index hs index other
          ≡ (if num == other then value else hash_get_by_index (holding xs alloc) index other))
hash_get_by_index-hash_set_by_index xs alloc index num other value small fits lt lt' =
    let at = index + (3 + num) in
    let ys = set xs at value in
    let read = λ (j : Size). get_or-set xs at value j item_max (omega arith) in
    let inside : ltb num (hash_get_amount_by_index (holding xs alloc) index) ≡ true =
      ground arith in
    let place : cell index (3 + num) ≡ at = cell_small index (3 + num) (omega arith) in
    let kept : get_or ys (index + 2) item_max ≡ get_or xs (index + 2) item_max =
      rw (read (index + 2)) (ground arith) in
    let amount = amount_same xs ys alloc index (omega arith) kept in
    let set_run : hash_set_by_index (holding xs alloc) index num value ≡ (holding ys alloc, pos 0) =
      unfold hash_set_by_index in
      ap
        (λ b.
          if b
          then vector_set (holding xs alloc) (cell index (3 + num)) value
          else (holding xs alloc, negsuc 0))
        inside
      ∙ ap (λ j. vector_set (holding xs alloc) j value) place
      ∙ vector_set-holding xs alloc at value (omega arith) in
    let now = value_at ys alloc index other (omega arith) (rw amount lt') in
    let before = value_at xs alloc index other (omega arith) lt' in
    (holding ys alloc, set_run, amount, now ∙ read (index + (3 + other)) ∙ rw before (ground arith))
