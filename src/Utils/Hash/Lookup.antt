-- ===== src/Utils/Hash/Lookup.antt =====
-- hash_get_index of libs/utils/hash.c on a chain.
use ru_c.Prelude.{
  ℕ, zero, suc, ◌+◌, ◌≤◌, ◌<◌, ◌≡◌, refl, true, false, ◌||◌, some, set, List, [], ◌∷◌, length,
  get_or, get_or_past, ◌==◌, arith,
}
use ru_c.Prelude.Int.{pos}
use ru_c.Utils.Item.{Item, Size, word, item_max}
use ru_c.Utils.Vector.{vector_get, vector_set, vector_size}
use ru_c.Utils.Vector.Access.{holding}
use ru_c.Utils.Hash.{cell, max_hash, get_hash, hash_is_correct, get_index_loop, hash_get_index}
use ru_c.Utils.Hash.Chain.{Entry, IsChain, find, IsChain-length}

pub vector_get-holding :
    (xs : List Item) (alloc index : Size)
    → vector_get (holding xs alloc) index ≡ get_or xs index item_max
unfolding vector_get
vector_get-holding xs alloc index = ground (arith, get_or_past xs index item_max)

pub vector_set-holding :
    (xs : List Item) (alloc index : Size) (value : Item)
    → index < length xs
    → vector_set (holding xs alloc) index value ≡ (holding (set xs index value) alloc, pos 0)
unfolding vector_set
vector_set-holding xs alloc index value h = ground arith

pub cell_small : (index : Size) (n : ℕ) → index + n < word → cell index n ≡ index + n
cell_small index n h = omega arith

get_index_loop-find :
    (fuel : ℕ) (xs : List Item) (alloc : Size) (key : Item) (low prev : Size) (entries : List Entry)
    → length xs < item_max
    → 0 < low
    → IsChain xs low prev entries
    → length entries < fuel
    → get_index_loop fuel (holding xs alloc) key (get_or xs prev item_max) ≡ some (find key entries)
unfolding get_index_loop IsChain find
get_index_loop-find zero xs alloc key low prev entries small first chain le = absurd (omega arith)
get_index_loop-find (suc fuel) xs alloc key low prev [] small first chain le = rw chain refl
get_index_loop-find (suc fuel) xs alloc key low prev ((i, k) ∷ entries) small first
      (link, ge, room, at, chain) le =
    let rest =
      get_index_loop-find fuel xs alloc key (i + 3) i entries small (omega arith) chain
        (omega arith) in
    let key_at : vector_get (holding xs alloc) (cell i 1) ≡ k =
      rw (cell_small i 1 (omega arith), vector_get-holding xs alloc (i + 1)) at in
    let not_end : (i == item_max || i == 0) ≡ false = ground arith in
    rw (link, not_end, key_at, vector_get-holding xs alloc i, rest) (ground arith)

pub hash_is_correct-holding :
    (xs : List Item) (alloc : Size)
    → max_hash ≤ length xs
    → hash_is_correct (holding xs alloc) ≡ true
unfolding hash_is_correct vector_size
hash_is_correct-holding xs alloc h = ground arith

-- In a hash of MAX_HASH cells at least and of fewer than ITEM_MAX, whose chain of the key is sound,
-- `hash_get_index` ends and returns the index of the first record of the key, or SIZE_MAX where there
-- is none.
pub hash_get_index-find :
    (xs : List Item) (alloc : Size) (key : Item) (entries : List Entry)
    → max_hash ≤ length xs
    → length xs < item_max
    → IsChain xs max_hash (get_hash key) entries
    → hash_get_index (holding xs alloc) key ≡ some (find key entries)
unfolding hash_get_index
hash_get_index-find xs alloc key entries large small chain =
    let fits = IsChain-length xs max_hash (get_hash key) entries large chain in
    rw (hash_is_correct-holding xs alloc large, vector_get-holding xs alloc (get_hash key))
      (get_index_loop-find (length xs) xs alloc key max_hash (get_hash key) entries small
        (omega arith) chain (omega arith))
