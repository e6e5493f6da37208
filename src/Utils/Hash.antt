-- ===== src/Utils/Hash.antt =====
-- libs/utils/hash.c and libs/utils/hash.h. A hash is a vector: MAX_HASH cells with the first index of
-- a chain each, and behind them the records, of an index of the next record, a key, an amount and
-- so many values. The loops along a chain run on the number of cells; `none` is no result: the
-- fuel ran out, and the loop of the source may not end.
mod Tests
pub mod Chain
pub mod Lookup
pub mod Records
pub mod Insertion
pub mod Roundtrip
pub mod Values
pub mod Removal
pub mod Creation
use ru_c.Prelude.{
  ℕ, zero, suc, ◌+◌, ◌-◌, ◌*◌, ◌%◌, Bool, true, false, Option, none, some, ◌==◌, ◌||◌, ◌&&◌, not,
  ltb, leb, if◌then◌else◌,
}
use ru_c.Prelude.Int.{ℤ, pos, negsuc}
use ru_c.Utils.Item.{Item, Size, word, item_max, size_max}
use ru_c.Utils.Vector.{
  Vector, size, vector_is_correct, vector_create, vector_increase, vector_get, vector_set,
  vector_size, vector_clear,
}

-- `MAX_HASH`
abbrev pub max_hash : Size
max_hash = 256

-- `VALUE_SIZE`
abbrev pub value_size : Size
value_size = 4

abbrev pub get_hash : Item → Size
get_hash key = key % max_hash

-- `index + n`, as `size_t`
abbrev pub cell : Size → ℕ → Size
cell index n = (index + n) % word

unfoldable pub hash_is_correct : Vector → Bool
unfolding vector_size
hash_is_correct hs = vector_is_correct hs && leb max_hash (vector_size hs)

-- The loop of `hash_get_index`.
unfoldable pub get_index_loop : ℕ → Vector → Item → Item → Option Size
unfolding vector_get
get_index_loop zero hs key index = none
get_index_loop (suc fuel) hs key index =
    let rest = get_index_loop fuel hs key (vector_get hs index) in
    if index == item_max || index == 0
    then some size_max
    else (if vector_get hs (cell index 1) == key then some index else rest)

unfoldable pub hash_get_index : Vector → Item → Option Size
unfolding hash_is_correct get_index_loop
hash_get_index hs key =
    if hash_is_correct hs
    then get_index_loop (size hs) hs key (vector_get hs (get_hash key))
    else some size_max

unfoldable pub hash_get_key : Vector → Size → Item
unfolding vector_get
hash_get_key hs index = vector_get hs (cell index 1)

unfoldable pub hash_get_amount_by_index : Vector → Size → Size
unfolding vector_get
hash_get_amount_by_index hs index =
    let amount = vector_get hs (cell index 2) in
    if not (index == size_max) && not (amount == item_max) then amount else 0

unfoldable pub hash_get_by_index : Vector → Size → Size → Item
unfolding hash_get_amount_by_index
hash_get_by_index hs index num =
    if ltb num (hash_get_amount_by_index hs index)
    then vector_get hs (cell index (3 + num))
    else item_max

unfoldable pub hash_set_by_index : Vector → Size → Size → Item → Vector × ℤ
unfolding hash_get_amount_by_index vector_set
hash_set_by_index hs index num value =
    if ltb num (hash_get_amount_by_index hs index)
    then vector_set hs (cell index (3 + num)) value
    else (hs, negsuc 0)

unfoldable pub hash_remove_by_index : Vector → Size → Vector × ℤ
unfolding vector_set
hash_remove_by_index hs index =
    if index == size_max then (hs, negsuc 0) else vector_set hs (cell index 1) item_max

-- What is done with the result of a loop, an index or where it ended.
abbrev pub returned : {A B : Type 0} → Option A → (A → B) → Option B
returned none f = none
returned (some index) f = some (f index)

unfoldable pub hash_get_amount : Vector → Item → Option Size
unfolding hash_get_index hash_get_amount_by_index
hash_get_amount hs key = returned (hash_get_index hs key) (hash_get_amount_by_index hs)

unfoldable pub hash_get : Vector → Item → Size → Option Item
unfolding hash_get_index hash_get_by_index
hash_get hs key num = returned (hash_get_index hs key) (λ index. hash_get_by_index hs index num)

-- The index where the value was set.
abbrev pub index_if_set : Size → Vector × ℤ → Vector × Size
index_if_set index (hs, pos zero) = (hs, index)
index_if_set index (hs, code) = (hs, size_max)

unfoldable pub hash_set : Vector → Item → Size → Item → Option (Vector × Size)
unfolding hash_get_index hash_set_by_index
hash_set hs key num value =
    returned (hash_get_index hs key)
      (λ index. index_if_set index (hash_set_by_index hs index num value))

unfoldable pub hash_remove : Vector → Item → Option (Vector × ℤ)
unfolding hash_get_index hash_remove_by_index
hash_remove hs key = returned (hash_get_index hs key) (hash_remove_by_index hs)

-- Where the loop of `hash_add` ends: the key is there, or `prev`, `index` and `record`.
pub data Walk : Type 0 where
  present : Walk
  ended : Size → Item → Item → Walk

-- The loop of `hash_add`.
unfoldable pub add_loop : ℕ → Vector → Item → Size → Size → Item → Item → Option Walk
unfolding vector_get
add_loop zero hs key amount prev index reused = none
add_loop (suc fuel) hs key amount prev index reused =
    let temp = vector_get hs (cell index 1) in
    let is_reusable =
      reused == item_max && temp == item_max && vector_get hs (cell index 2) == amount in
    let next = vector_get hs index in
    let reusing = add_loop fuel hs key amount index next index in
    let passing = add_loop fuel hs key amount index next reused in
    if index == item_max || index == 0
    then some (ended prev index reused)
    else (if is_reusable then reusing else (if temp == key then some present else passing))

-- The values of a record that is used again, from `num` on.
unfoldable pub clear_values : ℕ → Vector → Size → Size → Vector
unfolding vector_set
clear_values zero hs index num = hs
clear_values (suc rest) hs index num =
    clear_values rest (vector_set hs (cell index (3 + num)) 0).0 index (suc num)

module _ (grant : ℕ → Bool) where
  unfoldable pub hash_create : Size → Vector
  unfolding vector_create vector_increase
  hash_create alloc =
      (vector_increase grant (vector_create grant ((max_hash + alloc * (3 + value_size)) % word))
        max_hash).0

  -- A new record, which the cell `prev` links.
  unfoldable pub add_record : Vector → Item → Size → Size → Vector × Size
  unfolding vector_increase vector_set vector_size
  add_record hs key amount prev =
      let index = vector_size hs in
      let linked = (vector_set hs prev index).0 in
      let increased = (vector_increase grant linked (cell amount 3)).0 in
      let sized = (vector_set increased (cell index 2) amount).0 in
      ((vector_set sized (cell index 1) key).0, index)

  -- What `hash_add` does behind the loop.
  unfoldable pub add_behind : Vector → Item → Size → Walk → Vector × Size
  unfolding add_record clear_values
  add_behind hs key amount present = (hs, size_max)
  add_behind hs key amount (ended prev index reused) =
      if not (reused == item_max)
      then ((vector_set (clear_values amount hs reused 0) (cell reused 1) key).0, reused)
      else (if index == item_max then (hs, size_max) else add_record hs key amount prev)

  unfoldable pub hash_add : Vector → Item → Size → Option (Vector × Size)
  unfolding hash_is_correct add_loop add_behind
  hash_add hs key amount =
      let prev = get_hash key in
      let index = vector_get hs prev in
      if hash_is_correct hs
      then (if index == 0
          then some (add_record hs key amount prev)
          else returned (add_loop (size hs) hs key amount prev index item_max)
              (add_behind hs key amount))
      else some (hs, size_max)

unfoldable pub hash_clear : Vector → Vector × ℤ
unfolding vector_clear
hash_clear hs = vector_clear hs
