-- ===== src/Utils/Hash/Roundtrip.antt =====
-- hash_get_index after hash_add of libs/utils/hash.c.
use ru_c.Prelude.{
  ℕ, ◌+◌, ◌^◌, ◌≤◌, ◌<◌, ◌≡◌, ◌∙◌, ap, inl, inr, refl, Bool, false, not, ◌&&◌, some, List, [], ◌∷◌,
  ◌++◌, length, get_or, ◌==◌, ltb, if◌then◌else◌, arith, Bool-cases,
}
use ru_c.Utils.Item.{Item, Size, item_max, size_max}
use ru_c.Utils.Vector.{Vector, vector_get}
use ru_c.Utils.Vector.Block.{IsValid, IsWithin, IsWithin-IsValid}
use ru_c.Utils.Vector.Access.{holding}
use ru_c.Utils.Stack.Lifo.{Grants}
use ru_c.Utils.Hash.{cell, max_hash, get_hash, hash_get_index, hash_add}
use ru_c.Utils.Hash.Chain.{Entry, IsChain, find, last, HasNo, IsChain-IsAdded}
use ru_c.Utils.Hash.Lookup.{vector_get-holding, cell_small, hash_get_index-find}
use ru_c.Utils.Hash.Records.{
  added_hash, added_cells, added_cells-IsAdded, get_or-added_cells, length-added_cells,
}
use ru_c.Utils.Hash.{hash_get_amount_by_index, hash_get_by_index}
use ru_c.Utils.Hash.Insertion.{hash_add_lem, last_lt}

find-added :
    (key other : Item) (n : Size) (entries : List Entry)
    → HasNo key entries
    → find other (entries ++ (n, key) ∷ []) ≡ (if key == other then n else find other entries)
unfolding find
find-added key other n [] absent = refl
find-added key other n ((i, k) ∷ entries) (differs, kept, absent) =
    ground (arith, find-added key other n entries absent)

hash_get_index-added :
    (xs : List Item) (alloc : Size) (key other : Item) (amount : Size) (entries : List Entry)
    → max_hash ≤ length xs
    → length xs + (amount + 3) < item_max
    → IsChain xs max_hash (get_hash key) entries
    → HasNo key entries
    → get_hash other ≡ get_hash key
    → hash_get_index (added_hash xs alloc (last (get_hash key) entries) key amount) other
      ≡ (if key == other then some (length xs) else hash_get_index (holding xs alloc) other)
hash_get_index-added xs alloc key other amount entries large small chain absent same =
    let prev = last (get_hash key) entries in
    let ys = added_cells xs prev key amount in
    let total = length-added_cells xs prev key amount in
    let added = added_cells-IsAdded xs prev key amount (last_lt xs key entries large chain) in
    let chain' =
      IsChain-IsAdded xs ys key max_hash (get_hash key) entries (omega arith) large chain added in
    let now =
      hash_get_index-find ys (added_hash xs alloc prev key amount).size_alloc other
        (entries ++ (length xs, key) ∷ []) (rw total (omega arith)) (rw total small)
        (rw same chain') in
    let before = hash_get_index-find xs alloc other entries large (omega arith) (rw same chain) in
    now ∙ ap some (find-added key other (length xs) entries absent) ∙ rw before (ground arith)

amount_added :
    (xs : List Item) (alloc prev : Size) (key : Item) (amount : Size)
    → length xs + (amount + 3) < item_max
    → prev < length xs
    → hash_get_amount_by_index (added_hash xs alloc prev key amount) (length xs) ≡ amount
unfolding hash_get_amount_by_index
amount_added xs alloc prev key amount small h =
    let n = length xs in
    let ys = added_cells xs prev key amount in
    let alloc' = (added_hash xs alloc prev key amount).size_alloc in
    let amount_at : get_or ys (n + 2) item_max ≡ amount =
      rw (get_or-added_cells xs prev key amount (n + 2) h (omega arith)) (ground arith) in
    let read : vector_get (holding ys alloc') (cell n 2) ≡ amount =
      rw (cell_small n 2 (omega arith), vector_get-holding ys alloc' (n + 2)) amount_at in
    let valid : (n == size_max) ≡ false = ground arith in
    let valid' : (amount == item_max) ≡ false = ground arith in
    ap (λ a. if not (n == size_max) && not (a == item_max) then a else 0) read ∙ rw (valid, valid')

value_added :
    (xs : List Item) (alloc prev : Size) (key : Item) (amount num : Size)
    → length xs + (amount + 3) < item_max
    → prev < length xs
    → hash_get_by_index (added_hash xs alloc prev key amount) (length xs) num
      ≡ (if ltb num amount then 0 else item_max)
unfolding hash_get_by_index
value_added xs alloc prev key amount num small h =
    let n = length xs in
    let ys = added_cells xs prev key amount in
    let hs = added_hash xs alloc prev key amount in
    ap (λ a. if ltb num a then vector_get hs (cell n (3 + num)) else item_max)
      (amount_added xs alloc prev key amount small h)
    ∙ elim (Bool-cases (ltb num amount)) [
      | inr e ↦ rw e refl
      | inl e ↦
          let lt : num < amount = ground arith in
          let zero_at : get_or ys (n + (3 + num)) item_max ≡ 0 =
            rw (get_or-added_cells xs prev key amount (n + (3 + num)) h (omega arith))
              (ground arith) in
          rw e (
            rw
              (
                cell_small n (3 + num) (omega arith),
                vector_get-holding ys hs.size_alloc (n + (3 + num)),
              )
              zero_at)
    ]

added_hash-IsWithin :
    (xs : List Item) (alloc prev : Size) (key : Item) (amount : Size)
    → IsWithin (length xs) (holding xs alloc)
    → length xs + (amount + 3) < 2 ^ 60
    → IsWithin (length xs + (amount + 3)) (added_hash xs alloc prev key amount)
added_hash-IsWithin xs alloc prev key amount w bound =
    let total = length-added_cells xs prev key amount in
    let nonempty = w.nonempty in
    let small = w.small in
    record {
      few = omega (arith, total);
      fits = ground (arith, total);
      nonempty = ground arith;
      small = ground arith;
    }

-- Where the allocator grants all requests, none of which has wrapped so far, the hash has MAX_HASH
-- cells at least and with the new record fewer than 2 ^ 60, and neither the key nor a removed record
-- is in the chain of the key, which is sound: `hash_add` returns the index behind the cells; the
-- record there has the amount, and zeros for values; and `hash_get_index` finds it at the key, and
-- what it found before at each other key of the chain. The cells fit the bytes that are allocated.
pub hash_get_index-hash_add :
    (grant : ℕ → Bool) (xs : List Item) (alloc : Size) (key other : Item) (amount num : Size)
    (entries : List Entry)
    → Grants grant
    → max_hash ≤ length xs
    → IsWithin (length xs) (holding xs alloc)
    → length xs + (amount + 3) < 2 ^ 60
    → IsChain xs max_hash (get_hash key) entries
    → HasNo key entries
    → get_hash other ≡ get_hash key
    → (hs : Vector) × (hash_add grant (holding xs alloc) key amount ≡ some (hs, length xs))
      × (hash_get_index hs other
          ≡ (if key == other then some (length xs) else hash_get_index (holding xs alloc) other))
      × (hash_get_amount_by_index hs (length xs) ≡ amount)
      × (hash_get_by_index hs (length xs) num ≡ (if ltb num amount then 0 else item_max))
      × IsValid hs
hash_get_index-hash_add grant xs alloc key other amount num entries grants large within bound chain
      absent same =
    let small : length xs + (amount + 3) < item_max = omega arith in
    let prev = last (get_hash key) entries in
    (
      added_hash xs alloc prev key amount,
      hash_add_lem grant xs alloc key amount entries grants large small chain absent,
      hash_get_index-added xs alloc key other amount entries large small chain absent same,
      amount_added xs alloc prev key amount small (last_lt xs key entries large chain),
      value_added xs alloc prev key amount num small (last_lt xs key entries large chain),
      IsWithin-IsValid _ (added_hash-IsWithin xs alloc prev key amount within bound),
    )
