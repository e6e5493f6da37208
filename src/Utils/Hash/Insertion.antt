-- ===== src/Utils/Hash/Insertion.antt =====
-- Where hash_add of libs/utils/hash.c ends.
use ru_c.Prelude.{
  ℕ, zero, suc, ◌+◌, ◌≤◌, ◌<◌, ◌≡◌, ◌∙◌, ap, inl, inr, refl, Bool, true, false, ◌||◌, Option, some,
  List, [], ◌∷◌, length, get_or, ◌==◌, if◌then◌else◌, arith,
}
use ru_c.Utils.Item.{Item, Size, item_max, size_max}
use ru_c.Utils.Vector.{Vector, size, vector_get}
use ru_c.Utils.Vector.Access.{holding}
use ru_c.Utils.Stack.Lifo.{Grants}
use ru_c.Utils.Hash.{
  cell, max_hash, get_hash, hash_is_correct, Walk, ended, add_loop, add_record, add_behind,
  hash_add, returned,
}
use ru_c.Utils.Hash.Chain.{Entry, IsChain, last, HasNo, IsChain-length, IsChain-last}
use ru_c.Utils.Hash.Lookup.{vector_get-holding, cell_small, hash_is_correct-holding}
use ru_c.Utils.Hash.Records.{added_hash, add_record_lem}

-- The loop of `hash_add` where the key is not there and no record was removed.
add_loop-last :
    (fuel : ℕ) (xs : List Item) (alloc : Size) (key : Item) (amount low prev : Size)
    (entries : List Entry)
    → length xs < item_max
    → 0 < low
    → IsChain xs low prev entries
    → HasNo key entries
    → length entries < fuel
    → add_loop fuel (holding xs alloc) key amount prev (get_or xs prev item_max) item_max
      ≡ some (ended (last prev entries) 0 item_max)
unfolding add_loop IsChain
add_loop-last zero xs alloc key amount low prev entries small first chain absent le =
    absurd (omega arith)
add_loop-last (suc fuel) xs alloc key amount low prev [] small first chain absent le = rw chain refl
add_loop-last (suc fuel) xs alloc key amount low prev ((i, k) ∷ entries) small first
      (link, ge, room, at, chain) (other, kept, absent) le =
    let rest =
      add_loop-last fuel xs alloc key amount (i + 3) i entries small (omega arith) chain absent
        (omega arith) in
    let key_at : vector_get (holding xs alloc) (cell i 1) ≡ k =
      rw (cell_small i 1 (omega arith), vector_get-holding xs alloc (i + 1)) at in
    let not_end : (i == item_max || i == 0) ≡ false = ground arith in
    let not_key : (k == key) ≡ false = ground arith in
    let not_removed : (k == item_max) ≡ false = ground arith in
    rw (link, not_end, key_at, not_key, not_removed, vector_get-holding xs alloc i, rest) refl

hash_add_at :
    (grant : ℕ → Bool) (hs : Vector) (key : Item) (amount : Size) (index : Item)
    → hash_is_correct hs ≡ true
    → vector_get hs (get_hash key) ≡ index
    → hash_add grant hs key amount ≡ (
        if index == 0
        then some (add_record grant hs key amount (get_hash key))
        else returned
            (add_loop (size hs) hs key amount (get_hash key) index item_max)
            (add_behind grant hs key amount))
unfolding hash_add
hash_add_at grant hs key amount index correct e =
    let at = λ (c : Bool) (i : Item).
      if c
      then (if i == 0
          then some (add_record grant hs key amount (get_hash key))
          else returned (add_loop (size hs) hs key amount (get_hash key) i item_max)
              (add_behind grant hs key amount))
      else some (hs, size_max) in
    ap (λ c. at c (vector_get hs (get_hash key))) correct ∙ ap (at true) e

hash_add-add_record :
    (grant : ℕ → Bool) (xs : List Item) (alloc : Size) (key : Item) (amount : Size)
    (entries : List Entry)
    → max_hash ≤ length xs
    → length xs < item_max
    → IsChain xs max_hash (get_hash key) entries
    → HasNo key entries
    → hash_add grant (holding xs alloc) key amount
      ≡ some (add_record grant (holding xs alloc) key amount (last (get_hash key) entries))
unfolding IsChain add_behind
hash_add-add_record grant xs alloc key amount [] large small chain absent =
    hash_add_at grant (holding xs alloc) key amount 0 (hash_is_correct-holding xs alloc large)
      (vector_get-holding xs alloc (get_hash key) ∙ chain)
hash_add-add_record grant xs alloc key amount ((i, k) ∷ entries) large small chain absent =
    let (link, ge, room, at, rest) = chain in
    let fits = IsChain-length xs max_hash (get_hash key) ((i, k) ∷ entries) large chain in
    let walk =
      add_loop-last (length xs) xs alloc key amount max_hash (get_hash key) ((i, k) ∷ entries) small
        (omega arith) chain absent (omega (arith, fits)) in
    let used : (i == 0) ≡ false = ground arith in
    let behind = λ (r : Option Walk). returned r (add_behind grant (holding xs alloc) key amount) in
    hash_add_at grant (holding xs alloc) key amount (get_or xs (get_hash key) item_max)
      (hash_is_correct-holding xs alloc large) (vector_get-holding xs alloc (get_hash key))
    ∙ rw (ap (λ j. j == 0) link, used) (ap behind walk)

pub last_lt :
    (xs : List Item) (key : Item) (entries : List Entry)
    → max_hash ≤ length xs
    → IsChain xs max_hash (get_hash key) entries
    → last (get_hash key) entries < length xs
last_lt xs key entries large chain = elim (IsChain-last xs max_hash (get_hash key) entries chain) [
  | inl e ↦ omega arith
  | inr h ↦ h.1
]

pub hash_add_lem :
    (grant : ℕ → Bool) (xs : List Item) (alloc : Size) (key : Item) (amount : Size)
    (entries : List Entry)
    → Grants grant
    → max_hash ≤ length xs
    → length xs + (amount + 3) < item_max
    → IsChain xs max_hash (get_hash key) entries
    → HasNo key entries
    → hash_add grant (holding xs alloc) key amount
      ≡ some (added_hash xs alloc (last (get_hash key) entries) key amount, length xs)
hash_add_lem grant xs alloc key amount entries grants large small chain absent =
    hash_add-add_record grant xs alloc key amount entries large (omega arith) chain absent
    ∙ ap some (
        add_record_lem grant xs alloc key amount (last (get_hash key) entries) grants small
          (last_lt xs key entries large chain))
