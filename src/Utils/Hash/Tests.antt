-- ===== src/Utils/Hash/Tests.antt =====
-- Runs of hashes.
use ru_c.Prelude.{
  ℕ, ◌≡◌, ◌≢◌, refl, Bool, true, false, Option, none, some, List, [], ◌∷◌, ◌++◌, set, replicate,
  ltb, ◌==◌, if◌then◌else◌, arith,
}
use ru_c.Prelude.Int.{pos}
use ru_c.Utils.Item.{Item, Size, item_max, size_max}
use ru_c.Utils.Vector.{
  Vector, change_size, vector_create, vector_increase, vector_get, vector_set, vector_size,
}
use ru_c.Utils.Vector.Block.{IsValid, IsWithin}
use ru_c.Utils.Vector.Access.{holding}
use ru_c.Utils.Stack.Lifo.{Grants}
use ru_c.Utils.Hash.{
  hash_create, hash_add, hash_get_index, hash_get_amount_by_index, hash_get_by_index,
  hash_set_by_index, hash_remove, hash_is_correct, get_index_loop, hash_remove_by_index, add_loop,
  clear_values, add_record, add_behind, hash_get, hash_set,
}
use ru_c.Utils.Hash.Chain.{Entry, IsChain, find}
use ru_c.Utils.Hash.Lookup.{hash_get_index-find}
use ru_c.Utils.Hash.Roundtrip.{hash_get_index-hash_add}
use ru_c.Utils.Hash.Values.{hash_get_by_index-hash_set_by_index}
use ru_c.Utils.Hash.Removal.{AreDistinct, hash_get_index-hash_remove}

abbrev grant_all : ℕ → Bool
grant_all n = true

grant_all-Grants : Grants grant_all
grant_all-Grants n = refl

program : Unit {0}
unfolding change_size vector_create vector_increase vector_get vector_set vector_size hash_create
    hash_add hash_get_index hash_get_amount_by_index hash_get_by_index hash_set_by_index hash_remove
    hash_is_correct get_index_loop hash_remove_by_index add_loop clear_values add_record add_behind
    hash_get hash_set IsChain find
program = tt

-- One record, of the key 5 with the values 7 and 8.
abbrev one : List Item
one = set (replicate 256 0) 5 256 ++ 0 ∷ 5 ∷ 2 ∷ 7 ∷ 8 ∷ []

abbrev one_entry : List Entry
one_entry = (256, 5) ∷ []

one-IsChain : IsChain one 256 5 one_entry
unfolding program
one-IsChain = (refl, omega arith, omega arith, refl, refl)

hash_get_index-find_example : hash_get_index (holding one 300) 261 ≡ some (find 261 one_entry)
hash_get_index-find_example =
    hash_get_index-find one 300 261 one_entry (omega arith) (omega arith) one-IsChain

one-IsWithin : IsWithin 261 (holding one 300)
one-IsWithin = record {
  few = omega arith;
  fits = omega arith;
  nonempty = omega arith;
  small = omega arith;
}

hash_get_index-hash_add_example :
    (hs : Vector) × (hash_add grant_all (holding one 300) 261 4 ≡ some (hs, 261))
    × (hash_get_index hs 261
        ≡ (if 261 == 261 then some 261 else hash_get_index (holding one 300) 261))
    × (hash_get_amount_by_index hs 261 ≡ 4)
    × (hash_get_by_index hs 261 3 ≡ (if ltb 3 4 then 0 else item_max))
    × IsValid hs
hash_get_index-hash_add_example =
    hash_get_index-hash_add grant_all one 300 261 261 4 3 one_entry grant_all-Grants (omega arith)
      one-IsWithin (omega arith) one-IsChain (omega arith, omega arith, tt) refl

one_amount : hash_get_amount_by_index (holding one 300) 256 ≡ 2
unfolding program
one_amount = refl

hash_get_by_index-hash_set_by_index_example :
    (hs : Vector) × (hash_set_by_index (holding one 300) 256 1 9 ≡ (hs, pos 0))
    × (hash_get_amount_by_index hs 256 ≡ hash_get_amount_by_index (holding one 300) 256)
    × (hash_get_by_index hs 256 0
        ≡ (if 1 == 0 then 9 else hash_get_by_index (holding one 300) 256 0))
hash_get_by_index-hash_set_by_index_example =
    hash_get_by_index-hash_set_by_index one 300 256 1 0 9 (omega arith)
      (rw one_amount (omega arith)) (rw one_amount (omega arith)) (rw one_amount (omega arith))

one-AreDistinct : AreDistinct one_entry
unfolding program
one-AreDistinct = (refl, tt)

one_found : find 5 one_entry ≢ size_max
unfolding program
one_found = omega arith

hash_get_index-hash_remove_example :
    (hs : Vector) × (hash_remove (holding one 300) 5 ≡ some (hs, pos 0))
    × (hash_get_index hs 5 ≡ (if 5 == 5 then some size_max else hash_get_index (holding one 300) 5))
hash_get_index-hash_remove_example =
    hash_get_index-hash_remove one 300 5 5 one_entry (omega arith) (omega arith) one-IsChain
      one-AreDistinct one_found refl (omega arith)

-- The index of a key that is added, and what is found at it then.
abbrev add_then_find : (ℕ → Bool) → Vector → Option (Size × Option Size)
add_then_find grant hs = elim (hash_add grant hs 261 2) [
  | none ↦ none
  | some (hs', index) ↦ some (index, hash_get_index hs' 261)
]

-- A record that was removed is used again for a key with the same amount.
reused :
    elim (hash_remove (holding one 300) 5) as (λ r. Option (Size × Option Size)) [
      | none ↦ none
      | some (hs, code) ↦ add_then_find grant_all hs
    ]
    ≡ some (256, some 256)
unfolding program
reused = refl

-- Where the allocator refuses, an index is returned, and nothing is found at the key.
refused : add_then_find (λ n. false) (holding one 261) ≡ some (261, some size_max)
unfolding program
refused = refl
