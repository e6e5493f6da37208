-- ===== src/Utils/Hash/Removal.antt =====
-- hash_remove of libs/utils/hash.c on a chain.
use ru_c.Prelude.{
  ◌+◌, ◌≤◌, ◌<◌, ◌≡◌, ◌≢◌, ◌∙◌, ap, sym, inl, inr, refl, false, some, List, [], ◌∷◌, length, get_or,
  get_or-set, length-set, set, ◌==◌, if◌then◌else◌, arith, Bool-cases,
}
use ru_c.Prelude.Int.{pos}
use ru_c.Utils.Item.{Item, Size, item_max, size_max}
use ru_c.Utils.Vector.{Vector}
use ru_c.Utils.Vector.Access.{holding}
use ru_c.Utils.Hash.{max_hash, get_hash, hash_get_index, returned}
use ru_c.Utils.Hash.Chain.{Entry, IsChain, find}
use ru_c.Utils.Hash.Lookup.{vector_set-holding, cell_small, hash_get_index-find}
use ru_c.Utils.Hash.{hash_remove, hash_remove_by_index}

-- No key stands twice.
abbrev pub AreDistinct : List Entry → Type 0
AreDistinct [] = Unit {0}
AreDistinct ((i, k) ∷ entries) = (find k entries ≡ size_max) × AreDistinct entries

-- The chain whose first record of the key is removed.
abbrev removed : Item → List Entry → List Entry
removed key [] = []
removed key ((i, k) ∷ entries) =
    let rest = removed key entries in if k == key then (i, item_max) ∷ entries else (i, k) ∷ rest

find-low :
    (xs : List Item) (low prev : Size) (key : Item) (entries : List Entry)
    → IsChain xs low prev entries
    → find key entries ≢ size_max
    → (low ≤ find key entries) × (find key entries + 3 ≤ length xs)
unfolding IsChain find
find-low xs low prev key [] chain found = absurd (found refl)
find-low xs low prev key ((i, k) ∷ entries) (link, ge, room, at, chain) found =
    elim (Bool-cases (k == key)) [
      | inl e ↦ rw e (ge, room)
      | inr e ↦
          let inside : find key entries ≢ size_max = ground arith in
          let (ge', room') = find-low xs (i + 3) i key entries chain inside in
          rw e (omega arith, room')
    ]

-- A chain where its cells are the same.
IsChain-same :
    (xs ys : List Item) (low prev : Size) (entries : List Entry)
    → length ys ≡ length xs
    → get_or ys prev item_max ≡ get_or xs prev item_max
    → ((j : Size) → low ≤ j → get_or ys j item_max ≡ get_or xs j item_max)
    → IsChain xs low prev entries
    → IsChain ys low prev entries
unfolding IsChain
IsChain-same xs ys low prev [] total at_prev same chain = at_prev ∙ chain
IsChain-same xs ys low prev ((i, k) ∷ entries) total at_prev same (link, ge, room, at, chain) = (
  at_prev ∙ link,
  ge,
  omega arith,
  same (i + 1) (omega arith) ∙ at,
  IsChain-same xs ys (i + 3) i entries total (same i ge) (λ j h. same j (omega arith)) chain,
)

IsChain-removed :
    (xs ys : List Item) (low prev gone : Size) (key : Item) (entries : List Entry)
    → prev < low
    → length ys ≡ length xs
    → ((j : Size)
        → get_or ys j item_max ≡ (if gone + 1 == j then item_max else get_or xs j item_max))
    → find key entries ≡ gone
    → gone ≢ size_max
    → IsChain xs low prev entries
    → IsChain ys low prev (removed key entries)
unfolding IsChain find
IsChain-removed xs ys low prev gone key [] lt total read at_gone found chain =
    absurd (found (sym at_gone))
IsChain-removed xs ys low prev gone key ((i, k) ∷ entries) lt total read at_gone found
      (link, ge, room, at, chain) =
    let kept = λ (j : Size) (h : gone + 1 ≢ j).
      let differs : (gone + 1 == j) ≡ false = ground arith in
      read j ∙ ap (λ b. if b then item_max else get_or xs j item_max) differs in
    let room' : i + 3 ≤ length ys = omega (arith, total, room) in
    elim (Bool-cases (k == key)) [
      | inl e ↦
          let here : i ≡ gone = rw e at at_gone in
          let gone_at : get_or ys (i + 1) item_max ≡ item_max = rw (read (i + 1)) (ground arith) in
          rw e (
            kept prev (omega arith) ∙ link,
            ge,
            room',
            gone_at,
            IsChain-same xs ys (i + 3) i entries total (kept i (omega arith))
                (λ j h. kept j (omega arith)) chain,
          )
      | inr e ↦
          let there : find key entries ≡ gone = rw e at at_gone in
          let inside : find key entries ≢ size_max = rw there found in
          let (ge', fits) = find-low xs (i + 3) i key entries chain inside in
          rw e (
            kept prev (omega arith) ∙ link,
            ge,
            room',
            kept (i + 1) (omega arith) ∙ at,
            IsChain-removed xs ys (i + 3) i gone key entries (omega arith) total read there found
                chain,
          )
    ]

find-removed :
    (key other : Item) (entries : List Entry)
    → other ≢ item_max
    → AreDistinct entries
    → find other (removed key entries) ≡ (if key == other then size_max else find other entries)
unfolding find
find-removed key other [] real distinct = ground arith
find-removed key other ((i, k) ∷ entries) real (once, distinct) =
    ground (arith, find-removed key other entries real distinct)

-- Where a hash has MAX_HASH cells at least and fewer than ITEM_MAX, the chain of a key is sound and no
-- key stands in it twice, and the key is there: `hash_remove` returns 0, and behind it
-- `hash_get_index` finds the key no more, and finds what it found before at each other key of the
-- chain that is not ITEM_MAX.
pub hash_get_index-hash_remove :
    (xs : List Item) (alloc : Size) (key other : Item) (entries : List Entry)
    → max_hash ≤ length xs
    → length xs < item_max
    → IsChain xs max_hash (get_hash key) entries
    → AreDistinct entries
    → find key entries ≢ size_max
    → get_hash other ≡ get_hash key
    → other ≢ item_max
    → (hs : Vector) × (hash_remove (holding xs alloc) key ≡ some (hs, pos 0))
      × (hash_get_index hs other
          ≡ (if key == other then some size_max else hash_get_index (holding xs alloc) other))
unfolding hash_remove hash_remove_by_index
hash_get_index-hash_remove xs alloc key other entries large small chain distinct found same real =
    let i = find key entries in
    let ys = set xs (i + 1) item_max in
    let (ge, room) = find-low xs max_hash (get_hash key) key entries chain found in
    let total : length ys ≡ length xs = length-set xs (i + 1) item_max in
    let chain' =
      IsChain-removed xs ys max_hash (get_hash key) i key entries (omega arith) total
        (λ j. get_or-set xs (i + 1) item_max j item_max (omega arith)) refl found chain in
    let there : (i == size_max) ≡ false = ground arith in
    let before = hash_get_index-find xs alloc other entries large small (rw same chain) in
    let now =
      hash_get_index-find ys alloc other (removed key entries) (rw total large) (rw total small)
        (rw same chain') in
    let run =
      ap (λ r. returned r (hash_remove_by_index (holding xs alloc)))
        (hash_get_index-find xs alloc key entries large small chain) in
    let by_index : hash_remove_by_index (holding xs alloc) i ≡ (holding ys alloc, pos 0) =
      unfold hash_remove_by_index in
      rw (there, cell_small i 1 (omega arith))
        (vector_set-holding xs alloc (i + 1) item_max (omega arith)) in
    (
      holding ys alloc,
      run ∙ ap some by_index,
      now ∙ ap some (find-removed key other entries real distinct) ∙ rw before (ground arith),
    )
