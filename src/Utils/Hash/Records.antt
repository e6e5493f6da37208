-- ===== src/Utils/Hash/Records.antt =====
-- The records that hash_add of libs/utils/hash.c makes.
use ru_c.Prelude.{
  ℕ, ◌+◌, ◌-◌, ◌*◌, ◌%◌, ◌≤◌, ◌<◌, ◌≡◌, ◌∙◌, ap, refl, Bool, List, length, get_or, get_or-set,
  get_or-take, get_or-append, get_or-replicate, length-set, length-append, length-take,
  length-replicate, set, take, replicate, ◌==◌, ltb, if◌then◌else◌, arith,
}
use ru_c.Utils.Item.{Item, Size, word, item_max, item_bytes}
use ru_c.Utils.Vector.{
  Vector, grown, resize_cells, change_size, vector_increase, vector_set, vector_size,
}
use ru_c.Utils.Vector.Access.{holding, alloc_for}
use ru_c.Utils.Stack.Lifo.{Grants}
use ru_c.Utils.Hash.{cell, add_record}
use ru_c.Utils.Hash.Chain.{IsAdded}
use ru_c.Utils.Hash.Lookup.{vector_set-holding, cell_small}

vector_set-cell :
    (xs : List Item) (alloc index : Size) (k : ℕ) (value : Item)
    → index + k < length xs
    → length xs < word
    → (vector_set (holding xs alloc) (cell index k) value).0
      ≡ holding (set xs (index + k) value) alloc
vector_set-cell xs alloc index k value h small =
    rw (cell_small index k (omega arith))
      (ap (λ r. r.0) (vector_set-holding xs alloc (index + k) value h))

pub vector_increase-holding :
    (grant : ℕ → Bool) (xs : List Item) (alloc n m : Size)
    → Grants grant
    → length xs + n ≡ m
    → m < word
    → (vector_increase grant (holding xs alloc) n).0
      ≡ holding (resize_cells m xs) (alloc_for (holding xs alloc) m)
unfolding vector_increase change_size
vector_increase-holding grant xs alloc n m grants total h =
    let exact : (length xs + n) % word ≡ m = omega arith in
    rw (exact, grants (grown alloc m * item_bytes % word)) (ground arith)

pub length-resize_cells :
    (n : Size) (xs : List Item) → length xs ≤ n → length (resize_cells n xs) ≡ n
length-resize_cells n xs h =
    rw
      (
        length-append (take n xs) (replicate (n - length xs) 0),
        length-take n xs,
        length-replicate {A = Item} (n - length xs) 0,
      )
      (omega arith)

pub get_or-resize_cells :
    (n : Size) (xs : List Item) (j : Size)
    → length xs ≤ n
    → j < n
    → get_or (resize_cells n xs) j item_max
      ≡ (if ltb j (length xs) then get_or xs j item_max else 0)
get_or-resize_cells n xs j h lt =
    let whole : length (take n xs) ≡ length xs = rw (length-take n xs) (omega arith) in
    rw (get_or-append (take n xs) (replicate (n - length xs) 0) j item_max, whole)
      (ground (
        arith,
        get_or-take n xs j item_max,
        get_or-replicate {A = Item} (n - length xs) 0 (j - length xs) item_max,
      ))

-- The cells that `hash_add` leaves when it makes a new record.
abbrev pub added_cells : List Item → Size → Item → Size → List Item
added_cells xs prev key amount =
    set
      (set (resize_cells (length xs + (amount + 3)) (set xs prev (length xs))) (length xs + 2)
        amount)
      (length xs + 1) key

pub length-added_cells :
    (xs : List Item) (prev : Size) (key : Item) (amount : Size)
    → length (added_cells xs prev key amount) ≡ length xs + (amount + 3)
length-added_cells xs prev key amount =
    let n = length xs in
    let linked = set xs prev n in
    let large = resize_cells (n + (amount + 3)) linked in
    length-set (set large (n + 2) amount) (n + 1) key
    ∙ length-set large (n + 2) amount
    ∙ length-resize_cells (n + (amount + 3)) linked (rw (length-set xs prev n) (omega arith))

-- What a cell holds then.
pub get_or-added_cells :
    (xs : List Item) (prev : Size) (key : Item) (amount j : Size)
    → prev < length xs
    → j < length xs + (amount + 3)
    → get_or (added_cells xs prev key amount) j item_max ≡ (
        if length xs + 1 == j
        then key
        else (if length xs + 2 == j
            then amount
            else (if ltb j (length xs)
                then (if prev == j then length xs else get_or xs j item_max)
                else 0)))
get_or-added_cells xs prev key amount j h lt =
    let n = length xs in
    let linked = set xs prev n in
    let same : length linked ≡ n = length-set xs prev n in
    let large = resize_cells (n + (amount + 3)) linked in
    let total : length large ≡ n + (amount + 3) =
      length-resize_cells (n + (amount + 3)) linked (rw same (omega arith)) in
    let sized = set large (n + 2) amount in
    let total' : length sized ≡ n + (amount + 3) = length-set large (n + 2) amount ∙ total in
    let at_key = get_or-set sized (n + 1) key j item_max (rw total' (omega arith)) in
    let at_amount = get_or-set large (n + 2) amount j item_max (rw total (omega arith)) in
    let at_large = get_or-resize_cells (n + (amount + 3)) linked j (rw same (omega arith)) lt in
    let at_link = get_or-set xs prev n j item_max h in
    rw (at_key, at_amount, at_large, same, at_link) refl

-- The cells of a new record, and the others.
pub added_cells-IsAdded :
    (xs : List Item) (prev : Size) (key : Item) (amount : Size)
    → prev < length xs
    → IsAdded xs (added_cells xs prev key amount) prev key
added_cells-IsAdded xs prev key amount h =
    let read = λ (j : Size) (lt : j < length xs + (amount + 3)).
      get_or-added_cells xs prev key amount j h lt in
    record {
      kept = λ j lt other. rw (read j (omega arith)) (ground arith);
      link = rw (read prev (omega arith)) (ground arith);
      end = rw (read (length xs) (omega arith)) (ground arith);
      key_at = rw (read (length xs + 1) (omega arith)) (ground arith);
      room = rw (length-added_cells xs prev key amount) (omega arith);
    }

-- The hash with them.
abbrev pub added_hash : List Item → Size → Size → Item → Size → Vector
added_hash xs alloc prev key amount =
    holding (added_cells xs prev key amount)
      (alloc_for (holding (set xs prev (length xs)) alloc) (length xs + (amount + 3)))

pub add_record_lem :
    (grant : ℕ → Bool) (xs : List Item) (alloc : Size) (key : Item) (amount prev : Size)
    → Grants grant
    → length xs + (amount + 3) < item_max
    → prev < length xs
    → add_record grant (holding xs alloc) key amount prev
      ≡ (added_hash xs alloc prev key amount, length xs)
unfolding add_record vector_size
add_record_lem grant xs alloc key amount prev grants small h =
    let n = length xs in
    let linked = set xs prev n in
    let same : length linked ≡ n = length-set xs prev n in
    let large = resize_cells (n + (amount + 3)) linked in
    let total : length large ≡ n + (amount + 3) =
      length-resize_cells (n + (amount + 3)) linked (rw same (omega arith)) in
    let alloc' = alloc_for (holding linked alloc) (n + (amount + 3)) in
    let sized = set large (n + 2) amount in
    let total' : length sized ≡ n + (amount + 3) = length-set large (n + 2) amount ∙ total in
    let plus : cell amount 3 ≡ amount + 3 = cell_small amount 3 (omega arith) in
    let size_of : Vector → Vector = λ v. (vector_set v (cell n 2) amount).0 in
    let key_of : Vector → Vector × Size = λ v. ((vector_set v (cell n 1) key).0, n) in
    let link = ap (λ r. r.0) (vector_set-holding xs alloc prev n h) in
    let increase =
      vector_increase-holding grant linked alloc (cell amount 3) (n + (amount + 3)) grants
        (rw (plus, same)) (omega arith) in
    let amount_set =
      vector_set-cell large alloc' n 2 amount (rw total (omega arith)) (rw total (omega arith)) in
    let key_set =
      vector_set-cell sized alloc' n 1 key (rw total' (omega arith)) (rw total' (omega arith)) in
    ap (λ v. key_of (size_of (vector_increase grant v (cell amount 3)).0)) link
    ∙ ap (λ v. key_of (size_of v)) increase
    ∙ ap key_of amount_set
    ∙ ap (λ v. (v, n)) key_set
