-- ===== src/Utils/Hash/Chain.antt =====
-- The chains of a hash of libs/utils/hash.c.
use ru_c.Prelude.{
  ◌+◌, ◌*◌, ◌≤◌, ◌<◌, ◌≡◌, ◌≢◌, ◌⊎◌, ◌∙◌, inl, inr, refl, List, [], ◌∷◌, ◌++◌, length, get_or, ◌==◌,
  if◌then◌else◌, arith,
}
use ru_c.Utils.Item.{Item, Size, item_max, size_max}

-- The index and the key of a record.
abbrev pub Entry : Type 0
Entry = Size × Item

-- The records behind the cell `prev`, in order, from the cell `low` on: their indices ascend, as those
-- of new records do.
unfoldable pub IsChain : List Item → Size → Size → List Entry → Type 0
IsChain xs low prev [] = get_or xs prev item_max ≡ 0
IsChain xs low prev ((i, k) ∷ entries) =
    (get_or xs prev item_max ≡ i)
    × (low ≤ i)
    × (i + 3 ≤ length xs)
    × (get_or xs (i + 1) item_max ≡ k)
    × IsChain xs (i + 3) i entries

-- The index of a key.
unfoldable pub find : Item → List Entry → Size
find key [] = size_max
find key ((i, k) ∷ entries) = if k == key then i else find key entries

-- The cell that links the next record: behind the last one.
abbrev pub last : Size → List Entry → Size
last prev [] = prev
last prev ((i, k) ∷ entries) = last i entries

-- Neither is the key there, nor was a record removed.
abbrev pub HasNo : Item → List Entry → Type 0
HasNo key [] = Unit {0}
HasNo key ((i, k) ∷ entries) = (k ≢ key) × (k ≢ item_max) × HasNo key entries

pub IsChain-length :
    (xs : List Item) (low prev : Size) (entries : List Entry)
    → low ≤ length xs
    → IsChain xs low prev entries
    → low + 3 * length entries ≤ length xs
unfolding IsChain
IsChain-length xs low prev [] h chain = omega arith
IsChain-length xs low prev ((i, k) ∷ entries) h (link, le, room, at, chain) =
    omega (arith, IsChain-length xs (i + 3) i entries room chain)

-- The last link is the first, or it stands in a record.
pub IsChain-last :
    (xs : List Item) (low prev : Size) (entries : List Entry)
    → IsChain xs low prev entries
    → (last prev entries ≡ prev) ⊎ ((low ≤ last prev entries) × (last prev entries < length xs))
unfolding IsChain
IsChain-last xs low prev [] chain = inl refl
IsChain-last xs low prev ((i, k) ∷ entries) (link, le, room, at, chain) =
    elim (IsChain-last xs (i + 3) i entries chain) [
      | inl e ↦ inr (omega arith)
      | inr h ↦ inr (omega (arith, h))
    ]

-- What the cells `ys` hold when a record of the key is added to the cells `xs` behind the cell `prev`.
pub record IsAdded (xs ys : List Item) (prev : Size) (key : Item) : Type 0 where
  pub kept : (j : Size) → j < length xs → j ≢ prev → get_or ys j item_max ≡ get_or xs j item_max
  pub link : get_or ys prev item_max ≡ length xs
  pub end : get_or ys (length xs) item_max ≡ 0
  pub key_at : get_or ys (length xs + 1) item_max ≡ key
  pub room : length xs + 3 ≤ length ys

pub IsChain-IsAdded :
    (xs ys : List Item) (key : Item) (low prev : Size) (entries : List Entry)
    → prev < low
    → low ≤ length xs
    → IsChain xs low prev entries
    → IsAdded xs ys (last prev entries) key
    → IsChain ys low prev (entries ++ (length xs, key) ∷ [])
unfolding IsChain
IsChain-IsAdded xs ys key low prev [] lt le chain added =
    (added.link, le, added.room, added.key_at, added.end)
IsChain-IsAdded xs ys key low prev ((i, k) ∷ entries) lt le (link, le', room, at, chain) added =
    let place = IsChain-last xs (i + 3) i entries chain in
    let other : prev ≢ last i entries = ground (arith, place) in
    let other_key : i + 1 ≢ last i entries = ground (arith, place) in
    let rest = IsChain-IsAdded xs ys key (i + 3) i entries (omega arith) room chain added in
    let room' = added.room in
    (
      added.kept prev (omega arith) other ∙ link,
      le',
      omega arith,
      added.kept (i + 1) (omega arith) other_key ∙ at,
      rest,
    )
