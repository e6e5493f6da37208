-- ===== src/Utils/Hash/Creation.antt =====
-- hash_create of libs/utils/hash.c.
use ru_c.Prelude.{
  ℕ, ◌+◌, ◌*◌, ◌%◌, ◌≡◌, ◌∙◌, ap, refl, Bool, some, List, [], length, ◌==◌, if◌then◌else◌, arith,
}
use ru_c.Utils.Item.{Item, Size, word, size_max, item_bytes}
use ru_c.Utils.Vector.{resize_cells, vector_create, vector_increase}
use ru_c.Utils.Vector.Access.{holding, alloc_for}
use ru_c.Utils.Stack.Lifo.{Grants}
use ru_c.Utils.Hash.{max_hash, value_size, get_hash, hash_create, hash_get_index}
use ru_c.Utils.Hash.Chain.{IsChain, find}
use ru_c.Utils.Hash.Lookup.{hash_get_index-find}
use ru_c.Utils.Hash.Records.{vector_increase-holding, length-resize_cells, get_or-resize_cells}

-- The cells of a created hash.
abbrev pub no_chains : List Item
no_chains = resize_cells max_hash []

vector_create-holding :
    (grant : ℕ → Bool) (alloc : Size)
    → Grants grant
    → vector_create grant alloc ≡ holding [] (if alloc == 0 then 1 else alloc)
unfolding vector_create
vector_create-holding grant alloc grants =
    rw (grants ((if alloc == 0 then 1 else alloc) * item_bytes % word)) refl

hash_create-holding :
    (grant : ℕ → Bool) (alloc : Size)
    → Grants grant
    → (a : Size) × (hash_create grant alloc ≡ holding no_chains a)
unfolding hash_create
hash_create-holding grant alloc grants =
    let n = (max_hash + alloc * (3 + value_size)) % word in
    let a = if n == 0 then 1 else n in
    (
      alloc_for (holding [] a) max_hash,
      ap (λ v. (vector_increase grant v max_hash).0) (vector_create-holding grant n grants)
          ∙ vector_increase-holding grant [] a max_hash max_hash grants (omega arith) (omega arith),
    )

no_chains-IsChain : (key : Item) → IsChain no_chains max_hash (get_hash key) []
unfolding IsChain
no_chains-IsChain key =
    rw (get_or-resize_cells max_hash [] (get_hash key) (omega arith) (omega arith)) (ground arith)

-- Where the allocator grants all requests, no key is found in a created hash, and every chain in its
-- cells is sound.
hash_get_index-hash_create :
    (grant : ℕ → Bool) (alloc : Size) (key : Item)
    → Grants grant
    → (hash_get_index (hash_create grant alloc) key ≡ some size_max)
      × (a : Size) × (hash_create grant alloc ≡ holding no_chains a)
      × IsChain no_chains max_hash (get_hash key) []
hash_get_index-hash_create grant alloc key grants =
    let (a, created) = hash_create-holding grant alloc grants in
    let size : length no_chains ≡ max_hash = length-resize_cells max_hash [] (omega arith) in
    (
      ap (λ hs. hash_get_index hs key) created
          ∙ hash_get_index-find no_chains a key [] (omega (arith, size)) (omega (arith, size))
              (no_chains-IsChain key)
          ∙ unfold find in refl,
      a,
      created,
      no_chains-IsChain key,
    )
