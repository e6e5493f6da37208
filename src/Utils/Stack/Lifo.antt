-- ===== src/Utils/Stack/Lifo.antt =====
-- stack.h over vector.c is a list whose head is the top.
use ru_c.Prelude.{
  ℕ, ap, ◌∙◌, ◌+◌, ◌*◌, ◌%◌, ◌≤◌, ◌<◌, ◌≡◌, refl, Bool, true, some, List, [], ◌∷◌, ◌++◌, reverse,
  ◌==◌, if◌then◌else◌, length, length-append, length-reverse, get_or-append_length, arith,
}
use mathlib.Core.List.{reverse-cons}
use ru_c.Prelude.Int.{pos}
use ru_c.Utils.Item.{Item, Size, word, item_max, size_max}
use ru_c.Utils.Vector.{
  Vector, grown, vector_create, vector_get, vector_size, vector_add, vector_remove,
}
use ru_c.Utils.Vector.Access.{holding, has_room, alloc_for, vector_add_cells, vector_remove_lem}
use ru_c.Utils.Stack.{
  push_code, stack_create, stack_push, stack_pop, stack_peek, stack_size, stack_is_correct,
}

-- The vector is correct and holds the items `xs`, the top first.
pub record Holds (stk : Vector) (xs : List Item) : Type 0 where
  pub array : stk.array ≡ some (reverse xs)
  pub small : length xs ≤ size_max

-- `stack_peek`, `ITEM_MAX` on an empty stack
abbrev pub top : List Item → Item
top [] = item_max
top (x ∷ xs) = x

-- What the allocator is asked for is granted.
abbrev pub Grants : (ℕ → Bool) → Type 0
Grants grant = (n : ℕ) → grant n ≡ true

eq-holding :
    (stk : Vector) (xs : List Item) → Holds stk xs → stk ≡ holding (reverse xs) stk.size_alloc
eq-holding stk xs h = ground arith

pub holding-Holds :
    (xs : List Item) (alloc : Size) → length xs ≤ size_max → Holds (holding (reverse xs) alloc) xs
holding-Holds xs alloc h = record { array = refl; small = h }

module _ (grant : ℕ → Bool) (grants : Grants grant) where
  pub stack_create-Holds : (alloc : Size) → Holds (stack_create grant alloc) []
  unfolding stack_create vector_create
  stack_create-Holds alloc = ground (arith, grants ((if alloc == 0 then 1 else alloc) * 8 % word))

  has_room_granted : (vec : Vector) (n : Size) → has_room grant vec n ≡ true
  has_room_granted vec n = ground (arith, grants (grown vec.size_alloc n * 8 % word))

  vector_add_granted :
      (xs : List Item) (alloc : Size) (x : Item)
      → length xs < size_max
      → vector_add grant (holding (reverse xs) alloc) x ≡ (
        holding (reverse (x ∷ xs)) (alloc_for (holding (reverse xs) alloc) (length xs + 1)),
        length xs,
      )
  vector_add_granted xs alloc x bound =
      let vec : Vector = holding (reverse xs) alloc in
      let added = vector_add_cells grant (reverse xs) alloc x (rw (length-reverse xs) bound) in
      let granted = has_room_granted vec (length (reverse xs) + 1) in
      rw (reverse-cons x xs) (rw (granted, length-reverse xs) at added)

  stack_push-holding :
      (xs : List Item) (alloc : Size) (x : Item)
      → length xs < size_max
      → stack_push grant (holding (reverse xs) alloc) x ≡ (
        holding (reverse (x ∷ xs)) (alloc_for (holding (reverse xs) alloc) (length xs + 1)),
        pos 0,
      )
  unfolding stack_push
  stack_push-holding xs alloc x bound =
      ap push_code (vector_add_granted xs alloc x bound) ∙ ground arith

  pub stack_push-Holds :
      (stk : Vector) (xs : List Item) (x : Item)
      → Holds stk xs
      → length xs < size_max
      → Holds (stack_push grant stk x).0 (x ∷ xs) × ((stack_push grant stk x).1 ≡ pos 0)
  stack_push-Holds stk xs x h bound =
      let e = stack_push-holding xs stk.size_alloc x bound in
      let pushed = ap (λ s. stack_push grant s x) (eq-holding stk xs h) ∙ e in
      rw pushed (holding-Holds (x ∷ xs) _ bound, refl)

pub stack_pop-Holds :
    (stk : Vector) (x : Item) (xs : List Item)
    → Holds stk (x ∷ xs)
    → Holds (stack_pop stk).0 xs × ((stack_pop stk).1 ≡ x)
stack_pop-Holds stk x xs h =
    let popped : stack_pop stk ≡ (holding (reverse xs) stk.size_alloc, x) =
      ap stack_pop (eq-holding stk (x ∷ xs) h)
      ∙ rw (reverse-cons x xs)
          (unfold stack_pop in vector_remove_lem (reverse xs) x stk.size_alloc) in
    rw popped (holding-Holds xs _ (omega arith), refl)

-- Popping an empty stack returns ITEM_MAX and changes nothing.
pub stack_pop_empty : (stk : Vector) → Holds stk [] → stack_pop stk ≡ (stk, item_max)
unfolding stack_pop vector_remove
stack_pop_empty stk h = ground arith

pub stack_peek-Holds : (stk : Vector) (xs : List Item) → Holds stk xs → stack_peek stk ≡ top xs
unfolding stack_peek vector_get vector_size
stack_peek-Holds stk [] h = ground arith
stack_peek-Holds stk (x ∷ xs) h =
    let array : stk.array ≡ some (reverse xs ++ x ∷ []) = rw (reverse-cons x xs) at h.array in
    ground (
      arith,
      length-append (reverse xs) (x ∷ []),
      length-reverse xs,
      get_or-append_length (reverse xs) x item_max,
      array,
    )

pub stack_size-Holds : (stk : Vector) (xs : List Item) → Holds stk xs → stack_size stk ≡ length xs
unfolding stack_size vector_size
stack_size-Holds stk xs h = ground (arith, length-reverse xs)

pub stack_is_correct-Holds :
    (stk : Vector) (xs : List Item) → Holds stk xs → stack_is_correct stk ≡ true
stack_is_correct-Holds stk xs h = ground arith
