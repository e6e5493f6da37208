-- ===== src/Utils/Stack.antt =====
-- libs/utils/stack.h: a stack is a vector whose last cell is the top.
pub mod Lifo
pub mod Commands
use ru_c.Prelude.{ℕ, ◌+◌, ◌-◌, ◌%◌, Bool, ◌==◌, if◌then◌else◌}
use ru_c.Prelude.Int.{ℤ, pos, negsuc}
use ru_c.Utils.Item.{Item, Size, word, size_max}
use ru_c.Utils.Vector.{Vector, vector_is_correct}
use ru_c.Utils.Vector.{
  vector_create, vector_add, vector_remove, vector_get, vector_size, vector_resize, vector_clear,
}

-- The code that `stack_push` returns for the index that `vector_add` returned.
abbrev pub push_code : Vector × Size → Vector × ℤ
push_code (stk, index) = (stk, if index == size_max then negsuc 0 else pos 0)

module _ (grant : ℕ → Bool) where
  unfoldable pub stack_create : Size → Vector
  stack_create alloc = vector_create grant alloc

  unfoldable pub stack_push : Vector → Item → Vector × ℤ
  stack_push stk value = push_code (vector_add grant stk value)

  unfoldable pub stack_reset : Vector → Vector × ℤ
  stack_reset stk = vector_resize grant stk 0

unfoldable pub stack_pop : Vector → Vector × Item
stack_pop stk = vector_remove stk

-- The index wraps where the stack is empty.
unfoldable pub stack_peek : Vector → Item
stack_peek stk = vector_get stk ((vector_size stk + word - 1) % word)

unfoldable pub stack_size : Vector → Size
stack_size stk = vector_size stk

abbrev pub stack_is_correct : Vector → Bool
stack_is_correct stk = vector_is_correct stk

unfoldable pub stack_clear : Vector → Vector × ℤ
stack_clear stk = vector_clear stk
