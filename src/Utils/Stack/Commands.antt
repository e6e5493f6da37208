-- ===== src/Utils/Stack/Commands.antt =====
-- Sequences of calls of stack.h, against a list.
use ru_c.Prelude.{
  ℕ, suc, ◌+◌, ◌-◌, ◌^◌, ◌≤◌, ◌<◌, ◌≡◌, refl, Bool, Option, List, [], ◌∷◌, length, reverse, arith,
}
use ru_c.Prelude.Int.{ℤ, pos}
use ru_c.Utils.Item.{Item, Size, item_max, size_max}
use ru_c.Utils.Vector.{Vector, change_size, resize_cells, vector_resize}
use ru_c.Utils.Stack.{stack_create, stack_push, stack_pop, stack_peek, stack_size, stack_reset}
use ru_c.Utils.Vector.Block.{IsValid, IsWithin, IsWithin-IsValid}
use ru_c.Utils.Vector.Capacity.{Call, run_call, more, run_call-IsWithin, create-IsWithin}
use ru_c.Utils.Stack.Lifo.{
  Holds, top, Grants, stack_create-Holds, stack_push-Holds, stack_pop-Holds, stack_pop_empty,
  stack_peek-Holds, stack_size-Holds,
}

pub data Command : Type 0 where
  push : Item → Command
  pop peek count reset : Command

-- What a call returns.
pub data Answer : Type 0 where
  code : ℤ → Answer
  item : Item → Answer
  number : Size → Answer

module _ (grant : ℕ → Bool) where
  -- One call on the stack.
  unfoldable pub run_command : Command → Vector → Vector × Answer
  run_command (push x) stk = let (stk', c) = stack_push grant stk x in (stk', code c)
  run_command pop stk = let (stk', x) = stack_pop stk in (stk', item x)
  run_command peek stk = (stk, item (stack_peek stk))
  run_command count stk = (stk, number (stack_size stk))
  run_command reset stk = let (stk', c) = stack_reset grant stk in (stk', code c)

  unfoldable pub run_commands : List Command → Vector → List Answer
  run_commands [] stk = []
  run_commands (c ∷ cs) stk =
      let (stk', answer) = run_command c stk in answer ∷ run_commands cs stk'

  -- The stack behind them.
  unfoldable pub run_state : List Command → Vector → Vector
  unfolding run_command
  run_state [] stk = stk
  run_state (c ∷ cs) stk = run_state cs (run_command c stk).0

-- The same call on a list whose head is the top.
unfoldable pub list_command : Command → List Item → List Item × Answer
list_command (push x) xs = (x ∷ xs, code (pos 0))
list_command pop [] = ([], item item_max)
list_command pop (x ∷ xs) = (xs, item x)
list_command peek xs = (xs, item (top xs))
list_command count xs = (xs, number (length xs))
list_command reset xs = ([], code (pos 0))

unfoldable pub list_commands : List Command → List Item → List Answer
list_commands [] xs = []
list_commands (c ∷ cs) xs = let (xs', answer) = list_command c xs in answer ∷ list_commands cs xs'

stack_reset-Holds :
    (grant : ℕ → Bool) (stk : Vector) (xs : List Item)
    → Holds stk xs
    → Holds (stack_reset grant stk).0 [] × ((stack_reset grant stk).1 ≡ pos 0)
unfolding stack_reset vector_resize change_size
stack_reset-Holds grant stk xs h =
    let array = h.array in
    let cleared : resize_cells 0 (reverse xs) ≡ [] =
      let none_left : 0 - length (reverse xs) ≡ 0 = omega arith in rw none_left in
    let array' : (stack_reset grant stk).0.array ≡ Option.some [] =
      ground (arith, array, cleared) in
    (record { array = array'; small = omega arith }, ground (arith, array))

module _ (grant : ℕ → Bool) (grants : Grants grant) where
  run_command-Holds :
      (c : Command) (stk : Vector) (xs : List Item)
      → Holds stk xs
      → length xs < size_max
      → Holds (run_command grant c stk).0 (list_command c xs).0
        × ((run_command grant c stk).1 ≡ (list_command c xs).1)
        × (length (list_command c xs).0 ≤ suc (length xs))
  unfolding run_command list_command
  run_command-Holds (push x) stk xs h bound =
      let (held, ok) = stack_push-Holds grant grants stk xs x h bound in (held, rw ok, omega arith)
  run_command-Holds pop stk [] h bound =
      let e = stack_pop_empty stk h in (rw e h, rw e, omega arith)
  run_command-Holds pop stk (x ∷ xs) h bound =
      let (held, got) = stack_pop-Holds stk x xs h in (held, rw got, omega arith)
  run_command-Holds peek stk xs h bound = (h, rw (stack_peek-Holds stk xs h), omega arith)
  run_command-Holds count stk xs h bound = (h, rw (stack_size-Holds stk xs h), omega arith)
  run_command-Holds reset stk xs h bound =
      let (held, ok) = stack_reset-Holds grant stk xs h in (held, rw ok, omega arith)

  run_commands-Holds :
      (cs : List Command) (stk : Vector) (xs : List Item)
      → Holds stk xs
      → length xs + length cs ≤ size_max
      → run_commands grant cs stk ≡ list_commands cs xs
  unfolding run_commands list_commands
  run_commands-Holds [] stk xs h bound = refl
  run_commands-Holds (c ∷ cs) stk xs h bound =
      let (held, same, grown) = run_command-Holds c stk xs h (omega arith) in
      rw (same, run_commands-Holds cs _ _ held (omega arith))

  run_command-IsWithin :
      (c : Command) (stk : Vector) (n : ℕ)
      → IsWithin n stk
      → n + 1 < 2 ^ 60
      → IsWithin (n + 1) (run_command grant c stk).0
  unfolding run_command run_call stack_push stack_pop stack_reset
  run_command-IsWithin (push x) stk n w bound = run_call-IsWithin grant (Call.add x) stk n w bound
  run_command-IsWithin pop stk n w bound =
      more (n + 1) _ (run_call-IsWithin grant Call.remove stk n w (omega arith)) (omega arith)
  run_command-IsWithin peek stk n w bound = more (n + 1) stk w (omega arith)
  run_command-IsWithin count stk n w bound = more (n + 1) stk w (omega arith)
  run_command-IsWithin reset stk n w bound =
      more (n + 1) _ (run_call-IsWithin grant (Call.resize 0) stk n w (omega arith)) (omega arith)

  run_state-IsWithin :
      (cs : List Command) (stk : Vector) (n : ℕ)
      → IsWithin n stk
      → n + length cs < 2 ^ 60
      → IsWithin (n + length cs) (run_state grant cs stk)
  unfolding run_state
  run_state-IsWithin [] stk n w bound = more (n + 0) stk w (omega arith)
  run_state-IsWithin (c ∷ cs) stk n w bound =
      more _ _
        (run_state-IsWithin cs (run_command grant c stk).0 (n + 1)
          (run_command-IsWithin c stk n w (omega arith)) (omega arith))
        (omega arith)

  -- Where the allocator grants what it is asked for, on a stack that is created for fewer than 2 ^ 61
  -- items: every call of a sequence of fewer than 2 ^ 60 calls returns what the same call on a list,
  -- empty at first, returns, and at their end the items fit the bytes that are allocated.
  pub run_commands-list_commands :
      (alloc : Size) (cs : List Command)
      → alloc < 2 ^ 61
      → length cs < 2 ^ 60
      → (run_commands grant cs (stack_create grant alloc) ≡ list_commands cs [])
        × IsValid (run_state grant cs (stack_create grant alloc))
  unfolding stack_create
  run_commands-list_commands alloc cs small bound = (
    run_commands-Holds cs (stack_create grant alloc) [] (stack_create-Holds grant grants alloc)
        (omega arith),
    IsWithin-IsValid _ (
        run_state-IsWithin cs (stack_create grant alloc) 0 (create-IsWithin grant alloc small)
          (omega arith)),
  )
