-- ===== src/Utils/Tests.antt =====
-- Runs of vectors and stacks.
use ru_c.Prelude.{
  ◌^◌, ◌-◌, ℕ, ◌+◌, ◌≡◌, refl, Bool, true, List, [], ◌∷◌, ◌++◌, ltb, ◌&&◌, ◌==◌, if◌then◌else◌,
  length, get_or, arith,
}
use ru_c.Prelude.Int.{pos, negsuc}
use ru_c.Utils.Item.{Item, item_max, size_max}
use ru_c.Utils.Vector.{
  change_size, vector_create, vector_add, vector_set, vector_get, vector_remove, vector_resize,
  vector_size,
}
use ru_c.Utils.Vector.Block.{IsWithin, IsValid}
use ru_c.Utils.Vector.Resize.{vector_add_lem, vector_resize_lem}
use ru_c.Utils.Vector.Access.{has_room, alloc_for, holding, vector_get-vector_set}
use ru_c.Utils.Stack.{stack_create, stack_push, stack_pop, stack_peek, stack_size, stack_reset}
use ru_c.Utils.Stack.Lifo.{Grants}
use ru_c.Utils.Stack.Commands.{
  push, pop, peek, count, reset, Command, Answer, run_command, run_commands, run_state,
  list_command, list_commands, run_commands-list_commands,
}

abbrev two : List Item
two = 1 ∷ 2 ∷ []

abbrev grant_all : ℕ → Bool
grant_all n = true

grant_all-Grants : Grants grant_all
grant_all-Grants n = refl

-- Requests up to 32 bytes are granted.
abbrev grant_small : ℕ → Bool
grant_small n = ltb n 33

program : Unit {0}
unfolding change_size vector_create vector_add vector_get vector_remove vector_size vector_resize
    stack_create stack_push stack_pop stack_peek stack_size stack_reset run_command run_commands
    list_command list_commands
program = tt

abbrev session : List Command
session = pop ∷ push 3 ∷ push 5 ∷ peek ∷ count ∷ pop ∷ pop ∷ push 7 ∷ reset ∷ count ∷ []

session_answers :
    run_commands grant_all session (stack_create grant_all 1)
    ≡ Answer.item item_max
      ∷ Answer.code (pos 0)
      ∷ Answer.code (pos 0)
      ∷ Answer.item 5
      ∷ Answer.number 2
      ∷ Answer.item 5
      ∷ Answer.item 3
      ∷ Answer.code (pos 0)
      ∷ Answer.code (pos 0)
      ∷ Answer.number 0
      ∷ []
unfolding program
session_answers = refl

-- A fifth cell does not fit 32 bytes.
fifth_cell :
    vector_add grant_small (holding (1 ∷ 2 ∷ 3 ∷ 4 ∷ []) 4) 5
    ≡ (holding (1 ∷ 2 ∷ 3 ∷ 4 ∷ []) 4, size_max)
unfolding program
fifth_cell = refl

run_commands-list_commands_example :
    (run_commands grant_all session (stack_create grant_all 1) ≡ list_commands session [])
    × IsValid (run_state grant_all session (stack_create grant_all 1))
run_commands-list_commands_example =
    run_commands-list_commands grant_all grant_all-Grants 1 session (omega arith) (omega arith)

two-IsWithin : IsWithin (2 ^ 60 - 1) (holding two 2)
two-IsWithin = record {
  few = omega arith;
  fits = omega arith;
  nonempty = omega arith;
  small = omega arith;
}

two-IsWithin_less : IsWithin (2 ^ 60 - 2) (holding two 2)
two-IsWithin_less = record {
  few = omega arith;
  fits = omega arith;
  nonempty = omega arith;
  small = omega arith;
}

vector_add_lem_example :
    (vector_add grant_small (holding two 2) 5 ≡ (
      if has_room grant_small (holding two 2) (length two + 1)
      then (holding (two ++ 5 ∷ []) (alloc_for (holding two 2) (length two + 1)), length two)
      else (holding two 2, size_max)))
    × IsValid (vector_add grant_small (holding two 2) 5).0
vector_add_lem_example = vector_add_lem grant_small two 2 5 two-IsWithin_less

vector_resize_lem_example :
    (vector_get (vector_resize grant_small (holding two 2) 4).0 1 ≡ (
      if has_room grant_small (holding two 2) 4
      then (if ltb 1 4 then (if ltb 1 (length two) then get_or two 1 0 else 0) else item_max)
      else vector_get (holding two 2) 1))
    × ((vector_resize grant_small (holding two 2) 4).1
        ≡ (if has_room grant_small (holding two 2) 4 then pos 0 else negsuc 0))
    × (vector_size (vector_resize grant_small (holding two 2) 4).0
        ≡ (if has_room grant_small (holding two 2) 4 then 4 else length two))
    × IsValid (vector_resize grant_small (holding two 2) 4).0
vector_resize_lem_example = vector_resize_lem grant_small two 2 4 1 two-IsWithin (omega arith)

vector_get-vector_set_example :
    let (vec, code) = vector_set (holding two 2) 1 9 in
    (code ≡ (if ltb 1 (length two) then pos 0 else negsuc 0))
    × (vector_get vec 1
        ≡ (if ltb 1 (length two) && 1 == 1 then 9 else vector_get (holding two 2) 1))
    × (vector_size vec ≡ length two)
vector_get-vector_set_example = vector_get-vector_set two 2 1 1 9
