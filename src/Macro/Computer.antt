-- ===== src/Macro/Computer.antt =====
-- The functions that libs/macro/computer.h declares.
use Prim.Native.String.{String}
use ru_c.Prelude.{ℕ, zero, suc, ◌+◌, Bool, false, not, ◌&&◌, ◌||◌, some, [], ◌==◌, if◌then◌else◌}
use ru_c.Prelude.Int.{ℤ, pos, negsuc}
use ru_c.Utils.Item.{Item, Size, item_max}
use ru_c.Utils.Stack.{stack_create, stack_pop, stack_peek, stack_size, stack_clear}
use ru_c.Macro.Token.{Token, code, text, character, number, computer_token_to_string}
use ru_c.Macro.Operators.{
  Run, done, stuck, ◌>>=◌, ErrorKind, Computer, computer_error, computer_is_correct, pop_operator,
  push_operator, computer_compare_priority, computer_token_without_number, computer_select_three,
  computer_const_number,
}

-- `MAX_EXPRESSION_DAPTH`
abbrev max_expression_depth : Size
max_expression_depth = 64

-- `loc_correct` is what `loc_copy(loc)` leaves.
unfoldable pub computer_create : (ℕ → Bool) → Bool → Bool → String → Computer
computer_create grant loc_correct io_is_file directive = record {
  numbers = stack_create grant max_expression_depth;
  operators = stack_create grant max_expression_depth;
  loc_correct = loc_correct;
  io_is_file = io_is_file;
  directive = directive;
  was_number = false;
  reports = [];
}

-- `tk == TK_COMPL || tk == TK_NOT || tk == TK_L_BOUND`
abbrev pub is_opening : Token → Bool
is_opening tk =
    code tk == code Token.compl || code tk == code Token.not || code tk == code Token.l_bound

module _ (grant : ℕ → Bool) where
  -- The tail of `computer_push_token`, behind the comparison of priorities, where it does not call
  -- itself.
  abbrev pub push_behind : Computer → Size → Token → Computer × ℤ
  push_behind comp at tk = (record (push_operator grant comp at tk) { was_number = false }, pos 0)

  -- `computer_push_token` calls itself where it reduces: each call takes one unit of fuel.
  unfoldable pub push_token_loop : ℕ → Computer → Size → Token → Run (Computer × ℤ)
  push_token_loop zero comp at tk = stuck
  push_token_loop (suc fuel) comp at tk =
      let previous = stack_peek comp.operators in
      let again = computer_select_three grant comp >>= λ r. push_token_loop fuel r.0 at tk in
      if not (computer_is_correct comp)
      then done (comp, negsuc 0)
      else (if not comp.was_number
          then done (computer_token_without_number grant comp at tk)
          else (if is_opening tk
              then done (
                computer_error comp at ErrorKind.expr_missing_binary
                    (computer_token_to_string (some tk)),
                negsuc 0,
              )
              else (if previous == item_max && code tk == code Token.r_bound
                  then done (
                    computer_error comp at ErrorKind.expr_missing_bracket (character 40),
                    negsuc 0,
                  )
                  else (if previous == code Token.l_bound && code tk == code Token.r_bound
                      then done ((pop_operator comp).0, pos 0)
                      else elim (computer_compare_priority previous (code tk)) [
                        | pos ℕ.zero ↦
                            computer_select_three grant comp >>= λ r. done (push_behind r.0 at tk)
                        | pos (ℕ.suc k) ↦ again
                        | negsuc k ↦ done (push_behind comp at tk)
                      ]))))

  -- Each call but the last takes a cell off the operators stack.
  unfoldable pub computer_push_token : Computer → Size → Token → Run (Computer × ℤ)
  computer_push_token comp at tk = push_token_loop (stack_size comp.operators + 1) comp at tk

  unfoldable pub computer_push_number : Computer → Size → Item → Run (Computer × ℤ)
  computer_push_number comp at num =
      if computer_is_correct comp
      then computer_const_number grant comp at num (number num)
      else done (comp, negsuc 0)

  -- A char32_t is cast to an item.
  unfoldable pub computer_push_const : Computer → Size → ℕ → String → Run (Computer × ℤ)
  computer_push_const comp at ch name =
      if computer_is_correct comp
      then computer_const_number grant comp at ch (text name)
      else done (comp, negsuc 0)

  -- The loop of `computer_pop_result`, with fuel for the operators.
  unfoldable pub pop_result_loop : ℕ → Computer → Run (Computer × Item)
  pop_result_loop zero comp = stuck
  pop_result_loop (suc fuel) comp =
      let operator = stack_peek comp.operators in
      let again = computer_select_three grant comp >>= λ r. pop_result_loop fuel r.0 in
      if operator == item_max
      then (let (ns, result) = stack_pop comp.numbers in
          done (record comp { numbers = ns }, result))
      else (if operator == code Token.l_bound
          then (let (comp', op, at) = pop_operator comp in
              done (computer_error comp' at ErrorKind.expr_missing_bracket (character 41), 0))
          else again)

  unfoldable pub computer_pop_result : Computer → Run (Computer × Item)
  computer_pop_result comp =
      if not (computer_is_correct comp)
      then done (comp, 0)
      else (if stack_size comp.numbers == 0
          then done (
            computer_error comp item_max ErrorKind.directive_no_expression (text comp.directive),
            0,
          )
          else (if not comp.was_number
              then (let (comp', op, at) = pop_operator comp in
                  done (
                    computer_error comp' at ErrorKind.expr_no_right_operand
                        (computer_token_to_string op),
                    0,
                  ))
              else pop_result_loop (stack_size comp.operators + 1) comp))

unfoldable pub computer_clear : Computer → Computer × ℤ
computer_clear comp =
    if computer_is_correct comp
    then (
      record comp {
        numbers = (stack_clear comp.numbers).0;
        operators = (stack_clear comp.operators).0;
      },
      if comp.loc_correct then pos 0 else negsuc 0,
    )
    else (comp, negsuc 0)
