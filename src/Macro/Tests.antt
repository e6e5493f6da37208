-- ===== src/Macro/Tests.antt =====
-- Runs of the computer at concrete lines.
use ru_c.Prelude.{
  List, length, ℕ, ◌≡◌, ◌≢◌, refl, Bool, true, false, not, ◌==◌, some, [], ◌∷◌, ◌++◌, arith,
}
use ru_c.Prelude.Int.{negsuc}
use ru_c.Utils.Item.{item_max}
use ru_c.Utils.Vector.{
  change_size, vector_create, vector_add, vector_get, vector_remove, vector_size,
}
use ru_c.Utils.Stack.{stack_create, stack_push, stack_pop, stack_peek, stack_size}
use ru_c.Utils.Stack.Lifo.{Grants}
use ru_c.Macro.Token.{
  Token, code, token_of_item, cast_token, text, character, number, spelling,
  computer_token_to_string,
}
use ru_c.Macro.Arith.{
  truth, divide, remainder, shift_left, shift_right, select, complement, negation,
}
use ru_c.Macro.Operators.{
  Run, stuck, ErrorKind, Computer, computer_error, priority_case, computer_compare_priority,
  without_operand, computer_token_without_number, computer_select_three, const_number_loop,
  computer_const_number,
}
use ru_c.Macro.Computer.{
  computer_create, push_token_loop, computer_push_token, computer_push_number, computer_push_const,
  pop_result_loop, computer_pop_result,
}
use ru_c.Macro.Expression.{
  token, literal, push_input, feed, evaluate, minus, exclaim, prefix_token, Expr, operand, paren,
  binary, print, prefix_value, eval_prefixes, eval,
}
use ru_c.Macro.Value.{c_value}
use ru_c.Macro.Simulation.{Returns, frame, fresh}
use ru_c.Macro.Priority.{by_levels, computer_compare_priority-level}
use ru_c.Macro.Unbalanced.{reported}
use ru_c.Macro.Result.{evaluate_not}
use ru_c.Macro.Signs.{evaluate_prefixed_paren}
use ru_c.Macro.Termination.{calls-ne-stuck}
use ru_c.Macro.Steps.{Ensures}
use ru_c.Macro.Reports.{
  push_token, push_number, pop_result, ComputerCall, make_calls, HasReportedOnce,
  make_calls-HasReportedOnce,
}
use ru_c.Macro.Errors.{feed_second_number, evaluate_unclosed_bracket, evaluate_no_right_operand}

abbrev grant_all : ℕ → Bool
grant_all n = true

grant_all-Grants : Grants grant_all
grant_all-Grants n = refl

-- An allocator with no memory left.
abbrev grant_none : ℕ → Bool
grant_none n = false

program : Unit {0}
unfolding change_size vector_create vector_add vector_get vector_remove vector_size stack_create
    stack_push stack_pop stack_peek stack_size token_of_item cast_token spelling
    computer_token_to_string divide remainder shift_left shift_right select complement negation
    computer_error priority_case computer_compare_priority without_operand
    computer_token_without_number computer_select_three const_number_loop computer_const_number
    computer_create push_token_loop computer_push_token computer_push_number computer_push_const
    pop_result_loop computer_pop_result push_input feed evaluate print eval_prefixes eval c_value
program = tt

-- `2 + 3 * (10 - -4)`
abbrev nested : Expr
nested = binary 1 Token.add (operand [] 0 2) (
    binary 3 Token.mult (operand [] 2 3)
      (paren 4 (binary 6 Token.sub (operand [] 5 10) (operand ((7, minus) ∷ []) 8 4)) 9))

-- `7 - 2 - 1`
abbrev chain : Expr
chain = binary 3 Token.sub (binary 1 Token.sub (operand [] 0 7) (operand [] 2 2)) (operand [] 4 1)

abbrev start : Computer
start = computer_create grant_all true true "#eval"

nested_evaluates : Returns (evaluate grant_all (print nested) start) (λ r. r.1 ≡ 44)
unfolding program
nested_evaluates = (_, refl, refl)

chain_evaluates : Returns (evaluate grant_all (print chain) start) (λ r. r.1 ≡ 4)
unfolding program
chain_evaluates = (_, refl, refl)

-- `1 / 0` is undefined.
division_by_zero :
    evaluate grant_all (literal 0 1 ∷ token 1 Token.div ∷ literal 2 0 ∷ []) start ≡ Run.undefined
unfolding program
division_by_zero = refl

-- `0 && 1 / 0` is 0 in C, but the division is made.
abbrev left_tells : Expr
left_tells =
    binary 1 Token.and (operand [] 0 0) (binary 3 Token.div (operand [] 2 1) (operand [] 4 0))

no_short_circuit :
    (evaluate grant_all (print left_tells) start ≡ Run.undefined) × (c_value left_tells ≡ some 0)
unfolding program
no_short_circuit = (refl, refl)

-- Without memory the computer accepts nothing and reports nothing.
out_of_memory :
    Returns
      (evaluate grant_none (literal 0 1 ∷ []) (computer_create grant_none true true "#eval"))
      (λ r. (r.1 ≡ 0) × (r.0.reports ≡ []))
unfolding program
out_of_memory = (_, refl, (refl, refl))

computer_compare_priority-level_example :
    computer_compare_priority (code Token.sub) (code Token.mult) ≡ by_levels Token.sub Token.mult
computer_compare_priority-level_example =
    computer_compare_priority-level Token.sub Token.mult (omega arith) (omega arith)

calls-ne-stuck_example :
    (computer_push_token grant_all start 0 Token.l_bound ≢ stuck)
    × (computer_push_number grant_all start 0 65 ≢ stuck)
    × (computer_push_const grant_all start 0 65 "A" ≢ stuck)
    × (computer_pop_result grant_all start ≢ stuck)
calls-ne-stuck_example = calls-ne-stuck grant_all start 0 Token.l_bound 65 "A"

feed_second_number_example : Returns (feed grant_all (print chain ++ literal 5 9 ∷ []) start) (λ r.
    (r.1 ≡ negsuc 0)
    × (frame r.0 ≡ reported (fresh true true "#eval") 5 ErrorKind.expr_missing_binary (number 9)))
unfolding program
feed_second_number_example =
    feed_second_number grant_all grant_all-Grants true true "#eval" chain 4 5 9 [] (omega arith)
      refl (omega arith)

evaluate_unclosed_bracket_example :
    Returns (evaluate grant_all (token 9 Token.l_bound ∷ print chain) start) (λ r.
      (r.1 ≡ 0)
      × (frame r.0
          ≡ reported (fresh true true "#eval") 9 ErrorKind.expr_missing_bracket (character 41)))
unfolding program
evaluate_unclosed_bracket_example =
    evaluate_unclosed_bracket grant_all grant_all-Grants true true "#eval" chain 4 9 (omega arith)
      refl (omega arith)

evaluate_no_right_operand_example :
    Returns (evaluate grant_all (print chain ++ token 5 Token.add ∷ []) start) (λ r.
      (r.1 ≡ 0)
      × (frame r.0
          ≡ reported
              (fresh true true "#eval")
              5
              ErrorKind.expr_no_right_operand
              (text (spelling Token.add))))
unfolding program
evaluate_no_right_operand_example =
    evaluate_no_right_operand grant_all grant_all-Grants true true "#eval" chain 4 5 Token.add
      (omega arith) (omega arith) refl (omega arith)

evaluate_not_example :
    Returns
      (evaluate grant_all (print (operand ((0, exclaim) ∷ []) 1 5)) start)
      (λ r. (r.1 ≡ truth (not (5 == 0))) × (prefix_value exclaim 5 ≢ some r.1))
evaluate_not_example = evaluate_not grant_all grant_all-Grants true true "#eval" 0 1 5

evaluate_prefixed_paren_example :
    Returns
      (evaluate grant_all (token 9 (prefix_token minus) ∷ print (paren 10 chain 11)) start)
      (λ r. (r.1 ≡ item_max) × (frame r.0 ≡ fresh true true "#eval"))
unfolding program
evaluate_prefixed_paren_example =
    evaluate_prefixed_paren grant_all grant_all-Grants true true "#eval" minus 9 10 11 chain 4
      (omega arith) refl (omega arith)

-- Two operators, and on after the error.
abbrev broken : List ComputerCall
broken =
    push_number 0 1
    ∷ push_token 1 Token.mult
    ∷ push_token 2 Token.div
    ∷ push_number 3 2
    ∷ push_number 4 3
    ∷ pop_result
    ∷ []

broken_reports : Ensures (make_calls grant_all broken start) (λ comp. length comp.reports ≡ 1)
unfolding program make_calls
broken_reports = refl

make_calls-HasReportedOnce_example : Ensures (make_calls grant_all broken start) HasReportedOnce
make_calls-HasReportedOnce_example = make_calls-HasReportedOnce grant_all true "#eval" broken
