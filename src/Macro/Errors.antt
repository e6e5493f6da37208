-- ===== src/Macro/Errors.antt =====
-- What the computer reports on lines that are no expression.
use ru_c.Prelude.{
  ℕ, suc, ◌+◌, ◌*◌, ◌^◌, ◌≤◌, ◌<◌, ◌≡◌, refl, sym, ap, ◌∙◌, Bool, true, false, some, List, [], ◌∷◌,
  ◌++◌, append-nil, arith,
}
use Prim.Native.String.{String}
use ru_c.Prelude.Int.{pos, negsuc}
use ru_c.Utils.Item.{Item, Size, size_max}
use ru_c.Utils.Stack.{stack_size}
use ru_c.Utils.Stack.Lifo.{Grants, stack_size-Holds}
use ru_c.Macro.Token.{Token, code, text, character, number, spelling, computer_token_to_string}
use ru_c.Macro.Operators.{
  done, ErrorKind, Computer, computer_error, computer_is_correct, pop_operator, push_operator,
  computer_const_number,
}
use ru_c.Macro.Computer.{computer_create, computer_push_number, computer_pop_result}
use ru_c.Macro.Expression.{
  Input, token, literal, Expr, print, level, IsLevel, prefix_computed, eval, push_input, feed,
  evaluate,
}
use ru_c.Macro.Simulation.{
  Returns, frame, fresh, depth-Has, pop_operator-Has, push_operator-Has, feed_token,
}
use ru_c.Macro.Pending.{bottom, opened, correct-Has}
use ru_c.Macro.Correct.{HasRead, weight, length-on_operators, feed_expr, push_binary, push_open}
use ru_c.Macro.Unbalanced.{reported, frame-computer_error, pop_operator-place, result_unclosed}
use ru_c.Macro.Result.{create-Has, pop_result_start}

feed_failed :
    (grant : ℕ → Bool) (i : Input) (is : List Input) (comp c : Computer)
    → push_input grant i comp ≡ done (c, negsuc 0)
    → feed grant (i ∷ is) comp ≡ done (c, negsuc 0)
unfolding feed
feed_failed grant i is comp c e = rw e

module _ (grant : ℕ → Bool) (grants : Grants grant) (loc_correct io_is_file : Bool)
    (directive : String) where
  read_expr :
      (e : Expr) (v : Item) (rest : List Input)
      → IsLevel 10 e
      → eval prefix_computed e ≡ some v
      → 2 * weight e ≤ size_max
      → (c : Computer) × HasRead c 10 v [] [] (fresh loc_correct io_is_file directive)
        × (feed grant (print e ++ rest) (computer_create grant loc_correct io_is_file directive)
            ≡ feed grant rest c)
  read_expr e v rest lv ev room =
      feed_expr grant grants (fresh loc_correct io_is_file directive) e 10 rest
        (computer_create grant loc_correct io_is_file directive) v [] []
        (create-Has grant grants loc_correct io_is_file directive) lv (omega arith) (bottom refl) ev
        (omega arith) (omega arith)

  -- Where the allocator grants what it is asked for, and an expression of the grammar has a value
  -- as the computer takes its unary operators and fewer than 2 ^ 58 inputs: a number behind the
  -- expression is refused with `EXPR_MISSING_BINARY` and its digits at the number, and nothing else
  -- is reported, whatever follows. The report is made where the location of the computer is
  -- correct.
  pub feed_second_number :
      (e : Expr) (v : Item) (at : Size) (num : Item) (rest : List Input)
      → IsLevel 10 e
      → eval prefix_computed e ≡ some v
      → weight e < 2 ^ 58
      → Returns
          (feed grant
            (print e ++ literal at num ∷ rest)
            (computer_create grant loc_correct io_is_file directive))
          (λ r.
            (r.1 ≡ negsuc 0)
            × (frame r.0
                ≡ reported
                    (fresh loc_correct io_is_file directive)
                    at
                    ErrorKind.expr_missing_binary
                    (number num)))
  feed_second_number e v at num rest lv ev room =
      let fr = fresh loc_correct io_is_file directive in
      let (c, d, run) = read_expr e v (literal at num ∷ rest) lv ev (omega arith) in
      let failed : push_input grant (literal at num) c
          ≡ done (computer_error c at ErrorKind.expr_missing_binary (number num), negsuc 0) =
        unfold push_input computer_push_number computer_const_number in
        rw (correct-Has grant grants fr c _ _ true d.has, d.has.was_number) in
      (
        (computer_error c at ErrorKind.expr_missing_binary (number num), negsuc 0),
        run ∙ feed_failed grant (literal at num) rest c _ failed,
        (
          refl,
          frame-computer_error c at ErrorKind.expr_missing_binary (number num)
              ∙ ap (λ f. reported f at ErrorKind.expr_missing_binary (number num)) d.has.kept,
        ),
      )

pop_result_incomplete :
    (grant : ℕ → Bool) (comp : Computer) (n : ℕ)
    → computer_is_correct comp ≡ true
    → stack_size comp.numbers ≡ suc n
    → comp.was_number ≡ false
    → computer_pop_result grant comp
      ≡ done (
        computer_error
            (pop_operator comp).0
            (pop_operator comp).2
            ErrorKind.expr_no_right_operand
            (computer_token_to_string (pop_operator comp).1),
        0,
      )
unfolding computer_pop_result
pop_result_incomplete grant comp n correct size flag = ground arith

module _ (grant : ℕ → Bool) (grants : Grants grant) (loc_correct io_is_file : Bool)
    (directive : String) where
  -- Where the allocator grants what it is asked for, and an expression of the grammar has a value
  -- as the computer takes its unary operators and fewer than 2 ^ 58 inputs: a line of `(` and the
  -- expression is worth 0, and `EXPR_MISSING_BRACKET` is reported at the `(` and nothing else. The
  -- report is made where the location of the computer is correct.
  pub evaluate_unclosed_bracket :
      (e : Expr) (v : Item) (at : Size)
      → IsLevel 10 e
      → eval prefix_computed e ≡ some v
      → weight e < 2 ^ 58
      → Returns
          (evaluate grant
            (token at Token.l_bound ∷ print e)
            (computer_create grant loc_correct io_is_file directive))
          (λ r.
            (r.1 ≡ 0)
            × (frame r.0
                ≡ reported
                    (fresh loc_correct io_is_file directive)
                    at
                    ErrorKind.expr_missing_bracket
                    (character 41)))
  unfolding evaluate
  evaluate_unclosed_bracket e v at lv ev room =
      let fr = fresh loc_correct io_is_file directive in
      let comp = computer_create grant loc_correct io_is_file directive in
      let start = create-Has grant grants loc_correct io_is_file directive in
      let inside =
        push_operator-Has grant grants comp [] [] false fr at Token.l_bound start (omega arith) in
      let (c, d, run) =
        feed_expr grant grants fr e 10 [] (push_operator grant comp at Token.l_bound) v []
          (code Token.l_bound ∷ at ∷ []) inside lv (omega arith) (opened (at ∷ []) refl) ev
          (omega arith) (omega arith) in
      let whole : feed grant (token at Token.l_bound ∷ print e) comp ≡ done (c, pos 0) =
        feed_token grant grants at Token.l_bound (print e) comp
          (push_operator grant comp at Token.l_bound, pos 0)
          (push_open grant grants fr comp [] [] at start) refl
        ∙ ap (λ is. feed grant is (push_operator grant comp at Token.l_bound))
            (sym (append-nil (print e)))
        ∙ run
        ∙ unfold feed in refl in
      let (r, looped, result) =
        result_unclosed grant grants fr d.chain (stack_size c.operators + 1) c d.last v [] [] at
          d.has 0 d.sorted d.value
          (omega
            (arith, depth-Has d.has, length-on_operators d.chain (code Token.l_bound ∷ at ∷ []))) in
      let popped =
        pop_result_start grant c _ (correct-Has grant grants fr c _ _ true d.has)
          (stack_size-Holds c.numbers _ d.has.numbers) d.has.was_number
        ∙ looped in
      (r, rw (whole, popped) refl, result)

  -- Where the allocator grants what it is asked for, and an expression of the grammar has a value
  -- as the computer takes its unary operators and fewer than 2 ^ 58 inputs: a line of the
  -- expression, of the level of a binary operator, and of that operator is worth 0, and
  -- `EXPR_NO_RIGHT_OPERAND` is reported with the spelling of the operator at its position, and
  -- nothing else. The report is made where the location of the computer is correct.
  pub evaluate_no_right_operand :
      (e : Expr) (v : Item) (at : Size) (op : Token)
      → level op ≤ 10
      → IsLevel (level op) e
      → eval prefix_computed e ≡ some v
      → weight e < 2 ^ 58
      → Returns
          (evaluate grant
            (print e ++ token at op ∷ [])
            (computer_create grant loc_correct io_is_file directive))
          (λ r.
            (r.1 ≡ 0)
            × (frame r.0
                ≡ reported
                    (fresh loc_correct io_is_file directive)
                    at
                    ErrorKind.expr_no_right_operand
                    (text (spelling op))))
  unfolding evaluate
  evaluate_no_right_operand e v at op ho lv ev room =
      let fr = fresh loc_correct io_is_file directive in
      let comp = computer_create grant loc_correct io_is_file directive in
      let (c, d, run) =
        feed_expr grant grants fr e (level op) (token at op ∷ []) comp v [] []
          (create-Has grant grants loc_correct io_is_file directive) lv ho (bottom refl) ev
          (omega arith) (omega arith) in
      let (p, pushed, (zero_code, has)) =
        push_binary grant grants fr c v [] [] at op d ho (bottom refl) (omega arith) in
      let whole : feed grant (print e ++ token at op ∷ []) comp ≡ done (p.0, pos 0) =
        run ∙ feed_token grant grants at op [] c p pushed zero_code ∙ unfold feed in refl in
      let popped = pop_operator-Has p.0 (v ∷ []) [] false fr op at has in
      let place = pop_operator-place grant grants fr p.0 (v ∷ []) [] false at op has in
      let ended =
        pop_result_incomplete grant p.0 0
          (correct-Has grant grants fr p.0 (v ∷ []) (code op ∷ at ∷ []) false has)
          (stack_size-Holds p.0.numbers (v ∷ []) has.numbers) has.was_number in
      (
        (
          computer_error (pop_operator p.0).0 (pop_operator p.0).2 ErrorKind.expr_no_right_operand
              (computer_token_to_string (pop_operator p.0).1),
          0,
        ),
        rw (whole, ended) refl,
        (
          refl,
          frame-computer_error (pop_operator p.0).0 (pop_operator p.0).2
                ErrorKind.expr_no_right_operand (computer_token_to_string (pop_operator p.0).1)
              ∙ ap
                  (λ f.
                    reported f (pop_operator p.0).2 ErrorKind.expr_no_right_operand
                      (computer_token_to_string (pop_operator p.0).1))
                  popped.0.kept
              ∙ ap
                  (λ a.
                    reported fr a ErrorKind.expr_no_right_operand
                      (computer_token_to_string (pop_operator p.0).1))
                  place
              ∙ ap
                  (λ o. reported fr at ErrorKind.expr_no_right_operand (computer_token_to_string o))
                  popped.1
              ∙ unfold computer_token_to_string in refl,
        ),
      )
