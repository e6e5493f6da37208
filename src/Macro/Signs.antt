-- ===== src/Macro/Signs.antt =====
-- A unary operator before a bracket: `computer_const_number` applies unary operators to numbers
-- alone, and nothing applies one that stands before a bracket.
use ru_c.Prelude.{
  ℕ, suc, ◌+◌, ◌^◌, ◌<◌, ◌≡◌, refl, sym, ap, ◌∙◌, Bool, true, false, some, [], ◌∷◌, ◌==◌,
  append-nil, arith,
}
use Prim.Native.String.{String}
use ru_c.Prelude.Int.{pos, negsuc}
use ru_c.Utils.Item.{Item, Size, item_max}
use ru_c.Utils.Stack.{stack_size, stack_pop}
use ru_c.Utils.Stack.Lifo.{Grants, stack_pop-Holds, stack_pop_empty, stack_size-Holds}
use ru_c.Macro.Token.{Token, code}
use ru_c.Macro.Arith.{Applied, select}
use ru_c.Macro.Operators.{done, Computer, pop_operator, push_operator, computer_select_three}
use ru_c.Macro.Computer.{computer_create, pop_result_loop, computer_pop_result}
use ru_c.Macro.Expression.{
  Prefix, plus, minus, tilde, exclaim, token, prefix_token, Expr, paren, print, IsLevel,
  prefix_computed, eval, feed, evaluate,
}
use ru_c.Macro.Simulation.{
  Frame, frame, Returns, Has, fresh, depth-Has, previous-Has, pop_operator-Has, push_operator-Has,
}
use ru_c.Macro.Pending.{opened, correct-Has}
use ru_c.Macro.Operand.{unary, feed_prefixes}
use ru_c.Macro.Correct.{weight, feed_expr, feed_paren}
use ru_c.Macro.Result.{create-Has, pop_result_start}

select-unary : (p : Prefix) (a b : Item) → select (some (unary p)) a b ≡ Applied.no_operator
unfolding select
select-unary plus a b = refl
select-unary minus a b = refl
select-unary tilde a b = refl
select-unary exclaim a b = refl

unary_mark :
    (p : Prefix)
    → ((code (unary p) == item_max) ≡ false) × ((code (unary p) == code Token.l_bound) ≡ false)
unary_mark plus = (refl, refl)
unary_mark minus = (refl, refl)
unary_mark tilde = (refl, refl)
unary_mark exclaim = (refl, refl)

module _ (grant : ℕ → Bool) (grants : Grants grant) (fr : Frame) where
  -- With one number left, `computer_select_three` on a unary operator drops both.
  select_drops :
      (comp : Computer) (v : Item) (p : Prefix) (at : Size)
      → Has comp (v ∷ []) (code (unary p) ∷ at ∷ []) true fr
      → Returns (computer_select_three grant comp) (λ r. Has r.0 [] [] true fr)
  unfolding computer_select_three
  select_drops comp v p at h =
      let popped = pop_operator-Has comp (v ∷ []) [] true fr (unary p) at h in
      let second = stack_pop-Holds comp.numbers v [] h.numbers in
      let first = stack_pop_empty (stack_pop comp.numbers).0 second.0 in
      (
        (
          record (pop_operator comp).0 { numbers = (stack_pop (stack_pop comp.numbers).0).0 },
          negsuc 0,
        ),
        rw (
          popped.1,
          select-unary p (stack_pop (stack_pop comp.numbers).0).1 (stack_pop comp.numbers).1,
          computer_select_three,
        ),
        record {
          numbers = rw first second.0;
          operators = popped.0.operators;
          was_number = h.was_number;
          kept = h.kept;
        },
      )

  pop_result_loop_drops :
      (fuel : ℕ) (comp : Computer) (v : Item) (p : Prefix) (at : Size)
      → Has comp (v ∷ []) (code (unary p) ∷ at ∷ []) true fr
      → Returns
          (pop_result_loop grant (suc (suc fuel)) comp)
          (λ r. (r.1 ≡ item_max) × (frame r.0 ≡ fr))
  unfolding pop_result_loop
  pop_result_loop_drops fuel comp v p at h =
      let (r, run, has) = select_drops comp v p at h in
      let (bottom, bracket) = unary_mark p in
      let empty = stack_pop_empty r.0.numbers has.numbers in
      (
        (record r.0 { numbers = (stack_pop r.0.numbers).0 }, (stack_pop r.0.numbers).1),
        rw (previous-Has h, bottom, bracket, run, previous-Has has),
        (rw empty, has.kept),
      )

  pop_result_drops :
      (comp : Computer) (v : Item) (p : Prefix) (at : Size)
      → Has comp (v ∷ []) (code (unary p) ∷ at ∷ []) true fr
      → Returns (computer_pop_result grant comp) (λ r. (r.1 ≡ item_max) × (frame r.0 ≡ fr))
  pop_result_drops comp v p at h =
      let (r, run, result) = pop_result_loop_drops 1 comp v p at h in
      let start =
        pop_result_start grant comp 0
          (correct-Has grant grants fr comp (v ∷ []) (code (unary p) ∷ at ∷ []) true h)
          (stack_size-Holds comp.numbers (v ∷ []) h.numbers) h.was_number in
      let fuel : stack_size comp.operators + 1 ≡ 3 = omega (arith, depth-Has h) in
      (r, start ∙ ap (λ n. pop_result_loop grant n comp) fuel ∙ run, result)

module _ (grant : ℕ → Bool) (grants : Grants grant) where
  -- Where the allocator grants what it is asked for, and an expression of the grammar has a value
  -- as the computer takes its unary operators and fewer than 2 ^ 58 inputs: a line of a unary
  -- operator and the expression in brackets is worth ITEM_MAX, whatever the value is, and no error
  -- is reported.
  pub evaluate_prefixed_paren :
      (loc_correct io_is_file : Bool) (directive : String) (p : Prefix) (at from to : Size)
      (e : Expr) (v : Item)
      → IsLevel 10 e
      → eval prefix_computed e ≡ some v
      → weight e < 2 ^ 58
      → Returns
          (evaluate grant
            (token at (prefix_token p) ∷ print (paren from e to))
            (computer_create grant loc_correct io_is_file directive))
          (λ r. (r.1 ≡ item_max) × (frame r.0 ≡ fresh loc_correct io_is_file directive))
  unfolding evaluate
  evaluate_prefixed_paren loc_correct io_is_file directive p at from to e v lv ev room =
      let comp = computer_create grant loc_correct io_is_file directive in
      let (c, has, run) =
        feed_prefixes grant grants (fresh loc_correct io_is_file directive) ((at, p) ∷ [])
          (print (paren from e to)) comp [] []
          (create-Has grant grants loc_correct io_is_file directive) (omega arith) in
      let opened_Has =
        push_operator-Has grant grants c [] (code (unary p) ∷ at ∷ []) false
          (fresh loc_correct io_is_file directive) from Token.l_bound has (omega arith) in
      let (d, read, run_e) =
        feed_expr grant grants (fresh loc_correct io_is_file directive) e 10
          (token to Token.r_bound ∷ []) (push_operator grant c from Token.l_bound) v []
          (code Token.l_bound ∷ from ∷ code (unary p) ∷ at ∷ []) opened_Has lv (omega arith)
          (opened (from ∷ code (unary p) ∷ at ∷ []) refl) ev (omega arith) (omega arith) in
      let (c', has', run_paren) =
        feed_paren grant grants (fresh loc_correct io_is_file directive) e from to [] c v []
          (code (unary p) ∷ at ∷ []) d has read run_e in
      let (r, popped, result) =
        pop_result_drops grant grants (fresh loc_correct io_is_file directive) c' v p at has' in
      let whole : feed grant (token at (prefix_token p) ∷ print (paren from e to)) comp
          ≡ done (c', pos 0) =
        run
        ∙ ap (λ is. feed grant is c) (sym (append-nil (print (paren from e to))))
        ∙ run_paren
        ∙ unfold feed in refl in
      (r, rw (whole, popped) refl, result)
