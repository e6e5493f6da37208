-- ===== src/Macro/Result.antt =====
-- What a line of `#if`, `#while` or `#eval` is worth.
use ru_c.Prelude.{
  ℕ, suc, ◌+◌, ◌*◌, ◌≤◌, ◌≡◌, ◌≢◌, refl, sym, ap, ◌∙◌, Bool, true, false, not, some, List, [], ◌∷◌,
  append-nil, ◌==◌, arith,
}
use Prim.Native.String.{String}
use ru_c.Prelude.Int.{pos}
use ru_c.Utils.Item.{Item, Size, size_max}
use ru_c.Utils.Stack.{stack_size}
use ru_c.Utils.Stack.Lifo.{Grants, stack_create-Holds, stack_size-Holds}
use ru_c.Macro.Token.{Token}
use ru_c.Macro.Arith.{truth}
use ru_c.Macro.Operators.{done, Computer, computer_is_correct}
use ru_c.Macro.Computer.{computer_create, pop_result_loop, computer_pop_result}
use ru_c.Macro.Expression.{
  Prefix, exclaim, Expr, operand, paren, binary, print, IsLevel, prefix_value, prefix_computed,
  eval_prefixes, eval, feed, evaluate,
}
use ru_c.Macro.Simulation.{Frame, frame, Returns, Has, fresh, depth-Has}
use ru_c.Macro.Pending.{bottom, correct-Has}
use ru_c.Macro.Brackets.{pop_result_loop_returns}
use ru_c.Macro.Correct.{HasRead, weight, length-on_operators, feed_expr}

-- No operand of the expression has the operator `!`.
abbrev pub HasNoNot : List (Size × Prefix) → Type 0
HasNoNot [] = Unit {0}
HasNoNot ((at, exclaim) ∷ ps) = ⊥
HasNoNot ((at, _) ∷ ps) = HasNoNot ps

abbrev pub IsWithoutNot : Expr → Type 0
IsWithoutNot (operand ps at num) = HasNoNot ps
IsWithoutNot (paren from e to) = IsWithoutNot e
IsWithoutNot (binary at op l r) = IsWithoutNot l × IsWithoutNot r

pub pop_result_start :
    (grant : ℕ → Bool) (comp : Computer) (n : ℕ)
    → computer_is_correct comp ≡ true
    → stack_size comp.numbers ≡ suc n
    → comp.was_number ≡ true
    → computer_pop_result grant comp ≡ pop_result_loop grant (stack_size comp.operators + 1) comp
unfolding computer_pop_result
pop_result_start grant comp n correct size flag = ground arith

module _ (grant : ℕ → Bool) (grants : Grants grant) where
  pub create-Has :
      (loc_correct io_is_file : Bool) (directive : String)
      → Has
          (computer_create grant loc_correct io_is_file directive)
          []
          []
          false
          (fresh loc_correct io_is_file directive)
  unfolding computer_create
  create-Has loc_correct io_is_file directive = record {
    numbers = stack_create-Holds grant grants 64;
    operators = stack_create-Holds grant grants 64;
    was_number = refl;
    kept = refl;
  }

  pop_result-Has :
      (c : Computer) (v : Item) (fr : Frame)
      → HasRead c 10 v [] [] fr
      → Returns (computer_pop_result grant c) (λ r. (r.1 ≡ v) × (frame r.0 ≡ fr))
  pop_result-Has c v fr d =
      let (r, run, result) =
        pop_result_loop_returns grant grants fr d.chain (stack_size c.operators + 1) c d.last v
          d.has 0 d.sorted d.value
          (omega (arith, depth-Has d.has, length-on_operators d.chain [])) in
      (
        r,
        pop_result_start grant c _ (correct-Has grant grants fr c _ _ true d.has)
              (stack_size-Holds c.numbers _ d.has.numbers) d.has.was_number
            ∙ run,
        result,
      )

  evaluate_computed :
      (loc_correct io_is_file : Bool) (directive : String) (e : Expr) (v : Item)
      → IsLevel 10 e
      → eval prefix_computed e ≡ some v
      → 2 * weight e ≤ size_max
      → Returns
          (evaluate grant (print e) (computer_create grant loc_correct io_is_file directive))
          (λ r. (r.1 ≡ v) × (frame r.0 ≡ fresh loc_correct io_is_file directive))
  unfolding evaluate
  evaluate_computed loc_correct io_is_file directive e v lv ev room =
      let comp = computer_create grant loc_correct io_is_file directive in
      let (c, d, run) =
        feed_expr grant grants (fresh loc_correct io_is_file directive) e 10 [] comp v [] []
          (create-Has loc_correct io_is_file directive) lv (omega arith) (bottom refl) ev
          (omega arith) (omega arith) in
      let whole : feed grant (print e) comp ≡ done (c, pos 0) =
        ap (λ is. feed grant is comp) (sym (append-nil (print e))) ∙ run ∙ unfold feed in refl in
      let (r, popped, result) = pop_result-Has c v (fresh loc_correct io_is_file directive) d in
      (r, rw (whole, popped) refl, result)

  -- Where the allocator grants what it is asked for: `!` before a number keeps its truth value. A
  -- line of `!` and a number is worth 1 if the number is not 0, and else 0, which is not its value
  -- in C.
  pub evaluate_not :
      (loc_correct io_is_file : Bool) (directive : String) (from at : Size) (num : Item)
      → Returns
          (evaluate grant
            (print (operand ((from, exclaim) ∷ []) at num))
            (computer_create grant loc_correct io_is_file directive))
          (λ r. (r.1 ≡ truth (not (num == 0))) × (prefix_value exclaim num ≢ some r.1))
  unfolding eval eval_prefixes
  evaluate_not loc_correct io_is_file directive from at num =
      let (r, run, result) =
        evaluate_computed loc_correct io_is_file directive (operand ((from, exclaim) ∷ []) at num) _
          tt refl (omega arith) in
      (r, run, (result.0, ground arith))
