-- ===== src/Macro/Unbalanced.antt =====
-- The errors of the computer, and its last loop where a bracket is left open.
use ru_c.Prelude.{
  ℕ, zero, suc, ◌<◌, ◌≡◌, refl, ap, ◌∙◌, Bool, true, false, not, ◌&&◌, none, some, List, [], ◌∷◌,
  ◌++◌, ◌==◌, if◌then◌else◌, length, arith,
}
use ru_c.Utils.Item.{Item, Size, item_max}
use ru_c.Utils.Stack.{stack_pop}
use ru_c.Utils.Stack.Lifo.{Grants, stack_pop-Holds}
use ru_c.Macro.Token.{Token, code, Spelling, character}
use ru_c.Macro.Arith.{select}
use ru_c.Macro.Operators.{ErrorKind, Computer, computer_error, pop_operator}
use ru_c.Macro.Computer.{pop_result_loop}
use ru_c.Macro.Expression.{level}
use ru_c.Macro.Simulation.{Returns, Has, Frame, frame, previous-Has, pop_operator-Has}
use ru_c.Macro.Pending.{Waiting, on_operators, on_numbers, collapse, collapse_step, IsSorted}
use ru_c.Macro.Brackets.{result_round}
use ru_c.Macro.Simulation.{select-Has}

-- One error, at a position: it is reported if the location is correct, and breaks it.
abbrev pub reported : Frame → Item → ErrorKind → Spelling → Frame
reported fr at kind argument =
    let place = if fr.io_is_file && not (at == item_max) then some at else none in
    if fr.loc_correct
    then record fr {
      reports = fr.reports ++ (record { kind = kind; argument = argument; place = place } ∷ []);
      loc_correct = false;
    }
    else fr

pub frame-computer_error :
    (comp : Computer) (at : Item) (kind : ErrorKind) (argument : Spelling)
    → frame (computer_error comp at kind argument) ≡ reported (frame comp) at kind argument
unfolding computer_error
frame-computer_error comp at kind argument = ground arith

module _ (grant : ℕ → Bool) (grants : Grants grant) (fr : Frame) where
  pub pop_operator-place :
      (comp : Computer) (ns ops : List Item) (flag : Bool) (at : Size) (t : Token)
      → Has comp ns (code t ∷ at ∷ ops) flag fr
      → (pop_operator comp).2 ≡ at
  pop_operator-place comp ns ops flag at t h =
      let first = stack_pop-Holds comp.operators (code t) (at ∷ ops) h.operators in
      (stack_pop-Holds (stack_pop comp.operators).0 at ops first.0).1

  -- the end of the line inside a bracket
  pub result_unclosed :
      (ts : List Waiting) (fuel : ℕ) (comp : Computer) (b v : Item) (ns ops : List Item) (at : Size)
      → Has comp (b ∷ on_numbers ts ns) (on_operators ts (code Token.l_bound ∷ at ∷ ops)) true fr
      → (lo : ℕ) → IsSorted lo 10 ts
      → collapse b ts ≡ some v
      → length ts < fuel
      → Returns (pop_result_loop grant fuel comp) (λ r.
        (r.1 ≡ 0) × (frame r.0 ≡ reported fr at ErrorKind.expr_missing_bracket (character 41)))
  result_unclosed ts zero comp b v ns ops at h lo sorted e f = absurd (omega arith)
  result_unclosed [] (suc fuel) comp b v ns ops at h lo sorted e f =
      let popped = pop_operator-Has comp (b ∷ ns) ops true fr Token.l_bound at h in
      (
        (
          computer_error (pop_operator comp).0 (pop_operator comp).2 ErrorKind.expr_missing_bracket
              (character 41),
          0,
        ),
        unfold pop_result_loop in rw (previous-Has h),
        (
          refl,
          frame-computer_error (pop_operator comp).0 (pop_operator comp).2
                ErrorKind.expr_missing_bracket (character 41)
              ∙ ap
                  (λ f.
                    reported f (pop_operator comp).2 ErrorKind.expr_missing_bracket (character 41))
                  popped.0.kept
              ∙ ap (λ a. reported fr a ErrorKind.expr_missing_bracket (character 41))
                  (pop_operator-place comp (b ∷ ns) ops true at Token.l_bound h),
        ),
      )
  result_unclosed ((o, from, a) ∷ ts) (suc fuel) comp b v ns ops at h lo sorted e f =
      let (w, picked, rest) = collapse_step (select (some o) a b) ts v e in
      let below = on_operators ts (code Token.l_bound ∷ at ∷ ops) in
      let (r, run, has) =
        select-Has grant grants comp a b w (on_numbers ts ns) below true fr o from h picked in
      rw
        (
          result_round grant grants fr fuel comp (b ∷ a ∷ on_numbers ts ns) below from o h sorted.1,
          run,
        )
        (result_unclosed ts fuel r.0 w v ns ops at has (level o) sorted.2 rest (omega arith))
