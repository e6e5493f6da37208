-- ===== src/Macro/Operators.antt =====
-- The state of libs/macro/computer.c and its static functions. The operators stack holds, for each
-- operator that waits, a position and above it a token. Of the location only `loc_is_correct` is
-- kept: an error is reported where the location is correct, and breaks it; `loc_search_from` keeps it
-- correct. `reports` is what `macro_verror` was called with. `stuck` is no result of the code: a
-- loop ran out of fuel.
use Prim.Native.String.{String}
use ru_c.Prelude.{
  ℕ, zero, suc, ◌+◌, Bool, true, false, not, ◌&&◌, Option, none, some, List, [], ◌∷◌, ◌++◌, ltb,
  leb, ◌==◌, if◌then◌else◌,
}
use ru_c.Prelude.Int.{ℤ, pos, negsuc, ltb_ℤ}
use ru_c.Utils.Item.{Item, Size, item_max, to_int}
use ru_c.Utils.Vector.{Vector}
use ru_c.Utils.Stack.{stack_push, stack_pop, stack_peek, stack_size, stack_is_correct}
use ru_c.Macro.Token.{
  Token, code, token_of_item, cast_token, Spelling, character, computer_token_to_string,
}
use ru_c.Macro.Arith.{Applied, select, truth, complement, negation}

pub data Run {ℓ} (A : Type ℓ) : Type ℓ where
  done : A → Run A
  undefined : Run A
  stuck : Run A

infixl 5 ◌>>=◌
abbrev pub ◌>>=◌ {ℓ κ} : {A : Type ℓ} {B : Type κ} → Run A → (A → Run B) → Run B
done a >>= f = f a
undefined >>= f = undefined
stuck >>= f = stuck

-- The codes of libs/macro/error.h that the computer uses.
pub data ErrorKind : Type 0 where
  expr_missing_between expr_missing_bracket expr_no_right_operand expr_no_left_operand : ErrorKind
  expr_missing_binary directive_no_expression : ErrorKind

-- `place` is the position that `loc_search_from` was called at, if it was.
pub record Report : Type 0 where
  pub kind : ErrorKind
  pub argument : Spelling
  pub place : Option Size

-- `loc_correct` is `loc_is_correct(&comp->loc)`, and `io_is_file` is `in_is_file(comp->io)`.
pub record Computer : Type 0 where
  pub numbers : Vector
  pub operators : Vector
  pub loc_correct : Bool
  pub io_is_file : Bool
  pub directive : String
  pub was_number : Bool
  pub reports : List Report

unfoldable pub computer_error : Computer → Item → ErrorKind → Spelling → Computer
computer_error comp at kind argument =
    let place = if comp.io_is_file && not (at == item_max) then some at else none in
    if comp.loc_correct
    then record comp {
      reports = comp.reports ++ (record { kind = kind; argument = argument; place = place } ∷ []);
      loc_correct = false;
    }
    else comp

abbrev pub computer_is_correct : Computer → Bool
computer_is_correct comp = stack_is_correct comp.numbers && stack_is_correct comp.operators

-- The two pops that take a token and its position off.
abbrev pub pop_operator : Computer → Computer × Option Token × Item
pop_operator comp =
    let (ops, op) = stack_pop comp.operators in
    let (ops', at) = stack_pop ops in (record comp { operators = ops' }, cast_token op, at)

-- `TK_MOD < snd ? 1 : TK_MULT <= snd ? 0 : -1`, for a group from `lo` to `hi`
abbrev pub against : Item → Item → Item → ℤ
against lo hi snd = if ltb hi snd then pos 1 else if leb lo snd then pos 0 else negsuc 0

-- The `default` case.
abbrev pub against_one : Item → Item → ℤ
against_one fst snd =
    if ltb_ℤ (to_int fst) (to_int snd) then pos 1 else if fst == snd then pos 0 else negsuc 0

-- The `switch` on the first operator.
unfoldable pub priority_case : Option Token → Item → Item → ℤ
priority_case (some Token.l_bound) fst snd = negsuc 0
priority_case (some Token.mult) fst snd = against (code Token.mult) (code Token.rem) snd
priority_case (some Token.div) fst snd = against (code Token.mult) (code Token.rem) snd
priority_case (some Token.rem) fst snd = against (code Token.mult) (code Token.rem) snd
priority_case (some Token.add) fst snd = against (code Token.add) (code Token.sub) snd
priority_case (some Token.sub) fst snd = against (code Token.add) (code Token.sub) snd
priority_case (some Token.l_shift) fst snd = against (code Token.l_shift) (code Token.r_shift) snd
priority_case (some Token.r_shift) fst snd = against (code Token.l_shift) (code Token.r_shift) snd
priority_case (some Token.less) fst snd = against (code Token.less) (code Token.greater_eq) snd
priority_case (some Token.greater) fst snd = against (code Token.less) (code Token.greater_eq) snd
priority_case (some Token.less_eq) fst snd = against (code Token.less) (code Token.greater_eq) snd
priority_case (some Token.greater_eq) fst snd =
    against (code Token.less) (code Token.greater_eq) snd
priority_case (some Token.eq) fst snd = against (code Token.eq) (code Token.not_eq) snd
priority_case (some Token.not_eq) fst snd = against (code Token.eq) (code Token.not_eq) snd
priority_case _ fst snd = if fst == item_max then negsuc 0 else against_one fst snd

unfoldable pub computer_compare_priority : Item → Item → ℤ
computer_compare_priority fst snd =
    if snd == code Token.r_bound then pos 1 else priority_case (token_of_item fst) fst snd

module _ (grant : ℕ → Bool) where
  -- Pushes a position and a token.
  abbrev pub push_operator : Computer → Size → Token → Computer
  push_operator comp at tk = record comp {
    operators = (stack_push grant (stack_push grant comp.operators at).0 (code tk)).0;
  }

  -- The `default` case of `computer_token_without_number`.
  unfoldable pub without_operand : Computer → Item → Token → Computer × ℤ
  without_operand comp at tk =
      let previous = stack_peek comp.operators in
      if not (previous == code Token.l_bound) && not (previous == item_max)
      then (let (comp', op, where_op) = pop_operator comp in
          (
            computer_error comp' where_op ErrorKind.expr_no_right_operand
                (computer_token_to_string op),
            negsuc 0,
          ))
      else (
        computer_error comp at ErrorKind.expr_no_left_operand (computer_token_to_string (some tk)),
        negsuc 0,
      )

  unfoldable pub computer_token_without_number : Computer → Item → Token → Computer × ℤ
  computer_token_without_number comp at Token.l_bound = (push_operator comp at Token.l_bound, pos 0)
  computer_token_without_number comp at Token.compl = (push_operator comp at Token.compl, pos 0)
  computer_token_without_number comp at Token.not = (push_operator comp at Token.not, pos 0)
  computer_token_without_number comp at Token.add = (push_operator comp at Token.u_plus, pos 0)
  computer_token_without_number comp at Token.sub = (push_operator comp at Token.u_negation, pos 0)
  computer_token_without_number comp at Token.r_bound =
      let previous = stack_peek comp.operators in
      if previous == code Token.l_bound
      then (computer_error comp at ErrorKind.expr_missing_between Spelling.unset, negsuc 0)
      else (if previous == item_max
          then (computer_error comp at ErrorKind.expr_missing_bracket (character 40), negsuc 0)
          else without_operand comp at Token.r_bound)
  computer_token_without_number comp at tk = without_operand comp at tk

  unfoldable pub computer_select_three : Computer → Run (Computer × ℤ)
  computer_select_three comp =
      let (comp', op, at) = pop_operator comp in
      let (ns, second) = stack_pop comp.numbers in
      let (ns', first) = stack_pop ns in
      elim (select op first second) [
        | Applied.value v ↦
            let (ns'', result) = stack_push grant ns' v in
            done (record comp' { numbers = ns'' }, result)
        | Applied.undefined ↦ undefined
        | Applied.no_operator ↦ done (record comp' { numbers = ns' }, negsuc 0)
      ]

  -- The loop of `computer_const_number`, with fuel for the operators that it pops.
  unfoldable pub const_number_loop : ℕ → Computer → Item → Run (Computer × ℤ)
  const_number_loop zero comp num = stuck
  const_number_loop (suc fuel) comp num =
      let popped = (pop_operator comp).0 in
      elim (token_of_item (stack_peek comp.operators)) [
        | some Token.compl ↦ const_number_loop fuel popped (complement num)
        | some Token.not ↦ const_number_loop fuel popped (truth (not (num == 0)))
        | some Token.u_negation ↦ elim (negation num) [
          | none ↦ undefined
          | some n ↦ const_number_loop fuel popped n
        ]
        | some Token.u_plus ↦ const_number_loop fuel popped num
        | _ ↦
            let (ns, result) = stack_push grant comp.numbers num in
            done (record comp { numbers = ns }, result)
      ]

  unfoldable pub computer_const_number : Computer → Item → Item → Spelling → Run (Computer × ℤ)
  computer_const_number comp at num name =
      if comp.was_number
      then done (computer_error comp at ErrorKind.expr_missing_binary name, negsuc 0)
      else const_number_loop (stack_size comp.operators + 1) (record comp { was_number = true }) num
