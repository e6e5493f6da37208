-- ===== src/Macro/Simulation.antt =====
-- The steps of the computer, over the lists that its two stacks hold, last pushed first.
use ru_c.Prelude.{ℕ, ◌+◌, ◌≤◌, ◌≡◌, ap, Bool, some, List, [], ◌∷◌, length, arith}
use Prim.Native.String.{String}
use ru_c.Prelude.Int.{ℤ, pos, negsuc, pos_part}
use ru_c.Utils.Item.{Item, Size, size_max}
use ru_c.Utils.Stack.{stack_push, stack_pop, stack_peek, stack_size}
use ru_c.Utils.Stack.Lifo.{
  Holds, top, Grants, stack_push-Holds, stack_pop-Holds, stack_peek-Holds, stack_size-Holds,
}
use ru_c.Macro.Token.{Token, code, cast_token-code}
use ru_c.Macro.Arith.{Applied, select}
use ru_c.Macro.Operators.{
  Run, done, Report, Computer, pop_operator, push_operator, computer_select_three,
}
use ru_c.Macro.Computer.{computer_push_token}
use ru_c.Macro.Expression.{Input, token, push_input, feed}

-- A run that ends, with a result for which `P` holds.
abbrev pub Returns {ℓ κ} : {A : Type ℓ} → Run A → (A → Type κ) → Type (ℓ ⊔ κ)
Returns {A} r P = (a : A) × (r ≡ done a) × P a

-- The fields that a step without an error leaves alone.
pub record Frame : Type 0 where
  pub reports : List Report
  pub loc_correct : Bool
  pub io_is_file : Bool
  pub directive : String

abbrev pub frame : Computer → Frame
frame comp = record {
  reports = comp.reports;
  loc_correct = comp.loc_correct;
  io_is_file = comp.io_is_file;
  directive = comp.directive;
}

-- A new computer's.
abbrev pub fresh : Bool → Bool → String → Frame
fresh loc_correct io_is_file directive = record {
  reports = [];
  loc_correct = loc_correct;
  io_is_file = io_is_file;
  directive = directive;
}

-- The stacks hold `ns` and `ops`, and the other fields are `fr`.
pub record Has (comp : Computer) (ns ops : List Item) (flag : Bool) (fr : Frame) : Type 0 where
  pub numbers : Holds comp.numbers ns
  pub operators : Holds comp.operators ops
  pub was_number : comp.was_number ≡ flag
  pub kept : frame comp ≡ fr

module _ {comp : Computer} {ns ops : List Item} {flag : Bool} {fr : Frame} where
  pub previous-Has : Has comp ns ops flag fr → stack_peek comp.operators ≡ top ops
  previous-Has h = stack_peek-Holds comp.operators ops h.operators

  pub depth-Has : Has comp ns ops flag fr → stack_size comp.operators ≡ length ops
  depth-Has h = stack_size-Holds comp.operators ops h.operators

pub pop_operator-Has :
    (comp : Computer) (ns ops : List Item) (flag : Bool) (fr : Frame) (t : Token) (at : Size)
    → Has comp ns (code t ∷ at ∷ ops) flag fr
    → Has (pop_operator comp).0 ns ops flag fr × ((pop_operator comp).1 ≡ some t)
pop_operator-Has comp ns ops flag fr t at h =
    let first = stack_pop-Holds comp.operators (code t) (at ∷ ops) h.operators in
    let second = stack_pop-Holds (stack_pop comp.operators).0 at ops first.0 in
    (
      record {
        numbers = h.numbers;
        operators = second.0;
        was_number = h.was_number;
        kept = h.kept;
      },
      rw first.1 (cast_token-code t),
    )

module _ (grant : ℕ → Bool) (grants : Grants grant) where
  pub push_operator-Has :
      (comp : Computer) (ns ops : List Item) (flag : Bool) (fr : Frame) (at : Size) (t : Token)
      → Has comp ns ops flag fr
      → length ops + 2 ≤ size_max
      → Has (push_operator grant comp at t) ns (code t ∷ at ∷ ops) flag fr
  push_operator-Has comp ns ops flag fr at t h room =
      let first = stack_push-Holds grant grants comp.operators ops at h.operators (omega arith) in
      let second =
        stack_push-Holds grant grants (stack_push grant comp.operators at).0 (at ∷ ops) (code t)
          first.0 (omega arith) in
      record { numbers = h.numbers; operators = second.0; was_number = h.was_number; kept = h.kept }

  -- An operator that has a value on the two numbers on top takes their place.
  pub select-Has :
      (comp : Computer) (a b v : Item) (ns ops : List Item) (flag : Bool) (fr : Frame) (t : Token)
      (at : Size)
      → Has comp (b ∷ a ∷ ns) (code t ∷ at ∷ ops) flag fr
      → select (some t) a b ≡ Applied.value v
      → Returns (computer_select_three grant comp) (λ r. Has r.0 (v ∷ ns) ops flag fr)
  unfolding computer_select_three
  select-Has comp a b v ns ops flag fr t at h e =
      let popped = pop_operator-Has comp (b ∷ a ∷ ns) ops flag fr t at h in
      let second = stack_pop-Holds comp.numbers b (a ∷ ns) h.numbers in
      let first = stack_pop-Holds (stack_pop comp.numbers).0 a ns second.0 in
      let result = stack_push grant (stack_pop (stack_pop comp.numbers).0).0 v in
      let pushed =
        stack_push-Holds grant grants (stack_pop (stack_pop comp.numbers).0).0 ns v first.0
          (omega arith) in
      (
        (record (pop_operator comp).0 { numbers = result.0 }, result.1),
        rw (popped.1, second.1, first.1, e, computer_select_three),
        record {
          numbers = pushed.0;
          operators = popped.0.operators;
          was_number = h.was_number;
          kept = h.kept;
        },
      )

  pub feed_step :
      (i : Input) (is : List Input) (comp : Computer) (r : Computer × ℤ)
      → push_input grant i comp ≡ done r
      → r.1 ≡ pos 0
      → feed grant (i ∷ is) comp ≡ feed grant is r.0
  unfolding feed
  feed_step i is comp (c, pos ℕ.zero) e z = rw e
  feed_step i is comp (c, pos (ℕ.suc k)) e z = absurd (omega (arith, ap pos_part z))
  feed_step i is comp (c, negsuc k) e z = cc

  pub feed_token :
      (at : Size) (tk : Token) (is : List Input) (comp : Computer) (r : Computer × ℤ)
      → computer_push_token grant comp at tk ≡ done r
      → r.1 ≡ pos 0
      → feed grant (token at tk ∷ is) comp ≡ feed grant is r.0
  unfolding push_input
  feed_token at tk is comp r e z = feed_step (token at tk) is comp r e z
