-- ===== src/Macro/Pending.antt =====
-- The operators that wait, and the loops of the computer that reduce them.
use ru_c.Prelude.{
  ℕ, zero, suc, and_false, Bool-cases, lt→ltb, ◌+◌, ◌≤◌, ◌<◌, ◌≡◌, refl, ap, ◌∙◌, inl, inr, Bool,
  true, false, Option, none, some, List, [], ◌∷◌, ltb, ◌==◌, if◌then◌else◌, length, arith,
}
use ru_c.Prelude.Int.{ℤ, pos, negsuc}
use ru_c.Utils.Item.{Item, Size, size_max}
use ru_c.Utils.Stack.Lifo.{top, Grants, stack_is_correct-Holds}
use ru_c.Macro.Token.{Token, code, token_of_item}
use ru_c.Macro.Arith.{Applied, select}
use ru_c.Macro.Operators.{
  done, ◌>>=◌, Computer, computer_is_correct, computer_select_three, computer_compare_priority,
  priority_case,
}
use ru_c.Macro.Computer.{push_behind, push_token_loop}
use ru_c.Macro.Expression.{level}
use ru_c.Macro.Simulation.{Frame, Returns, Has, previous-Has, push_operator-Has, select-Has}
use ru_c.Macro.Priority.{by_levels, computer_compare_priority-level, is_opening-level}

-- A binary operator that waits for its right operand: the operator, its position, its left operand.
abbrev pub Waiting : Type 0
Waiting = Token × Size × Item

-- What the operators that wait, the last one first, add to the two stacks.
abbrev pub on_operators : List Waiting → List Item → List Item
on_operators [] ops = ops
on_operators ((o, at, a) ∷ ts) ops = code o ∷ at ∷ on_operators ts ops

abbrev pub on_numbers : List Waiting → List Item → List Item
on_numbers [] ns = ns
on_numbers ((o, at, a) ∷ ts) ns = a ∷ on_numbers ts ns

abbrev pub applied : Applied → Option Item
applied (Applied.value v) = some v
applied Applied.undefined = none
applied Applied.no_operator = none

-- The number that they leave, given the right operand of the last one.
abbrev pub collapse : Item → List Waiting → Option Item
collapse b [] = some b
collapse b ((o, at, a) ∷ ts) = elim (select (some o) a b) [
  | Applied.value w ↦ collapse w ts
  | _ ↦ none
]

-- Each is looser than the one above it; the levels lie above `lo` and up to `hi`.
abbrev pub IsSorted : ℕ → ℕ → List Waiting → Type 0
IsSorted lo hi [] = Unit {0}
IsSorted lo hi ((o, at, a) ∷ ts) = (lo < level o) × (level o ≤ hi) × IsSorted (level o) hi ts

-- An operator of level `k` reduces nothing on the stack: the top is a bracket or looser.
pub data IsLoose (k : ℕ) (ops : List Item) : Type 0 where
  bottom : ops ≡ [] → IsLoose k ops
  opened : (rest : List Item) → ops ≡ code Token.l_bound ∷ rest → IsLoose k ops
  waiting :
      (o : Token) (rest : List Item)
      → ops ≡ code o ∷ rest
      → k < level o
      → level o ≤ 10
      → IsLoose k ops

pub IsLoose-weaken : (k j : ℕ) (ops : List Item) → j ≤ k → IsLoose k ops → IsLoose j ops
IsLoose-weaken k j ops h (bottom e) = bottom e
IsLoose-weaken k j ops h (opened rest e) = opened rest e
IsLoose-weaken k j ops h (waiting o rest e lt le) = waiting o rest e (omega arith) le

IsLoose-priority :
    (t : Token) (ops : List Item)
    → level t ≤ 10
    → IsLoose (level t) ops
    → computer_compare_priority (top ops) (code t) ≡ negsuc 0
IsLoose-priority t ops h (bottom e) =
    rw e
      (unfold computer_compare_priority priority_case token_of_item in rw (is_opening-level t h).1)
IsLoose-priority t ops h (opened rest e) =
    rw e
      (unfold computer_compare_priority priority_case token_of_item in rw (is_opening-level t h).1)
IsLoose-priority t ops h (waiting o rest e lt le) =
    rw e (computer_compare_priority-level o t le h ∙ ground arith)

pub collapse_step :
    (r : Applied) (ts : List Waiting) (v : Item)
    → elim r [ Applied.value w ↦ collapse w ts | _ ↦ none ] ≡ some v
    → (w : Item) × (r ≡ Applied.value w) × (collapse w ts ≡ some v)
collapse_step (Applied.value w) ts v e = (w, refl, e)
collapse_step Applied.undefined ts v e = cc
collapse_step Applied.no_operator ts v e = cc

module _ (grant : ℕ → Bool) (grants : Grants grant) (fr : Frame) where
  pub correct-Has :
      (comp : Computer) (ns ops : List Item) (flag : Bool)
      → Has comp ns ops flag fr
      → computer_is_correct comp ≡ true
  correct-Has comp ns ops flag h =
      rw (stack_is_correct-Holds comp.numbers ns h.numbers)
        (stack_is_correct-Holds comp.operators ops h.operators)

  -- One round of `computer_push_token` for a binary operator behind a number.
  push_token_loop_binary :
      (fuel : ℕ) (comp : Computer) (ns ops : List Item) (at : Size) (t : Token)
      → Has comp ns ops true fr
      → level t ≤ 10
      → push_token_loop grant (suc fuel) comp at t
        ≡ elim (computer_compare_priority (top ops) (code t)) [
          | pos ℕ.zero ↦ computer_select_three grant comp >>= λ r. done (push_behind grant r.0 at t)
          | pos (ℕ.suc k) ↦
              computer_select_three grant comp >>= λ r. push_token_loop grant fuel r.0 at t
          | negsuc k ↦ done (push_behind grant comp at t)
        ]
  unfolding push_token_loop
  push_token_loop_binary fuel comp ns ops at t h ht =
      let (opening, bracket) = is_opening-level t ht in
      rw (
        ← previous-Has h,
        correct-Has comp ns ops true h,
        h.was_number,
        opening,
        bracket,
        and_false,
        and_false,
      )

  push_token_loop_looser :
      (fuel : ℕ) (comp : Computer) (ns ops : List Item) (at : Size) (t : Token)
      → Has comp ns ops true fr
      → level t ≤ 10
      → IsLoose (level t) ops
      → length ops + 2 ≤ size_max
      → Returns
          (push_token_loop grant (suc fuel) comp at t)
          (λ r. (r.1 ≡ pos 0) × Has r.0 ns (code t ∷ at ∷ ops) false fr)
  push_token_loop_looser fuel comp ns ops at t h ht loose room =
      let pushed = push_operator-Has grant grants comp ns ops true fr at t h room in
      (
        push_behind grant comp at t,
        rw (push_token_loop_binary fuel comp ns ops at t h ht, IsLoose-priority t ops ht loose)
            refl,
        (
          refl,
          record {
            numbers = pushed.numbers;
            operators = pushed.operators;
            was_number = refl;
            kept = pushed.kept;
          },
        ),
      )

  -- A round that reduces the operator `o` on top.
  push_token_loop_step :
      (fuel : ℕ) (comp : Computer) (a b v : Item) (ns ops : List Item) (from at : Size)
      (o t : Token)
      → Has comp (b ∷ a ∷ ns) (code o ∷ from ∷ ops) true fr
      → select (some o) a b ≡ Applied.value v
      → level t ≤ 10
      → level o ≤ level t
      → (r : Computer × ℤ) × Has r.0 (v ∷ ns) ops true fr
        × (push_token_loop grant (suc fuel) comp at t ≡ (
            if ltb (level o) (level t)
            then push_token_loop grant fuel r.0 at t
            else done (push_behind grant r.0 at t)))
  push_token_loop_step fuel comp a b v ns ops from at o t h e ht le =
      let (r, run, has) = select-Has grant grants comp a b v ns ops true fr o from h e in
      (
        r,
        has,
        elim (Bool-cases (ltb (level o) (level t))) [
          | inl tighter ↦ rw (binary, levels, tighter, run)
          | inr equal ↦
              let same : (level o == level t) ≡ true = ground arith in
              rw (binary, levels, equal, same, run)
        ],
      )
    where
      binary :
          push_token_loop grant (suc fuel) comp at t
          ≡ elim (computer_compare_priority (code o) (code t)) [
            | pos ℕ.zero ↦
                computer_select_three grant comp >>= λ r. done (push_behind grant r.0 at t)
            | pos (ℕ.suc k) ↦
                computer_select_three grant comp >>= λ r. push_token_loop grant fuel r.0 at t
            | negsuc k ↦ done (push_behind grant comp at t)
          ]
      binary = push_token_loop_binary fuel comp (b ∷ a ∷ ns) (code o ∷ from ∷ ops) at t h ht

      levels : computer_compare_priority (code o) (code t) ≡ by_levels o t
      levels = computer_compare_priority-level o t (omega arith) ht

  -- A binary operator reduces what waits and is not looser, and is pushed itself.
  pub push_token_loop_reduces :
      (ts : List Waiting) (fuel : ℕ) (comp : Computer) (b v : Item) (ns ops : List Item) (at : Size)
      (t : Token)
      → Has comp (b ∷ on_numbers ts ns) (on_operators ts ops) true fr
      → level t ≤ 10
      → (lo : ℕ) → IsSorted lo (level t) ts
      → IsLoose (level t) ops
      → collapse b ts ≡ some v
      → length ts < fuel
      → length ops + 2 ≤ size_max
      → Returns
          (push_token_loop grant fuel comp at t)
          (λ r. (r.1 ≡ pos 0) × Has r.0 (v ∷ ns) (code t ∷ at ∷ ops) false fr)
  push_token_loop_reduces ts zero comp b v ns ops at t h ht lo sorted loose e f room =
      absurd (omega arith)
  push_token_loop_reduces [] (suc fuel) comp b v ns ops at t h ht lo sorted loose e f room =
      let same : b ≡ v = cc in
      push_token_loop_looser fuel comp (v ∷ ns) ops at t (rw same at h) ht loose room
  push_token_loop_reduces ((o, from, a) ∷ []) (suc fuel) comp b v ns ops at t h ht lo sorted loose e
        f room =
      let (w, picked, rest) = collapse_step (select (some o) a b) [] v e in
      let same : w ≡ v = cc in
      let (r, has, run) =
        push_token_loop_step fuel comp a b v ns ops from at o t h (picked ∙ ap Applied.value same)
          ht (omega arith) in
      elim (Bool-cases (ltb (level o) (level t))) [
        | inl tighter ↦
            rw (run, tighter)
              (push_token_loop_reduces [] fuel r.0 v v ns ops at t has ht 0 tt loose refl
                (omega arith) room)
        | inr equal ↦
            let pushed = push_operator-Has grant grants r.0 (v ∷ ns) ops true fr at t has room in
            (
              push_behind grant r.0 at t,
              rw (run, equal),
              (
                refl,
                record {
                  numbers = pushed.numbers;
                  operators = pushed.operators;
                  was_number = refl;
                  kept = pushed.kept;
                },
              ),
            )
      ]
  push_token_loop_reduces ((o, from, a) ∷ (x ∷ ts)) (suc fuel) comp b v ns ops at t h ht lo sorted
        loose e f room =
      let (w, picked, rest) = collapse_step (select (some o) a b) (x ∷ ts) v e in
      let (r, has, run) =
        push_token_loop_step fuel comp a b w (on_numbers (x ∷ ts) ns) (on_operators (x ∷ ts) ops)
          from at o t h picked ht (omega arith) in
      let tighter : ltb (level o) (level t) ≡ true = lt→ltb (level o) (level t) (omega arith) in
      rw (run, tighter)
        (push_token_loop_reduces (x ∷ ts) fuel r.0 w v ns ops at t has ht (level o) sorted.2 loose
          rest (omega arith) room)
