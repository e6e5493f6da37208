-- ===== src/Macro/Brackets.antt =====
-- A closing bracket and the end of the line reduce all that waits.
use ru_c.Prelude.{ℕ, zero, suc, ◌≤◌, ◌<◌, ◌≡◌, refl, Bool, true, some, List, [], ◌∷◌, length, arith}
use ru_c.Prelude.Int.{pos}
use ru_c.Utils.Item.{Item, Size}
use ru_c.Utils.Stack.{stack_pop}
use ru_c.Utils.Stack.Lifo.{Grants, stack_pop-Holds}
use ru_c.Macro.Token.{Token, code}
use ru_c.Macro.Arith.{select}
use ru_c.Macro.Operators.{
  done, ◌>>=◌, Computer, pop_operator, computer_select_three, computer_compare_priority,
}
use ru_c.Macro.Computer.{push_token_loop, pop_result_loop}
use ru_c.Macro.Expression.{level}
use ru_c.Macro.Simulation.{Frame, frame, Returns, Has, previous-Has, pop_operator-Has, select-Has}
use ru_c.Macro.Priority.{code-level}
use ru_c.Macro.Pending.{
  Waiting, on_operators, on_numbers, collapse, collapse_step, IsSorted, correct-Has,
}

module _ (grant : ℕ → Bool) (grants : Grants grant) (fr : Frame) where
  pub close_round :
      (fuel : ℕ) (comp : Computer) (ns ops : List Item) (from at : Size) (o : Token)
      → Has comp ns (code o ∷ from ∷ ops) true fr
      → level o ≤ 10
      → push_token_loop grant (suc fuel) comp at Token.r_bound ≡ (
          computer_select_three grant comp >>= λ r. push_token_loop grant fuel r.0 at Token.r_bound)
  unfolding push_token_loop computer_compare_priority
  close_round fuel comp ns ops from at o h ho =
      let (bottom, bracket) = code-level o ho in
      rw (
        previous-Has h,
        correct-Has grant grants fr comp ns (code o ∷ from ∷ ops) true h,
        h.was_number,
        bottom,
        bracket,
      )

  close_bracket :
      (fuel : ℕ) (comp : Computer) (ns ops : List Item) (from at : Size)
      → Has comp ns (code Token.l_bound ∷ from ∷ ops) true fr
      → push_token_loop grant (suc fuel) comp at Token.r_bound ≡ done ((pop_operator comp).0, pos 0)
  unfolding push_token_loop
  close_bracket fuel comp ns ops from at h = rw (
    previous-Has h,
    correct-Has grant grants fr comp ns (code Token.l_bound ∷ from ∷ ops) true h,
    h.was_number,
  )

  -- `)` reduces down to its `(` and takes that off.
  pub push_token_loop_closes :
      (ts : List Waiting) (fuel : ℕ) (comp : Computer) (b v : Item) (ns ops : List Item)
      (from at : Size)
      → Has comp (b ∷ on_numbers ts ns) (on_operators ts (code Token.l_bound ∷ from ∷ ops)) true fr
      → (lo : ℕ) → IsSorted lo 10 ts
      → collapse b ts ≡ some v
      → length ts < fuel
      → Returns
          (push_token_loop grant fuel comp at Token.r_bound)
          (λ r. (r.1 ≡ pos 0) × Has r.0 (v ∷ ns) ops true fr)
  push_token_loop_closes ts zero comp b v ns ops from at h lo sorted e f = absurd (omega arith)
  push_token_loop_closes [] (suc fuel) comp b v ns ops from at h lo sorted e f =
      let same : b ≡ v = cc in
      let popped = pop_operator-Has comp (b ∷ ns) ops true fr Token.l_bound from h in
      (
        ((pop_operator comp).0, pos 0),
        close_bracket fuel comp (b ∷ ns) ops from at h,
        (refl, rw same at popped.0),
      )
  push_token_loop_closes ((o, w_at, a) ∷ ts) (suc fuel) comp b v ns ops from at h lo sorted e f =
      let (w, picked, rest) = collapse_step (select (some o) a b) ts v e in
      let below = on_operators ts (code Token.l_bound ∷ from ∷ ops) in
      let (r, run, has) =
        select-Has grant grants comp a b w (on_numbers ts ns) below true fr o w_at h picked in
      rw (close_round fuel comp (b ∷ a ∷ on_numbers ts ns) below w_at at o h sorted.1, run)
        (push_token_loop_closes ts fuel r.0 w v ns ops from at has (level o) sorted.2 rest
          (omega arith))

  pub result_round :
      (fuel : ℕ) (comp : Computer) (ns ops : List Item) (from : Size) (o : Token)
      → Has comp ns (code o ∷ from ∷ ops) true fr
      → level o ≤ 10
      → pop_result_loop grant (suc fuel) comp
        ≡ (computer_select_three grant comp >>= λ r. pop_result_loop grant fuel r.0)
  unfolding pop_result_loop
  result_round fuel comp ns ops from o h ho =
      let (bottom, bracket) = code-level o ho in rw (previous-Has h, bottom, bracket)

  pub pop_result_loop_returns :
      (ts : List Waiting) (fuel : ℕ) (comp : Computer) (b v : Item)
      → Has comp (b ∷ on_numbers ts []) (on_operators ts []) true fr
      → (lo : ℕ) → IsSorted lo 10 ts
      → collapse b ts ≡ some v
      → length ts < fuel
      → Returns (pop_result_loop grant fuel comp) (λ r. (r.1 ≡ v) × (frame r.0 ≡ fr))
  pop_result_loop_returns ts zero comp b v h lo sorted e f = absurd (omega arith)
  pop_result_loop_returns [] (suc fuel) comp b v h lo sorted e f =
      let popped = stack_pop-Holds comp.numbers b [] h.numbers in
      (
        (record comp { numbers = (stack_pop comp.numbers).0 }, (stack_pop comp.numbers).1),
        unfold pop_result_loop in rw (previous-Has h),
        (cc, h.kept),
      )
  pop_result_loop_returns ((o, from, a) ∷ ts) (suc fuel) comp b v h lo sorted e f =
      let (w, picked, rest) = collapse_step (select (some o) a b) ts v e in
      let (r, run, has) =
        select-Has grant grants comp a b w (on_numbers ts []) (on_operators ts []) true fr o from h
          picked in
      rw
        (
          result_round fuel comp (b ∷ a ∷ on_numbers ts []) (on_operators ts []) from o h sorted.1,
          run,
        )
        (pop_result_loop_returns ts fuel r.0 w v has (level o) sorted.2 rest (omega arith))
