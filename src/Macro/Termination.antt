-- ===== src/Macro/Termination.antt =====
-- The loops of the computer end: the fuel that they are given is enough.
use ru_c.Prelude.{
  ℕ, zero, suc, ◌+◌, ◌-◌, ◌≤◌, ◌<◌, ◌≡◌, ◌≢◌, ◌⊎◌, refl, Bool, true, false, not, Option, none, some,
  ◌==◌, length, length-take, inl, inr, arith,
}
use Prim.Native.String.{String}
use ru_c.Prelude.Int.{ℤ, negsuc}
use ru_c.Utils.Item.{Item, Size, item_max}
use ru_c.Utils.Vector.{Vector, cells, size, vector_remove, vector_get, vector_size}
use ru_c.Utils.Stack.{stack_pop, stack_peek, stack_size}
use ru_c.Macro.Token.{Token, code, token_of_item}
use ru_c.Macro.Arith.{negation, complement, truth}
use ru_c.Macro.Operators.{
  Run, done, undefined, stuck, Computer, pop_operator, computer_select_three,
  computer_compare_priority, priority_case, const_number_loop, computer_const_number,
}
use ru_c.Macro.Computer.{
  push_token_loop, computer_push_token, computer_push_number, computer_push_const, pop_result_loop,
  computer_pop_result,
}

-- A pop takes a cell off, if there is one.
size-stack_pop : (stk : Vector) → size (stack_pop stk).0 ≤ size stk - 1
unfolding stack_pop vector_remove
size-stack_pop stk = ground (arith, length-take (length (cells stk) - 1) (cells stk))

peek_empty : (stk : Vector) → size stk ≡ 0 → stack_peek stk ≡ item_max
unfolding stack_peek vector_get vector_size
peek_empty stk h = ground arith

size-pop_operator :
    (comp : Computer) → size (pop_operator comp).0.operators ≤ size comp.operators - 1
size-pop_operator comp =
    omega (arith, size-stack_pop comp.operators, size-stack_pop (stack_pop comp.operators).0)

Run_cases {ℓ} : {A : Type ℓ} (r : Run A) → r ≢ stuck → ((a : A) × (r ≡ done a)) ⊎ (r ≡ undefined)
Run_cases (done a) h = inl (a, refl)
Run_cases undefined h = inr refl
Run_cases stuck h = absurd (h refl)

-- The fuel that the calls give.
fuel_lt : (stk : Vector) → size stk < stack_size stk + 1
unfolding stack_size vector_size
fuel_lt stk = ground arith

module _ (grant : ℕ → Bool) where
  select_shrinks :
      (comp : Computer) (r : Computer × ℤ)
      → computer_select_three grant comp ≡ done r
      → size r.0.operators ≤ size comp.operators - 1
  unfolding computer_select_three
  select_shrinks comp r e = ground (arith, size-pop_operator comp)

  select-ne-stuck : (comp : Computer) → computer_select_three grant comp ≢ stuck
  unfolding computer_select_three
  select-ne-stuck comp = ground arith

  select_cases :
      (comp : Computer)
      → ((r : Computer × ℤ) × (computer_select_three grant comp ≡ done r))
        ⊎ (computer_select_three grant comp ≡ undefined)
  select_cases comp = Run_cases (computer_select_three grant comp) (select-ne-stuck comp)

  priority_empty :
      (tk : Token)
      → (code tk == code Token.r_bound) ≡ false
      → computer_compare_priority item_max (code tk) ≡ negsuc 0
  unfolding computer_compare_priority priority_case token_of_item
  priority_empty tk h = rw h

  push_token_loop-ne-stuck :
      (fuel : ℕ) (comp : Computer) (at : Size) (tk : Token)
      → size comp.operators < fuel
      → push_token_loop grant fuel comp at tk ≢ stuck
  unfolding push_token_loop
  push_token_loop-ne-stuck zero comp at tk h = absurd (omega arith)
  push_token_loop-ne-stuck (suc fuel) comp at tk h = elim (select_cases comp) [
    | inr e ↦ ground (arith, peek_empty comp.operators, priority_empty tk, e)
    | inl (r, e) ↦ ground (
      arith,
      peek_empty comp.operators,
      priority_empty tk,
      e,
      select_shrinks comp r e,
      push_token_loop-ne-stuck fuel r.0 at tk,
    )
  ]

  pop_result_loop-ne-stuck :
      (fuel : ℕ) (comp : Computer)
      → size comp.operators < fuel
      → pop_result_loop grant fuel comp ≢ stuck
  unfolding pop_result_loop
  pop_result_loop-ne-stuck zero comp h = absurd (omega arith)
  pop_result_loop-ne-stuck (suc fuel) comp h = elim (select_cases comp) [
    | inr e ↦ ground (arith, peek_empty comp.operators, e)
    | inl (r, e) ↦ ground (
      arith,
      peek_empty comp.operators,
      e,
      select_shrinks comp r e,
      pop_result_loop-ne-stuck fuel r.0,
    )
  ]

  filled :
      (comp : Computer) (t : Token)
      → token_of_item (stack_peek comp.operators) ≡ some t
      → 0 < size comp.operators
  unfolding token_of_item
  filled comp t e = ground (arith, peek_empty comp.operators)

  const_number_loop_round :
      (fuel : ℕ) (comp : Computer) (num : Item) (t : Option Token)
      → token_of_item (stack_peek comp.operators) ≡ t
      → (0 < size comp.operators
          → (n : Item) → const_number_loop grant fuel (pop_operator comp).0 n ≢ stuck)
      → const_number_loop grant (suc fuel) comp num ≢ stuck
  unfolding const_number_loop
  const_number_loop_round fuel comp num (some Token.compl) e next =
      rw (e, const_number_loop) (next (filled comp Token.compl e) (complement num))
  const_number_loop_round fuel comp num (some Token.not) e next =
      rw (e, const_number_loop) (next (filled comp Token.not e) (truth (not (num == 0))))
  const_number_loop_round fuel comp num (some Token.u_negation) e next =
      rw (e, const_number_loop) (by_value (negation num))
    where
      by_value :
          (o : Option Item)
          → ◌≢◌ {A = Run (Computer × ℤ)}
              (elim o [
                | none ↦ undefined
                | some n ↦ const_number_loop grant fuel (pop_operator comp).0 n
              ])
              stuck
      by_value none = λ h. cc
      by_value (some n) = next (filled comp Token.u_negation e) n
  const_number_loop_round fuel comp num (some Token.u_plus) e next =
      rw (e, const_number_loop) (next (filled comp Token.u_plus e) num)
  const_number_loop_round fuel comp num _ e next = rw (e, const_number_loop) (λ h. cc)

  const_number_loop-ne-stuck :
      (fuel : ℕ) (comp : Computer) (num : Item)
      → size comp.operators < fuel
      → const_number_loop grant fuel comp num ≢ stuck
  const_number_loop-ne-stuck zero comp num h = absurd (omega arith)
  const_number_loop-ne-stuck (suc fuel) comp num h =
      const_number_loop_round fuel comp num _ refl λ pos n.
        const_number_loop-ne-stuck fuel (pop_operator comp).0 n
          (omega (arith, size-pop_operator comp))

  -- No call of the computer runs out of fuel, whatever its state is: the loops of `computer_push_token`,
  -- `computer_push_number`, `computer_push_const` and `computer_pop_result` end.
  pub calls-ne-stuck :
      (comp : Computer) (at : Size) (tk : Token) (num : Item) (name : String)
      → (computer_push_token grant comp at tk ≢ stuck)
        × (computer_push_number grant comp at num ≢ stuck)
        × (computer_push_const grant comp at num name ≢ stuck)
        × (computer_pop_result grant comp ≢ stuck)
  unfolding computer_push_token computer_push_number computer_push_const computer_pop_result
      computer_const_number
  calls-ne-stuck comp at tk num name = (
    push_token_loop-ne-stuck (stack_size comp.operators + 1) comp at tk (fuel_lt comp.operators),
    ground (arith, numbers),
    ground (arith, numbers),
    ground (
      arith,
      pop_result_loop-ne-stuck (stack_size comp.operators + 1) comp (fuel_lt comp.operators),
    ),
  )
    where
      numbers :
          const_number_loop grant
            (stack_size comp.operators + 1)
            (record comp { was_number = true })
            num
          ≢ stuck
      numbers =
          const_number_loop-ne-stuck (stack_size comp.operators + 1)
            (record comp { was_number = true }) num (fuel_lt comp.operators)
