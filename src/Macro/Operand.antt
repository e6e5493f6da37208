-- ===== src/Macro/Operand.antt =====
-- An operand with its unary operators.
use ru_c.Prelude.{
  ℕ, suc, ◌+◌, ◌*◌, ◌≤◌, ◌<◌, ◌≡◌, refl, ap, ◌∙◌, Bool, true, false, not, Option, none, some, List,
  [], ◌∷◌, ◌++◌, ◌==◌, length, arith,
}
use native.Mathlib.Numerals.{add-one}
use ru_c.Prelude.Int.{pos}
use ru_c.Utils.Item.{Item, Size, size_max}
use ru_c.Utils.Stack.{stack_push, stack_peek, stack_size}
use ru_c.Utils.Stack.Lifo.{top, Grants, stack_push-Holds}
use ru_c.Macro.Token.{Token, code, token_of_item, token_of_item-code}
use ru_c.Macro.Arith.{complement, truth}
use ru_c.Macro.Operators.{
  done, Computer, pop_operator, push_operator, computer_token_without_number, const_number_loop,
  computer_const_number,
}
use ru_c.Macro.Computer.{push_token_loop, computer_push_token, computer_push_number}
use ru_c.Macro.Expression.{
  Prefix, plus, minus, tilde, exclaim, prefix_token, prefix_computed, eval_prefixes, print_prefixes,
  level, Input, token, literal, push_input, feed,
}
use ru_c.Macro.Simulation.{
  Frame, Returns, Has, feed_step, previous-Has, depth-Has, pop_operator-Has, push_operator-Has,
}
use ru_c.Macro.Pending.{IsLoose, bottom, opened, waiting, correct-Has}

-- The unary operator that is pushed for a prefix.
abbrev pub unary : Prefix → Token
unary plus = Token.u_plus
unary minus = Token.u_negation
unary tilde = Token.compl
unary exclaim = Token.not

abbrev pub stack_of : List (Size × Prefix) → List Item → List Item
stack_of [] ops = ops
stack_of ((at, p) ∷ ps) ops = stack_of ps (code (unary p) ∷ at ∷ ops)

pub length-stack_of :
    (ps : List (Size × Prefix)) (ops : List Item)
    → length (stack_of ps ops) ≡ 2 * length ps + length ops
length-stack_of [] ops = omega arith
length-stack_of ((at, p) ∷ ps) ops = omega (arith, length-stack_of ps (code (unary p) ∷ at ∷ ops))

-- The tokens that the loop of `computer_const_number` pops.
abbrev pub is_unary : Option Token → Bool
is_unary (some Token.compl) = true
is_unary (some Token.not) = true
is_unary (some Token.u_negation) = true
is_unary (some Token.u_plus) = true
is_unary _ = false

is_unary-level : (o : Token) → level o ≤ 10 → is_unary (some o) ≡ false
is_unary-level Token.compl h = absurd (omega arith)
is_unary-level Token.not h = absurd (omega arith)
is_unary-level Token.u_negation h = absurd (omega arith)
is_unary-level Token.u_plus h = absurd (omega arith)
is_unary-level _ h = refl

-- Fuel for one more round for each prefix.
abbrev rounds : List (Size × Prefix) → ℕ → ℕ
rounds [] fuel = fuel
rounds ((at, p) ∷ ps) fuel = rounds ps (suc fuel)

rounds_lem : (ps : List (Size × Prefix)) (fuel : ℕ) → rounds ps fuel ≡ length ps + fuel
rounds_lem [] fuel = omega arith
rounds_lem ((at, p) ∷ ps) fuel = omega (arith, rounds_lem ps (suc fuel))

Option_step :
    (o : Option Item) (f : Item → Option Item) (n : Item)
    → elim o [ none ↦ none | some m ↦ f m ] ≡ some n
    → (m : Item) × (o ≡ some m) × (f m ≡ some n)
Option_step none f n e = cc
Option_step (some m) f n e = (m, refl, e)

IsLoose-is_unary :
    (k : ℕ) (ops : List Item) → IsLoose k ops → is_unary (token_of_item (top ops)) ≡ false
IsLoose-is_unary k ops (bottom e) = rw e (unfold token_of_item in refl)
IsLoose-is_unary k ops (opened rest e) = rw (e, token_of_item-code Token.l_bound)
IsLoose-is_unary k ops (waiting o rest e lt le) = rw (e, token_of_item-code o) (is_unary-level o le)

module _ (grant : ℕ → Bool) where
  const_number_loop_default :
      (fuel : ℕ) (comp : Computer) (num : Item) (t : Option Token)
      → token_of_item (stack_peek comp.operators) ≡ t
      → is_unary t ≡ false
      → const_number_loop grant (suc fuel) comp num
        ≡ done (
          record comp { numbers = (stack_push grant comp.numbers num).0 },
          (stack_push grant comp.numbers num).1,
        )
  unfolding const_number_loop
  const_number_loop_default fuel comp num (some Token.compl) e h = cc
  const_number_loop_default fuel comp num (some Token.not) e h = cc
  const_number_loop_default fuel comp num (some Token.u_negation) e h = cc
  const_number_loop_default fuel comp num (some Token.u_plus) e h = cc
  const_number_loop_default fuel comp num _ e h = rw (e, const_number_loop)

  -- A round that pops a unary operator and applies it.
  const_number_loop-unary :
      (fuel : ℕ) (comp : Computer) (num n : Item) (p : Prefix)
      → token_of_item (stack_peek comp.operators) ≡ some (unary p)
      → prefix_computed p num ≡ some n
      → const_number_loop grant (suc fuel) comp num
        ≡ const_number_loop grant fuel (pop_operator comp).0 n
  unfolding const_number_loop
  const_number_loop-unary fuel comp num n plus e v =
      let same : num ≡ n = cc in
      rw (e, const_number_loop)
        (ap (λ m. const_number_loop grant fuel (pop_operator comp).0 m) same)
  const_number_loop-unary fuel comp num n minus e v = rw (e, v, const_number_loop)
  const_number_loop-unary fuel comp num n tilde e v =
      let same : complement num ≡ n = cc in
      rw (e, const_number_loop)
        (ap (λ m. const_number_loop grant fuel (pop_operator comp).0 m) same)
  const_number_loop-unary fuel comp num n exclaim e v =
      let same : truth (not (num == 0)) ≡ n = cc in
      rw (e, const_number_loop)
        (ap (λ m. const_number_loop grant fuel (pop_operator comp).0 m) same)

module _ (grant : ℕ → Bool) (grants : Grants grant) (fr : Frame) where
  -- A prefix where a number is awaited is pushed as its unary operator.
  push_prefix :
      (comp : Computer) (ns ops : List Item) (at : Size) (p : Prefix)
      → Has comp ns ops false fr
      → computer_push_token grant comp at (prefix_token p)
        ≡ done (push_operator grant comp at (unary p), pos 0)
  unfolding computer_push_token push_token_loop computer_token_without_number
  push_prefix comp ns ops at plus h = rw (
    add-one (stack_size comp.operators),
    correct-Has grant grants fr comp ns ops false h,
    h.was_number,
  )
  push_prefix comp ns ops at _ h = rw (
    add-one (stack_size comp.operators),
    correct-Has grant grants fr comp ns ops false h,
    h.was_number,
  )

  const_number_loop_base :
      (fuel : ℕ) (comp : Computer) (ns ops : List Item) (num : Item) {k : ℕ}
      → Has comp ns ops true fr
      → IsLoose k ops
      → length ns < size_max
      → Returns
          (const_number_loop grant (suc fuel) comp num)
          (λ r. (r.1 ≡ pos 0) × Has r.0 (num ∷ ns) ops true fr)
  const_number_loop_base fuel comp ns ops num {k} h loose room =
      let pushed = stack_push-Holds grant grants comp.numbers ns num h.numbers room in
      let mark : is_unary (token_of_item (stack_peek comp.operators)) ≡ false =
        rw (previous-Has h) (IsLoose-is_unary k ops loose) in
      (
        (record comp { numbers = _ }, (stack_push grant comp.numbers num).1),
        const_number_loop_default grant fuel comp num _ refl mark,
        (
          pushed.1,
          record {
            numbers = pushed.0;
            operators = h.operators;
            was_number = h.was_number;
            kept = h.kept;
          },
        ),
      )

  -- The loop applies the unary operators, the last one first.
  const_number_loop_prefixes :
      (ps : List (Size × Prefix)) (fuel : ℕ) (comp : Computer) (ns ops : List Item) (num n : Item)
      → Has comp ns (stack_of ps ops) true fr
      → eval_prefixes prefix_computed ps num ≡ some n
      → (c : Computer) × Has c ns ops true fr
        × (const_number_loop grant (rounds ps fuel) comp num ≡ const_number_loop grant fuel c n)
  unfolding eval_prefixes
  const_number_loop_prefixes [] fuel comp ns ops num n h e =
      let same : num ≡ n = cc in (comp, h, rw same)
  const_number_loop_prefixes ((at, p) ∷ ps) fuel comp ns ops num n h e =
      let (m, inner, outer) =
        Option_step (eval_prefixes prefix_computed ps num) (prefix_computed p) n e in
      let (c, has, run) =
        const_number_loop_prefixes ps (suc fuel) comp ns (code (unary p) ∷ at ∷ ops) num m h
          inner in
      let popped = pop_operator-Has c ns ops true fr (unary p) at has in
      let mark : token_of_item (stack_peek c.operators) ≡ some (unary p) =
        rw (previous-Has has) (token_of_item-code (unary p)) in
      ((pop_operator c).0, popped.0, run ∙ const_number_loop-unary grant fuel c m n p mark outer)

  push_literal :
      (ps : List (Size × Prefix)) (comp : Computer) (ns ops : List Item) (at : Size) (num n : Item)
      (k : ℕ)
      → Has comp ns (stack_of ps ops) false fr
      → IsLoose k ops
      → eval_prefixes prefix_computed ps num ≡ some n
      → length ns < size_max
      → Returns
          (computer_push_number grant comp at num)
          (λ r. (r.1 ≡ pos 0) × Has r.0 (n ∷ ns) ops true fr)
  unfolding computer_push_number computer_const_number
  push_literal ps comp ns ops at num n k h loose e room =
      let started : Has (record comp { was_number = true }) ns (stack_of ps ops) true fr = record {
        numbers = h.numbers;
        operators = h.operators;
        was_number = refl;
        kept = h.kept;
      } in
      let (c, has, run) =
        const_number_loop_prefixes ps (suc (length ps + length ops))
          (record comp { was_number = true }) ns ops num n started e in
      let (r, last, result) =
        const_number_loop_base (length ps + length ops) c ns ops n {k = k} has loose room in
      let fuel : stack_size comp.operators + 1 ≡ rounds ps (suc (length ps + length ops)) = omega (
        arith,
        depth-Has h,
        length-stack_of ps ops,
        rounds_lem ps (suc (length ps + length ops)),
      ) in
      (
        r,
        rw (correct-Has grant grants fr comp ns (stack_of ps ops) false h, h.was_number, fuel)
            (run ∙ last),
        result,
      )

  pub feed_prefixes :
      (ps : List (Size × Prefix)) (rest : List Input) (comp : Computer) (ns ops : List Item)
      → Has comp ns ops false fr
      → length ops + 2 * length ps ≤ size_max
      → (c : Computer) × Has c ns (stack_of ps ops) false fr
        × (feed grant (print_prefixes ps ++ rest) comp ≡ feed grant rest c)
  feed_prefixes [] rest comp ns ops h room = (comp, h, refl)
  feed_prefixes ((at, p) ∷ ps) rest comp ns ops h room =
      let pushed =
        push_operator-Has grant grants comp ns ops false fr at (unary p) h (omega arith) in
      let (c, has, run) =
        feed_prefixes ps rest (push_operator grant comp at (unary p)) ns (code (unary p) ∷ at ∷ ops)
          pushed (omega arith) in
      let sent : push_input grant (token at (prefix_token p)) comp
          ≡ done (push_operator grant comp at (unary p), pos 0) =
        unfold push_input in push_prefix comp ns ops at p h in
      (c, has, feed_step grant grants (token at (prefix_token p)) _ comp _ sent refl ∙ run)

  -- An operand is read as its value.
  pub feed_operand :
      (ps : List (Size × Prefix)) (rest : List Input) (comp : Computer) (ns ops : List Item)
      (at : Size) (num n : Item) (k : ℕ)
      → Has comp ns ops false fr
      → IsLoose k ops
      → eval_prefixes prefix_computed ps num ≡ some n
      → length ns < size_max
      → length ops + 2 * length ps ≤ size_max
      → (c : Computer) × Has c (n ∷ ns) ops true fr
        × (feed grant (print_prefixes ps ++ literal at num ∷ rest) comp ≡ feed grant rest c)
  feed_operand ps rest comp ns ops at num n k h loose e room room_ops =
      let (c, has, run) = feed_prefixes ps (literal at num ∷ rest) comp ns ops h (omega arith) in
      let (r, pushed, (zero_code, has')) = push_literal ps c ns ops at num n k has loose e room in
      let sent : push_input grant (literal at num) c ≡ done r = unfold push_input in pushed in
      (r.0, has', run ∙ feed_step grant grants (literal at num) rest c r sent zero_code)
