-- ===== src/Macro/Correct.antt =====
-- The computer on expressions of the grammar.
use ru_c.Prelude.{
  ℕ, ◌+◌, ◌-◌, ◌*◌, ◌≤◌, ◌≡◌, refl, ap, ◌∙◌, Bool, true, false, Option, none, some, List, [], ◌∷◌,
  ◌++◌, append_assoc, length, arith,
}
use native.Mathlib.Numerals.{add-one}
use ru_c.Prelude.Int.{pos}
use ru_c.Utils.Item.{Item, Size, size_max}
use ru_c.Utils.Stack.{stack_size}
use ru_c.Utils.Stack.Lifo.{Grants}
use ru_c.Macro.Token.{Token, code}
use ru_c.Macro.Arith.{Applied, select}
use ru_c.Macro.Operators.{done, Computer, push_operator, computer_token_without_number}
use ru_c.Macro.Computer.{push_token_loop, computer_push_token}
use ru_c.Macro.Expression.{
  Input, token, literal, Expr, operand, paren, binary, print_prefixes, print, level, IsLevel,
  prefix_computed, eval, apply_binary, feed,
}
use ru_c.Macro.Simulation.{Frame, Returns, Has, depth-Has, push_operator-Has, feed_token}
use ru_c.Macro.Pending.{
  Waiting, on_operators, on_numbers, collapse, IsSorted, IsLoose, opened, waiting, IsLoose-weaken,
  correct-Has, push_token_loop_reduces,
}
use ru_c.Macro.Brackets.{push_token_loop_closes}
use ru_c.Macro.Operand.{feed_operand}
use ru_c.Macro.Chain.{
  level_pos, on_numbers-append, on_operators-append, IsSorted-append, collapse-append,
}

-- The number of inputs of an expression.
abbrev pub weight : Expr → ℕ
weight (operand ps at num) = length ps + 1
weight (paren from e to) = weight e + 2
weight (binary at op l r) = weight l + weight r + 1

-- The computer has read an expression of level `k` and value `v`; operators of it may wait.
pub record HasRead (c : Computer) (k : ℕ) (v : Item) (ns ops : List Item) (fr : Frame)
    : Type 0 where
  pub last : Item
  pub chain : List Waiting
  pub has : Has c (last ∷ on_numbers chain ns) (on_operators chain ops) true fr
  pub sorted : IsSorted 0 k chain
  pub value : collapse last chain ≡ some v

pub length-on_operators :
    (ts : List Waiting) (ops : List Item) → length ts ≤ length (on_operators ts ops)
length-on_operators [] ops = omega arith
length-on_operators ((o, at, a) ∷ ts) ops = omega (arith, length-on_operators ts ops)

-- The operands of a binary operator have values, and the operator has one on them.
binary_parts :
    (l r : Option Item) (op : Token) (v : Item)
    → apply_binary op l r ≡ some v
    → (a b : Item) × (l ≡ some a) × (r ≡ some b) × (select (some op) a b ≡ Applied.value v)
binary_parts none r op v e = cc
binary_parts (some a) none op v e = cc
binary_parts (some a) (some b) op v e = (a, b, refl, refl, selected (select (some op) a b) e)
  where
    selected :
        (s : Applied)
        → ◌≡◌ {A = Option Item} (elim s [ Applied.value w ↦ some w | _ ↦ none ]) (some v)
        → s ≡ Applied.value v
    selected (Applied.value w) h = cc
    selected Applied.undefined h = cc
    selected Applied.no_operator h = cc

module _ (grant : ℕ → Bool) (grants : Grants grant) (fr : Frame) where
  pub push_open :
      (comp : Computer) (ns ops : List Item) (at : Size)
      → Has comp ns ops false fr
      → computer_push_token grant comp at Token.l_bound
        ≡ done (push_operator grant comp at Token.l_bound, pos 0)
  unfolding computer_push_token push_token_loop computer_token_without_number
  push_open comp ns ops at h = rw (
    add-one (stack_size comp.operators),
    correct-Has grant grants fr comp ns ops false h,
    h.was_number,
  )

  push_close :
      (c : Computer) (v : Item) (ns ops : List Item) (from at : Size)
      → HasRead c 10 v ns (code Token.l_bound ∷ from ∷ ops) fr
      → Returns
          (computer_push_token grant c at Token.r_bound)
          (λ r. (r.1 ≡ pos 0) × Has r.0 (v ∷ ns) ops true fr)
  unfolding computer_push_token
  push_close c v ns ops from at d =
      push_token_loop_closes grant grants fr d.chain (stack_size c.operators + 1) c d.last v ns ops
        from at d.has 0 d.sorted d.value
        (omega
          (arith, depth-Has d.has, length-on_operators d.chain (code Token.l_bound ∷ from ∷ ops)))

  pub push_binary :
      (c : Computer) (v : Item) (ns ops : List Item) (at : Size) (op : Token)
      → HasRead c (level op) v ns ops fr
      → level op ≤ 10
      → IsLoose (level op) ops
      → length ops + 2 ≤ size_max
      → Returns
          (computer_push_token grant c at op)
          (λ r. (r.1 ≡ pos 0) × Has r.0 (v ∷ ns) (code op ∷ at ∷ ops) false fr)
  unfolding computer_push_token
  push_binary c v ns ops at op d h loose room =
      push_token_loop_reduces grant grants fr d.chain (stack_size c.operators + 1) c d.last v ns ops
        at op d.has h 0 d.sorted loose d.value
        (omega (arith, depth-Has d.has, length-on_operators d.chain ops)) room

  HasRead-binary :
      (c : Computer) (k : ℕ) (op : Token) (at : Size) (a b v : Item) (ns ops : List Item)
      → HasRead c (level op - 1) b (a ∷ ns) (code op ∷ at ∷ ops) fr
      → level op ≤ k
      → select (some op) a b ≡ Applied.value v
      → HasRead c k v ns ops fr
  HasRead-binary c k op at a b v ns ops d h picked = record {
    last = d.last;
    chain = d.chain ++ (op, at, a) ∷ [];
    has = rw (on_numbers-append op at a d.chain ns, on_operators-append op at a d.chain ops) d.has;
    sorted = IsSorted-append op at a d.chain 0 k d.sorted (level_pos op) h;
    value = collapse-append op at a d.chain d.last b v d.value picked;
  }

  -- `(`, an expression and `)`, over any operators.
  pub feed_paren :
      (e : Expr) (from to : Size) (rest : List Input) (comp : Computer) (v : Item)
      (ns ops : List Item) (c : Computer)
      → Has comp ns ops false fr
      → HasRead c 10 v ns (code Token.l_bound ∷ from ∷ ops) fr
      → feed grant
          (print e ++ token to Token.r_bound ∷ rest)
          (push_operator grant comp from Token.l_bound)
        ≡ feed grant (token to Token.r_bound ∷ rest) c
      → (c' : Computer) × Has c' (v ∷ ns) ops true fr
        × (feed grant (print (paren from e to) ++ rest) comp ≡ feed grant rest c')
  unfolding print
  feed_paren e from to rest comp v ns ops c h d run =
      let (r, closed, (zero_code, has)) = push_close c v ns ops from to d in
      (
        r.0,
        has,
        feed_token grant grants from Token.l_bound
              ((print e ++ token to Token.r_bound ∷ []) ++ rest) comp
              (push_operator grant comp from Token.l_bound, pos 0) (push_open comp ns ops from h)
              refl
            ∙ ap (λ is. feed grant is (push_operator grant comp from Token.l_bound))
                (append_assoc (print e) (token to Token.r_bound ∷ []) rest)
            ∙ run
            ∙ feed_token grant grants to Token.r_bound rest c r closed zero_code,
      )

  -- An expression is read up to the operators that still wait, whatever stands before and behind it.
  pub feed_expr :
      (e : Expr) (k : ℕ) (rest : List Input) (comp : Computer) (v : Item) (ns ops : List Item)
      → Has comp ns ops false fr
      → IsLevel k e
      → k ≤ 10
      → IsLoose k ops
      → eval prefix_computed e ≡ some v
      → length ns + weight e ≤ size_max
      → length ops + 2 * weight e ≤ size_max
      → (c : Computer) × HasRead c k v ns ops fr
        × (feed grant (print e ++ rest) comp ≡ feed grant rest c)
  unfolding print eval
  feed_expr (operand ps at num) k rest comp v ns ops h lv hk loose e room room_ops =
      let (c, has, run) =
        feed_operand grant grants fr ps rest comp ns ops at num v k h loose e (omega arith)
          (omega arith) in
      (
        c,
        record { last = v; chain = []; has = has; sorted = tt; value = refl },
        rw (append_assoc (print_prefixes ps) (literal at num ∷ []) rest) run,
      )
  feed_expr (paren from e to) k rest comp v ns ops h lv hk loose ev room room_ops =
      let pushed =
        push_operator-Has grant grants comp ns ops false fr from Token.l_bound h (omega arith) in
      let (c, d, run) =
        feed_expr e 10 (token to Token.r_bound ∷ rest) (push_operator grant comp from Token.l_bound)
          v ns (code Token.l_bound ∷ from ∷ ops) pushed lv (omega arith) (opened (from ∷ ops) refl)
          ev (omega arith) (omega arith) in
      let (c', has, run') = feed_paren e from to rest comp v ns ops c h d run in
      (c', record { last = v; chain = []; has = has; sorted = tt; value = refl }, run')
  feed_expr (binary at op l r) k rest comp v ns ops h lv hk loose ev room room_ops =
      let (a, b, el, er, picked) =
        binary_parts (eval prefix_computed l) (eval prefix_computed r) op v ev in
      let (c, d, run) =
        feed_expr l (level op) (token at op ∷ (print r ++ rest)) comp a ns ops h lv.2 lv.1
          (IsLoose-weaken k (level op) ops lv.0 loose) el (omega arith) (omega arith) in
      let (p, pushed, (zero_code, has)) =
        push_binary c a ns ops at op d lv.1 (IsLoose-weaken k (level op) ops lv.0 loose)
          (omega arith) in
      let (c', d', run') =
        feed_expr r (level op - 1) rest p.0 b (a ∷ ns) (code op ∷ at ∷ ops) has lv.3 (omega arith)
          (waiting op (at ∷ ops) refl (omega (arith, level_pos op)) lv.1) er (omega arith)
          (omega arith) in
      (
        c',
        HasRead-binary c' k op at a b v ns ops d' lv.0 picked,
        ap (λ is. feed grant is comp) (append_assoc (print l) (token at op ∷ print r) rest)
            ∙ run
            ∙ feed_token grant grants at op (print r ++ rest) c p pushed zero_code
            ∙ run',
      )
