-- ===== src/Compiler/Parser/Roundtrip/Reads.antt =====
-- What the functions for the expressions of parser.c do with what the grammar writes, and how one such
-- statement gives another. The fuel is eight units for each token and some more.
use ru_c.Prelude.{
  ℕ, zero, suc, ◌+◌, ◌-◌, ◌*◌, ◌≤◌, ◌<◌, ◌≡◌, sym, ap, ◌∙◌, true, false, Option, none, some, ◌==◌,
  if◌then◌else◌, arith,
}
use ru_c.Compiler.Parser.State.{◌>>=◌, Builder, Wanted, is, Parser, kind, build}
use ru_c.Compiler.Parser.Expression.{
  other, suffix_of, prec_of, parse_primary_expression, parse_initializer_list, postfix_loop,
  parse_unary_expression, parse_assignment_expression, parse_initializer,
}
use ru_c.Compiler.Parser.Grammar.{
  Postfix, Operand, Expr, Inits, leaf, paren, subscript, call, call_with, member, step, of_postfix,
  prefix, of_operand, braces, binary, ternary, level, is_braced, is_initializer, IsExpr,
  show_postfix, show_operand, show, show_inits, size_postfix, size_operand, size, size_inits,
  postfix_node, operand_node, node, nodes,
}
use ru_c.Compiler.Parser.Roundtrip.Tokens.{stop, stop_ge, show-is_braced}
use ru_c.Compiler.Parser.Roundtrip.Rounds.{
  state, first, rhs, operands, operand, rhs-stop, Lexemes, Errors, else_at,
}
use ru_c.Compiler.Parser.Roundtrip.Steps.{assignment_suc}

module _ {D : Type 0} where
  -- The rounds of the loops that read an expression.
  abbrev pub calls : Postfix D → ℕ
  calls (leaf at v) = 0
  calls (paren l e r) = 0
  calls (subscript p l e r) = calls p + 1
  calls (call p l r) = calls p + 1
  calls (call_with p l xs r) = calls p + 1
  calls (member p b op n at) = calls p + 1
  calls (step p b op) = calls p + 1

  abbrev pub spine : Expr D → ℕ
  spine (of_operand u) = 0
  spine (braces l xs r) = 0
  spine (binary l at token r) = spine l + 1
  spine (ternary l at mid colon r) = spine l + 1

  abbrev pub commas : Expr D → ℕ
  commas (of_operand u) = 0
  commas (braces l xs r) = 0
  commas (binary l at token r) = if prec_of token == 1 then commas l + 1 else 0
  commas (ternary l at mid colon r) = 0

  pub size_postfix_pos : (p : Postfix D) → calls p + 1 ≤ size_postfix p
  size_postfix_pos (leaf at v) = omega arith
  size_postfix_pos (paren l e r) = omega arith
  size_postfix_pos (subscript p l e r) = omega (arith, size_postfix_pos p)
  size_postfix_pos (call p l r) = omega (arith, size_postfix_pos p)
  size_postfix_pos (call_with p l xs r) = omega (arith, size_postfix_pos p)
  size_postfix_pos (member p b op n at) = omega (arith, size_postfix_pos p)
  size_postfix_pos (step p b op) = omega (arith, size_postfix_pos p)

  size_operand_pos : (u : Operand D) → 1 ≤ size_operand u
  size_operand_pos (of_postfix p) = omega (arith, size_postfix_pos p)
  size_operand_pos (prefix at token u) = omega arith

  pub size_pos : (e : Expr D) → spine e + 1 ≤ size e
  size_pos (of_operand u) = omega (arith, size_operand_pos u)
  size_pos (braces l xs r) = omega arith
  size_pos (binary l at token r) = omega (arith, size_pos l)
  size_pos (ternary l at mid colon r) = omega (arith, size_pos l)

  pub commas_le : (e : Expr D) → commas e + 1 ≤ size e
  commas_le (of_operand u) = omega (arith, size_operand_pos u)
  commas_le (braces l xs r) = omega arith
  commas_le (binary l at token r) = ground (arith, commas_le l, size_pos l)
  commas_le (ternary l at mid colon r) = omega arith

module _ (B : Builder) where
  -- Whether the rest may stand behind an expression of a precedence above `m`.
  abbrev pub IsBehind : ℕ → Lexemes B → Type 0
  IsBehind m rest = (suffix_of (first B rest) ≡ other) × (prec_of (first B rest) < m)

  abbrev pub PostfixReads : Postfix B.Double → Type 0
  PostfixReads p =
      (rest : Lexemes B) (es : Errors B) (sx : B.Syntax) (u n f : ℕ)
      → n ≡ calls p + f
      → 8 * size_postfix p ≤ u + 2
      → 8 * size_postfix p ≤ n + 2
      → ((λ st. parse_primary_expression B u st) >>= λ x st. postfix_loop B n x st)
          (state B (show_postfix p rest) es sx)
        ≡ (build B (postfix_node B p) >>= λ x st. postfix_loop B f x st) (state B rest es sx)

  abbrev pub OperandReads : Operand B.Double → Type 0
  OperandReads u =
      (rest : Lexemes B) (es : Errors B) (sx : B.Syntax) (fuel : ℕ)
      → suffix_of (first B rest) ≡ other
      → 8 * size_operand u ≤ fuel
      → parse_unary_expression B fuel (state B (show_operand u rest) es sx)
        ≡ build B (operand_node B u) (state B rest es sx)

  abbrev pub ExprReads : Expr B.Double → Type 0
  ExprReads e =
      (rest : Lexemes B) (es : Errors B) (sx : B.Syntax) (u n f m : ℕ)
      → n ≡ spine e + f
      → 8 * size e ≤ u
      → 8 * size e ≤ n
      → m ≤ level e
      → IsBehind (stop e) rest
      → operands B u n m (state B (show e rest) es sx)
        ≡ (build B (node B e) >>= λ x. rhs B f x m) (state B rest es sx)

  abbrev pub ListReads : Expr B.Double → Type 0
  ListReads e =
      (rest : Lexemes B) (es : Errors B) (sx : B.Syntax) (u n f : ℕ)
      → n ≡ commas e + f
      → 8 * size e + 2 ≤ u
      → 8 * size e + 2 ≤ n
      → is_braced e ≡ false
      → IsBehind 2 rest
      → ((λ st. parse_assignment_expression B u st) >>= λ x. rhs B n x 1)
          (state B (show e rest) es sx)
        ≡ (build B (node B e) >>= λ x. rhs B f x 1) (state B rest es sx)

  abbrev pub InitializerReads : Expr B.Double → Type 0
  InitializerReads e =
      (rest : Lexemes B) (es : Errors B) (sx : B.Syntax) (fuel : ℕ)
      → 8 * size e + 4 ≤ fuel
      → is_initializer e ≡ true
      → IsBehind 2 rest
      → parse_initializer B fuel (state B (show e rest) es sx)
        ≡ build B (node B e) (state B rest es sx)

  abbrev pub InitsReads : Inits B.Double → Type 0
  InitsReads xs =
      (rest : Lexemes B) (es : Errors B) (sx : B.Syntax) (fuel : ℕ)
      → 8 * size_inits xs + 6 ≤ fuel
      → IsBehind 1 rest
      → is (first B rest) Wanted.comma ≡ false
      → parse_initializer_list B fuel (state B (show_inits xs rest) es sx)
        ≡ build B (nodes B xs) (state B rest es sx)

  -- A loop that is left behind the expression.
  pub ExprReads-whole :
      (e : Expr B.Double)
      → ExprReads e
      → (rest : Lexemes B) (es : Errors B) (sx : B.Syntax) (u n m : ℕ) → 8 * size e ≤ u
      → 8 * size e ≤ n
      → m ≤ level e
      → IsBehind m rest
      → operands B u n m (state B (show e rest) es sx) ≡ build B (node B e) (state B rest es sx)
  ExprReads-whole e reads rest es sx u n m enough plenty le behind =
      let left : ℕ = n - spine e - 1 in
      let same : n ≡ spine e + suc left = omega (arith, size_pos e) in
      let below : prec_of (first B rest) < stop e = omega (arith, stop_ge e, behind.1) in
      reads rest es sx u n (suc left) m same enough plenty le (behind.0, below)
      ∙ rhs-stop B left (node B e sx).0 m (state B rest es (node B e sx).1) (ground arith)

  -- An operand that begins with no brace is read as a unary expression.
  pub operands-unary :
      (e : Expr B.Double)
      → IsExpr e
      → is_braced e ≡ false
      → (rest : Lexemes B) (es : Errors B) (sx : B.Syntax) (u n m : ℕ)
      → ((λ st. parse_unary_expression B u st) >>= λ x. rhs B n x m) (state B (show e rest) es sx)
        ≡ operands B u n m (state B (show e rest) es sx)
  operands-unary e ok bare rest es sx u n m =
      let from : Parser B = state B (show e rest) es sx in
      let start : is (kind B from) Wanted.l_brace ≡ false = show-is_braced e rest ok ∙ bare in
      let same : operand B u from ≡ parse_unary_expression B u from = else_at _ _ from start in
      ap
        (λ (r : Option (B.Node × Parser B)). elim r [ none ↦ none | some (x, st) ↦ rhs B n x m st ])
        (sym same)

  pub assignment_reads :
      (e : Expr B.Double)
      → IsExpr e
      → ExprReads e
      → 2 ≤ level e
      → is_braced e ≡ false
      → (rest : Lexemes B) (es : Errors B) (sx : B.Syntax) (fuel : ℕ) → 8 * size e + 1 ≤ fuel
      → IsBehind 2 rest
      → parse_assignment_expression B fuel (state B (show e rest) es sx)
        ≡ build B (node B e) (state B rest es sx)
  assignment_reads e ok reads le bare rest es sx zero enough behind = absurd (omega arith)
  assignment_reads e ok reads le bare rest es sx (suc fuel) enough behind =
      assignment_suc B fuel (state B (show e rest) es sx)
      ∙ operands-unary e ok bare rest es sx fuel fuel 2
      ∙ ExprReads-whole e reads rest es sx fuel fuel 2 (omega arith) (omega arith) le behind
