-- ===== src/Compiler/Parser/Roundtrip/Operators.antt =====
-- What the loop of `parse_RHS_of_binary_expression` in parser.c reads, operator by operator.
use ru_c.Prelude.{ℕ, zero, suc, ◌+◌, ◌-◌, ◌*◌, ◌≤◌, ◌≡◌, refl, ap, ◌∙◌, false, ◌∷◌, arith}
use ru_c.Compiler.Operations.{Token, get_operator_precedence}
use ru_c.Compiler.Parser.State.{Location, Builder, build}
use ru_c.Compiler.Parser.Expression.{
  prec, prec_of, right_prec, parse_assignment_expression, parse_expression,
}
use ru_c.Compiler.Parser.Grammar.{
  Expr, binary, ternary, level, left_prec, is_braced, IsExpr, IsPostfix, show_postfix, show, size,
  postfix_node, node, plain,
}
use ru_c.Compiler.Parser.Roundtrip.Tokens.{
  stop, show-is_braced, suffix_of-operator, prec_of_le, stop_left,
}
use ru_c.Compiler.Parser.Roundtrip.Rounds.{
  bind_some, state, rhs, rhs-stop, rhs-binary, rhs-ternary, Lexemes, Errors,
}
use ru_c.Compiler.Parser.Roundtrip.Steps.{expression_suc, initializer_plain}
use ru_c.Compiler.Parser.Roundtrip.Reads.{
  commas, size_pos, commas_le, IsBehind, ExprReads, ListReads, InitializerReads, ExprReads-whole,
  assignment_reads,
}

right_prec_le : (this : ℕ) → this ≤ 13 → right_prec this ≤ 14
unfolding prec
right_prec_le this le = ground arith

left_prec_ge : (this : ℕ) → this ≤ left_prec this
unfolding prec
left_prec_ge this = ground arith

module _ (B : Builder) (l r : Expr B.Double) (at : Location) where
  -- An operator behind its left operand.
  operator-IsBehind :
      (token : Token) (us : Lexemes B)
      → 1 ≤ prec_of token
      → left_prec (prec_of token) ≤ level l
      → IsBehind B (stop l) (plain at token ∷ us)
  operator-IsBehind token us pos le =
      (suffix_of-operator token pos, stop_left l (prec_of token) (prec_of_le token) le)

  pub binary_reads :
      (token : Token)
      → IsExpr (binary l at token r)
      → ExprReads B l
      → ExprReads B r
      → ExprReads B (binary l at token r)
  unfolding IsPostfix show_postfix postfix_node
  binary_reads token ok on_left on_right rest es sx u n zero m same enough plenty le behind =
      absurd (omega (arith, size_pos l))
  binary_reads token ok on_left on_right rest es sx u n (suc f) m same enough plenty le behind =
      let us : Lexemes B = show r rest in
      let sx' : B.Syntax = (node B l sx).1 in
      let whole =
        ExprReads-whole B r on_right rest es sx' (suc f) (suc f) (right_prec (prec_of token))
          (omega (arith, size_pos l)) (omega (arith, size_pos l)) ok.4 behind in
      on_left (plain at token ∷ us) es sx u n (suc (suc f)) m (omega arith) (omega arith)
        (omega arith) (omega (arith, left_prec_ge (prec_of token), ok.3))
        (operator-IsBehind token us ok.0.0 ok.3)
      ∙ rhs-binary B f m (node B l sx).0 at token us es sx' le ok.0.1 whole

  pub ternary_reads :
      (colon : Location) (mid : Expr B.Double)
      → IsExpr (ternary l at mid colon r)
      → ExprReads B l
      → InitializerReads B mid
      → ExprReads B r
      → ExprReads B (ternary l at mid colon r)
  unfolding IsPostfix show_postfix postfix_node prec prec_of get_operator_precedence
  ternary_reads colon mid ok on_left on_mid on_right rest es sx u n zero m same enough plenty le
        behind =
      absurd (omega (arith, size_pos l))
  ternary_reads colon mid ok on_left on_mid on_right rest es sx u n (suc f) m same enough plenty le
        behind =
      let us : Lexemes B = show r rest in
      let ts : Lexemes B = show mid (plain colon Token.colon ∷ us) in
      let (x, sx1) = node B l sx in
      let (y, sx2) = node B mid sx1 in
      let middle =
        on_mid (plain colon Token.colon ∷ us) es sx1 (suc f) (omega (arith, size_pos l, size_pos r))
          ok.4 (refl, omega arith) in
      let whole =
        ExprReads-whole B r on_right rest es sx2 (suc f) (suc f) 3 (omega (arith, size_pos l))
          (omega (arith, size_pos l)) ok.5 behind in
      on_left (plain at Token.question ∷ ts) es sx u n (suc (suc f)) m (omega arith) (omega arith)
        (omega arith) (omega (arith, ok.3)) (refl, stop_left l 3 (omega arith) ok.3)
      ∙ rhs-ternary B f m x at colon ts us es es sx1 sx2 y le middle whole

  pub comma_reads :
      (token : Token)
      → prec_of token ≡ 1
      → IsExpr (binary l at token r)
      → ListReads B l
      → ExprReads B r
      → ListReads B (binary l at token r)
  unfolding IsPostfix show_postfix postfix_node prec
  comma_reads token is_comma ok on_left on_right rest es sx u n zero same enough plenty bare
        behind =
      absurd (ground (arith, commas_le l))
  comma_reads token is_comma ok on_left on_right rest es sx u n (suc f) same enough plenty bare
        behind =
      let us : Lexemes B = show r rest in
      let (x, sx') = node B l sx in
      let counted : n ≡ commas l + 1 + suc f = ground arith in
      let tight : right_prec (prec_of token) ≡ 2 = ground arith in
      let right : 2 ≤ level r = omega (arith, ok.4) in
      let whole =
        ExprReads-whole B r on_right rest es sx' (suc f) (suc f) (right_prec (prec_of token))
          (omega (arith, commas_le l)) (omega (arith, commas_le l)) ok.4
          (behind.0, omega (arith, behind.1)) in
      on_left (plain at token ∷ us) es sx u n (suc (suc f)) (omega arith) (omega arith)
        (omega arith) bare (suffix_of-operator token ok.0.0, omega arith)
      ∙ rhs-binary B f 1 x at token us es sx' (omega arith) ok.0.1 whole

module _ (B : Builder) (e : Expr B.Double) (ok : IsExpr e) where
  pub assignment_alone : ExprReads B e → 2 ≤ level e → commas e ≡ 0 → ListReads B e
  assignment_alone reads le none_of rest es sx u n f same enough plenty bare behind =
      let kept : n ≡ f = omega arith in
      let whole = assignment_reads B e ok reads le bare rest es sx u (omega arith) behind in
      bind_some (λ x. rhs B n x 1) (λ st. parse_assignment_expression B u st) whole
      ∙ ap (λ k. rhs B k (node B e sx).0 1 (state B rest es (node B e sx).1)) kept

  pub expression_reads :
      ListReads B e
      → is_braced e ≡ false
      → (rest : Lexemes B) (es : Errors B) (sx : B.Syntax) (fuel : ℕ) → 8 * size e + 3 ≤ fuel
      → IsBehind B 1 rest
      → parse_expression B fuel (state B (show e rest) es sx)
        ≡ build B (node B e) (state B rest es sx)
  expression_reads reads bare rest es sx zero enough behind = absurd (omega arith)
  expression_reads reads bare rest es sx (suc fuel) enough behind =
      let left : ℕ = fuel - commas e - 1 in
      let same : fuel ≡ commas e + suc left = omega (arith, commas_le e) in
      expression_suc B fuel (state B (show e rest) es sx)
      ∙ reads rest es sx fuel fuel (suc left) same (omega arith) (omega arith) bare
          (behind.0, omega (arith, behind.1))
      ∙ rhs-stop B left (node B e sx).0 1 (state B rest es (node B e sx).1)
          (ground (arith, behind.1))

  pub initializer_reads : ExprReads B e → 2 ≤ level e → is_braced e ≡ false → InitializerReads B e
  initializer_reads reads le bare rest es sx zero enough shape behind = absurd (omega arith)
  initializer_reads reads le bare rest es sx (suc fuel) enough shape behind =
      initializer_plain B fuel (state B (show e rest) es sx) (show-is_braced e rest ok ∙ bare)
      ∙ assignment_reads B e ok reads le bare rest es sx fuel (omega arith) behind
