-- ===== src/Compiler/Parser/Roundtrip/Operands.antt =====
-- What the functions for postfix expressions, operands and initializers in parser.c read.
use ru_c.Prelude.{
  ℕ, zero, suc, ◌+◌, ◌-◌, ◌*◌, ◌≤◌, ◌≡◌, refl, ap, ◌∙◌, Bool, true, false, ◌∷◌, arith,
}
use ru_c.Utils.Item.{Size}
use ru_c.Compiler.Operations.{Token, get_operator_precedence}
use ru_c.Compiler.Lexer.Source.{ident_repr}
use ru_c.Compiler.Parser.State.{return, Location, Builder, Parser, build}
use ru_c.Compiler.Parser.Expression.{
  is_prefix, prec, prec_of, parse_primary_expression, parse_initializer_list, parse_initializer,
  postfix_loop,
}
use ru_c.Compiler.Parser.Grammar.{
  Leaf, Postfix, Operand, Expr, Inits, leaf, paren, subscript, call, call_with, member, step,
  of_postfix, prefix, of_operand, braces, one, more, is_braced, is_initializer, IsExpr, IsInits,
  IsOperand, show_postfix, show_operand, show, show_inits, size_inits, postfix_node, operand_node,
  node, leaf_node, plain, lexeme, member_token, step_token,
}
use ru_c.Compiler.Parser.Roundtrip.Tokens.{
  show_postfix-IsStart, show_operand-IsOpen, show_inits-IsInner,
}
use ru_c.Compiler.Parser.Roundtrip.Rounds.{bind_some, else_at, state, rhs, operand, Lexemes, Errors}
use ru_c.Compiler.Parser.Roundtrip.Steps.{
  primary_leaf, primary_paren, loop_stop, loop_subscript, loop_call, loop_call_with, loop_member,
  loop_step, postfix_suc, unary_postfix, unary_prefix, initializer_braces, list_one, list_more,
}
use ru_c.Compiler.Parser.Roundtrip.Reads.{
  calls, size_postfix_pos, size_pos, PostfixReads, OperandReads, ExprReads, ListReads,
  InitializerReads, InitsReads,
}
use ru_c.Compiler.Parser.Roundtrip.Operators.{expression_reads}

module _ (B : Builder) where
  pub leaf_reads : (at : Location) (v : Leaf B.Double) → PostfixReads B (leaf at v)
  unfolding show_postfix postfix_node
  leaf_reads at v rest es sx zero n f same enough plenty = absurd (omega arith)
  leaf_reads at v rest es sx (suc u) n f same enough plenty =
      let (x, sx') = leaf_node B at v sx in
      let kept : n ≡ f = omega arith in
      bind_some (λ z st. postfix_loop B n z st) (λ st. parse_primary_expression B (suc u) st)
        (primary_leaf B u es sx at v rest)
      ∙ ap (λ k. postfix_loop B k x (state B rest es sx')) kept

  pub paren_reads :
      (l r : Location) (e : Expr B.Double)
      → IsExpr e
      → ListReads B e
      → is_braced e ≡ false
      → PostfixReads B (paren l e r)
  unfolding show_postfix postfix_node prec prec_of get_operator_precedence
  paren_reads l r e ok on_e bare rest es sx zero n f same enough plenty = absurd (omega arith)
  paren_reads l r e ok on_e bare rest es sx (suc u) n f same enough plenty =
      let (x, sx') = node B e sx in
      let kept : n ≡ f = omega arith in
      let close : Lexemes B = plain r Token.r_paren ∷ rest in
      let inner =
        expression_reads B e ok on_e bare close es sx u (omega arith) (refl, omega arith) in
      bind_some (λ z st. postfix_loop B n z st) (λ st. parse_primary_expression B (suc u) st)
        (primary_paren B u es sx l r (show e close) rest inner)
      ∙ ap (λ k. postfix_loop B k x (state B rest es sx')) kept

  module _ (p : Postfix B.Double) (on_p : PostfixReads B p) where
    pub subscript_reads :
        (l r : Location) (e : Expr B.Double)
        → IsExpr e
        → ListReads B e
        → is_braced e ≡ false
        → PostfixReads B (subscript p l e r)
    unfolding show_postfix postfix_node prec prec_of get_operator_precedence
    subscript_reads l r e ok on_e bare rest es sx u n f same enough plenty =
        let (x, sx') = postfix_node B p sx in
        let close : Lexemes B = plain r Token.r_square ∷ rest in
        let index =
          expression_reads B e ok on_e bare close es sx' f (omega (arith, size_postfix_pos p))
            (refl, omega arith) in
        on_p (plain l Token.l_square ∷ show e close) es sx u n (suc f) (omega arith) (omega arith)
          (omega arith)
        ∙ loop_subscript B f es sx' x l r (show e close) rest index

    pub call_reads : (l r : Location) → PostfixReads B (call p l r)
    unfolding show_postfix postfix_node
    call_reads l r rest es sx u n f same enough plenty =
        let (x, sx') = postfix_node B p sx in
        on_p (plain l Token.l_paren ∷ plain r Token.r_paren ∷ rest) es sx u n (suc f) (omega arith)
          (omega arith) (omega arith)
        ∙ loop_call B f es sx' x l r rest

    pub call_with_reads :
        (l r : Location) (xs : Inits B.Double)
        → IsInits xs
        → InitsReads B xs
        → PostfixReads B (call_with p l xs r)
    unfolding show_postfix postfix_node prec prec_of get_operator_precedence
    call_with_reads l r xs ok on_xs rest es sx u n f same enough plenty =
        let (x, sx') = postfix_node B p sx in
        let close : Lexemes B = plain r Token.r_paren ∷ rest in
        let args =
          on_xs close es sx' f (omega (arith, size_postfix_pos p)) (refl, omega arith) refl in
        on_p (plain l Token.l_paren ∷ show_inits xs close) es sx u n (suc f) (omega arith)
          (omega arith) (omega arith)
        ∙ loop_call_with B f es sx' x l r (show_inits xs close) rest
            (show_inits-IsInner xs close ok).0 args

    pub member_reads :
        (b : Bool) (op at : Location) (name : Size) → PostfixReads B (member p b op name at)
    unfolding show_postfix postfix_node
    member_reads b op at name rest es sx u n f same enough plenty =
        let (x, sx') = postfix_node B p sx in
        on_p (plain op (member_token b) ∷ lexeme at Token.identifier (ident_repr name) ∷ rest) es sx
          u n (suc f) (omega arith) (omega arith) (omega arith)
        ∙ loop_member B f es sx' x b op at name rest

    pub step_reads : (b : Bool) (op : Location) → PostfixReads B (step p b op)
    unfolding show_postfix postfix_node
    step_reads b op rest es sx u n f same enough plenty =
        let (x, sx') = postfix_node B p sx in
        on_p (plain op (step_token b) ∷ rest) es sx u n (suc f) (omega arith) (omega arith)
          (omega arith)
        ∙ loop_step B f es sx' x b op rest

    pub of_postfix_reads : OperandReads B (of_postfix p)
    unfolding show_postfix postfix_node
    of_postfix_reads rest es sx zero stops enough = absurd (omega (arith, size_postfix_pos p))
    of_postfix_reads rest es sx (suc zero) stops enough = absurd (omega (arith, size_postfix_pos p))
    of_postfix_reads rest es sx (suc (suc v)) stops enough =
        let from : Parser B = state B (show_postfix p rest) es sx in
        let (x, sx') = postfix_node B p sx in
        let left : ℕ = v - calls p - 1 in
        let same : v ≡ calls p + suc left = omega (arith, size_postfix_pos p) in
        unary_postfix B (suc v) from (show_postfix-IsStart p rest).0
        ∙ postfix_suc B v from
        ∙ on_p rest es sx v v (suc left) same (omega arith) (omega arith)
        ∙ loop_stop B left es sx' x rest stops

  pub prefix_reads :
      (at : Location) (token : Token) (u : Operand B.Double)
      → is_prefix token ≡ true
      → OperandReads B u
      → OperandReads B (prefix at token u)
  unfolding show_postfix postfix_node
  prefix_reads at token u ok on_u rest es sx zero stops enough = absurd (omega arith)
  prefix_reads at token u ok on_u rest es sx (suc v) stops enough =
      unary_prefix B v es sx at token (show_operand u rest) ok
        (on_u rest es sx v stops (omega arith))

  pub of_operand_reads :
      (u : Operand B.Double) → IsOperand u → OperandReads B u → ExprReads B (of_operand u)
  unfolding show_postfix postfix_node
  of_operand_reads u ok on_u rest es sx v n f m same enough plenty le behind =
      let from : Parser B = state B (show_operand u rest) es sx in
      let (x, sx') = operand_node B u sx in
      let kept : n ≡ f = omega arith in
      bind_some (λ z. rhs B n z m) (operand B v) {from = from}
        (else_at _ _ from (show_operand-IsOpen u rest ok).0 ∙ on_u rest es sx v behind.0 enough)
      ∙ ap (λ k. rhs B k x m (state B rest es sx')) kept

  module _ (l r : Location) (xs : Inits B.Double) (ok : IsInits xs) (on_xs : InitsReads B xs) where
    braces_from :
        (rest : Lexemes B) (es : Errors B) (sx : B.Syntax) (fuel : ℕ)
        → 8 * size_inits xs + 8 ≤ fuel
        → parse_initializer B fuel (state B (show (braces l xs r) rest) es sx)
          ≡ build B (node B (braces l xs r)) (state B rest es sx)
    unfolding show_postfix postfix_node prec prec_of get_operator_precedence
    braces_from rest es sx zero enough = absurd (omega arith)
    braces_from rest es sx (suc v) enough =
        let close : Lexemes B = plain r Token.r_brace ∷ rest in
        let inits = on_xs close es sx v (omega arith) (refl, omega arith) refl in
        initializer_braces B v es sx l r (show_inits xs close) rest
          (show_inits-IsInner xs close ok).1 inits

    pub braces_alone : InitializerReads B (braces l xs r)
    braces_alone rest es sx fuel enough shape behind = braces_from rest es sx fuel (omega arith)

    pub braces_reads : ExprReads B (braces l xs r)
    unfolding show_postfix postfix_node
    braces_reads rest es sx u n f m same enough plenty le behind =
        let from : Parser B = state B (show (braces l xs r) rest) es sx in
        let (x, sx') = node B (braces l xs r) sx in
        let kept : n ≡ f = omega arith in
        bind_some (λ z. rhs B n z m) (operand B u) {from = from}
          (braces_from rest es sx u (omega arith))
        ∙ ap (λ k. rhs B k x m (state B rest es sx')) kept

  pub one_reads :
      (e : Expr B.Double) → is_initializer e ≡ true → InitializerReads B e → InitsReads B (one e)
  unfolding show_postfix postfix_node
  one_reads e shape on_e rest es sx zero enough behind last = absurd (omega arith)
  one_reads e shape on_e rest es sx (suc v) enough behind last =
      list_one B v es sx (show e rest) rest last
        (on_e rest es sx v (omega arith) shape (behind.0, omega (arith, behind.1)))

  pub more_reads :
      (e : Expr B.Double) (at : Location) (xs : Inits B.Double)
      → is_initializer e ≡ true
      → InitializerReads B e
      → InitsReads B xs
      → InitsReads B (more e at xs)
  unfolding show_postfix postfix_node prec prec_of get_operator_precedence
  more_reads e at xs shape on_e on_xs rest es sx zero enough behind last = absurd (omega arith)
  more_reads e at xs shape on_e on_xs rest es sx (suc v) enough behind last =
      let (x, sx') = node B e sx in
      let us : Lexemes B = show_inits xs rest in
      list_more B v es sx (show e (plain at Token.comma ∷ us)) us at
        (on_e (plain at Token.comma ∷ us) es sx v (omega arith) shape (refl, omega arith))
      ∙ bind_some (λ others. return (x ∷ others)) (λ st. parse_initializer_list B v st)
          (on_xs rest es sx' v (omega (arith, size_pos e)) behind last)
