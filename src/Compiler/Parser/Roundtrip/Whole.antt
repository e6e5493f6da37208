-- ===== src/Compiler/Parser/Roundtrip/Whole.antt =====
-- parse_expression of parser.c reads the expressions of the grammar, as they are meant.
use ru_c.Prelude.{
  ℕ, ◌+◌, ◌*◌, ◌≤◌, ◌<◌, ◌≡◌, ◌≢◌, refl, ap, ◌∙◌, Bool, true, false, none, some, List, [], ◌∷◌, leb,
  ◌&&◌, not, arith,
}
use ru_c.Compiler.Operations.{
  Token, Binary, token_to_unary, token_to_binary, get_operator_precedence,
}
use ru_c.Compiler.Parser.State.{Builder}
use ru_c.Compiler.Parser.Expression.{
  other, suffix_of, is_prefix, prec, prec_of, right_prec, parse_expression,
}
use ru_c.Compiler.Parser.Grammar.{
  Postfix, Operand, Expr, Inits, leaf, paren, subscript, call, call_with, member, step, of_postfix,
  prefix, of_operand, braces, binary, ternary, one, more, step_kind, level, is_braced,
  is_initializer, left_prec, IsExpr, IsInits, IsOperand, IsPostfix, show, size, postfix_node,
  operand_node, node, nodes,
}
use ru_c.Compiler.Parser.Written.{
  operator_level, binary_kind, is_unary, unary_kind, left_level, right_level, rank,
  IsWrittenPostfix, IsWrittenOperand, IsWritten, AreInitializers, postfix_meaning, operand_meaning,
  meaning, meanings, continues,
}
use ru_c.Compiler.Parser.Roundtrip.Rounds.{state, first, Lexemes, Errors}
use ru_c.Compiler.Parser.Roundtrip.Correct.{parse_expression_reads}

-- The tables of the code at the operators of the grammar.
agrees_binary :
    (token : Token)
    → 1 ≤ operator_level token
    → (prec_of token ≡ operator_level token)
      × ((token_to_binary token).0 ≡ binary_kind token)
      × (operator_level token ≢ 3)
unfolding prec_of prec get_operator_precedence token_to_binary
agrees_binary Token.comma pos = ground arith
agrees_binary _ pos = ground arith

agrees_unary :
    (token : Token)
    → is_unary token ≡ true
    → (is_prefix token ≡ true) × ((token_to_unary token).0 ≡ unary_kind token)
unfolding token_to_unary
agrees_unary Token.comma e = ground arith
agrees_unary _ e = ground arith

ends : (token : Token) → continues token ≡ false → (suffix_of token ≡ other) × (prec_of token < 1)
unfolding prec_of prec get_operator_precedence
ends Token.comma e = ground arith
ends _ e = ground arith

left_agrees : (p k : ℕ) → p ≢ 3 → left_level p ≤ k → left_prec p ≤ k
unfolding prec
left_agrees p k ne le = ground arith

right_agrees : (p k : ℕ) → p ≢ 3 → right_level p ≤ k → right_prec p ≤ k
unfolding prec
right_agrees p k ne le = ground arith

starts_bare : (p : ℕ) (b : Bool) → b ≡ false → 2 ≤ p → (leb 2 p && not b) ≡ true
starts_bare p b e le = ground arith

module _ {D : Type 0} where
  abbrev IsRead : Bool → Expr D → Type 0
  IsRead initializer e =
      IsExpr e
      × (initializer ≡ false → is_braced e ≡ false)
      × (2 ≤ rank e → is_initializer e ≡ true)
      × (level e ≡ rank e)

  binary_read :
      (l : Expr D) (token : Token) (r : Expr D)
      → 1 ≤ operator_level token
      → left_level (operator_level token) ≤ rank l
      → right_level (operator_level token) ≤ rank r
      → level l ≡ rank l
      → level r ≡ rank r
      → (1 ≤ prec_of token)
        × (prec_of token ≢ 3)
        × (left_prec (prec_of token) ≤ level l)
        × (right_prec (prec_of token) ≤ level r)
        × (prec_of token ≡ operator_level token)
  binary_read l token r pos le le' same same' =
      let (p, kind, ne) = agrees_binary token pos in
      let left : left_prec (operator_level token) ≤ level l =
        left_agrees (operator_level token) (level l) ne (omega arith) in
      let right : right_prec (operator_level token) ≤ level r =
        right_agrees (operator_level token) (level r) ne (omega arith) in
      rw p (pos, ne, left, right, refl)

  mutual
    unfolding IsWrittenPostfix IsPostfix

    read_postfix : (p : Postfix D) → IsWrittenPostfix p → IsPostfix p
    read_postfix (leaf at v) w = tt
    read_postfix (paren l e r) w = let facts = read false e w in (facts.0, facts.1 refl)
    read_postfix (subscript p l e r) w =
        let facts = read false e w.1 in (read_postfix p w.0, facts.0, facts.1 refl)
    read_postfix (call p l r) w = read_postfix p w
    read_postfix (call_with p l xs r) w = (read_postfix p w.0, read_inits xs w.1)
    read_postfix (member p b op n at) w = read_postfix p w
    read_postfix (step p b op) w = read_postfix p w

    read_operand : (u : Operand D) → IsWrittenOperand u → IsOperand u
    read_operand (of_postfix p) w = read_postfix p w
    read_operand (prefix at token u) w = ((agrees_unary token w.0).0, read_operand u w.1)

    read : (initializer : Bool) (e : Expr D) → IsWritten initializer e → IsRead initializer e
    read initializer (of_operand u) w = (read_operand u w, (λ e. refl), (λ le. refl), refl)
    read initializer (braces l xs r) w =
        (read_inits xs w.1, (λ e. absurd (ground arith)), (λ le. refl), refl)
    read initializer (binary l at token r) (pos, on_l, on_r, le, le') =
        let left = read false l on_l in
        let right = read false r on_r in
        let (pos', ne, above, above', same) = binary_read l token r pos le le' left.3 right.3 in
        (
          ((pos', ne), left.0, right.0, above, above'),
          (λ e. left.1 refl),
          (λ two. starts_bare (prec_of token) (is_braced l) (left.1 refl) (omega arith)),
          same,
        )
    read initializer (ternary l at mid colon r) (on_l, on_mid, on_r, four, two, three) =
        let left = read false l on_l in
        let middle = read false mid on_mid in
        let right = read false r on_r in
        (
          (left.0, middle.0, right.0, omega (arith, left.3), middle.2 two, omega (arith, right.3)),
          (λ e. left.1 refl),
          (λ le. ap not (left.1 refl)),
          refl,
        )

    read_inits : (xs : Inits D) → AreInitializers xs → IsInits xs
    read_inits (one e) w = let facts = read true e w.0 in (facts.0, facts.2 w.1)
    read_inits (more e at xs) w =
        let facts = read true e w.0 in (facts.0, facts.2 w.1, read_inits xs w.2)

module _ (B : Builder) where
  abbrev Result : Type 0
  Result = B.Node × B.Syntax

  mutual
    unfolding IsWrittenPostfix postfix_node postfix_meaning

    means_postfix :
        (p : Postfix B.Double) (sx : B.Syntax)
        → IsWrittenPostfix p
        → postfix_node B p sx ≡ postfix_meaning B p sx
    means_postfix (leaf at v) sx w = refl
    means_postfix (paren l e r) sx w = means false e sx w
    means_postfix (subscript p l e r) sx w =
        let (x, sx') = postfix_meaning B p sx in
        ap (λ (q : Result). B.build_subscript_expression q.0 (node B e q.1).0 l r (node B e q.1).1)
          (means_postfix p sx w.0)
        ∙ ap (λ (q : Result). B.build_subscript_expression x q.0 l r q.1) (means false e sx' w.1)
    means_postfix (call p l r) sx w =
        ap (λ (q : Result). B.build_call_expression q.0 none l r q.1) (means_postfix p sx w)
    means_postfix (call_with p l xs r) sx w =
        let (x, sx') = postfix_meaning B p sx in
        ap
          (λ (q : Result).
            B.build_call_expression q.0 (some (nodes B xs q.1).0) l r (nodes B xs q.1).1)
          (means_postfix p sx w.0)
        ∙ ap (λ (q : List B.Node × B.Syntax). B.build_call_expression x (some q.0) l r q.1)
            (means_inits xs sx' w.1)
    means_postfix (member p b op n at) sx w =
        ap (λ (q : Result). B.build_member_expression q.0 n b op at q.1) (means_postfix p sx w)
    means_postfix (step p b op) sx w =
        ap (λ (q : Result). B.build_unary_expression q.0 (step_kind b) op q.1)
          (means_postfix p sx w)

    means_operand :
        (u : Operand B.Double) (sx : B.Syntax)
        → IsWrittenOperand u
        → operand_node B u sx ≡ operand_meaning B u sx
    means_operand (of_postfix p) sx w = means_postfix p sx w
    means_operand (prefix at token u) sx w =
        let (x, sx') = operand_meaning B u sx in
        ap (λ (q : Result). B.build_unary_expression q.0 (token_to_unary token).0 at q.1)
          (means_operand u sx w.1)
        ∙ ap (λ kind. B.build_unary_expression x kind at sx') (agrees_unary token w.0).1

    means :
        (initializer : Bool) (e : Expr B.Double) (sx : B.Syntax)
        → IsWritten initializer e
        → node B e sx ≡ meaning B e sx
    means initializer (of_operand u) sx w = means_operand u sx w
    means initializer (braces l xs r) sx w =
        ap (λ (q : List B.Node × B.Syntax). B.build_initializer q.0 l r q.1) (means_inits xs sx w.1)
    means initializer (binary l at token r) sx (pos, on_l, on_r, le, le') =
        let (x, sx') = meaning B l sx in
        let (y, sx'') = meaning B r sx' in
        let made : Binary → Result → Result → Result =
          λ kind q q'. B.build_binary_expression q.0 q'.0 kind at q'.1 in
        ap (λ (q : Result). made (token_to_binary token).0 q (node B r q.1)) (means false l sx on_l)
        ∙ ap (made (token_to_binary token).0 (x, sx')) (means false r sx' on_r)
        ∙ ap (λ kind. made kind (x, sx') (y, sx'')) (agrees_binary token pos).1
    means initializer (ternary l at mid colon r) sx (on_l, on_mid, on_r, four, two, three) =
        let (x, sx') = meaning B l sx in
        let (y, sx'') = meaning B mid sx' in
        let made : Result → Result → Result → Result =
          λ q q' q''. B.build_ternary_expression q.0 q'.0 q''.0 colon q''.1 in
        let last : Result → Result → Result = λ q q'. made q q' (node B r q'.1) in
        ap (λ (q : Result). last q (node B mid q.1)) (means false l sx on_l)
        ∙ ap (last (x, sx')) (means false mid sx' on_mid)
        ∙ ap (made (x, sx') (y, sx'')) (means false r sx'' on_r)

    means_inits :
        (xs : Inits B.Double) (sx : B.Syntax)
        → AreInitializers xs
        → nodes B xs sx ≡ meanings B xs sx
    means_inits (one e) sx w = ap (λ (q : Result). (q.0 ∷ [], q.1)) (means true e sx w.0)
    means_inits (more e at xs) sx w =
        let (x, sx') = meaning B e sx in
        ap (λ (q : Result). (q.0 ∷ (nodes B xs q.1).0, (nodes B xs q.1).1)) (means true e sx w.0)
        ∙ ap (λ (q : List B.Node × B.Syntax). (x ∷ q.0, q.1)) (means_inits xs sx' w.2)

  -- An expression of the grammar, with a rest behind it that begins with no operator and nothing else
  -- that goes on with an expression: with three units of fuel and eight for each of its tokens,
  -- `parse_expression` makes the calls of the builder that the expression means, from left to right,
  -- returns what the last one made, leaves the rest, and reports nothing.
  pub parse_expression-show :
      (e : Expr B.Double)
      → IsWritten false e
      → (rest : Lexemes B) (es : Errors B) (sx : B.Syntax) (fuel : ℕ) → 8 * size e + 3 ≤ fuel
      → continues (first B rest) ≡ false
      → parse_expression B fuel (state B (show e rest) es sx)
        ≡ some ((meaning B e sx).0, state B rest es (meaning B e sx).1)
  parse_expression-show e w rest es sx fuel enough last =
      let (ok, bare, single, same) = read false e w in
      parse_expression_reads B e ok (bare refl) rest es sx fuel enough (ends (first B rest) last)
      ∙ ap (λ r. some (r.0, state B rest es r.1)) (means false e sx w)
