-- ===== src/Compiler/Parser/Expression.antt =====
-- The expressions of libs/compiler/parser.c. The functions call each other in a circle, so each call
-- costs a unit of fuel; what a function does is a definition of Rounds, given the functions that it
-- calls.
mod Tables
mod Rounds
pub use ru_c.Compiler.Parser.Expression.Tables.{
  Suffix, subscript, call, increment, decrement, other, member,
}
pub use ru_c.Compiler.Parser.Expression.Tables.{
  suffix_of, is_prefix, is_right_associative, right_prec, binds,
}
unfoldable pub use ru_c.Compiler.Parser.Expression.Tables.{prec, prec_of}
pub use ru_c.Compiler.Parser.Expression.Rounds.{
  Parse, next_prec, broken, abandon, primary_at, initializer_list_round, postfix_round, unary_at,
  after_middle, middle_of, operand_at, tighter, rhs_round, initializer_at,
}
use ru_c.Prelude.{
  ℕ, zero, suc, ◌+◌, Bool, true, false, ◌&&◌, ◌||◌, none, some, List, [], ◌∷◌, ltb, leb, ◌==◌,
  if◌then◌else◌,
}
use ru_c.Compiler.Operations.{
  Token, Unary, Precedence, token_to_unary, token_to_binary, get_operator_precedence,
}
use ru_c.Compiler.Lexer.Source.{Content}
use ru_c.Compiler.Parser.State.{
  Action, ◌>>=◌, ◌>>◌, return, Location, Builder, ParserError, expected_r_paren, expected_r_square,
  expected_r_brace, expected_expression, expected_identifier_in_member_expr, empty_initializer,
  expected_colon_in_conditional_expr, expected_l_paren_in_condition, ident_name, char_of, int_of,
  float_of, string_of, Wanted, is, Parser, kind, content, token_is, token_get_ident_name,
  consume_token, error, build, try_consume_token, skip,
}

module _ (B : Builder) where
  unfoldable mutual
    pub parse_primary_expression : ℕ → Parse B
    parse_primary_expression zero prs = none
    parse_primary_expression (suc fuel) prs =
        primary_at B (λ st. parse_expression fuel st) (kind B prs) (content B prs) prs

    pub parse_initializer_list : ℕ → Action (Parser B) (List B.Node)
    parse_initializer_list zero prs = none
    parse_initializer_list (suc fuel) prs =
        initializer_list_round B (λ st. parse_initializer fuel st)
          (λ st. parse_initializer_list fuel st) prs

    -- The loop of `parse_postfix_expression`.
    pub postfix_loop : ℕ → B.Node → Parse B
    postfix_loop zero operand prs = none
    postfix_loop (suc fuel) operand prs =
        postfix_round B (λ st. parse_expression fuel st) (λ st. parse_initializer_list fuel st)
          (λ next st. postfix_loop fuel next st) operand (suffix_of (kind B prs)) prs

    pub parse_postfix_expression : ℕ → Parse B
    parse_postfix_expression zero prs = none
    parse_postfix_expression (suc fuel) prs =
        ((λ st. parse_primary_expression fuel st) >>= λ operand st. postfix_loop fuel operand st)
          prs

    pub parse_unary_expression : ℕ → Parse B
    parse_unary_expression zero prs = none
    parse_unary_expression (suc fuel) prs =
        unary_at B (λ st. parse_postfix_expression fuel st) (λ st. parse_unary_expression fuel st)
          (kind B prs) prs

    pub parse_rhs_of_binary_expression : ℕ → B.Node → ℕ → Parse B
    parse_rhs_of_binary_expression zero lhs min_prec prs = none
    parse_rhs_of_binary_expression (suc fuel) lhs min_prec prs =
        if leb min_prec (prec_of (kind B prs))
        then rhs_round B (λ st. parse_initializer fuel st) (λ st. parse_unary_expression fuel st)
            (λ next m st. parse_rhs_of_binary_expression fuel next m st) lhs min_prec (kind B prs)
            prs
        else some (lhs, prs)

    pub parse_assignment_expression : ℕ → Parse B
    parse_assignment_expression zero prs = none
    parse_assignment_expression (suc fuel) prs =
        ((λ st. parse_unary_expression fuel st) >>= λ lhs st.
        parse_rhs_of_binary_expression fuel lhs (prec Precedence.assignment) st)
          prs

    pub parse_expression : ℕ → Parse B
    parse_expression zero prs = none
    parse_expression (suc fuel) prs =
        ((λ st. parse_assignment_expression fuel st) >>= λ lhs st.
        parse_rhs_of_binary_expression fuel lhs (prec Precedence.comma) st)
          prs

    pub parse_initializer : ℕ → Parse B
    parse_initializer zero prs = none
    parse_initializer (suc fuel) prs =
        initializer_at B (λ st. parse_initializer_list fuel st)
          (λ st. parse_assignment_expression fuel st) (is (kind B prs) Wanted.l_brace) prs

  unfoldable pub parse_constant_expression : ℕ → Parse B
  unfolding parse_unary_expression
  parse_constant_expression fuel = do
    lhs ← parse_unary_expression fuel
    whole ← parse_rhs_of_binary_expression fuel lhs (prec Precedence.conditional)
    build B (B.build_constant_expression whole)

  -- `parse_condition` behind a broken expression, and behind a correct one.
  abbrev pub broken_condition : Parse B
  broken_condition = do
    skip B (Wanted.r_paren ∷ Wanted.semicolon ∷ [])
    try_consume_token B Wanted.r_paren
    return B.broken

  abbrev pub closed_condition : B.Node → Parse B
  closed_condition condition = do
    closed ← try_consume_token B Wanted.r_paren
    if closed
        then build B (B.build_condition condition)
        else (do error B expected_r_paren; skip B (Wanted.semicolon ∷ []); return B.broken)

  abbrev pub checked_condition : B.Node → Parse B
  checked_condition condition =
      if B.is_correct condition then closed_condition condition else broken_condition

  unfoldable pub parse_condition : ℕ → Parse B
  unfolding parse_expression
  parse_condition fuel = do
    opened ← token_is B Wanted.l_paren
    if opened
        then (do
          l_loc ← consume_token B
          condition ← parse_expression fuel
          checked_condition condition)
        else (do
          error B expected_l_paren_in_condition
          skip B (Wanted.semicolon ∷ [])
          return B.broken)
