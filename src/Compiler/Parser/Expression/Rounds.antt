-- ===== src/Compiler/Parser/Expression/Rounds.antt =====
-- What the functions for the expressions of libs/compiler/parser.c do, given the functions that they
-- call.
use ru_c.Prelude.{ℕ, Bool, true, false, none, some, List, [], ◌∷◌, ◌==◌, if◌then◌else◌}
use ru_c.Compiler.Operations.{Token, Unary, Precedence, token_to_unary, token_to_binary}
use ru_c.Compiler.Lexer.Source.{Content}
use ru_c.Compiler.Parser.State.{
  Action, ◌>>=◌, ◌>>◌, return, Location, Builder, ParserError, expected_r_paren, expected_r_square,
  expected_r_brace, expected_expression, expected_identifier_in_member_expr, empty_initializer,
  expected_colon_in_conditional_expr, ident_name, char_of, int_of, float_of, string_of, Wanted,
  Parser, kind, token_is, token_get_ident_name, consume_token, error, build, try_consume_token,
  skip,
}
use ru_c.Compiler.Parser.Expression.Tables.{
  Suffix, subscript, call, increment, decrement, other, member, is_prefix, prec, prec_of,
  right_prec, binds,
}

module _ (B : Builder) where
  abbrev pub Parse : Type 0
  Parse = Action (Parser B) B.Node

  -- The precedence of the current token.
  abbrev pub next_prec : Action (Parser B) ℕ
  next_prec prs = some (prec_of (kind B prs), prs)

  -- An error behind which the result is broken.
  abbrev pub broken : ParserError → Parse
  broken e = do error B e; return B.broken

  -- An error behind which the rest is skipped up to `close` or a `;`.
  abbrev pub abandon : ParserError → Wanted → Parse
  abandon e close = do
    error B e
    skip B (close ∷ Wanted.semicolon ∷ [])
    try_consume_token B close
    return B.broken

  -- `parse_primary_expression`, with the token that it switches on.
  abbrev pub primary_at : Parse → Token → Content B.Double → Parse
  primary_at expression Token.identifier value = do
    loc ← consume_token B
    build B (B.build_identifier_expression (ident_name value) loc)
  primary_at expression Token.char_literal value = do
    loc ← consume_token B
    build B (B.build_character_literal_expression (char_of value) loc)
  primary_at expression Token.int_literal value = do
    loc ← consume_token B
    build B (B.build_integer_literal_expression (int_of value) loc)
  primary_at expression Token.float_literal value = do
    loc ← consume_token B
    build B (B.build_floating_literal_expression (float_of B.no_value value) loc)
  primary_at expression Token.string_literal value = do
    loc ← consume_token B
    build B (B.build_string_literal_expression (string_of value) loc)
  primary_at expression Token.null_keyword value = do
    loc ← consume_token B
    build B (B.build_null_literal_expression loc)
  primary_at expression Token.true_keyword value = do
    loc ← consume_token B
    build B (B.build_boolean_literal_expression true loc)
  primary_at expression Token.false_keyword value = do
    loc ← consume_token B
    build B (B.build_boolean_literal_expression false loc)
  primary_at expression Token.l_paren value = do
    l_loc ← consume_token B
    subexpr ← expression
    closed ← try_consume_token B Wanted.r_paren
    if closed then return subexpr else broken expected_r_paren
  primary_at expression _ value = broken expected_expression

  -- `parse_initializer_list`, with the call of itself for its next round.
  abbrev pub initializer_list_round :
      Parse → Action (Parser B) (List B.Node) → Action (Parser B) (List B.Node)
  initializer_list_round initializer again = do
    first ← initializer
    more ← try_consume_token B Wanted.comma
    if more then (do others ← again; return (first ∷ others)) else return (first ∷ [])

  -- A round of the loop of `parse_postfix_expression`; `again` is the next one.
  abbrev pub postfix_round :
      Parse → Action (Parser B) (List B.Node) → (B.Node → Parse) → B.Node → Suffix → Parse
  postfix_round expression list again operand subscript = do
    l_loc ← consume_token B
    index ← expression
    closed ← token_is B Wanted.r_square
    next ←
        (if closed
          then (do
            r_loc ← consume_token B
            build B (B.build_subscript_expression operand index l_loc r_loc))
          else abandon expected_r_square Wanted.r_square)
    again next
  postfix_round expression list again operand call = do
    l_loc ← consume_token B
    is_empty ← token_is B Wanted.r_paren
    next ←
        (if is_empty
          then (do
            r_loc ← consume_token B
            build B (B.build_call_expression operand none l_loc r_loc))
          else (do
            args ← list
            closed ← token_is B Wanted.r_paren
            if closed
                then (do
                  r_loc ← consume_token B
                  build B (B.build_call_expression operand (some args) l_loc r_loc))
                else abandon expected_r_paren Wanted.r_paren))
    again next
  postfix_round expression list again operand (member is_arrow) = do
    op_loc ← consume_token B
    named ← token_is B Wanted.identifier
    next ←
        (if named
          then (do
            name ← token_get_ident_name B
            id_loc ← consume_token B
            build B (B.build_member_expression operand name is_arrow op_loc id_loc))
          else broken expected_identifier_in_member_expr)
    again next
  postfix_round expression list again operand increment = do
    op_loc ← consume_token B
    next ← build B (B.build_unary_expression operand Unary.postinc op_loc)
    again next
  postfix_round expression list again operand decrement = do
    op_loc ← consume_token B
    next ← build B (B.build_unary_expression operand Unary.postdec op_loc)
    again next
  postfix_round expression list again operand other = return operand

  -- `parse_unary_expression`; `token` is the current one.
  abbrev pub unary_at : Parse → Parse → Token → Parse
  unary_at postfix unary token =
      if is_prefix token
      then (do
        op_loc ← consume_token B
        operand ← unary
        build B (B.build_unary_expression operand (token_to_unary token).0 op_loc))
      else postfix

  -- The operand in the middle of a conditional expression, with the location of the operator.
  abbrev pub after_middle : B.Node → Location → Bool → Action (Parser B) (B.Node × Location)
  after_middle middle op_loc found =
      if found
      then (do colon_loc ← consume_token B; return (middle, colon_loc))
      else (do error B expected_colon_in_conditional_expr; return (middle, op_loc))

  abbrev pub middle_of : Parse → Location → Action (Parser B) (B.Node × Location)
  middle_of initializer op_loc = do
    middle ← initializer
    found ← token_is B Wanted.colon
    after_middle middle op_loc found

  -- A right operand.
  abbrev pub operand_at : Parse → Parse → Parse
  operand_at initializer unary = do
    braced ← token_is B Wanted.l_brace
    if braced then initializer else unary

  -- What an operator of the precedence `this` does with a right operand: the operators behind it that
  -- bind tighter take it first.
  abbrev pub tighter : (B.Node → ℕ → Parse) → ℕ → B.Node → Parse
  tighter rhs this operand = do
    next ← next_prec
    if binds this next then rhs operand (right_prec this) else return operand

  -- A round of `parse_RHS_of_binary_expression` whose condition holds, at an operator `op`. As
  -- `next_token_prec` is the precedence of the current token, the next round is a call of it.
  abbrev pub rhs_round : Parse → Parse → (B.Node → ℕ → Parse) → B.Node → ℕ → Token → Parse
  rhs_round initializer unary rhs lhs min_prec op =
      if prec_of op == prec Precedence.conditional
      then (do
        op_loc ← consume_token B
        (middle, colon_loc) ← middle_of initializer op_loc
        first ← operand_at initializer unary
        operand ← tighter rhs (prec_of op) first
        next ← build B (B.build_ternary_expression lhs middle operand colon_loc)
        rhs next min_prec)
      else (do
        op_loc ← consume_token B
        first ← operand_at initializer unary
        operand ← tighter rhs (prec_of op) first
        next ← build B (B.build_binary_expression lhs operand (token_to_binary op).0 op_loc)
        rhs next min_prec)

  -- `parse_initializer`; the flag is whether the current token is a `{`.
  abbrev pub initializer_at : Action (Parser B) (List B.Node) → Parse → Bool → Parse
  initializer_at list assignment true = do
    l_loc ← consume_token B
    is_empty ← try_consume_token B Wanted.r_brace
    if is_empty then broken empty_initializer else (do
      inits ← list
      closed ← token_is B Wanted.r_brace
      if closed
          then (do r_loc ← consume_token B; build B (B.build_initializer inits l_loc r_loc))
          else abandon expected_r_brace Wanted.r_brace)
  initializer_at list assignment false = assignment
