-- ===== src/Compiler/Parser/Statement.antt =====
-- The statements of libs/compiler/parser.c, from parse_case_statement to parse_statement. The functions
-- call each other in a circle, so each call costs a unit of fuel; what a function does is a definition
-- of its own, given the statement that it calls.
use ru_c.Prelude.{ℕ, zero, suc, ◌||◌, Option, none, some, List, [], ◌∷◌, if◌then◌else◌}
use ru_c.Compiler.Operations.{Token}
use ru_c.Compiler.Parser.State.{
  ◌>>=◌, ◌>>◌, return, Builder, case_not_in_switch, default_not_in_switch,
  expected_colon_after_case, expected_colon_after_default, expected_semi_after_expr,
  expected_semi_after_stmt, expected_while, expected_l_paren_after_for,
  expected_semi_in_for_specifier, continue_not_in_loop, break_not_in_loop_or_switch,
  expected_r_paren, expected_r_brace, Wanted, kind, consume_token, error, try_consume_token,
}
use ru_c.Compiler.Parser.Expression.{
  Parse, parse_expression, parse_constant_expression, parse_condition,
}
use ru_c.Compiler.Parser.Context.{
  Statements, Act, lift, at, make, expect, give_up, refuse, is_declaration_specifier, in_switch,
  in_loop, set_was_return, enter, leave, loop_body, switch_body,
}

module _ (B : Builder) (S : Statements B) where
  module _ (statement : Act B S B.Node) (expression constant condition : Parse B) where
    abbrev pub case_statement : Act B S B.Node
    case_statement = do
      case_loc ← lift B S (consume_token B)
      allowed ← in_switch B S
      if allowed
          then (do
            expr ← lift B S constant
            if B.is_correct expr
                then (do
                  expect B S Wanted.colon expected_colon_after_case
                  substmt ← statement
                  make B S (S.build_case_statement expr substmt case_loc))
                else give_up B S (Wanted.semicolon ∷ Wanted.r_brace ∷ []))
          else refuse B S case_not_in_switch

    abbrev pub default_statement : Act B S B.Node
    default_statement = do
      default_loc ← lift B S (consume_token B)
      allowed ← in_switch B S
      if allowed
          then (do
            expect B S Wanted.colon expected_colon_after_default
            substmt ← statement
            make B S (S.build_default_statement substmt default_loc))
          else refuse B S default_not_in_switch

    -- A round of the loop of `parse_compound_statement_body`, given the next one.
    abbrev pub block_round : Act B S (List B.Node) → Act B S (List B.Node)
    block_round again = do
      closed ← at B S Wanted.r_brace
      ended ← at B S Wanted.eof
      if closed || ended then return [] else (do
        declares ← is_declaration_specifier B S
        stmt ← (if declares then lift B S S.parse_declaration else statement)
        others ← again
        return (stmt ∷ others))

    -- `parse_compound_statement_body`, given its loop.
    abbrev pub compound_statement_body : Act B S (List B.Node) → Act B S B.Node
    compound_statement_body loop = do
      l_loc ← lift B S (consume_token B)
      stmts ← loop
      closed ← at B S Wanted.r_brace
      if closed
          then (do
            r_loc ← lift B S (consume_token B)
            make B S (S.build_compound_statement stmts l_loc r_loc))
          else (do lift B S (error B expected_r_brace); return B.broken)

    abbrev pub compound_statement : Act B S (List B.Node) → Act B S B.Node
    compound_statement loop = do
      scp ← enter B S
      body ← compound_statement_body loop
      leave B S scp
      return body

    abbrev pub expression_statement : Act B S B.Node
    expression_statement = do
      expr ← lift B S expression
      if B.is_correct expr
          then (do expect B S Wanted.semicolon expected_semi_after_expr; return expr)
          else give_up B S (Wanted.semicolon ∷ [])

    abbrev pub if_statement : Act B S B.Node
    if_statement = do
      if_loc ← lift B S (consume_token B)
      cond ← lift B S condition
      then_stmt ← statement
      has_else ← lift B S (try_consume_token B Wanted.else_keyword)
      if has_else
          then (do
            else_stmt ← statement
            make B S (S.build_if_statement cond then_stmt (some else_stmt) if_loc))
          else make B S (S.build_if_statement cond then_stmt none if_loc)

    abbrev pub switch_statement : Act B S B.Node
    switch_statement = do
      switch_loc ← lift B S (consume_token B)
      cond ← lift B S condition
      body ← switch_body B S statement
      make B S (S.build_switch_statement cond body switch_loc)

    abbrev pub while_statement : Act B S B.Node
    while_statement = do
      while_loc ← lift B S (consume_token B)
      cond ← lift B S condition
      body ← loop_body B S statement
      make B S (S.build_while_statement cond body while_loc)

    abbrev pub do_statement : Act B S B.Node
    do_statement = do
      do_loc ← lift B S (consume_token B)
      body ← loop_body B S statement
      found ← lift B S (try_consume_token B Wanted.while_keyword)
      if found
          then (do
            cond ← lift B S condition
            expect B S Wanted.semicolon expected_semi_after_stmt
            make B S (S.build_do_statement body cond do_loc))
          else refuse B S expected_while

    -- An expression in the head of a `for` with its `;`; `none` is an early return.
    abbrev pub head_expression : Act B S (Option (Option B.Node))
    head_expression = do
      expr ← lift B S expression
      if B.is_correct expr
          then (do
            ended ← lift B S (try_consume_token B Wanted.semicolon)
            if ended
                then return (some (some expr))
                else (do refuse B S expected_semi_in_for_specifier; return none))
          else (do give_up B S (Wanted.semicolon ∷ []); return none)

    abbrev pub for_init : Act B S (Option (Option B.Node))
    for_init = do
      empty ← lift B S (try_consume_token B Wanted.semicolon)
      if empty then return (some none) else (do
        declares ← is_declaration_specifier B S
        if declares
            then (do init ← lift B S S.parse_declaration; return (some (some init)))
            else head_expression)

    abbrev pub for_cond : Act B S (Option (Option B.Node))
    for_cond = do
      empty ← lift B S (try_consume_token B Wanted.semicolon)
      if empty then return (some none) else head_expression

    abbrev pub for_incr : Act B S (Option (Option B.Node))
    for_incr = do
      empty ← at B S Wanted.r_paren
      if empty then return (some none) else (do
        incr ← lift B S expression
        if B.is_correct incr
            then return (some (some incr))
            else (do give_up B S (Wanted.semicolon ∷ []); return none))

    -- What follows a part of the head, where it was no early return.
    abbrev pub with_part :
        Act B S (Option (Option B.Node)) → (Option B.Node → Act B S B.Node) → Act B S B.Node
    with_part part rest = part >>= λ p. elim p [ none ↦ return B.broken | some x ↦ rest x ]

    -- `parse_for_statement`; its early returns stay in the scope that it entered.
    abbrev pub for_statement : Act B S B.Node
    for_statement = do
      for_loc ← lift B S (consume_token B)
      scp ← enter B S
      opened ← at B S Wanted.l_paren
      if opened
          then (do
            l_loc ← lift B S (consume_token B)
            with_part for_init λ init. with_part for_cond λ cond. with_part for_incr λ incr. do
              closed ← lift B S (try_consume_token B Wanted.r_paren)
              if closed
                  then (do
                    body ← loop_body B S statement
                    leave B S scp
                    make B S (S.build_for_statement init cond incr body for_loc))
                  else refuse B S expected_r_paren)
          else refuse B S expected_l_paren_after_for

    abbrev pub continue_statement : Act B S B.Node
    continue_statement = do
      continue_loc ← lift B S (consume_token B)
      looped ← in_loop B S
      if looped
          then (do
            expect B S Wanted.semicolon expected_semi_after_stmt
            make B S (S.build_continue_statement continue_loc))
          else refuse B S continue_not_in_loop

    abbrev pub break_statement : Act B S B.Node
    break_statement = do
      break_loc ← lift B S (consume_token B)
      looped ← in_loop B S
      switched ← in_switch B S
      if looped || switched
          then (do
            expect B S Wanted.semicolon expected_semi_after_stmt
            make B S (S.build_break_statement break_loc))
          else refuse B S break_not_in_loop_or_switch

    abbrev pub return_statement : Act B S B.Node
    return_statement = do
      return_loc ← lift B S (consume_token B)
      set_was_return B S
      empty ← lift B S (try_consume_token B Wanted.semicolon)
      if empty then make B S (S.build_return_statement none return_loc) else (do
        expr ← lift B S expression
        if B.is_correct expr
            then (do
              expect B S Wanted.semicolon expected_semi_after_stmt
              make B S (S.build_return_statement (some expr) return_loc))
            else give_up B S (Wanted.semicolon ∷ []))

    abbrev pub null_statement : Act B S B.Node
    null_statement = do
      semi_loc ← lift B S (consume_token B)
      make B S (S.build_null_statement semi_loc)

    -- `parse_statement`, by the current token.
    abbrev pub statement_at : Act B S (List B.Node) → Token → Act B S B.Node
    statement_at loop Token.case_keyword = case_statement
    statement_at loop Token.default_keyword = default_statement
    statement_at loop Token.l_brace = compound_statement loop
    statement_at loop Token.semicolon = null_statement
    statement_at loop Token.if_keyword = if_statement
    statement_at loop Token.switch_keyword = switch_statement
    statement_at loop Token.while_keyword = while_statement
    statement_at loop Token.do_keyword = do_statement
    statement_at loop Token.for_keyword = for_statement
    statement_at loop Token.continue_keyword = continue_statement
    statement_at loop Token.break_keyword = break_statement
    statement_at loop Token.return_keyword = return_statement
    statement_at loop _ = expression_statement

  unfoldable mutual
    unfolding parse_expression parse_constant_expression parse_condition

    pub parse_statement : ℕ → Act B S B.Node
    parse_statement zero ctx = none
    parse_statement (suc fuel) ctx =
        statement_at (λ st. parse_statement fuel st) (parse_expression B fuel)
          (parse_constant_expression B fuel) (parse_condition B fuel) (λ st. block_loop fuel st)
          (kind B ctx.prs) ctx

    -- The loop of `parse_compound_statement_body`.
    pub block_loop : ℕ → Act B S (List B.Node)
    block_loop zero ctx = none
    block_loop (suc fuel) ctx =
        block_round (λ st. parse_statement fuel st) (parse_expression B fuel)
          (parse_constant_expression B fuel) (parse_condition B fuel) (λ st. block_loop fuel st) ctx

  -- The body of a function.
  unfoldable pub parse_compound_statement_body : ℕ → Act B S B.Node
  unfolding parse_statement
  parse_compound_statement_body fuel =
      compound_statement_body (λ st. parse_statement fuel st) (parse_expression B fuel)
        (parse_constant_expression B fuel) (parse_condition B fuel) (λ st. block_loop fuel st)
