-- ===== src/Compiler/Parser/Tests/Flow.antt =====
-- The statements of parser.c on concrete input.
use ru_c.Prelude.{ℕ, ◌+◌, ◌≡◌, refl, false, some, List, [], ◌∷◌, ◌++◌, ◌==◌}
use ru_c.Compiler.Operations.{Token, get_operator_precedence}
use ru_c.Compiler.Lexer.Source.{Lexeme, ident_repr}
use ru_c.Compiler.Parser.State.{
  continue_not_in_loop, expected_l_paren_after_for, behind, expect_and_consume, parser_error, skip,
}
use ru_c.Compiler.Parser.Expression.{
  prec, prec_of, parse_expression, parse_constant_expression, parse_condition,
}
use ru_c.Compiler.Parser.Grammar.{lexeme}
use ru_c.Compiler.Parser.Roundtrip.Rounds.{state}
use ru_c.Compiler.Parser.Context.{Statements, Context}
use ru_c.Compiler.Parser.Statement.{parse_statement}
use ru_c.Compiler.Parser.Tests.{writer, flat, given, col}

-- Scopes are counted, and `9` is the one name of a type; a declaration is one token and a `;`.
abbrev statements : Statements writer
statements = record {
  Scope = ℕ;
  scope_block_enter = λ sx. (sx, sx + 100);
  scope_block_exit = λ scp sx. sx + 1000;
  repr_get_reference = λ name sx. name;
  ident_is_type_specifier = λ id sx. id == 9;
  parse_declaration = λ prs. some (77 ∷ [], record prs { tokens = behind (behind prs.tokens) });
  build_case_statement = λ expr body loc sx. (expr ++ body ++ 201 ∷ [], sx);
  build_default_statement = λ body loc sx. (body ++ 202 ∷ [], sx);
  build_compound_statement = λ stmts l r sx. (flat stmts ++ 203 ∷ [], sx);
  build_null_statement = λ loc sx. (204 ∷ [], sx);
  build_if_statement = λ cond body other loc sx. (cond ++ body ++ given other ++ 205 ∷ [], sx);
  build_switch_statement = λ cond body loc sx. (cond ++ body ++ 206 ∷ [], sx);
  build_while_statement = λ cond body loc sx. (cond ++ body ++ 207 ∷ [], sx);
  build_do_statement = λ body cond loc sx. (body ++ cond ++ 208 ∷ [], sx);
  build_for_statement = λ init cond incr body loc sx.
      (given init ++ given cond ++ given incr ++ body ++ 209 ∷ [], sx);
  build_continue_statement = λ loc sx. (210 ∷ [], sx);
  build_break_statement = λ loc sx. (211 ∷ [], sx);
  build_return_statement = λ expr loc sx. (given expr ++ 212 ∷ [], sx);
}

abbrev tokens_at : ℕ → List Token → List (Lexeme ℕ)
tokens_at at [] = []
tokens_at at (t ∷ ts) = lexeme (col at) t (ident_repr at) ∷ tokens_at (at + 1) ts

abbrev outside : List Token → Context writer statements
outside ts = record {
  prs = state writer (tokens_at 8 ts) [] 0;
  is_in_switch = false;
  is_in_loop = false;
  was_return = false;
}

-- `{ T; while (n) break; continue; } ;`, where the name at column 9 is that of a type.
abbrev block : List Token
block =
    Token.l_brace ∷ Token.identifier ∷ Token.semicolon ∷ Token.while_keyword ∷ Token.l_paren
    ∷ Token.identifier ∷ Token.r_paren ∷ Token.break_keyword ∷ Token.semicolon
    ∷ Token.continue_keyword ∷ Token.semicolon ∷ Token.r_brace ∷ Token.semicolon ∷ []

-- The `continue` behind the loop is an error, and the `;` behind it is a statement of its own.
block_statement :
    parse_statement writer statements 60 (outside block)
    ≡ some (
      77 ∷ 13 ∷ 211 ∷ 207 ∷ 204 ∷ 203 ∷ [],
      record (outside block) {
        prs =
            state writer
              (lexeme (col 20) Token.semicolon (ident_repr 20) ∷ [])
              ((col 18, continue_not_in_loop) ∷ [])
              1102;
      },
    )
unfolding parse_statement parse_expression parse_constant_expression parse_condition prec prec_of
    get_operator_precedence parser_error skip expect_and_consume
block_statement = refl

-- `for x` leaves a scope entered.
for_statement_scope :
    parse_statement writer statements 60 (outside (Token.for_keyword ∷ Token.semicolon ∷ []))
    ≡ some (
      [],
      record (outside []) {
        prs =
            state writer
              (lexeme (col 9) Token.semicolon (ident_repr 9) ∷ [])
              ((col 9, expected_l_paren_after_for) ∷ [])
              100;
      },
    )
unfolding parse_statement parse_expression parse_constant_expression parse_condition prec prec_of
    get_operator_precedence parser_error skip expect_and_consume
for_statement_scope = refl
