-- ===== src/Compiler/Parser/Tests.antt =====
-- The parser of parser.c on concrete input, with a builder that writes what it is called for behind the
-- operands and counts its calls.
mod Flow
use ru_c.Prelude.{
  ℕ, suc, ◌≤◌, ◌+◌, ◌≡◌, refl, Bool, true, false, Option, none, some, List, [], ◌∷◌, ◌++◌, length,
  ◌==◌, arith,
}
use ru_c.Compiler.Operations.{Token, get_operator_precedence}
use ru_c.Compiler.Lexer.Source.{Lexeme, ident_repr}
use ru_c.Compiler.Parser.State.{
  Builder, Location, Parser, expected_expression, expected_r_square, continue_not_in_loop,
  expected_l_paren_after_for, behind, expect_and_consume, parser_error, skip, skip_until, Wanted,
}
use ru_c.Compiler.Parser.Expression.{
  prec, prec_of, parse_expression, parse_constant_expression, parse_condition,
}
use ru_c.Compiler.Parser.Grammar.{
  Expr, leaf, call_with, of_postfix, prefix, of_operand, braces, binary, ternary, one, more, name,
  integer, IsExpr, IsPostfix, show, show_postfix, node, postfix_node, plain, lexeme,
}
use ru_c.Compiler.Parser.Roundtrip.Rounds.{state}
use ru_c.Compiler.Parser.Written.{IsWritten, IsWrittenPostfix, meaning, postfix_meaning}
use ru_c.Compiler.Parser.Roundtrip.Whole.{parse_expression-show}
use ru_c.Compiler.Parser.Context.{Statements, Context}
use ru_c.Compiler.Parser.Statement.{parse_statement}
use ru_c.Compiler.Parser.Skip.{Skips, skip_until_stops, skip_until-brackets}
use ru_c.Compiler.Parser.Termination.{parse_expression_ends}

abbrev flat : List (List ℕ) → List ℕ
flat [] = []
flat (xs ∷ rest) = xs ++ flat rest

abbrev filled : Option (List (List ℕ)) → List ℕ
filled none = []
filled (some args) = flat args

abbrev given : Option (List ℕ) → List ℕ
given none = []
given (some x) = x

-- A node is broken where it is empty.
abbrev is_filled : List ℕ → Bool
is_filled [] = false
is_filled (x ∷ xs) = true

abbrev writer : Builder
writer = record {
  Double = ℕ;
  Syntax = ℕ;
  Node = List ℕ;
  no_value = 0;
  broken = [];
  is_correct = is_filled;
  build_identifier_expression = λ name loc sx. (name ∷ [], suc sx);
  build_character_literal_expression = λ value loc sx. (value ∷ [], suc sx);
  build_integer_literal_expression = λ value loc sx. (value ∷ [], suc sx);
  build_floating_literal_expression = λ value loc sx. (value ∷ [], suc sx);
  build_string_literal_expression = λ index loc sx. (index ∷ [], suc sx);
  build_null_literal_expression = λ loc sx. (0 ∷ [], suc sx);
  build_boolean_literal_expression = λ value loc sx. (1 ∷ [], suc sx);
  build_subscript_expression = λ base index l_loc r_loc sx. (base ++ index ++ l_loc.0 ∷ [], suc sx);
  build_call_expression =
      λ callee args l_loc r_loc sx. (callee ++ filled args ++ l_loc.0 ∷ [], suc sx);
  build_member_expression =
      λ base name is_arrow op_loc id_loc sx. (base ++ name ∷ op_loc.0 ∷ [], suc sx);
  build_unary_expression = λ operand kind loc sx. (operand ++ loc.0 ∷ [], suc sx);
  build_binary_expression = λ left right kind loc sx. (left ++ right ++ loc.0 ∷ [], suc sx);
  build_ternary_expression =
      λ left middle right loc sx. (left ++ middle ++ right ++ loc.0 ∷ [], suc sx);
  build_initializer = λ inits l_loc r_loc sx. (flat inits ++ l_loc.0 ∷ [], suc sx);
  build_constant_expression = λ whole sx. (whole, suc sx);
  build_condition = λ whole sx. (whole, suc sx);
}

-- A token at a column.
abbrev col : ℕ → Location
col n = (n, n + 1)

abbrev variable : ℕ → ℕ → Expr ℕ
variable at n = of_operand (of_postfix (leaf (col at) (name n)))

-- `7 = 8 - 9 - f(1, {2}) * -10, 11 ? 12 : 13`, where the operators stand at 101, 102, …
abbrev sample : Expr ℕ
sample =
    binary
      (binary (variable 1 7) (col 101) Token.equal (
        binary (binary (variable 2 8) (col 102) Token.minus (variable 3 9)) (col 103) Token.minus (
          binary
            (of_operand (
              of_postfix (
                call_with (leaf (col 4) (name 6)) (col 104)
                  (more (of_operand (of_postfix (leaf (col 5) (integer 1)))) (col 105) (
                    one (
                      braces (col 106) (one (of_operand (of_postfix (leaf (col 6) (integer 2)))))
                        (col 107))))
                  (col 108))))
            (col 109) Token.star
            (of_operand (prefix (col 110) Token.minus (of_postfix (leaf (col 7) (name 10))))))))
      (col 111) Token.comma
      (ternary (variable 8 11) (col 112) (variable 9 12) (col 113) (variable 10 13))

-- `;`
abbrev ending : List (Lexeme ℕ)
ending = plain (col 120) Token.semicolon ∷ []

sample-IsWritten : IsWritten false sample
unfolding IsWrittenPostfix
sample-IsWritten = ground arith

parse_expression-show_example :
    parse_expression writer 300 (state writer (show sample ending) [] 0)
    ≡ some ((meaning writer sample 0).0, state writer ending [] 19)
unfolding postfix_meaning show_postfix
parse_expression-show_example =
    parse_expression-show writer sample sample-IsWritten ending [] 0 300 (omega arith) refl

-- The calls for the sample, from left to right.
sample_calls :
    (meaning writer sample 0).0
    ≡ 7 ∷ 8 ∷ 9 ∷ 102 ∷ 6 ∷ 1 ∷ 2 ∷ 106 ∷ 104 ∷ 10 ∷ 110 ∷ 109 ∷ 103 ∷ 101 ∷ 11 ∷ 12 ∷ 13 ∷ 113
      ∷ 111 ∷ []
unfolding postfix_meaning
sample_calls = refl

-- `( ) [ ;`
abbrev wrong : List (Lexeme ℕ)
wrong =
    plain (col 1) Token.l_paren
    ∷ plain (col 2) Token.r_paren
    ∷ plain (col 3) Token.l_square
    ∷ plain (col 4) Token.semicolon
    ∷ []

parse_expression_ends_example :
    (r : List ℕ × Parser writer) × (parse_expression writer 38 (state writer wrong [] 0) ≡ some r)
    × (length r.1.tokens ≤ 4)
parse_expression_ends_example =
    parse_expression_ends writer 38 (state writer wrong [] 0) (omega arith)

-- Its four errors, and the `;` that is left.
wrong_errors :
    parse_expression writer 38 (state writer wrong [] 0)
    ≡ some (
      [],
      state writer
          (plain (col 4) Token.semicolon ∷ [])
          ((col 2, expected_expression)
            ∷ (col 4, expected_expression)
            ∷ (col 4, expected_r_square)
            ∷ [])
          0,
    )
unfolding parse_expression prec prec_of get_operator_precedence parser_error skip
wrong_errors = refl

skip_until_stops_example : Skips 5 (Wanted.semicolon ∷ []) wrong
skip_until_stops_example = skip_until_stops 5 (Wanted.semicolon ∷ []) wrong (omega arith)

-- `( 7 ) 8 )`
skip_until-brackets_example :
    skip_until {D = ℕ} 4 (Wanted.r_paren ∷ Wanted.semicolon ∷ []) (
      plain (col 1) Token.l_paren
      ∷ plain (col 2) Token.null_keyword
      ∷ plain (col 3) Token.r_paren
      ∷ plain (col 4) Token.null_keyword
      ∷ plain (col 5) Token.r_paren
      ∷ [])
    ≡ some (
        plain (col 3) Token.r_paren
        ∷ plain (col 4) Token.null_keyword
        ∷ plain (col 5) Token.r_paren
        ∷ [])
skip_until-brackets_example =
    skip_until-brackets 4 (Wanted.r_paren ∷ Wanted.semicolon ∷ []) (plain (col 1) Token.l_paren)
      (plain (col 3) Token.r_paren) (plain (col 2) Token.null_keyword ∷ [])
      (plain (col 4) Token.null_keyword ∷ plain (col 5) Token.r_paren ∷ []) refl
      (refl, refl, refl, tt) refl refl (omega arith)
