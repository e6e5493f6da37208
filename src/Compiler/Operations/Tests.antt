-- ===== src/Compiler/Operations/Tests.antt =====
-- Operators at single tokens.
use ru_c.Prelude.{◌≡◌, refl, false, not}
use ru_c.Compiler.Operations.{
  Token, Unary, token_to_unary, token_to_binary, get_operator_precedence,
}
use ru_c.Compiler.Operations.Grammar.{
  grammar_level, is_level, token_to_binary-get_operator_precedence,
  get_operator_precedence-token_to_binary,
}

minus : token_to_unary Token.minus ≡ (Unary.minus, false)
unfolding token_to_unary
minus = refl

token_to_binary-get_operator_precedence_example :
    (token_to_binary Token.question).1 ≡ not (is_level (get_operator_precedence Token.question))
token_to_binary-get_operator_precedence_example =
    token_to_binary-get_operator_precedence Token.question

get_operator_precedence-token_to_binary_example :
    get_operator_precedence Token.slash ≡ grammar_level (token_to_binary Token.slash).0
unfolding token_to_binary
get_operator_precedence-token_to_binary_example =
    get_operator_precedence-token_to_binary Token.slash refl
