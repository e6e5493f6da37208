-- ===== src/Compiler/Operations/Grammar.antt =====
-- The tables of operations.c agree with each other and with the grammar of C.
use ru_c.Prelude.{◌≡◌, refl, Bool, true, false, not}
use ru_c.Compiler.Operations.{
  Token, Binary, Precedence, token_to_binary, get_operator_precedence, operation_is_assignment,
}

-- The level of a binary operator in the grammar of C.
abbrev pub grammar_level : Binary → Precedence
grammar_level Binary.mul = Precedence.multiplicative
grammar_level Binary.div = Precedence.multiplicative
grammar_level Binary.rem = Precedence.multiplicative
grammar_level Binary.add = Precedence.additive
grammar_level Binary.sub = Precedence.additive
grammar_level Binary.shl = Precedence.shift
grammar_level Binary.shr = Precedence.shift
grammar_level Binary.lt = Precedence.relational
grammar_level Binary.gt = Precedence.relational
grammar_level Binary.le = Precedence.relational
grammar_level Binary.ge = Precedence.relational
grammar_level Binary.eq = Precedence.equality
grammar_level Binary.ne = Precedence.equality
grammar_level Binary.and = Precedence.and
grammar_level Binary.xor = Precedence.xor
grammar_level Binary.or = Precedence.or
grammar_level Binary.log_and = Precedence.logical_and
grammar_level Binary.log_or = Precedence.logical_or
grammar_level Binary.assign = Precedence.assignment
grammar_level Binary.mul_assign = Precedence.assignment
grammar_level Binary.div_assign = Precedence.assignment
grammar_level Binary.rem_assign = Precedence.assignment
grammar_level Binary.add_assign = Precedence.assignment
grammar_level Binary.sub_assign = Precedence.assignment
grammar_level Binary.shl_assign = Precedence.assignment
grammar_level Binary.shr_assign = Precedence.assignment
grammar_level Binary.and_assign = Precedence.assignment
grammar_level Binary.xor_assign = Precedence.assignment
grammar_level Binary.or_assign = Precedence.assignment
grammar_level Binary.comma = Precedence.comma

abbrev pub is_level : Precedence → Bool
is_level Precedence.unknown = false
is_level Precedence.conditional = false
is_level _ = true

abbrev pub is_assignment_level : Precedence → Bool
is_assignment_level Precedence.assignment = true
is_assignment_level _ = false

-- The tokens for which `token_to_binary` has no operator are those of no precedence and `?`.
pub token_to_binary-get_operator_precedence :
    (token : Token) → (token_to_binary token).1 ≡ not (is_level (get_operator_precedence token))
unfolding token_to_binary get_operator_precedence
token_to_binary-get_operator_precedence Token.main = refl
token_to_binary-get_operator_precedence _ = refl

-- The precedence of a token of a binary operator is the operator's level in the grammar of C.
pub get_operator_precedence-token_to_binary :
    (token : Token)
    → (token_to_binary token).1 ≡ false
    → get_operator_precedence token ≡ grammar_level (token_to_binary token).0
unfolding token_to_binary get_operator_precedence
get_operator_precedence-token_to_binary Token.main h = cc
get_operator_precedence-token_to_binary _ h = cc

-- A binary operator is an assignment where its token has the precedence of one.
operation_is_assignment-token_to_binary :
    (token : Token)
    → (token_to_binary token).1 ≡ false
    → operation_is_assignment (token_to_binary token).0
      ≡ is_assignment_level (get_operator_precedence token)
unfolding token_to_binary get_operator_precedence operation_is_assignment
operation_is_assignment-token_to_binary Token.main h = cc
operation_is_assignment-token_to_binary _ h = cc
