-- ===== src/Compiler/Parser/Expression/Tables.antt =====
-- The tokens that the `switch`es for expressions in libs/compiler/parser.c tell apart, and the
-- precedences that its loop compares.
use ru_c.Prelude.{ℕ, ◌+◌, Bool, true, false, ◌&&◌, ◌||◌, ltb, ◌==◌, if◌then◌else◌}
use ru_c.Compiler.Operations.{Token, Precedence, get_operator_precedence}

-- What a token adds to a postfix expression.
pub data Suffix : Type 0 where
  subscript call increment decrement other : Suffix
  member : Bool → Suffix

abbrev pub suffix_of : Token → Suffix
suffix_of Token.l_square = subscript
suffix_of Token.l_paren = call
suffix_of Token.period = member false
suffix_of Token.arrow = member true
suffix_of Token.plus_plus = increment
suffix_of Token.minus_minus = decrement
suffix_of _ = other

abbrev pub is_prefix : Token → Bool
is_prefix Token.plus_plus = true
is_prefix Token.minus_minus = true
is_prefix Token.amp = true
is_prefix Token.star = true
is_prefix Token.minus = true
is_prefix Token.tilde = true
is_prefix Token.exclaim = true
is_prefix Token.abs_keyword = true
is_prefix Token.upb_keyword = true
is_prefix _ = false

-- The number that a `precedence_t` is.
unfoldable pub prec : Precedence → ℕ
prec Precedence.unknown = 0
prec Precedence.comma = 1
prec Precedence.assignment = 2
prec Precedence.conditional = 3
prec Precedence.logical_or = 4
prec Precedence.logical_and = 5
prec Precedence.or = 6
prec Precedence.xor = 7
prec Precedence.and = 8
prec Precedence.equality = 9
prec Precedence.relational = 10
prec Precedence.shift = 11
prec Precedence.additive = 12
prec Precedence.multiplicative = 13

-- The precedence of a token.
unfoldable pub prec_of : Token → ℕ
unfolding prec get_operator_precedence
prec_of token = prec (get_operator_precedence token)

abbrev pub is_right_associative : ℕ → Bool
is_right_associative this =
    (this == prec Precedence.conditional) || (this == prec Precedence.assignment)

-- The minimal precedence of the operators to the right of one.
abbrev pub right_prec : ℕ → ℕ
right_prec this = if is_right_associative this then this else this + 1

-- Whether the operator behind the right operand takes it.
abbrev pub binds : ℕ → ℕ → Bool
binds this next = ltb this next || ((this == next) && is_right_associative this)
