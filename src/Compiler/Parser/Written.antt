-- ===== src/Compiler/Parser/Written.antt =====
-- The expressions that the comments above the functions of parser.c allow, with the levels of the binary
-- and the conditional operators from the grammar of C, and what they mean. The tables here are written
-- from these grammars, not from the tables of the code; the trees and their tokens are those of Grammar.
-- Between `?` and `:` stands an assignment expression, where C also allows a comma.
use ru_c.Prelude.{
  ℕ, ◌+◌, ◌≤◌, ◌≡◌, Bool, true, false, Option, none, some, List, [], ◌∷◌, ◌==◌, if◌then◌else◌,
}
use ru_c.Compiler.Operations.{Token, Unary, Binary}
use ru_c.Compiler.Parser.State.{Builder}
use ru_c.Compiler.Parser.Grammar.{
  Postfix, Operand, Expr, Inits, leaf, paren, subscript, call, call_with, member, step, of_postfix,
  prefix, of_operand, braces, binary, ternary, one, more, step_kind, leaf_node,
}

-- The unary operators.
abbrev pub unary_operator : Token → Option Unary
unary_operator Token.plus_plus = some Unary.preinc
unary_operator Token.minus_minus = some Unary.predec
unary_operator Token.amp = some Unary.address
unary_operator Token.star = some Unary.indirection
unary_operator Token.minus = some Unary.minus
unary_operator Token.tilde = some Unary.not
unary_operator Token.exclaim = some Unary.lognot
unary_operator Token.abs_keyword = some Unary.abs
unary_operator Token.upb_keyword = some Unary.upb
unary_operator _ = none

-- The binary operators with their levels: 1 is the comma, 2 an assignment, 4 to 13 are the levels from
-- `||` to the multiplicative operators. The conditional operator has the level 3, an operand 14.
abbrev pub binary_operator : Token → Option (Binary × ℕ)
binary_operator Token.comma = some (Binary.comma, 1)
binary_operator Token.equal = some (Binary.assign, 2)
binary_operator Token.star_equal = some (Binary.mul_assign, 2)
binary_operator Token.slash_equal = some (Binary.div_assign, 2)
binary_operator Token.percent_equal = some (Binary.rem_assign, 2)
binary_operator Token.plus_equal = some (Binary.add_assign, 2)
binary_operator Token.minus_equal = some (Binary.sub_assign, 2)
binary_operator Token.less_less_equal = some (Binary.shl_assign, 2)
binary_operator Token.greater_greater_equal = some (Binary.shr_assign, 2)
binary_operator Token.amp_equal = some (Binary.and_assign, 2)
binary_operator Token.caret_equal = some (Binary.xor_assign, 2)
binary_operator Token.pipe_equal = some (Binary.or_assign, 2)
binary_operator Token.pipe_pipe = some (Binary.log_or, 4)
binary_operator Token.amp_amp = some (Binary.log_and, 5)
binary_operator Token.pipe = some (Binary.or, 6)
binary_operator Token.caret = some (Binary.xor, 7)
binary_operator Token.amp = some (Binary.and, 8)
binary_operator Token.equal_equal = some (Binary.eq, 9)
binary_operator Token.exclaim_equal = some (Binary.ne, 9)
binary_operator Token.less = some (Binary.lt, 10)
binary_operator Token.greater = some (Binary.gt, 10)
binary_operator Token.less_equal = some (Binary.le, 10)
binary_operator Token.greater_equal = some (Binary.ge, 10)
binary_operator Token.less_less = some (Binary.shl, 11)
binary_operator Token.greater_greater = some (Binary.shr, 11)
binary_operator Token.plus = some (Binary.add, 12)
binary_operator Token.minus = some (Binary.sub, 12)
binary_operator Token.star = some (Binary.mul, 13)
binary_operator Token.slash = some (Binary.div, 13)
binary_operator Token.percent = some (Binary.rem, 13)
binary_operator _ = none

-- The level of an operator, 0 for a token that is none; and its meaning, which is read where it is one.
abbrev pub operator_level : Token → ℕ
operator_level token = elim (binary_operator token) [ none ↦ 0 | some (kind, p) ↦ p ]

abbrev pub binary_kind : Token → Binary
binary_kind token = elim (binary_operator token) [ none ↦ Binary.comma | some (kind, p) ↦ kind ]

abbrev pub is_unary : Token → Bool
is_unary token = elim (unary_operator token) [ none ↦ false | some kind ↦ true ]

abbrev pub unary_kind : Token → Unary
unary_kind token = elim (unary_operator token) [ none ↦ Unary.postinc | some kind ↦ kind ]

-- The least levels of the operands of a binary operator. To the left of an assignment stands a unary
-- expression, and to its right an assignment expression; the others associate to the left.
abbrev pub left_level : ℕ → ℕ
left_level p = if p == 2 then 14 else p

abbrev pub right_level : ℕ → ℕ
right_level p = if p == 2 then 2 else p + 1

module _ {D : Type 0} where
  abbrev pub rank : Expr D → ℕ
  rank (of_operand u) = 14
  rank (braces l xs r) = 14
  rank (binary l at token r) = operator_level token
  rank (ternary l at mid colon r) = 3

  -- The expressions of the grammar. The flag is whether an initializer stands here, which may be a list in
  -- braces; an assignment expression has the level 2 at least, the operands of `?` and `:` are a `||`
  -- expression, an assignment expression and a conditional expression.
  unfoldable mutual
    pub IsWrittenPostfix : Postfix D → Type 0
    IsWrittenPostfix (leaf at v) = Unit
    IsWrittenPostfix (paren l e r) = IsWritten false e
    IsWrittenPostfix (subscript p l e r) = IsWrittenPostfix p × IsWritten false e
    IsWrittenPostfix (call p l r) = IsWrittenPostfix p
    IsWrittenPostfix (call_with p l xs r) = IsWrittenPostfix p × AreInitializers xs
    IsWrittenPostfix (member p b op n at) = IsWrittenPostfix p
    IsWrittenPostfix (step p b op) = IsWrittenPostfix p

    pub IsWrittenOperand : Operand D → Type 0
    IsWrittenOperand (of_postfix p) = IsWrittenPostfix p
    IsWrittenOperand (prefix at token u) = (is_unary token ≡ true) × IsWrittenOperand u

    pub IsWritten : Bool → Expr D → Type 0
    IsWritten initializer (of_operand u) = IsWrittenOperand u
    IsWritten initializer (braces l xs r) = (initializer ≡ true) × AreInitializers xs
    IsWritten initializer (binary l at token r) =
        (1 ≤ operator_level token)
        × IsWritten false l
        × IsWritten false r
        × (left_level (operator_level token) ≤ rank l)
        × (right_level (operator_level token) ≤ rank r)
    IsWritten initializer (ternary l at mid colon r) =
        IsWritten false l
        × IsWritten false mid
        × IsWritten false r
        × (4 ≤ rank l)
        × (2 ≤ rank mid)
        × (3 ≤ rank r)

    pub AreInitializers : Inits D → Type 0
    AreInitializers (one e) = IsWritten true e × (2 ≤ rank e)
    AreInitializers (more e at xs) = IsWritten true e × (2 ≤ rank e) × AreInitializers xs

module _ (B : Builder) where
  -- What an expression means: the calls of the builder, from left to right.
  unfoldable mutual
    pub postfix_meaning : Postfix B.Double → B.Syntax → B.Node × B.Syntax
    postfix_meaning (leaf at v) sx = leaf_node B at v sx
    postfix_meaning (paren l e r) sx = meaning e sx
    postfix_meaning (subscript p l e r) sx =
        let (x, sx') = postfix_meaning p sx in
        let (y, sx'') = meaning e sx' in B.build_subscript_expression x y l r sx''
    postfix_meaning (call p l r) sx =
        let (x, sx') = postfix_meaning p sx in B.build_call_expression x none l r sx'
    postfix_meaning (call_with p l xs r) sx =
        let (x, sx') = postfix_meaning p sx in
        let (args, sx'') = meanings xs sx' in B.build_call_expression x (some args) l r sx''
    postfix_meaning (member p b op n at) sx =
        let (x, sx') = postfix_meaning p sx in B.build_member_expression x n b op at sx'
    postfix_meaning (step p b op) sx =
        let (x, sx') = postfix_meaning p sx in B.build_unary_expression x (step_kind b) op sx'

    pub operand_meaning : Operand B.Double → B.Syntax → B.Node × B.Syntax
    operand_meaning (of_postfix p) sx = postfix_meaning p sx
    operand_meaning (prefix at token u) sx =
        let (x, sx') = operand_meaning u sx in B.build_unary_expression x (unary_kind token) at sx'

    pub meaning : Expr B.Double → B.Syntax → B.Node × B.Syntax
    meaning (of_operand u) sx = operand_meaning u sx
    meaning (braces l xs r) sx =
        let (inits, sx') = meanings xs sx in B.build_initializer inits l r sx'
    meaning (binary l at token r) sx =
        let (x, sx') = meaning l sx in
        let (y, sx'') = meaning r sx' in B.build_binary_expression x y (binary_kind token) at sx''
    meaning (ternary l at mid colon r) sx =
        let (x, sx') = meaning l sx in
        let (y, sx'') = meaning mid sx' in
        let (z, sx''') = meaning r sx'' in B.build_ternary_expression x y z colon sx'''

    pub meanings : Inits B.Double → B.Syntax → List B.Node × B.Syntax
    meanings (one e) sx = let (x, sx') = meaning e sx in (x ∷ [], sx')
    meanings (more e at xs) sx =
        let (x, sx') = meaning e sx in let (others, sx'') = meanings xs sx' in (x ∷ others, sx'')

-- A token that goes on with an expression in front of it.
abbrev pub continues : Token → Bool
continues Token.l_square = true
continues Token.l_paren = true
continues Token.period = true
continues Token.arrow = true
continues Token.plus_plus = true
continues Token.minus_minus = true
continues Token.question = true
continues token = elim (binary_operator token) [ none ↦ false | some operator ↦ true ]
