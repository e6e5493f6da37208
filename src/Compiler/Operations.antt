-- ===== src/Compiler/Operations.antt =====
-- The tokens and the operators of libs/compiler: `token_t` of token.h, `unary_t`, `binary_t` and
-- `precedence_t` of operations.h, and the tables of operations.c.
pub mod Grammar
mod Tests
use ru_c.Prelude.{Bool, true, false}

-- `token_t`; the keywords have a suffix.
pub data Token : Type 0 where
  main eof line abs_keyword bool_keyword break_keyword case_keyword char_keyword : Token
  const_keyword continue_keyword default_keyword do_keyword double_keyword else_keyword enum_keyword
        false_keyword :
      Token
  file_keyword float_keyword for_keyword if_keyword int_keyword long_keyword null_keyword
        return_keyword :
      Token
  struct_keyword switch_keyword true_keyword typedef_keyword upb_keyword void_keyword while_keyword
        identifier :
      Token
  int_literal float_literal char_literal string_literal l_square l_paren l_brace r_square : Token
  r_paren r_brace comma colon semicolon question tilde period : Token
  plus minus star slash percent exclaim caret pipe : Token
  amp equal less greater arrow plus_equal plus_plus minus_equal : Token
  minus_minus star_equal slash_equal percent_equal exclaim_equal caret_equal pipe_equal pipe_pipe :
      Token
  amp_equal amp_amp equal_equal less_equal less_less greater_equal greater_greater less_less_equal :
      Token
  greater_greater_equal : Token

-- `unary_t`
pub data Unary : Type 0 where
  postinc postdec preinc predec address indirection minus not : Unary
  lognot abs upb : Unary

-- `binary_t`
pub data Binary : Type 0 where
  mul div rem add sub shl shr lt : Binary
  gt le ge eq ne and xor or : Binary
  log_and log_or assign mul_assign div_assign rem_assign add_assign sub_assign : Binary
  shl_assign shr_assign and_assign xor_assign or_assign comma : Binary

-- `precedence_t`
pub data Precedence : Type 0 where
  unknown comma assignment conditional logical_or logical_and or xor : Precedence
  and equality relational shift additive multiplicative : Precedence

-- An operator, and whether `system_error` was called: in the `default` case 0 is returned behind it.
abbrev pub Checked : Type 0 → Type 0
Checked A = A × Bool

unfoldable pub token_to_unary : Token → Checked Unary
token_to_unary Token.plus_plus = (Unary.preinc, false)
token_to_unary Token.minus_minus = (Unary.predec, false)
token_to_unary Token.amp = (Unary.address, false)
token_to_unary Token.star = (Unary.indirection, false)
token_to_unary Token.minus = (Unary.minus, false)
token_to_unary Token.tilde = (Unary.not, false)
token_to_unary Token.exclaim = (Unary.lognot, false)
token_to_unary Token.abs_keyword = (Unary.abs, false)
token_to_unary Token.upb_keyword = (Unary.upb, false)
token_to_unary _ = (Unary.postinc, true)

unfoldable pub token_to_binary : Token → Checked Binary
token_to_binary Token.plus = (Binary.add, false)
token_to_binary Token.minus = (Binary.sub, false)
token_to_binary Token.star = (Binary.mul, false)
token_to_binary Token.slash = (Binary.div, false)
token_to_binary Token.percent = (Binary.rem, false)
token_to_binary Token.caret = (Binary.xor, false)
token_to_binary Token.pipe = (Binary.or, false)
token_to_binary Token.amp = (Binary.and, false)
token_to_binary Token.equal = (Binary.assign, false)
token_to_binary Token.less = (Binary.lt, false)
token_to_binary Token.greater = (Binary.gt, false)
token_to_binary Token.plus_equal = (Binary.add_assign, false)
token_to_binary Token.minus_equal = (Binary.sub_assign, false)
token_to_binary Token.star_equal = (Binary.mul_assign, false)
token_to_binary Token.slash_equal = (Binary.div_assign, false)
token_to_binary Token.percent_equal = (Binary.rem_assign, false)
token_to_binary Token.exclaim_equal = (Binary.ne, false)
token_to_binary Token.caret_equal = (Binary.xor_assign, false)
token_to_binary Token.pipe_equal = (Binary.or_assign, false)
token_to_binary Token.pipe_pipe = (Binary.log_or, false)
token_to_binary Token.amp_equal = (Binary.and_assign, false)
token_to_binary Token.amp_amp = (Binary.log_and, false)
token_to_binary Token.equal_equal = (Binary.eq, false)
token_to_binary Token.less_equal = (Binary.le, false)
token_to_binary Token.less_less = (Binary.shl, false)
token_to_binary Token.greater_equal = (Binary.ge, false)
token_to_binary Token.greater_greater = (Binary.shr, false)
token_to_binary Token.less_less_equal = (Binary.shl_assign, false)
token_to_binary Token.greater_greater_equal = (Binary.shr_assign, false)
token_to_binary Token.comma = (Binary.comma, false)
token_to_binary _ = (Binary.mul, true)

unfoldable pub get_operator_precedence : Token → Precedence
get_operator_precedence Token.comma = Precedence.comma
get_operator_precedence Token.equal = Precedence.assignment
get_operator_precedence Token.star_equal = Precedence.assignment
get_operator_precedence Token.slash_equal = Precedence.assignment
get_operator_precedence Token.percent_equal = Precedence.assignment
get_operator_precedence Token.plus_equal = Precedence.assignment
get_operator_precedence Token.minus_equal = Precedence.assignment
get_operator_precedence Token.less_less_equal = Precedence.assignment
get_operator_precedence Token.greater_greater_equal = Precedence.assignment
get_operator_precedence Token.amp_equal = Precedence.assignment
get_operator_precedence Token.caret_equal = Precedence.assignment
get_operator_precedence Token.pipe_equal = Precedence.assignment
get_operator_precedence Token.question = Precedence.conditional
get_operator_precedence Token.pipe_pipe = Precedence.logical_or
get_operator_precedence Token.amp_amp = Precedence.logical_and
get_operator_precedence Token.pipe = Precedence.or
get_operator_precedence Token.caret = Precedence.xor
get_operator_precedence Token.amp = Precedence.and
get_operator_precedence Token.equal_equal = Precedence.equality
get_operator_precedence Token.exclaim_equal = Precedence.equality
get_operator_precedence Token.greater_equal = Precedence.relational
get_operator_precedence Token.less_equal = Precedence.relational
get_operator_precedence Token.greater = Precedence.relational
get_operator_precedence Token.less = Precedence.relational
get_operator_precedence Token.less_less = Precedence.shift
get_operator_precedence Token.greater_greater = Precedence.shift
get_operator_precedence Token.plus = Precedence.additive
get_operator_precedence Token.minus = Precedence.additive
get_operator_precedence Token.star = Precedence.multiplicative
get_operator_precedence Token.slash = Precedence.multiplicative
get_operator_precedence Token.percent = Precedence.multiplicative
get_operator_precedence _ = Precedence.unknown

unfoldable pub operation_is_assignment : Binary → Bool
operation_is_assignment Binary.assign = true
operation_is_assignment Binary.add_assign = true
operation_is_assignment Binary.sub_assign = true
operation_is_assignment Binary.mul_assign = true
operation_is_assignment Binary.div_assign = true
operation_is_assignment Binary.rem_assign = true
operation_is_assignment Binary.xor_assign = true
operation_is_assignment Binary.or_assign = true
operation_is_assignment Binary.and_assign = true
operation_is_assignment Binary.shl_assign = true
operation_is_assignment Binary.shr_assign = true
operation_is_assignment _ = false
