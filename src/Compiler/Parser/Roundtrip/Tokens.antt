-- ===== src/Compiler/Parser/Roundtrip/Tokens.antt =====
-- The tokens that the expressions of parser.c begin with, and the precedences of its operators.
use ru_c.Prelude.{ℕ, ◌≤◌, ◌<◌, ◌≡◌, refl, true, false, List, leb, arith}
use ru_c.Compiler.Operations.{Token, get_operator_precedence}
use ru_c.Compiler.Lexer.Source.{Lexeme}
use ru_c.Compiler.Parser.State.{Wanted, is, current}
use ru_c.Compiler.Parser.Expression.{other, suffix_of, is_prefix, prec, prec_of, right_prec, binds}
use ru_c.Compiler.Parser.Grammar.{
  Leaf, Postfix, Operand, Expr, Inits, leaf, paren, subscript, call, call_with, member, step,
  of_postfix, prefix, of_operand, braces, binary, ternary, one, more, boolean, level, is_braced,
  left_prec, IsOperand, IsExpr, IsInits, IsPostfix, show_postfix, show_operand, show, show_inits,
  leaf_token,
}

pub prec_of_le : (t : Token) → prec_of t ≤ 13
unfolding prec_of get_operator_precedence prec
prec_of_le Token.comma = omega arith
prec_of_le _ = omega arith

pub suffix_of-operator : (t : Token) → 1 ≤ prec_of t → suffix_of t ≡ other
unfolding prec_of get_operator_precedence prec
suffix_of-operator Token.l_square h = absurd (omega arith)
suffix_of-operator Token.l_paren h = absurd (omega arith)
suffix_of-operator Token.period h = absurd (omega arith)
suffix_of-operator Token.arrow h = absurd (omega arith)
suffix_of-operator Token.plus_plus h = absurd (omega arith)
suffix_of-operator Token.minus_minus h = absurd (omega arith)
suffix_of-operator _ h = refl

pub binds-stop : (this next : ℕ) → binds this next ≡ false → leb (right_prec this) next ≡ false
unfolding prec
binds-stop this next e = ground arith

pub right_prec_ge : (this : ℕ) → this ≤ right_prec this
unfolding prec
right_prec_ge this = ground arith

-- What the first token of a postfix expression is not, and of the others.
abbrev pub IsInner : Token → Type 0
IsInner token = (is token Wanted.r_paren ≡ false) × (is token Wanted.r_brace ≡ false)

abbrev pub IsOpen : Token → Type 0
IsOpen token = (is token Wanted.l_brace ≡ false) × IsInner token

abbrev pub IsStart : Token → Type 0
IsStart token = (is_prefix token ≡ false) × IsOpen token

prefix-IsOpen : (t : Token) → is_prefix t ≡ true → IsOpen t
prefix-IsOpen Token.l_brace e = absurd (ground arith)
prefix-IsOpen Token.r_brace e = absurd (ground arith)
prefix-IsOpen Token.r_paren e = absurd (ground arith)
prefix-IsOpen _ e = (refl, (refl, refl))

left_stop : (this p : ℕ) → left_prec this ≤ p → this < right_prec p
unfolding prec
left_stop this p h = ground arith

module _ {D : Type 0} where
  leaf_token-IsStart : (v : Leaf D) → IsStart (leaf_token v)
  leaf_token-IsStart (boolean true) = (refl, (refl, (refl, refl)))
  leaf_token-IsStart (boolean false) = (refl, (refl, (refl, refl)))
  leaf_token-IsStart _ = (refl, (refl, (refl, refl)))

  pub show_postfix-IsStart :
      (p : Postfix D) (rest : List (Lexeme D)) → IsStart (current (show_postfix p rest)).kind
  unfolding show_postfix
  show_postfix-IsStart (leaf at v) rest = leaf_token-IsStart v
  show_postfix-IsStart (paren l e r) rest = (refl, (refl, (refl, refl)))
  show_postfix-IsStart (subscript p l e r) rest = show_postfix-IsStart p _
  show_postfix-IsStart (call p l r) rest = show_postfix-IsStart p _
  show_postfix-IsStart (call_with p l xs r) rest = show_postfix-IsStart p _
  show_postfix-IsStart (member p b op n at) rest = show_postfix-IsStart p _
  show_postfix-IsStart (step p b op) rest = show_postfix-IsStart p _

  pub show_operand-IsOpen :
      (u : Operand D) (rest : List (Lexeme D))
      → IsOperand u
      → IsOpen (current (show_operand u rest)).kind
  unfolding show_postfix IsPostfix
  show_operand-IsOpen (of_postfix p) rest ok = (show_postfix-IsStart p rest).1
  show_operand-IsOpen (prefix at token u) rest ok = prefix-IsOpen token ok.0

  pub show-IsInner :
      (e : Expr D) (rest : List (Lexeme D)) → IsExpr e → IsInner (current (show e rest)).kind
  unfolding show_postfix IsPostfix
  show-IsInner (of_operand u) rest ok = (show_operand-IsOpen u rest ok).1
  show-IsInner (braces l xs r) rest ok = (refl, refl)
  show-IsInner (binary l at token r) rest ok = show-IsInner l _ ok.1
  show-IsInner (ternary l at mid colon r) rest ok = show-IsInner l _ ok.0

  pub show-is_braced :
      (e : Expr D) (rest : List (Lexeme D))
      → IsExpr e
      → is (current (show e rest)).kind Wanted.l_brace ≡ is_braced e
  unfolding show_postfix IsPostfix
  show-is_braced (of_operand u) rest ok = (show_operand-IsOpen u rest ok).0
  show-is_braced (braces l xs r) rest ok = refl
  show-is_braced (binary l at token r) rest ok = show-is_braced l _ ok.1
  show-is_braced (ternary l at mid colon r) rest ok = show-is_braced l _ ok.0

  pub show_inits-IsInner :
      (xs : Inits D) (rest : List (Lexeme D))
      → IsInits xs
      → IsInner (current (show_inits xs rest)).kind
  unfolding show_postfix IsPostfix
  show_inits-IsInner (one e) rest ok = show-IsInner e rest ok.0
  show_inits-IsInner (more e at xs) rest ok = show-IsInner e _ ok.0

  -- The least precedence of what stands to the right of an expression and would be taken by it.
  abbrev pub stop : Expr D → ℕ
  stop (of_operand u) = 14
  stop (braces l xs r) = 14
  stop (binary l at token r) = right_prec (prec_of token)
  stop (ternary l at mid colon r) = 3

  pub stop_ge : (e : Expr D) → level e ≤ stop e
  stop_ge (of_operand u) = omega arith
  stop_ge (braces l xs r) = omega arith
  stop_ge (binary l at token r) = right_prec_ge (prec_of token)
  stop_ge (ternary l at mid colon r) = omega arith

  pub stop_left : (e : Expr D) (this : ℕ) → this ≤ 13 → left_prec this ≤ level e → this < stop e
  unfolding prec
  stop_left (of_operand u) this le h = omega arith
  stop_left (braces l xs r) this le h = omega arith
  stop_left (binary l at token r) this le h = left_stop this (prec_of token) h
  stop_left (ternary l at mid colon r) this le h = left_stop this 3 h
