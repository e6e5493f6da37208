-- ===== src/Compiler/Parser/Grammar.antt =====
-- The expressions that parser.c reads, as trees with the place of each token: how they are written, which
-- of them the loops of parser.c read by the tables of its own (more than the comments there allow: `a + b
-- = c`, and braces for an operand), and the calls of the builder for them. What the comments allow is in
-- Written.
use ru_c.Prelude.{
  ℕ, ◌+◌, ◌≤◌, ◌≡◌, ◌≢◌, Bool, true, false, none, some, List, [], ◌∷◌, leb, not, ◌&&◌,
  if◌then◌else◌,
}
use ru_c.Utils.Item.{Size}
use ru_c.Compiler.Operations.{Token, Unary, token_to_unary, token_to_binary}
use ru_c.Compiler.Lexer.Source.{
  Content, nothing, ident_repr, char_value, int_value, float_value, string_num, Lexeme,
}
use ru_c.Compiler.Parser.State.{Location, Builder}
use ru_c.Compiler.Parser.Expression.{is_prefix, prec_of, is_right_associative, right_prec}

-- A token with its place.
abbrev pub lexeme : {D : Type 0} → Location → Token → Content D → Lexeme D
lexeme loc token value = record { begin = loc.0; end = loc.1; kind = token; content = value }

abbrev pub plain : {D : Type 0} → Location → Token → Lexeme D
plain loc token = lexeme loc token nothing

module _ (D : Type 0) where
  pub data Leaf : Type 0 where
    name string : Size → Leaf
    character integer : ℕ → Leaf
    floating : D → Leaf
    null : Leaf
    boolean : Bool → Leaf

  mutual
    pub data Postfix : Type 0 where
      leaf : Location → Leaf → Postfix
      paren : Location → Expr → Location → Postfix
      subscript : Postfix → Location → Expr → Location → Postfix
      call : Postfix → Location → Location → Postfix
      call_with : Postfix → Location → Inits → Location → Postfix
      member : Postfix → Bool → Location → Size → Location → Postfix
      step : Postfix → Bool → Location → Postfix

    pub data Operand : Type 0 where
      of_postfix : Postfix → Operand
      prefix : Location → Token → Operand → Operand

    pub data Expr : Type 0 where
      of_operand : Operand → Expr
      braces : Location → Inits → Location → Expr
      binary : Expr → Location → Token → Expr → Expr
      ternary : Expr → Location → Expr → Location → Expr → Expr

    pub data Inits : Type 0 where
      one : Expr → Inits
      more : Expr → Location → Inits → Inits

-- The least precedence of what stands to the left of an operator.
abbrev pub left_prec : ℕ → ℕ
left_prec this = if is_right_associative this then this + 1 else this

abbrev pub IsBinary : Token → Type 0
IsBinary token = (1 ≤ prec_of token) × (prec_of token ≢ 3)

abbrev pub step_token : Bool → Token
step_token true = Token.plus_plus
step_token false = Token.minus_minus

abbrev pub step_kind : Bool → Unary
step_kind true = Unary.postinc
step_kind false = Unary.postdec

abbrev pub member_token : Bool → Token
member_token true = Token.arrow
member_token false = Token.period

module _ {D : Type 0} where
  -- The precedence of an expression: that of its operator.
  abbrev pub level : Expr D → ℕ
  level (of_operand u) = 14
  level (braces l is r) = 14
  level (binary l at token r) = prec_of token
  level (ternary l at mid colon r) = 3

  abbrev pub is_braced : Expr D → Bool
  is_braced (of_operand u) = false
  is_braced (braces l is r) = true
  is_braced (binary l at token r) = is_braced l
  is_braced (ternary l at mid colon r) = is_braced l

  -- What stands alone: an expression does not begin with a brace.
  abbrev pub is_initializer : Expr D → Bool
  is_initializer (braces l is r) = true
  is_initializer (of_operand u) = true
  is_initializer (binary l at token r) = leb 2 (prec_of token) && not (is_braced l)
  is_initializer (ternary l at mid colon r) = not (is_braced l)

  unfoldable mutual
    pub IsPostfix : Postfix D → Type 0
    IsPostfix (leaf at v) = Unit
    IsPostfix (paren l e r) = IsExpr e × (is_braced e ≡ false)
    IsPostfix (subscript p l e r) = IsPostfix p × IsExpr e × (is_braced e ≡ false)
    IsPostfix (call p l r) = IsPostfix p
    IsPostfix (call_with p l is r) = IsPostfix p × IsInits is
    IsPostfix (member p b op n at) = IsPostfix p
    IsPostfix (step p b op) = IsPostfix p

    pub IsOperand : Operand D → Type 0
    IsOperand (of_postfix p) = IsPostfix p
    IsOperand (prefix at token u) = (is_prefix token ≡ true) × IsOperand u

    pub IsExpr : Expr D → Type 0
    IsExpr (of_operand u) = IsOperand u
    IsExpr (braces l is r) = IsInits is
    IsExpr (binary l at token r) =
        IsBinary token
        × IsExpr l
        × IsExpr r
        × (left_prec (prec_of token) ≤ level l)
        × (right_prec (prec_of token) ≤ level r)
    IsExpr (ternary l at mid colon r) =
        IsExpr l
        × IsExpr mid
        × IsExpr r
        × (4 ≤ level l)
        × (is_initializer mid ≡ true)
        × (3 ≤ level r)

    pub IsInits : Inits D → Type 0
    IsInits (one e) = IsExpr e × (is_initializer e ≡ true)
    IsInits (more e at is) = IsExpr e × (is_initializer e ≡ true) × IsInits is

  abbrev pub leaf_token : Leaf D → Token
  leaf_token (name n) = Token.identifier
  leaf_token (string n) = Token.string_literal
  leaf_token (character n) = Token.char_literal
  leaf_token (integer n) = Token.int_literal
  leaf_token (floating v) = Token.float_literal
  leaf_token null = Token.null_keyword
  leaf_token (boolean true) = Token.true_keyword
  leaf_token (boolean false) = Token.false_keyword

  abbrev pub leaf_content : Leaf D → Content D
  leaf_content (name n) = ident_repr n
  leaf_content (string n) = string_num n
  leaf_content (character n) = char_value n
  leaf_content (integer n) = int_value n
  leaf_content (floating v) = float_value v
  leaf_content null = nothing
  leaf_content (boolean b) = nothing

  -- The tokens, in front of the rest.
  unfoldable mutual
    pub show_postfix : Postfix D → List (Lexeme D) → List (Lexeme D)
    show_postfix (leaf at v) rest = lexeme at (leaf_token v) (leaf_content v) ∷ rest
    show_postfix (paren l e r) rest = plain l Token.l_paren ∷ show e (plain r Token.r_paren ∷ rest)
    show_postfix (subscript p l e r) rest =
        show_postfix p (plain l Token.l_square ∷ show e (plain r Token.r_square ∷ rest))
    show_postfix (call p l r) rest =
        show_postfix p (plain l Token.l_paren ∷ plain r Token.r_paren ∷ rest)
    show_postfix (call_with p l is r) rest =
        show_postfix p (plain l Token.l_paren ∷ show_inits is (plain r Token.r_paren ∷ rest))
    show_postfix (member p b op n at) rest =
        show_postfix p
          (plain op (member_token b) ∷ lexeme at Token.identifier (ident_repr n) ∷ rest)
    show_postfix (step p b op) rest = show_postfix p (plain op (step_token b) ∷ rest)

    pub show_operand : Operand D → List (Lexeme D) → List (Lexeme D)
    show_operand (of_postfix p) rest = show_postfix p rest
    show_operand (prefix at token u) rest = plain at token ∷ show_operand u rest

    pub show : Expr D → List (Lexeme D) → List (Lexeme D)
    show (of_operand u) rest = show_operand u rest
    show (braces l is r) rest = plain l Token.l_brace ∷ show_inits is (plain r Token.r_brace ∷ rest)
    show (binary l at token r) rest = show l (plain at token ∷ show r rest)
    show (ternary l at mid colon r) rest =
        show l (plain at Token.question ∷ show mid (plain colon Token.colon ∷ show r rest))

    pub show_inits : Inits D → List (Lexeme D) → List (Lexeme D)
    show_inits (one e) rest = show e rest
    show_inits (more e at is) rest = show e (plain at Token.comma ∷ show_inits is rest)

  -- The number of the tokens.
  abbrev mutual
    pub size_postfix : Postfix D → ℕ
    size_postfix (leaf at v) = 1
    size_postfix (paren l e r) = size e + 2
    size_postfix (subscript p l e r) = size_postfix p + size e + 2
    size_postfix (call p l r) = size_postfix p + 2
    size_postfix (call_with p l is r) = size_postfix p + size_inits is + 2
    size_postfix (member p b op n at) = size_postfix p + 2
    size_postfix (step p b op) = size_postfix p + 1

    pub size_operand : Operand D → ℕ
    size_operand (of_postfix p) = size_postfix p
    size_operand (prefix at token u) = size_operand u + 1

    pub size : Expr D → ℕ
    size (of_operand u) = size_operand u
    size (braces l is r) = size_inits is + 2
    size (binary l at token r) = size l + size r + 1
    size (ternary l at mid colon r) = size l + size mid + size r + 2

    pub size_inits : Inits D → ℕ
    size_inits (one e) = size e
    size_inits (more e at is) = size e + size_inits is + 1

module _ (B : Builder) where
  abbrev pub leaf_node : Location → Leaf B.Double → B.Syntax → B.Node × B.Syntax
  leaf_node at (name n) sx = B.build_identifier_expression n at sx
  leaf_node at (string n) sx = B.build_string_literal_expression n at sx
  leaf_node at (character n) sx = B.build_character_literal_expression n at sx
  leaf_node at (integer n) sx = B.build_integer_literal_expression n at sx
  leaf_node at (floating v) sx = B.build_floating_literal_expression v at sx
  leaf_node at null sx = B.build_null_literal_expression at sx
  leaf_node at (boolean b) sx = B.build_boolean_literal_expression b at sx

  -- The calls of the builder.
  unfoldable mutual
    pub postfix_node : Postfix B.Double → B.Syntax → B.Node × B.Syntax
    postfix_node (leaf at v) sx = leaf_node at v sx
    postfix_node (paren l e r) sx = node e sx
    postfix_node (subscript p l e r) sx =
        let (x, sx') = postfix_node p sx in
        let (y, sx'') = node e sx' in B.build_subscript_expression x y l r sx''
    postfix_node (call p l r) sx =
        let (x, sx') = postfix_node p sx in B.build_call_expression x none l r sx'
    postfix_node (call_with p l is r) sx =
        let (x, sx') = postfix_node p sx in
        let (args, sx'') = nodes is sx' in B.build_call_expression x (some args) l r sx''
    postfix_node (member p b op n at) sx =
        let (x, sx') = postfix_node p sx in B.build_member_expression x n b op at sx'
    postfix_node (step p b op) sx =
        let (x, sx') = postfix_node p sx in B.build_unary_expression x (step_kind b) op sx'

    pub operand_node : Operand B.Double → B.Syntax → B.Node × B.Syntax
    operand_node (of_postfix p) sx = postfix_node p sx
    operand_node (prefix at token u) sx =
        let (x, sx') = operand_node u sx in
        B.build_unary_expression x (token_to_unary token).0 at sx'

    pub node : Expr B.Double → B.Syntax → B.Node × B.Syntax
    node (of_operand u) sx = operand_node u sx
    node (braces l is r) sx = let (inits, sx') = nodes is sx in B.build_initializer inits l r sx'
    node (binary l at token r) sx =
        let (x, sx') = node l sx in
        let (y, sx'') = node r sx' in
        B.build_binary_expression x y (token_to_binary token).0 at sx''
    node (ternary l at mid colon r) sx =
        let (x, sx') = node l sx in
        let (y, sx'') = node mid sx' in
        let (z, sx''') = node r sx'' in B.build_ternary_expression x y z colon sx'''

    pub nodes : Inits B.Double → B.Syntax → List B.Node × B.Syntax
    nodes (one e) sx = let (x, sx') = node e sx in (x ∷ [], sx')
    nodes (more e at is) sx =
        let (x, sx') = node e sx in let (xs, sx'') = nodes is sx' in (x ∷ xs, sx'')
