-- ===== src/Compiler/Parser/State.antt =====
-- The parser of libs/compiler/parser.c and what its functions share. The builder of the AST is a
-- parameter; `tokens` are the current token and those that the lexer gives behind it, up to EOF.
-- An action has no result, `none`, where its fuel runs out.
use ru_c.Prelude.{
  ℕ, zero, suc, Bool, true, false, ◌&&◌, ◌||◌, Option, none, some, List, [], ◌∷◌, ◌++◌, length,
  if◌then◌else◌,
}
use ru_c.Utils.Item.{Size}
use ru_c.Compiler.Operations.{Token, Unary, Binary}
use ru_c.Compiler.Lexer.Source.{
  Content, ident_repr, char_value, int_value, float_value, string_num, Lexeme, token_eof,
}

abbrev pub Action : Type 0 → Type 0 → Type 0
Action S A = S → Option (A × S)

module _ {S A C : Type 0} where
  infixl 5 ◌>>=◌ ◌>>◌
  abbrev pub ◌>>=◌ : Action S A → (A → Action S C) → Action S C
  (p >>= f) st = elim (p st) [ none ↦ none | some (a, st') ↦ f a st' ]

  abbrev pub ◌>>◌ : Action S A → Action S C → Action S C
  p >> q = p >>= λ a. q

abbrev pub return : {S A : Type 0} → A → Action S A
return a st = some (a, st)

abbrev pub out_of_fuel : {S A : Type 0} → Action S A
out_of_fuel st = none

-- `location`
abbrev pub Location : Type 0
Location = Size × Size

-- What the functions here call of libs/compiler/builder.c, with the syntax that they change. `broken`
-- is `node_broken()`, `is_correct` is `node_is_correct`, and `no_value` is what the union of a token holds
-- where it holds no double.
pub record Builder : Type 1 where
  pub Double : Type 0
  pub Syntax : Type 0
  pub Node : Type 0
  pub no_value : Double
  pub broken : Node
  pub is_correct : Node → Bool
  pub build_identifier_expression : Size → Location → Syntax → Node × Syntax
  pub build_character_literal_expression : ℕ → Location → Syntax → Node × Syntax
  pub build_integer_literal_expression : ℕ → Location → Syntax → Node × Syntax
  pub build_floating_literal_expression : Double → Location → Syntax → Node × Syntax
  pub build_string_literal_expression : Size → Location → Syntax → Node × Syntax
  pub build_null_literal_expression : Location → Syntax → Node × Syntax
  pub build_boolean_literal_expression : Bool → Location → Syntax → Node × Syntax
  pub build_subscript_expression : Node → Node → Location → Location → Syntax → Node × Syntax
  pub build_call_expression :
      Node → Option (List Node) → Location → Location → Syntax → Node × Syntax
  pub build_member_expression : Node → Size → Bool → Location → Location → Syntax → Node × Syntax
  pub build_unary_expression : Node → Unary → Location → Syntax → Node × Syntax
  pub build_binary_expression : Node → Node → Binary → Location → Syntax → Node × Syntax
  pub build_ternary_expression : Node → Node → Node → Location → Syntax → Node × Syntax
  pub build_initializer : List Node → Location → Location → Syntax → Node × Syntax
  pub build_constant_expression : Node → Syntax → Node × Syntax
  pub build_condition : Node → Syntax → Node × Syntax

-- The errors of these functions.
pub data ParserError : Type 0 where
  extraneous_bracket_before_semi expected_r_paren expected_r_square expected_r_brace : ParserError
  expected_expression expected_identifier_in_member_expr empty_initializer : ParserError
  expected_colon_in_conditional_expr expected_l_paren_in_condition : ParserError
  case_not_in_switch default_not_in_switch expected_colon_after_case : ParserError
  expected_colon_after_default expected_semi_after_expr expected_semi_after_stmt : ParserError
  expected_while expected_l_paren_after_for expected_semi_in_for_specifier : ParserError
  continue_not_in_loop break_not_in_loop_or_switch : ParserError

-- The current token.
abbrev pub current : {D : Type 0} → List (Lexeme D) → Lexeme D
current [] = token_eof
current (t ∷ ts) = t

abbrev pub behind : {D : Type 0} → List (Lexeme D) → List (Lexeme D)
behind [] = []
behind (t ∷ ts) = ts

abbrev pub location_of : {D : Type 0} → Lexeme D → Location
location_of t = (t.begin, t.end)

-- The members of the union, which are read where the kind of the token is theirs.
abbrev pub ident_name : {D : Type 0} → Content D → Size
ident_name (ident_repr name) = name
ident_name _ = 0

abbrev pub char_of : {D : Type 0} → Content D → ℕ
char_of (char_value value) = value
char_of _ = 0

abbrev pub int_of : {D : Type 0} → Content D → ℕ
int_of (int_value value) = value
int_of _ = 0

abbrev pub float_of : {D : Type 0} → D → Content D → D
float_of other (float_value value) = value
float_of other _ = other

abbrev pub string_of : {D : Type 0} → Content D → Size
string_of (string_num index) = index
string_of _ = 0

-- `token_is`, for the kinds that the parser asks for.
pub data Wanted : Type 0 where
  eof comma colon l_brace r_paren r_square r_brace l_paren identifier semicolon : Wanted
  else_keyword while_keyword : Wanted

abbrev pub is : Token → Wanted → Bool
is Token.eof eof = true
is Token.comma comma = true
is Token.colon colon = true
is Token.l_brace l_brace = true
is Token.r_paren r_paren = true
is Token.r_square r_square = true
is Token.r_brace r_brace = true
is Token.l_paren l_paren = true
is Token.identifier identifier = true
is Token.semicolon semicolon = true
is Token.else_keyword else_keyword = true
is Token.while_keyword while_keyword = true
is _ _ = false

-- What closes a token that opens a bracket, or `?`.
abbrev pub closer : Token → Option Wanted
closer Token.l_paren = some r_paren
closer Token.l_square = some r_square
closer Token.l_brace = some r_brace
closer Token.question = some colon
closer _ = none

abbrev pub is_one_of : List Wanted → Token → Bool
is_one_of [] kind = false
is_one_of (w ∷ ws) kind = is kind w || is_one_of ws kind

-- Where `skip_until` looks into its set.
abbrev pub is_stop : Token → Bool
is_stop Token.r_paren = true
is_stop Token.r_square = true
is_stop Token.r_brace = true
is_stop Token.colon = true
is_stop Token.semicolon = true
is_stop _ = false

module _ {D : Type 0} where
  -- A round of `skip_until`, given what it calls.
  abbrev pub skip_at :
      (List Wanted → List (Lexeme D) → Option (List (Lexeme D)))
      → List Wanted
      → Lexeme D
      → List (Lexeme D)
      → Bool
      → Option Wanted
      → Bool
      → Option (List (Lexeme D))
  skip_at skip tokens t ts true opened stops = some (t ∷ ts)
  skip_at skip tokens t ts false (some close) stops = elim (skip (close ∷ []) ts) [
    | none ↦ none
    | some ts' ↦ skip tokens ts'
  ]
  skip_at skip tokens t ts false none true = some (t ∷ ts)
  skip_at skip tokens t ts false none false = skip tokens ts

  unfoldable pub skip_until : ℕ → List Wanted → List (Lexeme D) → Option (List (Lexeme D))
  skip_until zero tokens ts = none
  skip_until (suc fuel) tokens [] = some []
  skip_until (suc fuel) tokens (t ∷ ts) =
      skip_at (λ tokens' ts'. skip_until fuel tokens' ts') tokens t ts (is t.kind eof)
        (closer t.kind) (is_stop t.kind && is_one_of tokens t.kind)

module _ (B : Builder) where
  -- The parser; its errors are kept with their locations.
  pub record Parser : Type 0 where
    pub tokens : List (Lexeme B.Double)
    pub errors : List (Location × ParserError)
    pub sx : B.Syntax

  abbrev pub kind : Parser → Token
  kind prs = (current prs.tokens).kind

  abbrev pub content : Parser → Content B.Double
  content prs = (current prs.tokens).content

  unfoldable pub parser_error : ParserError → Parser → Parser
  parser_error error prs = record prs {
    errors = prs.errors ++ (location_of (current prs.tokens), error) ∷ [];
  }

  -- The location of the token that is consumed.
  abbrev pub consume_token : Action Parser Location
  consume_token prs =
      some (location_of (current prs.tokens), record prs { tokens = behind prs.tokens })

  abbrev pub token_is : Wanted → Action Parser Bool
  token_is wanted prs = some (is (kind prs) wanted, prs)

  abbrev pub token_get_ident_name : Action Parser Size
  token_get_ident_name prs = some (ident_name (content prs), prs)

  abbrev pub error : ParserError → Action Parser (Unit {0})
  error e prs = some (tt, parser_error e prs)

  -- A call of the builder.
  abbrev pub build : {A : Type 0} → (B.Syntax → A × B.Syntax) → Action Parser A
  build f prs = let (node, sx) = f prs.sx in some (node, record prs { sx = sx })

  abbrev pub try_consume_token : Wanted → Action Parser Bool
  try_consume_token expected prs =
      if is (kind prs) expected
      then some (true, record prs { tokens = behind prs.tokens })
      else some (false, prs)

  -- `skip_until` of the parser.
  unfoldable pub skip : List Wanted → Action Parser (Unit {0})
  unfolding skip_until
  skip tokens prs = elim (skip_until (suc (suc (length prs.tokens))) tokens prs.tokens) [
    | none ↦ none
    | some ts ↦ some (tt, record prs { tokens = ts })
  ]

  -- The bracket before a `;`, where it is that.
  abbrev pub is_bracket : Token → Bool
  is_bracket Token.r_paren = true
  is_bracket Token.r_square = true
  is_bracket _ = false

  unfoldable pub expect_and_consume : Wanted → ParserError → Action Parser (Unit {0})
  unfolding parser_error
  expect_and_consume expected e prs =
      if is (kind prs) expected
      then some (tt, record prs { tokens = behind prs.tokens })
      else (if is Token.semicolon expected
            && is (current (behind prs.tokens)).kind semicolon
            && is_bracket (kind prs)
          then some (
            tt,
            record (parser_error extraneous_bracket_before_semi prs) {
              tokens = behind (behind prs.tokens);
            },
          )
          else some (tt, parser_error e prs))
