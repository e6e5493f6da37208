-- ===== src/Compiler/Lexer/Punctuators.antt =====
-- The punctuators, each with a space behind it.
use ru_c.Prelude.{ℕ, ◌≡◌, refl, Bool, true, false, List, [], ◌∷◌, ◌++◌, arith}
use ru_c.Utils.Utf8.Letters.{utf8_is_digit}
use ru_c.Compiler.Operations.{Token}
use ru_c.Compiler.Lexer.Source.{skip_whitespace}
use ru_c.Compiler.Lexer.Switch.{punctuator, case_of_text}

-- The spelling of a punctuator; other tokens have none.
abbrev pub spelling : Token → List ℕ
spelling Token.l_square = b'[' ∷ []
spelling Token.l_paren = b'(' ∷ []
spelling Token.l_brace = b'{' ∷ []
spelling Token.r_square = b']' ∷ []
spelling Token.r_paren = b')' ∷ []
spelling Token.r_brace = b'}' ∷ []
spelling Token.comma = b',' ∷ []
spelling Token.colon = b':' ∷ []
spelling Token.semicolon = b';' ∷ []
spelling Token.question = b'?' ∷ []
spelling Token.tilde = b'~' ∷ []
spelling Token.period = b'.' ∷ []
spelling Token.plus = b'+' ∷ []
spelling Token.minus = b'-' ∷ []
spelling Token.star = b'*' ∷ []
spelling Token.slash = b'/' ∷ []
spelling Token.percent = b'%' ∷ []
spelling Token.exclaim = b'!' ∷ []
spelling Token.caret = b'^' ∷ []
spelling Token.pipe = b'|' ∷ []
spelling Token.amp = b'&' ∷ []
spelling Token.equal = b'=' ∷ []
spelling Token.less = b'<' ∷ []
spelling Token.greater = b'>' ∷ []
spelling Token.arrow = b'-' ∷ b'>' ∷ []
spelling Token.plus_equal = b'+' ∷ b'=' ∷ []
spelling Token.plus_plus = b'+' ∷ b'+' ∷ []
spelling Token.minus_equal = b'-' ∷ b'=' ∷ []
spelling Token.minus_minus = b'-' ∷ b'-' ∷ []
spelling Token.star_equal = b'*' ∷ b'=' ∷ []
spelling Token.slash_equal = b'/' ∷ b'=' ∷ []
spelling Token.percent_equal = b'%' ∷ b'=' ∷ []
spelling Token.exclaim_equal = b'!' ∷ b'=' ∷ []
spelling Token.caret_equal = b'^' ∷ b'=' ∷ []
spelling Token.pipe_equal = b'|' ∷ b'=' ∷ []
spelling Token.pipe_pipe = b'|' ∷ b'|' ∷ []
spelling Token.amp_equal = b'&' ∷ b'=' ∷ []
spelling Token.amp_amp = b'&' ∷ b'&' ∷ []
spelling Token.equal_equal = b'=' ∷ b'=' ∷ []
spelling Token.less_equal = b'<' ∷ b'=' ∷ []
spelling Token.less_less = b'<' ∷ b'<' ∷ []
spelling Token.greater_equal = b'>' ∷ b'=' ∷ []
spelling Token.greater_greater = b'>' ∷ b'>' ∷ []
spelling Token.less_less_equal = b'<' ∷ b'<' ∷ b'=' ∷ []
spelling Token.greater_greater_equal = b'>' ∷ b'>' ∷ b'=' ∷ []
spelling _ = []

abbrev pub is_punctuator : Token → Bool
is_punctuator token = elim (spelling token) [ [] ↦ false | c ∷ cs ↦ true ]

pub case_of_text-spelling :
    (token : Token) (rest : List ℕ)
    → is_punctuator token ≡ true
    → case_of_text (spelling token ++ b' ' ∷ rest) ≡ punctuator token (b' ' ∷ rest)
unfolding case_of_text utf8_is_digit
case_of_text-spelling Token.main rest h = cc
case_of_text-spelling Token.plus rest h = refl
case_of_text-spelling Token.l_square rest h = refl
case_of_text-spelling Token.l_paren rest h = refl
case_of_text-spelling Token.l_brace rest h = refl
case_of_text-spelling Token.r_square rest h = refl
case_of_text-spelling Token.r_paren rest h = refl
case_of_text-spelling Token.r_brace rest h = refl
case_of_text-spelling Token.comma rest h = refl
case_of_text-spelling Token.colon rest h = refl
case_of_text-spelling Token.semicolon rest h = refl
case_of_text-spelling Token.question rest h = refl
case_of_text-spelling Token.tilde rest h = refl
case_of_text-spelling Token.period rest h = refl
case_of_text-spelling Token.minus rest h = refl
case_of_text-spelling Token.star rest h = refl
case_of_text-spelling Token.slash rest h = refl
case_of_text-spelling Token.percent rest h = refl
case_of_text-spelling Token.exclaim rest h = refl
case_of_text-spelling Token.caret rest h = refl
case_of_text-spelling Token.pipe rest h = refl
case_of_text-spelling Token.amp rest h = refl
case_of_text-spelling Token.equal rest h = refl
case_of_text-spelling Token.less rest h = refl
case_of_text-spelling Token.greater rest h = refl
case_of_text-spelling Token.arrow rest h = refl
case_of_text-spelling Token.plus_equal rest h = refl
case_of_text-spelling Token.plus_plus rest h = refl
case_of_text-spelling Token.minus_equal rest h = refl
case_of_text-spelling Token.minus_minus rest h = refl
case_of_text-spelling Token.star_equal rest h = refl
case_of_text-spelling Token.slash_equal rest h = refl
case_of_text-spelling Token.percent_equal rest h = refl
case_of_text-spelling Token.exclaim_equal rest h = refl
case_of_text-spelling Token.caret_equal rest h = refl
case_of_text-spelling Token.pipe_equal rest h = refl
case_of_text-spelling Token.pipe_pipe rest h = refl
case_of_text-spelling Token.amp_equal rest h = refl
case_of_text-spelling Token.amp_amp rest h = refl
case_of_text-spelling Token.equal_equal rest h = refl
case_of_text-spelling Token.less_equal rest h = refl
case_of_text-spelling Token.less_less rest h = refl
case_of_text-spelling Token.greater_equal rest h = refl
case_of_text-spelling Token.greater_greater rest h = refl
case_of_text-spelling Token.less_less_equal rest h = refl
case_of_text-spelling Token.greater_greater_equal rest h = refl
case_of_text-spelling _ rest h = cc

-- A punctuator begins with no white space.
pub skip_whitespace-spelling :
    (token : Token) (rest : List ℕ)
    → is_punctuator token ≡ true
    → skip_whitespace (spelling token ++ rest) ≡ spelling token ++ rest
unfolding skip_whitespace
skip_whitespace-spelling Token.main rest h = cc
skip_whitespace-spelling _ rest h = ground arith
