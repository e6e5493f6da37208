-- ===== src/Compiler/Lexer/Tests.antt =====
-- Runs of the lexer.
use ru_c.Prelude.{
  ℕ, ◌+◌, ◌*◌, ◌^◌, ◌<◌, ◌≡◌, refl, inr, Bool, true, false, none, some, List, [], ◌∷◌, ◌++◌, length,
  ◌==◌, if◌then◌else◌, arith,
}
use ru_c.Utils.Utf8.Encoding.{utf8_size}
use ru_c.Utils.Utf8.Letters.{
  utf8_is_digit, utf8_is_letter, utf8_is_russian, utf8_is_power, utf8_is_hexa_digit, utf8_to_number,
}
use ru_c.Compiler.Operations.{Token}
use ru_c.Compiler.Lexer.Source.{
  bytes, position, nothing, ident_repr, int_value, Lexeme, skip_whitespace, skip_line_comment,
  skip_block_comment,
}
use ru_c.Compiler.Lexer.Number.{
  Floating, Value, number_prefix, skip_digits, skip_exponent, exponent_loop, times_ten, add_digit,
  digits_loop, fraction_loop, fraction, exponent_sign, raise, exponent, lex_numeric_literal,
}
use ru_c.Compiler.Lexer.Text.{get_next_string_elem, lex_char_literal, string_elems, string_parts}
use ru_c.Compiler.Lexer.Switch.{case_at, case_of_text, read_name}
use ru_c.Compiler.Lexer.Scanner.{
  Syntax, Lexer, lexer_create, name_token, lex_identifier_or_keyword, lex_string_literal, lex_case,
  lex_loop, lex, peek,
}
use ru_c.Compiler.Lexer.Comments.{skip_block_comment_closed, skip_block_comment_stars}
use ru_c.Compiler.Lexer.Digits.{add_digit_bounds, add_digit-add_digit}
use ru_c.Compiler.Lexer.Tokens.{Printed, punctuation, number, name}
use ru_c.Compiler.Lexer.Roundtrip.{AreTokens, print, lex_all, lexed_all, lex_all-print}
use ru_c.Compiler.Lexer.Behind.{IsTerminated}
use ru_c.Compiler.Lexer.Termination.{lex_returns}
use ru_c.Compiler.Lexer.Unterminated.{string_elems_unterminated}

-- Doubles without a fraction.
abbrev whole : Floating
whole = record {
  Double = ℕ;
  zero_point = 0;
  tenth = 0;
  ten = 10;
  dbl_max = 2 ^ 1023;
  of_integer = λ n. n;
  add = λ a b. a + b;
  mul = λ a b. a * b;
  pow = λ a b. a ^ b;
  negate = λ a. 0;
}

abbrev same : List ℕ → List ℕ → Bool
same [] [] = true
same (a ∷ left) (b ∷ right) = let rest = same left right in if a == b then rest else false
same _ _ = false

-- The names, with the number of the first one.
abbrev reserve : List (List ℕ) → List ℕ → List (List ℕ) × ℕ
reserve [] new = (new ∷ [], 0)
reserve (known ∷ names) new =
    let (names', n) = reserve names new in
    if same known new then (known ∷ names, 0) else (known ∷ names', n + 1)

abbrev if_symbols : List ℕ
if_symbols = b'i' ∷ b'f' ∷ []

abbrev names : Syntax
names = record {
  State = List (List ℕ);
  repr_reserve = reserve;
  keyword = λ state n. if n == 0 then some Token.if_keyword else none;
  string_add = λ state text. (state ++ text ∷ [], length state);
}

program : Unit {0}
unfolding utf8_size utf8_is_digit utf8_is_letter utf8_is_russian utf8_is_power utf8_is_hexa_digit
    utf8_to_number bytes position skip_whitespace skip_line_comment skip_block_comment number_prefix
    skip_digits skip_exponent exponent_loop times_ten add_digit digits_loop fraction_loop fraction
    exponent_sign raise exponent lex_numeric_literal get_next_string_elem lex_char_literal
    string_elems string_parts case_at case_of_text read_name lexer_create name_token
    lex_identifier_or_keyword lex_string_literal lex_case lex_loop lex peek print lex_all lexed_all
    IsTerminated
program = tt

-- `if ( x1 >>= 42 ) ;`
abbrev line : List Printed
line =
    name b'i' (b'f' ∷ [])
    ∷ punctuation Token.l_paren
    ∷ name b'x' (b'1' ∷ [])
    ∷ punctuation Token.greater_greater_equal
    ∷ number 4 (2 ∷ [])
    ∷ punctuation Token.r_paren
    ∷ punctuation Token.semicolon
    ∷ []

line-AreTokens : AreTokens whole names 18 (if_symbols ∷ []) line
unfolding program
line-AreTokens = (
  (refl, (refl, tt), refl, refl),
  (
    refl,
    (
      (refl, (refl, tt), refl, refl),
      (refl, ((omega arith, (omega arith, tt), omega arith), (refl, (refl, tt)))),
    ),
  ),
)

lex_all-print_example :
    lex_all whole names 18 8 (lexer_create whole names (print line) (if_symbols ∷ []))
    ≡ some (lexed_all whole names 18 (if_symbols ∷ []) line)
lex_all-print_example = lex_all-print whole names 18 line (if_symbols ∷ []) line-AreTokens

line_lexed :
    lexed_all whole names 18 (if_symbols ∷ []) line
    ≡ (Token.if_keyword, nothing)
      ∷ (Token.l_paren, nothing)
      ∷ (Token.identifier, ident_repr 1)
      ∷ (Token.greater_greater_equal, nothing)
      ∷ (Token.int_literal, int_value 42)
      ∷ (Token.r_paren, nothing)
      ∷ (Token.semicolon, nothing)
      ∷ []
unfolding program
line_lexed = refl

-- `a "\` and two line breaks
abbrev open_string : List ℕ
open_string = b'"' ∷ b'a' ∷ b'\\' ∷ b'\n' ∷ b'\n' ∷ []

lex_returns_example :
    (r : Lexeme ℕ × Lexer whole names) × (lex whole names 5
        (record { text = open_string; messages = []; syntax = [] })
      ≡ some r)
lex_returns_example =
    lex_returns whole names 5 (record { text = open_string; messages = []; syntax = [] })
      (unfold program in (refl, refl))

string_elems_unterminated_example : string_elems 100 4 (b'a' ∷ b'\\' ∷ b'b' ∷ []) [] [] ≡ none
string_elems_unterminated_example =
    string_elems_unterminated 100 4 (b'a' ∷ b'\\' ∷ b'b' ∷ []) [] []
      (omega arith, omega arith, (omega arith, omega arith, (omega arith, omega arith, tt)))

skip_block_comment_closed_example :
    skip_block_comment (b'*' ∷ b' ' ∷ b'/' ∷ b'*' ∷ b'/' ∷ b'a' ∷ []) ≡ (b'a' ∷ [], false)
skip_block_comment_closed_example =
    skip_block_comment_closed b' ' (b'/' ∷ []) (b'a' ∷ []) (omega arith) (omega arith)
      (omega arith, tt)

skip_block_comment_stars_example :
    skip_block_comment (b'*' ∷ b' ' ∷ b'*' ∷ b'*' ∷ b'/' ∷ b'a' ∷ [])
    ≡ skip_block_comment (b'/' ∷ b'a' ∷ [])
skip_block_comment_stars_example =
    skip_block_comment_stars b' ' [] (b'a' ∷ []) (omega arith) (omega arith) tt

abbrev some_value : ℕ → Value whole
some_value n = record { integer = n; float = 0; is_in_range = true; is_integer = true }

add_digit_bounds_example :
    ((add_digit whole 16 15 (some_value 255)).integer ≡ 255 * 16 + 15) × (255 * 16 + 15 < 2 ^ 64)
add_digit_bounds_example =
    add_digit_bounds whole 16 15 (some_value 255) (inr (inr (inr refl))) (omega arith)
      (unfold program in refl)

-- 0xA000000000000000 is full.
add_digit-add_digit_example :
    add_digit whole 10 2 (add_digit whole 10 1 (some_value 0xA000000000000000))
    ≡ add_digit whole 10 2 (some_value 0xA000000000000000)
add_digit-add_digit_example = add_digit-add_digit whole 10 1 2 (some_value 0xA000000000000000) refl
