-- ===== src/Compiler/Lexer/Source.antt =====
-- The input of libs/compiler/lexer.c, what is skipped in it, and the tokens of token.c.
-- The text is a list of symbols, each of which takes `utf8_size` bytes: its head is `lxr->character`,
-- and the empty list stands for EOF. `scan` takes the head off; a scan at EOF leaves EOF.
use ru_c.Prelude.{ℕ, ◌+◌, ◌-◌, Bool, true, false, ◌||◌, List, [], ◌∷◌, ◌==◌, if◌then◌else◌}
use ru_c.Utils.Item.{Size}
use ru_c.Utils.Utf8.Encoding.{utf8_size}
use ru_c.Compiler.Operations.{Token}

-- `(char32_t)EOF`
abbrev pub eof : ℕ
eof = 0xFFFFFFFF

-- `lxr->character`
abbrev pub character : List ℕ → ℕ
character [] = eof
character (c ∷ text) = c

abbrev pub scan : List ℕ → List ℕ
scan [] = []
scan (c ∷ text) = text

unfoldable pub bytes : List ℕ → Size
bytes [] = 0
bytes (c ∷ text) = utf8_size c + bytes text

-- `in_get_position` in an input of `total` bytes: the place behind the character.
unfoldable pub position : Size → List ℕ → Size
unfolding bytes
position total text = total - bytes (scan text)

-- The errors of the lexer, and its one warning.
pub data LexerError : Type 0 where
  unterminated_block_comment digit_of_another_base exponent_has_no_digits : LexerError
  unknown_escape_sequence empty_character_literal missing_terminating_apost_char : LexerError
  missing_terminating_quote_char bad_character too_long_int : LexerError

-- An error with its place.
abbrev pub Message : Type 0
Message = Size × LexerError

-- The `data` of a token; `D` is the type double.
pub data Content (D : Type 0) : Type 0 where
  nothing : Content D
  ident_repr : Size → Content D
  char_value : ℕ → Content D
  int_value : ℕ → Content D
  float_value : D → Content D
  string_num : Size → Content D

-- `token`, with its location.
pub record Lexeme (D : Type 0) : Type 0 where
  pub begin : Size
  pub end : Size
  pub kind : Token
  pub content : Content D

module _ {D : Type 0} where
  abbrev pub token_identifier : Size → Size → Size → Lexeme D
  token_identifier from to name = record {
    begin = from;
    end = to;
    kind = Token.identifier;
    content = ident_repr name;
  }

  abbrev pub token_char_literal : Size → Size → ℕ → Lexeme D
  token_char_literal from to value = record {
    begin = from;
    end = to;
    kind = Token.char_literal;
    content = char_value value;
  }

  abbrev pub token_int_literal : Size → Size → ℕ → Lexeme D
  token_int_literal from to value = record {
    begin = from;
    end = to;
    kind = Token.int_literal;
    content = int_value value;
  }

  abbrev pub token_float_literal : Size → Size → D → Lexeme D
  token_float_literal from to value = record {
    begin = from;
    end = to;
    kind = Token.float_literal;
    content = float_value value;
  }

  abbrev pub token_string_literal : Size → Size → Size → Lexeme D
  token_string_literal from to index = record {
    begin = from;
    end = to;
    kind = Token.string_literal;
    content = string_num index;
  }

  abbrev pub token_eof : Lexeme D
  token_eof = record {
    begin = 0xFFFF_FFFF_FFFF_FFFF;
    end = 0xFFFF_FFFF_FFFF_FFFF;
    kind = Token.eof;
    content = nothing;
  }

  abbrev pub token_keyword : Size → Size → Token → Lexeme D
  token_keyword from to kind = record { begin = from; end = to; kind = kind; content = nothing }

  abbrev pub token_punctuator : Size → Size → Token → Lexeme D
  token_punctuator from to kind = record { begin = from; end = to; kind = kind; content = nothing }

abbrev pub is_space : ℕ → Bool
is_space c = c == b'\n' || c == b'\r' || c == b'\t' || c == b' '

unfoldable pub skip_whitespace : List ℕ → List ℕ
skip_whitespace [] = []
skip_whitespace (c ∷ text) = if is_space c then skip_whitespace text else c ∷ text

unfoldable pub skip_line_comment : List ℕ → List ℕ
skip_line_comment [] = []
skip_line_comment (c ∷ text) = if c == b'\n' then c ∷ text else skip_line_comment text

-- The text behind the comment, and whether EOF was met.
unfoldable pub skip_block_comment : List ℕ → List ℕ × Bool
skip_block_comment [] = ([], true)
skip_block_comment (c ∷ []) = ([], true)
skip_block_comment (c ∷ d ∷ text) =
    let next = skip_block_comment (d ∷ text) in
    let after_next = skip_block_comment text in
    if c == b'*' then if d == b'/' then (text, false) else after_next else next
