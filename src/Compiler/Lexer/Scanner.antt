-- ===== src/Compiler/Lexer/Scanner.antt =====
-- `lex` and `peek` of libs/compiler/lexer.c. What the lexer uses of libs/compiler/syntax.c, the
-- representations of names and the strings, is a parameter.
use ru_c.Prelude.{
  ℕ, zero, suc, ◌+◌, Bool, true, false, Option, none, some, List, [], ◌∷◌, ◌++◌, length,
  if◌then◌else◌,
}
use ru_c.Utils.Item.{Size}
use ru_c.Compiler.Operations.{Token}
use ru_c.Compiler.Lexer.Source.{
  character, scan, position, Message, Lexeme, token_identifier, token_keyword, token_eof,
  token_punctuator, token_string_literal, skip_whitespace, skip_line_comment, skip_block_comment,
  unterminated_block_comment, bad_character,
}
use ru_c.Compiler.Lexer.Number.{Floating, lex_numeric_literal}
use ru_c.Compiler.Lexer.Text.{lex_char_literal, string_parts}
use ru_c.Compiler.Lexer.Switch.{
  Case, punctuator, line_comment, block_comment, numeric, quote, double_quote, word, bad, finish,
  case_of_text, read_name,
}

-- `repr_reserve` of a name that was read; the keyword that `repr_get_reference` tells by a negative
-- reference; `string_add`.
pub record Syntax : Type 1 where
  pub State : Type 0
  pub repr_reserve : State → List ℕ → State × Size
  pub keyword : State → Size → Option Token
  pub string_add : State → List ℕ → State × Size

module _ (F : Floating) (S : Syntax) where
  pub record Lexer : Type 0 where
    pub text : List ℕ
    pub messages : List Message
    pub syntax : S.State

  unfoldable pub lexer_create : List ℕ → S.State → Lexer
  lexer_create text state = record { text = text; messages = []; syntax = state }

  -- The token of a name, given the symbols behind its first and the text behind it.
  unfoldable pub name_token : Size → Lexer → List ℕ × List ℕ → Lexeme F.Double × Lexer
  name_token total lxr (name, rest) =
      let (state, repr) = S.repr_reserve lxr.syntax (character lxr.text ∷ name) in
      let from = position total lxr.text in
      let to = position total rest in
      let lxr' : Lexer = record lxr { text = rest; syntax = state } in
      elim (S.keyword state repr) [
        | none ↦ (token_identifier from to repr, lxr')
        | some kind ↦ (token_keyword from to kind, lxr')
      ]

  -- The name begins at the head of the text.
  unfoldable pub lex_identifier_or_keyword : Size → Lexer → Lexeme F.Double × Lexer
  unfolding read_name name_token
  lex_identifier_or_keyword total lxr = name_token total lxr (read_name (scan lxr.text))

  unfoldable pub lex_string_literal : Size → Lexer → Option (Lexeme F.Double × Lexer)
  lex_string_literal total lxr =
      elim (string_parts (length lxr.text + 1) total lxr.text [] lxr.messages) [
        | none ↦ none
        | some (rest, lexstr, messages) ↦
            let (state, index) = S.string_add lxr.syntax lexstr in
            some (
              token_string_literal (position total lxr.text) (position total rest) index,
              record { text = rest; messages = messages; syntax = state },
            )
      ]

  -- A literal without effect on the syntax.
  abbrev pub plain_literal :
      Lexer → Lexeme F.Double × List ℕ × List Message → Lexeme F.Double × Lexer
  plain_literal lxr (token, rest, new) =
      (token, record lxr { text = rest; messages = lxr.messages ++ new })

  abbrev pub is_line : Token → Bool
  is_line Token.line = true
  is_line _ = false

  -- A name is a token, but for `#line`.
  abbrev pub word_case :
      (Lexer → Option (Lexeme F.Double × Lexer))
      → Lexeme F.Double × Lexer
      → Option (Lexeme F.Double × Lexer)
  word_case next (token, lxr) =
      if is_line token.kind
      then next (record lxr { text = skip_line_comment lxr.text })
      else some (token, lxr)

  -- What `lex` does at the head of the text. White space, comments, `#line` and bad characters are
  -- skipped: `next` is the next round of its loop.
  unfoldable pub lex_case :
      (Lexer → Option (Lexeme F.Double × Lexer))
      → Size
      → Lexer
      → Case
      → Option (Lexeme F.Double × Lexer)
  unfolding lex_identifier_or_keyword
  lex_case next total lxr finish = some (token_eof, lxr)
  lex_case next total lxr (punctuator kind rest) = some (
    token_punctuator (position total lxr.text) (position total rest) kind,
    record lxr { text = rest },
  )
  lex_case next total lxr numeric = some (plain_literal lxr (lex_numeric_literal F total lxr.text))
  lex_case next total lxr quote = some (plain_literal lxr (lex_char_literal total lxr.text))
  lex_case next total lxr double_quote = lex_string_literal total lxr
  lex_case next total lxr (line_comment rest) = next (record lxr { text = skip_line_comment rest })
  lex_case next total lxr (block_comment rest) =
      let (behind, unterminated) = skip_block_comment rest in
      next (record lxr {
        text = behind;
        messages =
            if unterminated
            then lxr.messages ++ (position total behind, unterminated_block_comment) ∷ []
            else lxr.messages;
      })
  lex_case next total lxr word = word_case next (lex_identifier_or_keyword total lxr)
  lex_case next total lxr bad = next (record lxr {
    text = scan lxr.text;
    messages = lxr.messages ++ (position total lxr.text, bad_character) ∷ [];
  })

  -- The loop of `lex`.
  unfoldable pub lex_loop : ℕ → Size → Lexer → Option (Lexeme F.Double × Lexer)
  unfolding lex_case
  lex_loop zero total lxr = none
  lex_loop (suc fuel) total lxr =
      let text = skip_whitespace lxr.text in
      lex_case (λ lxr'. lex_loop fuel total lxr') total (record lxr { text = text })
        (case_of_text text)

  -- Each round but the last takes a symbol off the text.
  unfoldable pub lex : Size → Lexer → Option (Lexeme F.Double × Lexer)
  unfolding lex_loop
  lex total lxr = lex_loop (length lxr.text + 1) total lxr

  -- The text is as before, and what `lex` reported and added is not undone.
  unfoldable pub peek : Size → Lexer → Option (Token × Lexer)
  unfolding lex
  peek total lxr = elim (lex total lxr) [
    | none ↦ none
    | some (token, lxr') ↦ some (token.kind, record lxr' { text = lxr.text })
  ]
