-- ===== src/Compiler/Lexer/Text.antt =====
-- Character and string literals of libs/compiler/lexer.c. The loops over a string literal run on
-- fuel; `none` is no result: the fuel ran out.
use ru_c.Prelude.{
  ℕ, zero, suc, ◌+◌, ◌&&◌, ◌||◌, not, Option, none, some, List, [], ◌∷◌, ◌++◌, length, ◌==◌,
  if◌then◌else◌,
}
use ru_c.Utils.Item.{Size}
use ru_c.Compiler.Lexer.Source.{
  character, scan, position, Message, Lexeme, token_char_literal, skip_whitespace,
  unknown_escape_sequence, empty_character_literal, missing_terminating_apost_char,
  missing_terminating_quote_char,
}

-- The element, the text with its last symbol at the head, and the messages.
unfoldable pub get_next_string_elem : Size → List ℕ → ℕ × List ℕ × List Message
get_next_string_elem total text =
    let next = scan text in
    let c = character next in
    if character text == b'\\'
    then (if c == b'n' || c == 0x43D
        then (b'\n', next, [])
        else (if c == b't' || c == 0x442
            then (b'\t', next, [])
            else (if c == b'0'
                then (0, next, [])
                else (if c == b'\\' || c == b'\'' || c == b'"'
                    then (c, next, [])
                    else (c, next, (position total next, unknown_escape_sequence) ∷ [])))))
    else (character text, text, [])

unfoldable pub lex_char_literal : {D : Type 0} → Size → List ℕ → Lexeme D × List ℕ × List Message
unfolding get_next_string_elem
lex_char_literal total text =
    let from = position total text in
    let next = scan text in
    let (value, elem, messages) = get_next_string_elem total next in
    let behind = scan elem in
    if character next == b'\''
    then (
      token_char_literal from (position total (scan next)) 0,
      scan next,
      (position total next, empty_character_literal) ∷ [],
    )
    else (if character behind == b'\''
        then (token_char_literal from (position total (scan behind)) value, scan behind, messages)
        else (
          token_char_literal from (position total behind) value,
          behind,
          messages ++ (position total behind, missing_terminating_apost_char) ∷ [],
        ))

-- The inner loop: the elements up to a quote or the end of the line.
unfoldable pub string_elems :
    ℕ → Size → List ℕ → List ℕ → List Message → Option (List ℕ × List ℕ × List Message)
unfolding get_next_string_elem
string_elems zero total text lexstr messages = none
string_elems (suc fuel) total text lexstr messages =
    let (value, elem, new) = get_next_string_elem total text in
    let rest = string_elems fuel total (scan elem) (lexstr ++ value ∷ []) (messages ++ new) in
    if not (character text == b'"') && not (character text == b'\n')
    then rest
    else some (text, lexstr, messages)

-- What stands behind the elements: the closing quote, or an error.
abbrev pub close_string : Size → List ℕ → List Message → List ℕ × List Message
close_string total text messages =
    if character text == b'"' then (skip_whitespace (scan text), messages) else (
      skip_whitespace text,
      messages ++ (position total text, missing_terminating_quote_char) ∷ [],
    )

-- The outer loop: string literals that follow each other are one. The result is the text behind,
-- the elements and the messages.
unfoldable pub string_parts :
    ℕ → Size → List ℕ → List ℕ → List Message → Option (List ℕ × List ℕ × List Message)
unfolding string_elems skip_whitespace
string_parts zero total text lexstr messages = none
string_parts (suc fuel) total text lexstr messages =
    let elems = string_elems (length text + 1) total (scan text) lexstr messages in
    if character text == b'"'
    then elim elems [
      | none ↦ none
      | some (text', lexstr', messages') ↦
          let (text'', messages'') = close_string total text' messages' in
          string_parts fuel total text'' lexstr' messages''
    ]
    else some (text, lexstr, messages)
