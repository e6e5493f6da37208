-- ===== src/Compiler/Lexer/Switch.antt =====
-- The `switch` of `lex` of libs/compiler/lexer.c, and the symbols of a name.
use ru_c.Prelude.{ℕ, ◌||◌, List, [], ◌∷◌, ◌==◌, if◌then◌else◌}
use ru_c.Utils.Utf8.Letters.{utf8_is_digit, utf8_is_letter}
use ru_c.Compiler.Operations.{Token}
use ru_c.Compiler.Lexer.Source.{character, scan}

-- What `lex` does at a symbol; the text behind a punctuator or before a comment.
pub data Case : Type 0 where
  punctuator : Token → List ℕ → Case
  line_comment : List ℕ → Case
  block_comment : List ℕ → Case
  numeric quote double_quote word bad finish : Case

-- The punctuator with `=` behind it, or without.
abbrev pub with_equal : Token → Token → List ℕ → Case
with_equal plain assigned next =
    if character next == b'=' then punctuator assigned (scan next) else punctuator plain next

-- `=` behind it, the second symbol again, or neither.
abbrev pub with_twice : ℕ → Token → Token → Token → List ℕ → Case
with_twice second plain assigned twice next =
    if character next == b'='
    then punctuator assigned (scan next)
    else (if character next == second then punctuator twice (scan next) else punctuator plain next)

-- `-` with `=`, `-`, `>` or none of them behind it.
abbrev pub minus_case : List ℕ → Case
minus_case next =
    if character next == b'>'
    then punctuator Token.arrow (scan next)
    else with_twice b'-' Token.minus Token.minus_equal Token.minus_minus next

-- `<` and `>`: shifts, too.
abbrev pub shift_case : ℕ → Token → Token → Token → Token → List ℕ → Case
shift_case c plain assigned shift shift_assigned next =
    if character next == c
    then with_equal shift shift_assigned (scan next)
    else with_equal plain assigned next

abbrev pub slash_case : List ℕ → Case
slash_case next =
    if character next == b'/'
    then line_comment next
    else (if character next == b'*'
        then block_comment next
        else with_equal Token.slash Token.slash_equal next)

-- The `switch` on a symbol and the text behind it.
unfoldable pub case_at : ℕ → List ℕ → Case
case_at c next =
    if utf8_is_digit c
    then numeric
    else (if c == b'\''
        then quote
        else (if c == b'"'
            then double_quote
            else (if c == b'?'
                then punctuator Token.question next
                else (if c == b'['
                    then punctuator Token.l_square next
                    else (if c == b']'
                        then punctuator Token.r_square next
                        else (if c == b'('
                            then punctuator Token.l_paren next
                            else (if c == b')'
                                then punctuator Token.r_paren next
                                else (if c == b'{'
                                    then punctuator Token.l_brace next
                                    else (if c == b'}'
                                        then punctuator Token.r_brace next
                                        else (if c == b'~'
                                            then punctuator Token.tilde next
                                            else (if c == b':'
                                                then punctuator Token.colon next
                                                else (if c == b';'
                                                    then punctuator Token.semicolon next
                                                    else (if c == b','
                                                        then punctuator Token.comma next
                                                        else (if c == b'.'
                                                            then (if utf8_is_digit (character next)
                                                            then numeric
                                                            else punctuator Token.period next)
                                                            else (if c == b'*'
                                                            then with_equal Token.star
                                                            Token.star_equal next
                                                            else (if c == b'!'
                                                            then with_equal Token.exclaim
                                                            Token.exclaim_equal next
                                                            else (if c == b'%'
                                                            then with_equal Token.percent
                                                            Token.percent_equal next
                                                            else (if c == b'^'
                                                            then with_equal Token.caret
                                                            Token.caret_equal next
                                                            else (if c == b'='
                                                            then with_equal Token.equal
                                                            Token.equal_equal next
                                                            else (if c == b'+'
                                                            then with_twice b'+' Token.plus
                                                            Token.plus_equal Token.plus_plus next
                                                            else (if c == b'|'
                                                            then with_twice b'|' Token.pipe
                                                            Token.pipe_equal Token.pipe_pipe next
                                                            else (if c == b'&'
                                                            then with_twice b'&' Token.amp
                                                            Token.amp_equal Token.amp_amp next
                                                            else (if c == b'-'
                                                            then minus_case next
                                                            else (if c == b'<'
                                                            then shift_case b'<' Token.less
                                                            Token.less_equal Token.less_less
                                                            Token.less_less_equal next
                                                            else (if c == b'>'
                                                            then shift_case b'>' Token.greater
                                                            Token.greater_equal
                                                            Token.greater_greater
                                                            Token.greater_greater_equal next
                                                            else (if c == b'/'
                                                            then slash_case next
                                                            else (if utf8_is_letter c || c == b'#'
                                                            then word
                                                            else bad)))))))))))))))))))))))))))

unfoldable pub case_of_text : List ℕ → Case
unfolding case_at
case_of_text [] = finish
case_of_text (c ∷ next) = case_at c next

-- The symbols of a name behind its first, and the text behind the name.
unfoldable pub read_name : List ℕ → List ℕ × List ℕ
read_name [] = ([], [])
read_name (c ∷ text) =
    let (name, rest) = read_name text in
    if utf8_is_letter c || utf8_is_digit c then (c ∷ name, rest) else ([], c ∷ text)
