-- ===== src/Compiler/Lexer/Tokens.antt =====
-- What `lex` makes of a token with white space before it and a space behind it.
use ru_c.Prelude.{
  ℕ, ◌<◌, ◌≡◌, refl, ap, ◌∙◌, Bool, true, false, Option, none, some, List, [], ◌∷◌, ◌++◌, length,
  arith,
}
use native.Mathlib.Numerals.{add-one}
use ru_c.Utils.Item.{Size}
use ru_c.Utils.Utf8.Letters.{utf8_is_letter}
use ru_c.Compiler.Operations.{Token}
use ru_c.Compiler.Lexer.Source.{
  Content, nothing, ident_repr, int_value, Lexeme, position, skip_whitespace, token_identifier,
  token_keyword, token_punctuator, token_int_literal,
}
use ru_c.Compiler.Lexer.Number.{Floating}
use ru_c.Compiler.Lexer.Decimal.{
  IsDigits, symbols, value, integer_bound, lex_numeric_literal-symbols,
}
use ru_c.Compiler.Lexer.Punctuators.{
  spelling, is_punctuator, case_of_text-spelling, skip_whitespace-spelling,
}
use ru_c.Compiler.Lexer.Switch.{Case, word, numeric, case_of_text}
use ru_c.Compiler.Lexer.Scanner.{
  Syntax, Lexer, lex_identifier_or_keyword, is_line, name_token, word_case, lex_case, lex_loop, lex,
}
use ru_c.Compiler.Lexer.Names.{
  IsNameRest, read_name-space, case_at-letter, case_at-digit, letter_space, digit_space,
}

-- A punctuator, the digits of a decimal number, or the symbols of a name.
pub data Printed : Type 0 where
  punctuation : Token → Printed
  number : ℕ → List ℕ → Printed
  name : ℕ → List ℕ → Printed

abbrev pub print_token : Printed → List ℕ
print_token (punctuation token) = spelling token
print_token (number d ds) = symbols (d ∷ ds)
print_token (name c cs) = c ∷ cs

abbrev pub is_eof : Token → Bool
is_eof Token.eof = true
is_eof _ = false

pub is_eof-spelling : (token : Token) → is_punctuator token ≡ true → is_eof token ≡ false
is_eof-spelling Token.eof h = cc
is_eof-spelling _ h = ground arith

module _ (F : Floating) (S : Syntax) (total : Size) where
  -- What is lexed of a token, and the syntax behind it.
  abbrev pub lexed : S.State → Printed → S.State × Token × Content F.Double
  lexed state (punctuation token) = (state, token, nothing)
  lexed state (number d ds) = (state, Token.int_literal, int_value (value 0 (d ∷ ds)))
  lexed state (name c cs) =
      let (state', repr) = S.repr_reserve state (c ∷ cs) in
      elim (S.keyword state' repr) as (λ k. S.State × Token × Content F.Double) [
        | none ↦ (state', Token.identifier, ident_repr repr)
        | some kind ↦ (state', kind, nothing)
      ]

  -- The token is spelled as one. The keyword of `#line` is left out, and so is one of the kind of EOF.
  abbrev pub IsToken : S.State → Printed → Type 0
  IsToken state (punctuation token) = is_punctuator token ≡ true
  IsToken state (number d ds) = (d < 10) × IsDigits ds × (value 0 (d ∷ ds) < integer_bound)
  IsToken state (name c cs) =
      (utf8_is_letter c ≡ true)
      × IsNameRest cs
      × (is_line F S (lexed state (name c cs)).1 ≡ false)
      × (is_eof (lexed state (name c cs)).1 ≡ false)

  abbrev pub at : List ℕ → S.State → Lexer F S
  at text state = record { text = text; messages = []; syntax = state }

  -- `lex` returns such a token, and leaves a text and a state of the syntax without messages.
  abbrev pub Lexes : List ℕ → S.State → List ℕ → S.State × Token × Content F.Double → Type 0
  Lexes text state rest (state', kind, content) =
      (t : Lexeme F.Double) × (lex F S total (at text state) ≡ some (t, at rest state'))
      × (t.kind ≡ kind)
      × (t.content ≡ content)

  -- A round of `lex` at a text with white space before it.
  pub lex-lex_case :
      (spaced text : List ℕ) (state : S.State) (k : Case)
      → skip_whitespace spaced ≡ text
      → case_of_text text ≡ k
      → lex F S total (at spaced state)
        ≡ lex_case F S (λ lxr'. lex_loop F S (length spaced) total lxr') total (at text state) k
  unfolding lex lex_loop
  lex-lex_case spaced text state k e f =
      let round = λ (t : List ℕ) (c : Case).
        lex_case F S (λ lxr'. lex_loop F S (length spaced) total lxr') total (at t state) c in
      ap (λ n. lex_loop F S n total (at spaced state)) (add-one (length spaced))
      ∙ ap (λ t. round t (case_of_text t)) e
      ∙ ap (round text) f

  name_token-lexed :
      (c : ℕ) (cs rest : List ℕ) (state : S.State) (k : Option Token)
      → S.keyword (S.repr_reserve state (c ∷ cs)).0 (S.repr_reserve state (c ∷ cs)).1 ≡ k
      → (t : Lexeme F.Double) × (name_token F S total
            (at (c ∷ (cs ++ b' ' ∷ rest)) state)
            (cs, b' ' ∷ rest)
          ≡ (t, at (b' ' ∷ rest) (lexed state (name c cs)).0))
        × (t.kind ≡ (lexed state (name c cs)).1)
        × (t.content ≡ (lexed state (name c cs)).2)
  unfolding name_token
  name_token-lexed c cs rest state none e =
      rw (e, lexed)
        (
          token_identifier (position total (c ∷ (cs ++ b' ' ∷ rest))) (position total (b' ' ∷ rest))
              (S.repr_reserve state (c ∷ cs)).1,
          rw (e, name_token),
          refl,
          refl,
        )
  name_token-lexed c cs rest state (some kind) e =
      rw (e, lexed)
        (
          token_keyword (position total (c ∷ (cs ++ b' ' ∷ rest))) (position total (b' ' ∷ rest))
              kind,
          rw (e, name_token),
          refl,
          refl,
        )

  lex_case-name :
      (next : Lexer F S → Option (Lexeme F.Double × Lexer F S)) (c : ℕ) (cs rest : List ℕ)
      (state : S.State) (k : Option Token)
      → S.keyword (S.repr_reserve state (c ∷ cs)).0 (S.repr_reserve state (c ∷ cs)).1 ≡ k
      → IsToken state (name c cs)
      → (t : Lexeme F.Double) × (lex_case F S next total (at (c ∷ (cs ++ b' ' ∷ rest)) state) word
          ≡ some (t, at (b' ' ∷ rest) (lexed state (name c cs)).0))
        × (t.kind ≡ (lexed state (name c cs)).1)
        × (t.content ≡ (lexed state (name c cs)).2)
  unfolding lex_case lex_identifier_or_keyword
  lex_case-name next c cs rest state k e (letter, more, not_line, not_eof) =
      let text = c ∷ (cs ++ b' ' ∷ rest) in
      let (t, named, kind, content) = name_token-lexed c cs rest state k e in
      let other : is_line F S t.kind ≡ false = rw kind not_line in
      (
        t,
        ap (λ r. word_case F S next (name_token F S total (at text state) r))
              (read_name-space cs rest more)
            ∙ ap (word_case F S next) named
            ∙ rw other,
        kind,
        content,
      )

  -- A token begins with no white space.
  pub skip_whitespace-print_token :
      (t : Printed) (rest : List ℕ) (state : S.State)
      → IsToken state t
      → skip_whitespace (print_token t ++ rest) ≡ print_token t ++ rest
  skip_whitespace-print_token (punctuation token) rest state is =
      skip_whitespace-spelling token rest is
  skip_whitespace-print_token (number d ds) rest state is = digit_space d (symbols ds ++ rest) is.0
  skip_whitespace-print_token (name c cs) rest state is = letter_space c (cs ++ rest) is.0

  -- `lex` at a token with white space before it and a space behind it.
  pub lex-token :
      (t : Printed) (spaced rest : List ℕ) (state : S.State)
      → IsToken state t
      → skip_whitespace spaced ≡ print_token t ++ b' ' ∷ rest
      → Lexes spaced state (b' ' ∷ rest) (lexed state t)
  lex-token (punctuation token) spaced rest state is e = (
    token_punctuator (position total (spelling token ++ b' ' ∷ rest)) (position total (b' ' ∷ rest))
        token,
    lex-lex_case spaced (spelling token ++ b' ' ∷ rest) state _ e
          (case_of_text-spelling token rest is)
        ∙ unfold lex_case in refl,
    refl,
    refl,
  )
  lex-token (number d ds) spaced rest state (h, digits, bound) e = (
    token_int_literal (position total (symbols (d ∷ ds) ++ b' ' ∷ rest))
        (position total (b' ' ∷ rest)) (value 0 (d ∷ ds)),
    lex-lex_case spaced (symbols (d ∷ ds) ++ b' ' ∷ rest) state numeric e
          (unfold case_of_text in case_at-digit d (symbols ds ++ b' ' ∷ rest) h)
        ∙ unfold lex_case in rw (lex_numeric_literal-symbols F rest total d ds h digits bound),
    refl,
    refl,
  )
  lex-token (name c cs) spaced rest state is e =
      let round =
        lex-lex_case spaced (c ∷ (cs ++ b' ' ∷ rest)) state word e
          (unfold case_of_text in case_at-letter c (cs ++ b' ' ∷ rest) is.0) in
      let (t, run, kind, content) =
        lex_case-name (λ lxr'. lex_loop F S (length spaced) total lxr') c cs rest state _ refl is in
      (t, round ∙ run, kind, content)
