-- ===== src/Compiler/Lexer/Roundtrip.antt =====
-- What is lexed of a line of tokens with a space behind each.
use ru_c.Prelude.{
  ℕ, zero, suc, ◌≡◌, refl, ap, ◌∙◌, false, Option, none, some, List, [], ◌∷◌, ◌++◌, length,
  if◌then◌else◌,
}
use ru_c.Utils.Item.{Size}
use ru_c.Compiler.Operations.{Token}
use ru_c.Compiler.Lexer.Source.{Content, Lexeme, skip_whitespace, token_eof}
use ru_c.Compiler.Lexer.Number.{Floating}
use ru_c.Compiler.Lexer.Switch.{Case, case_of_text}
use ru_c.Compiler.Lexer.Scanner.{Syntax, Lexer, lexer_create, lex_case, lex_loop, lex}
use ru_c.Compiler.Lexer.Tokens.{
  Printed, punctuation, number, name, print_token, IsToken, is_eof, is_eof-spelling, lexed, at,
  lex-lex_case, skip_whitespace-print_token, lex-token,
}

-- A space stands behind each.
unfoldable pub print : List Printed → List ℕ
print [] = []
print (t ∷ ts) = print_token t ++ b' ' ∷ print ts

module _ (F : Floating) (S : Syntax) (total : Size) where
  lexed-not_eof :
      (t : Printed) (state : S.State)
      → IsToken F S total state t
      → is_eof (lexed F S total state t).1 ≡ false
  lexed-not_eof (punctuation token) state is = is_eof-spelling token is
  lexed-not_eof (number d ds) state is = refl
  lexed-not_eof (name c cs) state is = is.3

  -- What the calls of `lex` return, up to EOF.
  abbrev pub collect :
      (Lexer F S → Option (List (Token × Content F.Double)))
      → Option (Lexeme F.Double × Lexer F S)
      → Option (List (Token × Content F.Double))
  collect next none = none
  collect next (some (t, lxr)) =
      if is_eof t.kind
      then some []
      else elim (next lxr) [ none ↦ none | some ts ↦ some ((t.kind, t.content) ∷ ts) ]

  unfoldable pub lex_all : ℕ → Lexer F S → Option (List (Token × Content F.Double))
  lex_all zero lxr = none
  lex_all (suc fuel) lxr = collect (λ lxr'. lex_all fuel lxr') (lex F S total lxr)

  unfoldable pub lexed_all : S.State → List Printed → List (Token × Content F.Double)
  lexed_all state [] = []
  lexed_all state (t ∷ ts) =
      let (state', kind, content) = lexed F S total state t in (kind, content) ∷ lexed_all state' ts

  abbrev pub AreTokens : S.State → List Printed → Type 0
  AreTokens state [] = Unit {0}
  AreTokens state (t ∷ ts) = IsToken F S total state t × AreTokens (lexed F S total state t).0 ts

  skip_whitespace-print :
      (ts : List Printed) (state : S.State)
      → AreTokens state ts
      → skip_whitespace (print ts) ≡ print ts
  unfolding print
  skip_whitespace-print [] state all = unfold skip_whitespace in refl
  skip_whitespace-print (t ∷ ts) state all =
      skip_whitespace-print_token F S total t (b' ' ∷ print ts) state all.0

  lex_all-print_from :
      (ts : List Printed) (spaced : List ℕ) (state : S.State)
      → AreTokens state ts
      → skip_whitespace spaced ≡ print ts
      → lex_all (suc (length ts)) (at F S total spaced state) ≡ some (lexed_all state ts)
  unfolding lex_all lexed_all print
  lex_all-print_from [] spaced state all e =
      let ended : lex_case F S (λ lxr'. lex_loop F S (length spaced) total lxr') total
            (at F S total [] state) Case.finish
          ≡ some (token_eof, at F S total [] state) =
        unfold lex_case in refl in
      let nothing_left : case_of_text [] ≡ Case.finish = unfold case_of_text in refl in
      ap (λ r. collect (λ lxr'. lex_all 0 lxr') r)
        (lex-lex_case F S total spaced [] state Case.finish e nothing_left ∙ ended)
  lex_all-print_from (t ∷ ts) spaced state (is, all) e =
      let (lexeme, run, kind, content) = lex-token F S total t spaced (print ts) state is e in
      let space : skip_whitespace (b' ' ∷ print ts) ≡ print ts =
        unfold skip_whitespace in skip_whitespace-print ts (lexed F S total state t).0 all in
      let rest = lex_all-print_from ts (b' ' ∷ print ts) (lexed F S total state t).0 all space in
      let more : is_eof lexeme.kind ≡ false = rw kind (lexed-not_eof t state is) in
      ap (λ r. collect (λ lxr'. lex_all (suc (length ts)) lxr') r) run
      ∙ rw (more, rest, kind, content)

  -- A text of punctuators, decimal numbers below 0xA000000000000000 and names, with a space behind each,
  -- is lexed to just these tokens: the punctuators with their kinds, the numbers with their values, and
  -- the names with what the representations make of them, where none becomes `#line` or EOF.
  pub lex_all-print :
      (ts : List Printed) (state : S.State)
      → AreTokens state ts
      → lex_all (suc (length ts)) (lexer_create F S (print ts) state) ≡ some (lexed_all state ts)
  unfolding lexer_create
  lex_all-print ts state all =
      lex_all-print_from ts (print ts) state all (skip_whitespace-print ts state all)
