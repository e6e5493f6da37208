-- ===== src/Compiler/Lexer/Termination.antt =====
-- `lex` of lexer.c returns on a text that ends in two line breaks.
use ru_c.Prelude.{
  ℕ, zero, suc, ◌+◌, ◌<◌, ◌≡◌, refl, Option, none, some, List, [], ◌∷◌, length, arith, Bool-cases,
  inl, inr,
}
use ru_c.Utils.Item.{Size}
use ru_c.Compiler.Lexer.Source.{character, scan, Lexeme, skip_whitespace, skip_line_comment}
use ru_c.Compiler.Operations.{Token}
use ru_c.Compiler.Lexer.Switch.{
  Case, punctuator, line_comment, block_comment, numeric, quote, double_quote, word, bad, finish,
  case_at, case_of_text, read_name,
}
use ru_c.Compiler.Lexer.Scanner.{
  Syntax, Lexer, name_token, lex_identifier_or_keyword, lex_string_literal, is_line, word_case,
  lex_case, lex_loop, lex,
}
use ru_c.Compiler.Lexer.Behind.{
  IsTerminated, IsTerminated-tail, IsBehind, IsBehind-refl, IsBehind-trans,
  IsBehind-skip_whitespace, IsBehind-skip_line_comment, IsBehind-skip_block_comment,
  IsBehind-read_name,
}
use ru_c.Compiler.Lexer.Source.{position, token_eof, token_string_literal}
use ru_c.Compiler.Lexer.Number.{Floating}
use ru_c.Compiler.Lexer.Strings.{Gives, string_parts_end}
use ru_c.Compiler.Lexer.Cases.{Fits, Fits-case_at}

module _ (F : Floating) (S : Syntax) (total : Size) where
  -- Any result.
  abbrev Returns : Option (Lexeme F.Double × Lexer F S) → Type 0
  Returns = Gives (λ (r : Lexeme F.Double × Lexer F S). Unit {0})

  lex_string_literal_returns :
      (lxr : Lexer F S) → IsTerminated lxr.text → Returns (lex_string_literal F S total lxr)
  unfolding lex_string_literal
  lex_string_literal_returns lxr h =
      let (r, run, behind) =
        string_parts_end (length lxr.text + 1) total lxr.text [] lxr.messages h (omega arith) in
      let (state, index) = S.string_add lxr.syntax r.1 in
      let token : Lexeme F.Double =
        token_string_literal (position total lxr.text) (position total r.0) index in
      let lxr' : Lexer F S = record { text = r.0; messages = r.2; syntax = state } in
      ((token, lxr'), rw (run, lex_string_literal) refl, tt)

  name_token-text :
      (lxr : Lexer F S) (name rest : List ℕ) (k : Option Token)
      → S.keyword
          (S.repr_reserve lxr.syntax (character lxr.text ∷ name)).0
          (S.repr_reserve lxr.syntax (character lxr.text ∷ name)).1
        ≡ k
      → (name_token F S total lxr (name, rest)).1.text ≡ rest
  unfolding name_token
  name_token-text lxr name rest none e = rw (e, name_token) refl
  name_token-text lxr name rest (some kind) e = rw (e, name_token) refl

  word_case_returns :
      (next : Lexer F S → Option (Lexeme F.Double × Lexer F S)) (rest : List ℕ)
      (r : Lexeme F.Double × Lexer F S)
      → IsBehind r.1.text rest
      → ((lxr' : Lexer F S) → IsBehind lxr'.text rest → Returns (next lxr'))
      → Returns (word_case F S next r)
  word_case_returns next rest r h more = elim (Bool-cases (is_line F S r.0.kind)) [
    | inl e ↦ rw e (
        more (record r.1 { text = skip_line_comment r.1.text })
          (IsBehind-trans (skip_line_comment r.1.text) r.1.text rest
            (IsBehind-skip_line_comment r.1.text) h))
    | inr e ↦ (r, rw e refl, tt)
  ]

  -- Where the rounds behind a shorter text return, so does a round.
  lex_case_returns :
      (next : Lexer F S → Option (Lexeme F.Double × Lexer F S)) (c : ℕ) (rest : List ℕ)
      (lxr : Lexer F S) (k : Case)
      → lxr.text ≡ c ∷ rest
      → IsTerminated (c ∷ rest)
      → ((lxr' : Lexer F S) → IsBehind lxr'.text rest → Returns (next lxr'))
      → Fits c rest k
      → Returns (lex_case F S next total lxr k)
  unfolding lex_case lex_identifier_or_keyword
  lex_case_returns next c rest lxr finish e h more fits = (_, refl, tt)
  lex_case_returns next c rest lxr (punctuator kind behind) e h more fits = (_, refl, tt)
  lex_case_returns next c rest lxr numeric e h more fits = (_, refl, tt)
  lex_case_returns next c rest lxr quote e h more fits = (_, refl, tt)
  lex_case_returns next c rest lxr double_quote e h more fits =
      lex_string_literal_returns lxr (rw e h)
  lex_case_returns next c rest lxr (line_comment behind) e h more fits =
      more _ (rw fits (IsBehind-skip_line_comment rest))
  lex_case_returns next c rest lxr (block_comment behind) e h more fits =
      more _ (rw fits (IsBehind-skip_block_comment rest))
  lex_case_returns next c rest lxr word e h more fits =
      let name = read_name (scan lxr.text) in
      let behind : IsBehind name.1 rest = rw e (IsBehind-read_name rest) in
      let left = name_token-text lxr name.0 name.1 _ refl in
      word_case_returns next rest (name_token F S total lxr name) (rw left behind) more
  lex_case_returns next c rest lxr bad e h more fits = more _ (rw e (IsBehind-refl rest))

  -- A round of the loop, behind white space.
  round_returns :
      (next : Lexer F S → Option (Lexeme F.Double × Lexer F S)) (text : List ℕ) (lxr : Lexer F S)
      → lxr.text ≡ text
      → IsTerminated text
      → ((lxr' : Lexer F S)
          → IsTerminated lxr'.text
          → length lxr'.text < length text
          → Returns (next lxr'))
      → Returns (lex_case F S next total lxr (case_of_text text))
  unfolding case_of_text
  round_returns next [] lxr e h more = unfold lex_case in ((token_eof, lxr), refl, tt)
  round_returns next (c ∷ rest) lxr e h more =
      let behind = λ (lxr' : Lexer F S) (b : IsBehind lxr'.text rest).
        more lxr' (b.1 (IsTerminated-tail c rest h)) (omega (arith, b.0)) in
      lex_case_returns next c rest lxr (case_at c rest) e h behind (Fits-case_at c rest)

  lex_loop_returns :
      (fuel : ℕ) (lxr : Lexer F S)
      → IsTerminated lxr.text
      → length lxr.text < fuel
      → Returns (lex_loop F S fuel total lxr)
  unfolding lex_loop
  lex_loop_returns zero lxr h le = absurd (omega arith)
  lex_loop_returns (suc fuel) lxr h le =
      let text = skip_whitespace lxr.text in
      let skipped = IsBehind-skip_whitespace lxr.text in
      let shorter : length text < suc fuel = omega (arith, skipped.0, le) in
      round_returns (λ lxr'. lex_loop F S fuel total lxr') text (record lxr { text = text }) refl
        (skipped.1 h) (λ lxr' h' lt. lex_loop_returns fuel lxr' h' (omega (arith, lt, shorter)))

  -- On a text that ends in two line breaks, `lex` returns a token: none of its loops goes on for ever,
  -- string literals without a closing quote included.
  pub lex_returns :
      (lxr : Lexer F S)
      → IsTerminated lxr.text
      → (r : Lexeme F.Double × Lexer F S) × (lex F S total lxr ≡ some r)
  unfolding lex
  lex_returns lxr h =
      let (r, run, done) = lex_loop_returns (length lxr.text + 1) lxr h (omega arith) in (r, run)
