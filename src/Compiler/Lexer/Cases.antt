-- ===== src/Compiler/Lexer/Cases.antt =====
-- What the `switch` of `lex` says of the text.
use ru_c.Prelude.{ℕ, ◌≡◌, refl, Bool, true, false, ◌||◌, List, ◌==◌, ==_iff, if◌then◌else◌}
use ru_c.Utils.Utf8.Letters.{utf8_is_digit, utf8_is_letter}
use ru_c.Compiler.Lexer.Source.{character, scan}
use ru_c.Compiler.Operations.{Token}
use ru_c.Compiler.Lexer.Switch.{
  Case, punctuator, line_comment, block_comment, double_quote, word, bad, with_equal, with_twice,
  case_at,
}

-- What a case says of the symbol and of the text behind it.
abbrev pub Fits : ℕ → List ℕ → Case → Type 0
Fits c next double_quote = c ≡ b'"'
Fits c next (line_comment rest) = rest ≡ next
Fits c next (block_comment rest) = rest ≡ next
Fits c next _ = Unit {0}

Fits-if :
    (b : Bool) (c : ℕ) (next : List ℕ) (k l : Case)
    → (b ≡ true → Fits c next k)
    → Fits c next l
    → Fits c next (if b then k else l)
Fits-if true c next k l f h = f refl
Fits-if false c next k l f h = h

Fits-with_equal :
    (c : ℕ) (next next' : List ℕ) (plain assigned : Token)
    → Fits c next (with_equal plain assigned next')
Fits-with_equal c next next' plain assigned =
    Fits-if (character next' == b'=') c next (punctuator assigned (scan next'))
      (punctuator plain next') (λ e. tt) tt

Fits-with_twice :
    (c second : ℕ) (next : List ℕ) (plain assigned twice : Token)
    → Fits c next (with_twice second plain assigned twice next)
Fits-with_twice c second next plain assigned twice =
    Fits-if (character next == b'=') c next (punctuator assigned (scan next)) _ (λ e. tt)
      (Fits-if (character next == second) c next (punctuator twice (scan next))
        (punctuator plain next) (λ e. tt) tt)

pub Fits-case_at : (c : ℕ) (next : List ℕ) → Fits c next (case_at c next)
unfolding case_at
Fits-case_at c next =
    let other = λ (b : Bool) (k l : Case) (h : Fits c next k) (h' : Fits c next l).
      Fits-if b c next k l (λ e. h) h' in
    other (utf8_is_digit c) _ _ tt (
      other (c == b'\'') _ _ tt (
        Fits-if (c == b'"') c next _ _ (λ e. (==_iff c b'"').0 e)
          (other (c == b'?') _ _ tt (
            other (c == b'[') _ _ tt (
              other (c == b']') _ _ tt (
                other (c == b'(') _ _ tt (
                  other (c == b')') _ _ tt (
                    other (c == b'{') _ _ tt (
                      other (c == b'}') _ _ tt (
                        other (c == b'~') _ _ tt (
                          other (c == b':') _ _ tt (
                            other (c == b';') _ _ tt (
                              other (c == b',') _ _ tt (
                                other (c == b'.') _ _
                                  (other (utf8_is_digit (character next)) _ _ tt tt)
                                  (other (c == b'*') _ _
                                    (Fits-with_equal c next next Token.star Token.star_equal)
                                    (other (c == b'!') _ _
                                      (Fits-with_equal c next next Token.exclaim
                                        Token.exclaim_equal)
                                      (other (c == b'%') _ _
                                        (Fits-with_equal c next next Token.percent
                                          Token.percent_equal)
                                        (other (c == b'^') _ _
                                          (Fits-with_equal c next next Token.caret
                                            Token.caret_equal)
                                          (other (c == b'=') _ _
                                            (Fits-with_equal c next next Token.equal
                                              Token.equal_equal)
                                            (other (c == b'+') _ _
                                              (Fits-with_twice c b'+' next Token.plus
                                                Token.plus_equal Token.plus_plus)
                                              (other (c == b'|') _ _
                                                (Fits-with_twice c b'|' next Token.pipe
                                                  Token.pipe_equal Token.pipe_pipe)
                                                (other (c == b'&') _ _
                                                  (Fits-with_twice c b'&' next Token.amp
                                                    Token.amp_equal Token.amp_amp)
                                                  (other (c == b'-') _ _
                                                    (other (character next == b'>') _ _ tt (
                                                      Fits-with_twice c b'-' next Token.minus
                                                        Token.minus_equal Token.minus_minus))
                                                    (other (c == b'<') _ _
                                                      (other (character next == b'<') _ _
                                                        (Fits-with_equal c next (scan next)
                                                          Token.less_less Token.less_less_equal)
                                                        (Fits-with_equal c next next Token.less
                                                          Token.less_equal))
                                                      (other (c == b'>') _ _
                                                        (other (character next == b'>') _ _
                                                          (Fits-with_equal c next (scan next)
                                                            Token.greater_greater
                                                            Token.greater_greater_equal)
                                                          (Fits-with_equal c next next Token.greater
                                                            Token.greater_equal))
                                                        (other (c == b'/') _ _
                                                          (other (character next == b'/') _ _ refl (
                                                            other (character next == b'*') _ _ refl
                                                            (Fits-with_equal c next next Token.slash
                                                            Token.slash_equal)))
                                                          (other (utf8_is_letter c || c == b'#')
                                                            word bad tt
                                                            tt)))))))))))))))))))))))))))
