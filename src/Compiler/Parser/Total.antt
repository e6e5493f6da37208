-- ===== src/Compiler/Parser/Total.antt =====
-- Actions of parser.c that end and leave no more tokens than there were.
use ru_c.Prelude.{
  ℕ, zero, suc, ◌-◌, ◌≤◌, ◌<◌, ◌≡◌, refl, ap, Bool-cases, inl, inr, ◌∙◌, Bool, true, false, Option,
  none, some, List, [], ◌∷◌, length, if◌then◌else◌, arith,
}
use ru_c.Compiler.Operations.{Token}
use ru_c.Compiler.Lexer.Source.{Lexeme}
use ru_c.Compiler.Parser.State.{
  Action, ◌>>=◌, ◌>>◌, return, Location, Builder, ParserError, parser_error, Wanted, is, current,
  behind, Parser, kind, consume_token, token_is, error, build, try_consume_token, skip,
}
use ru_c.Compiler.Parser.Expression.{next_prec, broken, abandon}
use ru_c.Compiler.Parser.Skip.{skip_until_stops, IsSuffix-length}
use ru_c.Compiler.Parser.Roundtrip.Rounds.{bind_some, if_true, if_false}

pub length-behind :
    {D : Type 0} (n : ℕ) (ts : List (Lexeme D)) → length ts ≤ n → length (behind ts) ≤ n
length-behind n [] le = le
length-behind n (t ∷ ts) le = omega arith

behind_less :
    {D : Type 0} (n : ℕ) (ts : List (Lexeme D))
    → 1 ≤ length ts
    → length ts ≤ suc n
    → length (behind ts) ≤ n
behind_less n [] pos le = absurd (omega arith)
behind_less n (t ∷ ts) pos le = omega arith

-- A token that is not EOF is there.
filled :
    {D : Type 0} (w : Wanted) (ts : List (Lexeme D))
    → is Token.eof w ≡ false
    → is (current ts).kind w ≡ true
    → 1 ≤ length ts
filled w [] real e = absurd (ground arith)
filled w (t ∷ ts) real e = omega arith

module _ (B : Builder) where
  module _ {A : Type 0} where
    abbrev pub Runs : ℕ → Action (Parser B) A → Parser B → Type 0
    Runs n p prs = (r : A × Parser B) × (p prs ≡ some r) × (length r.1.tokens ≤ n)

    -- From at most `n` tokens, the action ends and leaves at most `n`.
    abbrev pub Total : ℕ → Action (Parser B) A → Type 0
    Total n p = (prs : Parser B) → length prs.tokens ≤ n → Runs n p prs

    pub return-Total : (n : ℕ) (x : A) → Total n (return x)
    return-Total n x prs le = ((x, prs), refl, le)

    pub build-Total : (n : ℕ) (f : B.Syntax → A × B.Syntax) → Total n (build B f)
    build-Total n f prs le = (_, refl, le)

    pub if-Total :
        {n : ℕ} (x y : Action (Parser B) A)
        → Total n x
        → Total n y
        → (c : Bool) → Total n (if c then x else y)
    if-Total x y on_x on_y true = on_x
    if-Total x y on_x on_y false = on_y

  pub error-Total : (n : ℕ) (e : ParserError) → Total n (error B e)
  unfolding parser_error
  error-Total n e prs le = (_, refl, le)

  pub token_is-Total : (n : ℕ) (w : Wanted) → Total n (token_is B w)
  token_is-Total n w prs le = (_, refl, le)

  pub next_prec-Total : (n : ℕ) → Total n (next_prec B)
  next_prec-Total n prs le = (_, refl, le)

  pub consume-Total : (n : ℕ) → Total n (consume_token B)
  consume-Total n prs le = (_, refl, length-behind n prs.tokens le)

  pub try-Total : (n : ℕ) (w : Wanted) → Total n (try_consume_token B w)
  try-Total n w prs le = elim (Bool-cases (is (kind B prs) w)) [
    | inl e ↦ (
      (true, record prs { tokens = behind prs.tokens }),
      if_true _ _ e,
      length-behind n prs.tokens le,
    )
    | inr e ↦ ((false, prs), if_false _ _ e, le)
  ]

  pub skip-Total : (n : ℕ) (set : List Wanted) → Total n (skip B set)
  unfolding skip
  skip-Total n set prs le =
      let (rest, e, suffix, stopped) =
        skip_until_stops (suc (suc (length prs.tokens))) set prs.tokens (omega arith) in
      let runs =
        ap
          (λ (r : Option (List (Lexeme B.Double))). elim r [
            | none ↦ none
            | some ts ↦ some (tt, record prs { tokens = ts })
          ])
          e in
      (_, runs, omega (arith, IsSuffix-length rest prs.tokens suffix))

  module _ {A C : Type 0} where
    pub bind-Total :
        {n : ℕ} (p : Action (Parser B) A) (f : A → Action (Parser B) C)
        → Total n p
        → ((x : A) → Total n (f x))
        → Total n (p >>= f)
    bind-Total p f on_p on_f prs le =
        let (r, e, le') = on_p prs le in
        let (q, e', le'') = on_f r.0 r.1 le' in (q, bind_some f p e ∙ e', le'')

  module _ {C : Type 0} where
    -- What stands behind a token that is taken works on fewer.
    pub consume-Runs :
        (n : ℕ) (f : Location → Action (Parser B) C) (prs : Parser B)
        → 1 ≤ length prs.tokens
        → length prs.tokens ≤ n
        → ((k : ℕ) → k < n → (loc : Location) → Total k (f loc))
        → Runs n (consume_token B >>= f) prs
    consume-Runs zero f prs pos le on_f = absurd (omega arith)
    consume-Runs (suc n) f prs pos le on_f =
        let (r, e, le') =
          on_f n (omega arith) _ (record prs { tokens = behind prs.tokens })
            (behind_less n prs.tokens pos le) in
        (r, e, omega arith)

  module _ {C : Type 0} where
    -- Where the token is there, what stands behind it works on fewer.
    pub try-Runs :
        (n : ℕ) (w : Wanted) (f : Bool → Action (Parser B) C)
        → is Token.eof w ≡ false
        → ((k : ℕ) → k < n → Total k (f true))
        → Total n (f false)
        → Total n (try_consume_token B w >>= f)
    try-Runs n w f real on_more on_last prs le = elim (Bool-cases (is (kind B prs) w)) [
      | inl e ↦
          let there : 1 ≤ length prs.tokens = filled w prs.tokens real e in
          let (r, runs, fewer) =
            on_more (n - 1) (omega arith) (record prs { tokens = behind prs.tokens })
              (behind_less (n - 1) prs.tokens there (omega arith)) in
          (r, bind_some f (try_consume_token B w) {from = prs} (if_true _ _ e) ∙ runs, omega arith)
      | inr e ↦
          let (r, runs, fewer) = on_last prs le in
          (r, bind_some f (try_consume_token B w) {from = prs} (if_false _ _ e) ∙ runs, fewer)
    ]

  pub broken-Total : (n : ℕ) (e : ParserError) → Total n (broken B e)
  broken-Total n e =
      bind-Total (error B e) (λ u. return B.broken) (error-Total n e) λ u. return-Total n B.broken

  pub abandon-Total : (n : ℕ) (e : ParserError) (close : Wanted) → Total n (abandon B e close)
  abandon-Total n e close =
      bind-Total (error B e)
        (λ u.
          skip B (close ∷ Wanted.semicolon ∷ []) >> (try_consume_token B close >> return B.broken))
        (error-Total n e)
        λ u.
          bind-Total (skip B (close ∷ Wanted.semicolon ∷ []))
            (λ u. try_consume_token B close >> return B.broken)
            (skip-Total n (close ∷ Wanted.semicolon ∷ []))
            λ v.
              bind-Total (try_consume_token B close) (λ b. return B.broken) (try-Total n close)
                λ b. return-Total n B.broken
