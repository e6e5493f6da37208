-- ===== src/Compiler/Parser/Roundtrip/Rounds.antt =====
-- A round of `parse_RHS_of_binary_expression` in parser.c, at a binary operator and at a `?`.
use ru_c.Prelude.{
  ℕ, suc, Bool-cases, inl, inr, ◌≤◌, ◌≡◌, ◌≢◌, ap, ◌∙◌, if◌then◌else◌, refl, Bool, true, false,
  Option, none, some, List, ◌∷◌, leb, ◌==◌, arith,
}
use ru_c.Compiler.Operations.{Token, token_to_binary, get_operator_precedence}
use ru_c.Compiler.Lexer.Source.{Lexeme}
use ru_c.Compiler.Parser.State.{
  Action, ◌>>=◌, Location, Builder, ParserError, Wanted, token_is, current, Parser, kind, build,
}
use ru_c.Compiler.Parser.Expression.{
  Parse, prec, prec_of, right_prec, binds, tighter, after_middle, operand_at, rhs_round, middle_of,
  parse_rhs_of_binary_expression, parse_initializer, parse_unary_expression,
}
use ru_c.Compiler.Parser.Grammar.{plain}
use ru_c.Compiler.Parser.Roundtrip.Tokens.{binds-stop}

module _ {S A C E : Type 0} (f g : A → Action S C) (k : C → Action S E) {y : C} {to : S} where
  chain_at :
      ((x : A) (st : S) → f x st ≡ g x st)
      → (r : Option (A × S)) → elim r [ none ↦ none | some (x, st) ↦ g x st ] ≡ some (y, to)
      → elim r [ none ↦ none | some (x, st) ↦ (f x >>= k) st ] ≡ k y to
  chain_at same none e = absurd (ground arith)
  chain_at same (some (x, st)) e =
      let runs : f x st ≡ some (y, to) = same x st ∙ e in
      ap (λ (r : Option (C × S)). elim r [ none ↦ none | some (z, st') ↦ k z st' ]) runs

  -- A chain whose first two actions are known.
  pub chain :
      ((x : A) (st : S) → f x st ≡ g x st)
      → (p : Action S A) (from : S) → (p >>= g) from ≡ some (y, to)
      → (p >>= λ x. f x >>= k) from ≡ k y to
  chain same p from e = chain_at same (p from) e

module _ {S A C : Type 0} (f : A → Action S C) where
  pub bind_some :
      (p : Action S A) {from to : S} {x : A} → p from ≡ some (x, to) → (p >>= f) from ≡ f x to
  bind_some p e = ap (λ (r : Option (A × S)). elim r [ none ↦ none | some (z, st) ↦ f z st ]) e

module _ {S A : Type 0} (x y : Action S A) (st : S) where
  pub then_at : {c : Bool} → c ≡ true → (if c then x else y) st ≡ x st
  then_at e = rw e refl

  pub else_at : {c : Bool} → c ≡ false → (if c then x else y) st ≡ y st
  else_at e = rw e refl

module _ {A : Type 0} (x y : A) where
  pub if_true : {c : Bool} → c ≡ true → (if c then x else y) ≡ x
  if_true e = rw e refl

  pub if_false : {c : Bool} → c ≡ false → (if c then x else y) ≡ y
  if_false e = rw e refl

module _ (B : Builder) where
  abbrev pub Lexemes : Type 0
  Lexemes = List (Lexeme B.Double)

  abbrev pub Errors : Type 0
  Errors = List (Location × ParserError)

  abbrev pub state : List (Lexeme B.Double) → Errors → B.Syntax → Parser B
  state ts es s = record { tokens = ts; errors = es; sx = s }

  -- The kind of the first token.
  abbrev pub first : List (Lexeme B.Double) → Token
  first ts = (current ts).kind

  -- What stands to the right of an operator, with what its loop takes.
  abbrev pub operand : ℕ → Parse B
  operand fuel =
      operand_at B (λ st. parse_initializer B fuel st) (λ st. parse_unary_expression B fuel st)

  abbrev pub rhs : ℕ → B.Node → ℕ → Parse B
  rhs fuel x m st = parse_rhs_of_binary_expression B fuel x m st

  abbrev pub operands : ℕ → ℕ → ℕ → Parse B
  operands u fuel m = operand u >>= λ x st. rhs fuel x m st

  rhs-suc :
      (fuel : ℕ) (x : B.Node) (m : ℕ) (prs : Parser B)
      → rhs (suc fuel) x m prs ≡ (
          if leb m (prec_of (kind B prs))
          then rhs_round B
              (λ st. parse_initializer B fuel st)
              (λ st. parse_unary_expression B fuel st)
              (rhs fuel)
              x
              m
              (kind B prs)
              prs
          else some (x, prs))
  unfolding parse_rhs_of_binary_expression
  rhs-suc fuel x m prs = refl

  pub rhs-stop :
      (fuel : ℕ) (x : B.Node) (m : ℕ) (prs : Parser B)
      → leb m (prec_of (kind B prs)) ≡ false
      → rhs (suc fuel) x m prs ≡ some (x, prs)
  rhs-stop fuel x m prs e = rhs-suc fuel x m prs ∙ if_false _ _ e

  tighter-rhs :
      (fuel this : ℕ) (x : B.Node) (prs : Parser B)
      → tighter B (rhs (suc fuel)) this x prs ≡ rhs (suc fuel) x (right_prec this) prs
  tighter-rhs fuel this x prs =
      let stopped = binds-stop this (prec_of (kind B prs)) in
      elim (Bool-cases (binds this (prec_of (kind B prs)))) [
        | inl e ↦ rw e refl
        | inr e ↦ rw (e, rhs-stop fuel x (right_prec this) prs (stopped e)) refl
      ]

  pub rhs-binary :
      (fuel m : ℕ) (x : B.Node) (at : Location) (token : Token) (ts : List (Lexeme B.Double))
      (es : Errors) (sx : B.Syntax)
      → m ≤ prec_of token
      → prec_of token ≢ 3
      → {y : B.Node} {to : Parser B}
      → operands (suc fuel) (suc fuel) (right_prec (prec_of token)) (state ts es sx) ≡ some (y, to)
      → rhs (suc (suc fuel)) x m (state (plain at token ∷ ts) es sx)
        ≡ (build B (B.build_binary_expression x y (token_to_binary token).0 at) >>= λ next.
              rhs (suc fuel) next m)
            to
  unfolding prec
  rhs-binary fuel m x at token ts es sx le ne e =
      let goes : leb m (prec_of token) ≡ true = ground arith in
      let two : (prec_of token == 3) ≡ false = ground arith in
      rhs-suc (suc fuel) x m (state (plain at token ∷ ts) es sx)
      ∙ if_true _ _ goes
      ∙ else_at _ _ (state (plain at token ∷ ts) es sx) two
      ∙ chain (tighter B (rhs (suc fuel)) (prec_of token))
          (λ z st. rhs (suc fuel) z (right_prec (prec_of token)) st)
          (λ z. build B (B.build_binary_expression x z (token_to_binary token).0 at) >>= λ next.
            rhs (suc fuel) next m)
          (tighter-rhs fuel (prec_of token)) (operand (suc fuel)) (state ts es sx) e

  pub rhs-ternary :
      (fuel m : ℕ) (x : B.Node) (at colon : Location) (ts us : List (Lexeme B.Double))
      (es es' : Errors) (sx sx' : B.Syntax) (middle : B.Node)
      → m ≤ 3
      → parse_initializer B (suc fuel) (state ts es sx)
        ≡ some (middle, state (plain colon Token.colon ∷ us) es' sx')
      → {y : B.Node} {to : Parser B}
      → operands (suc fuel) (suc fuel) 3 (state us es' sx') ≡ some (y, to)
      → rhs (suc (suc fuel)) x m (state (plain at Token.question ∷ ts) es sx)
        ≡ (build B (B.build_ternary_expression x middle y colon) >>= λ next. rhs (suc fuel) next m)
            to
  unfolding prec prec_of get_operator_precedence
  rhs-ternary fuel m x at colon ts us es es' sx sx' middle le reads e =
      let goes : leb m 3 ≡ true = ground arith in
      let ini : Parse B = λ st. parse_initializer B (suc fuel) st in
      let found =
        bind_some (λ z. token_is B Wanted.colon >>= λ found. after_middle B z at found) ini reads in
      rhs-suc (suc fuel) x m (state (plain at Token.question ∷ ts) es sx)
      ∙ if_true _ _ goes
      ∙ bind_some
          (λ z. operand (suc fuel) >>= λ first. tighter B (rhs (suc fuel)) 3 first >>= λ w.
            build B (B.build_ternary_expression x z.0 w z.1) >>= λ next. rhs (suc fuel) next m)
          (middle_of B ini at) found
      ∙ chain (tighter B (rhs (suc fuel)) 3) (λ z st. rhs (suc fuel) z 3 st)
          (λ z.
            build B (B.build_ternary_expression x middle z colon) >>= λ next. rhs (suc fuel) next m)
          (tighter-rhs fuel 3) (operand (suc fuel)) (state us es' sx') e
