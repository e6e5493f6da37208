-- ===== src/Compiler/Parser/Skip.antt =====
-- `skip_until` of parser.c.
use ru_c.Prelude.{
  ℕ, zero, suc, ◌≤◌, ◌<◌, ◌≡◌, refl, ap, Bool, true, false, ◌&&◌, ◌||◌, Option, none, some, List,
  [], ◌∷◌, ◌++◌, append_assoc, length, length-append, sym, ◌∙◌, ◌+◌, arith,
}
use ru_c.Compiler.Operations.{Token}
use ru_c.Compiler.Lexer.Source.{Lexeme}
use ru_c.Compiler.Parser.State.{Wanted, is, is_one_of, is_stop, closer, skip_at, skip_until}

module _ {D : Type 0} where
  abbrev pub IsStopped : List Wanted → List (Lexeme D) → Type 0
  IsStopped tokens [] = Unit
  IsStopped tokens (t ∷ ts) =
      (is t.kind Wanted.eof || (is_stop t.kind && is_one_of tokens t.kind)) ≡ true

  abbrev pub IsSuffix : List (Lexeme D) → List (Lexeme D) → Type 0
  IsSuffix ts whole = (skipped : List (Lexeme D)) × (whole ≡ skipped ++ ts)

  pub IsSuffix-length : (ts whole : List (Lexeme D)) → IsSuffix ts whole → length ts ≤ length whole
  IsSuffix-length ts whole (skipped, e) =
      let counted : length whole ≡ length skipped + length ts =
        ap length e ∙ length-append skipped ts in
      omega arith

  IsSuffix-cons :
      (t : Lexeme D) {ts whole : List (Lexeme D)} → IsSuffix ts whole → IsSuffix ts (t ∷ whole)
  IsSuffix-cons t (skipped, e) = (t ∷ skipped, ap (◌∷◌ t) e)

  IsSuffix-trans :
      {ts us whole : List (Lexeme D)} → IsSuffix ts us → IsSuffix us whole → IsSuffix ts whole
  IsSuffix-trans {ts = ts} (xs, e) (ys, e') =
      (ys ++ xs, e' ∙ ap (λ zs. ys ++ zs) e ∙ sym (append_assoc ys xs ts))

  -- What a call of `skip_until` gives.
  abbrev pub Skips : ℕ → List Wanted → List (Lexeme D) → Type 0
  Skips fuel tokens ts =
      (rest : List (Lexeme D)) × (skip_until fuel tokens ts ≡ some rest)
      × IsSuffix rest ts
      × IsStopped tokens rest

  skip_at_stops :
      (fuel : ℕ)
      → ((tokens : List Wanted) (ts : List (Lexeme D)) → length ts < fuel → Skips fuel tokens ts)
      → (tokens : List Wanted) (t : Lexeme D) (ts : List (Lexeme D)) → length ts < fuel
      → (at_end : Bool) (close : Option Wanted) (stops : Bool)
      → (at_end ≡ true → is t.kind Wanted.eof ≡ true)
      → (stops ≡ true → (is_stop t.kind && is_one_of tokens t.kind) ≡ true)
      → (rest : List (Lexeme D)) × (skip_at
            (λ tokens' ts'. skip_until fuel tokens' ts')
            tokens
            t
            ts
            at_end
            close
            stops
          ≡ some rest)
        × IsSuffix rest (t ∷ ts)
        × IsStopped tokens rest
  skip_at_stops fuel again tokens t ts enough true close stops ended stopped =
      (t ∷ ts, refl, ([], refl), rw (ended refl) refl)
  skip_at_stops fuel again tokens t ts enough false (some close) stops ended stopped =
      let (inner, e, suffix, on_inner) = again (close ∷ []) ts enough in
      let (rest, e', suffix', on_rest) =
        again tokens inner (omega (arith, IsSuffix-length inner ts suffix)) in
      let first =
        ap
          (λ (r : Option (List (Lexeme D))). elim r [
            | none ↦ none
            | some ts' ↦ skip_until fuel tokens ts'
          ])
          e in
      (rest, first ∙ e', IsSuffix-cons t (IsSuffix-trans suffix' suffix), on_rest)
  skip_at_stops fuel again tokens t ts enough false none true ended stopped =
      (t ∷ ts, refl, ([], refl), ground (arith, stopped refl))
  skip_at_stops fuel again tokens t ts enough false none false ended stopped =
      let (rest, e, suffix, on_rest) = again tokens ts enough in
      (rest, e, IsSuffix-cons t suffix, on_rest)

  -- With more fuel than there are tokens, `skip_until` ends, whatever the set and the tokens are; it
  -- leaves a part of them that ends where they end, and that is empty or begins with EOF or with one of
  -- `)`, `]`, `}`, `:` and `;` that is in the set.
  pub skip_until_stops :
      (fuel : ℕ) (tokens : List Wanted) (ts : List (Lexeme D))
      → length ts < fuel
      → Skips fuel tokens ts
  unfolding skip_until
  skip_until_stops zero tokens ts enough = absurd (omega arith)
  skip_until_stops (suc fuel) tokens [] enough = ([], refl, ([], refl), tt)
  skip_until_stops (suc fuel) tokens (t ∷ ts) enough =
      skip_at_stops fuel (skip_until_stops fuel) tokens t ts (omega arith) (is t.kind Wanted.eof)
        (closer t.kind) (is_stop t.kind && is_one_of tokens t.kind) (λ e. e) (λ e. e)

module _ {D : Type 0} where
  -- Tokens that are no bracket, no `?`, `:` or `;`, and not EOF.
  abbrev pub ArePlain : List (Lexeme D) → Type 0
  ArePlain [] = Unit
  ArePlain (t ∷ ts) =
      (is t.kind Wanted.eof ≡ false)
      × (closer t.kind ≡ none)
      × (is_stop t.kind ≡ false)
      × ArePlain ts

  skip_until-plain :
      (fuel : ℕ) (tokens : List Wanted) (ts rest : List (Lexeme D)) (r : Lexeme D)
      → ArePlain ts
      → r.kind ≡ Token.r_paren
      → is_one_of tokens Token.r_paren ≡ true
      → length ts < fuel
      → skip_until fuel tokens (ts ++ r ∷ rest) ≡ some (r ∷ rest)
  unfolding skip_until
  skip_until-plain zero tokens ts rest r all closing wanted enough = absurd (omega arith)
  skip_until-plain (suc fuel) tokens [] rest r all closing wanted enough = rw (closing, wanted) refl
  skip_until-plain (suc fuel) tokens (t ∷ ts) rest r (real, plain, going, all) closing wanted
        enough =
      rw (real, plain, going)
        (skip_until-plain fuel tokens ts rest r all closing wanted (omega arith))

  -- In front of a `(`, plain tokens and a `)`, with more fuel than those tokens and two: when it looks
  -- for `)`, `skip_until` stops at this `)`, which closes the bracket inside what is skipped, and not
  -- behind it.
  pub skip_until-brackets :
      (fuel : ℕ) (tokens : List Wanted) (l r : Lexeme D) (ts rest : List (Lexeme D))
      → l.kind ≡ Token.l_paren
      → ArePlain ts
      → r.kind ≡ Token.r_paren
      → is_one_of tokens Token.r_paren ≡ true
      → length ts + 1 < fuel
      → skip_until fuel tokens (l ∷ ts ++ r ∷ rest) ≡ some (r ∷ rest)
  unfolding skip_until
  skip_until-brackets zero tokens l r ts rest opening all closing wanted enough =
      absurd (omega arith)
  skip_until-brackets (suc fuel) tokens l r ts rest opening all closing wanted enough =
      let inner =
        skip_until-plain fuel (Wanted.r_paren ∷ []) ts rest r all closing refl (omega arith) in
      let outer = skip_until-plain fuel tokens [] rest r tt closing wanted (omega arith) in
      rw opening (
        ap
          (λ (q : Option (List (Lexeme D))). elim q [
            | none ↦ none
            | some us ↦ skip_until fuel tokens us
          ])
          inner
        ∙ outer)
