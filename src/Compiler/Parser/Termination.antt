-- ===== src/Compiler/Parser/Termination.antt =====
-- The functions for the expressions of parser.c end on every list of tokens.
pub mod Bodies
pub mod Operators
use ru_c.Prelude.{
  ℕ, zero, suc, ◌+◌, ◌*◌, ◌≤◌, ◌<◌, ◌≡◌, refl, ◌∙◌, Bool, true, false, Bool-cases, inl, inr, some,
  List, [], ◌∷◌, length, leb, if◌then◌else◌, arith,
}
use ru_c.Compiler.Operations.{Token, get_operator_precedence}
use ru_c.Compiler.Lexer.Source.{Lexeme}
use ru_c.Compiler.Parser.State.{
  Action, ◌>>=◌, Builder, Wanted, is, current, Parser, kind, content, build,
}
use ru_c.Compiler.Parser.State.{
  ◌>>=◌, ◌>>◌, return, expected_r_paren, expected_l_paren_in_condition, consume_token, token_is,
  error, build, try_consume_token, skip,
}
use ru_c.Compiler.Parser.Total.{
  return-Total, build-Total, if-Total, error-Total, token_is-Total, consume-Total, try-Total,
  skip-Total,
}
use ru_c.Compiler.Parser.Expression.{
  parse_constant_expression, parse_condition, closed_condition, broken_condition, checked_condition,
  Parse, suffix_of, is_prefix, prec, prec_of, right_prec, rhs_round, parse_primary_expression,
  parse_initializer_list, postfix_loop, parse_postfix_expression, parse_unary_expression,
  parse_rhs_of_binary_expression, parse_assignment_expression, parse_expression,
  parse_constant_expression, parse_initializer,
}
use ru_c.Compiler.Parser.Roundtrip.Tokens.{right_prec_ge}
use ru_c.Compiler.Parser.Roundtrip.Rounds.{rhs-stop}
use ru_c.Compiler.Parser.Total.{Total, Runs, bind-Total, build-Total}
use ru_c.Compiler.Parser.Termination.Bodies.{
  is_other, primary-Runs, initializer_list-Runs, postfix-Runs, initializer-Runs,
}
use ru_c.Compiler.Parser.Termination.Operators.{unary-Runs, rhs-Runs}

module _ {D : Type 0} where
  real_token : (ts : List (Lexeme D)) → is (current ts).kind Wanted.eof ≡ false → 1 ≤ length ts
  real_token [] e = absurd (ground arith)
  real_token (t ∷ ts) e = omega arith

  brace_token : (ts : List (Lexeme D)) → is (current ts).kind Wanted.l_brace ≡ true → 1 ≤ length ts
  brace_token [] e = absurd (ground arith)
  brace_token (t ∷ ts) e = omega arith

  prefix_token : (ts : List (Lexeme D)) → is_prefix (current ts).kind ≡ true → 1 ≤ length ts
  prefix_token [] e = absurd (ground arith)
  prefix_token (t ∷ ts) e = omega arith

  suffix_token :
      (ts : List (Lexeme D)) → is_other (suffix_of (current ts).kind) ≡ false → 1 ≤ length ts
  suffix_token [] e = absurd (ground arith)
  suffix_token (t ∷ ts) e = omega arith

  operator_token :
      (m : ℕ) (ts : List (Lexeme D)) → m ≤ prec_of (current ts).kind → 1 ≤ m → 1 ≤ length ts
  unfolding prec_of get_operator_precedence prec
  operator_token m [] le pos = absurd (omega arith)
  operator_token m (t ∷ ts) le pos = omega arith

module _ (B : Builder) where
  abbrev round : ℕ → B.Node → ℕ → Token → Parse B
  round fuel x m op =
      rhs_round B (λ st. parse_initializer B fuel st) (λ st. parse_unary_expression B fuel st)
        (λ y k st. parse_rhs_of_binary_expression B fuel y k st) x m op

  either_rhs :
      {n : ℕ} (p : Parse B) (c : Bool) (x : B.Node) (prs : Parser B)
      → length prs.tokens ≤ n
      → (c ≡ true → Runs B n p prs)
      → Runs B n (λ st. if c then p st else some (x, st)) prs
  either_rhs p true x prs le on_p = on_p refl
  either_rhs p false x prs le on_p = ((x, prs), refl, le)

  mutual
    unfolding parse_primary_expression prec

    primary-Total :
        (fuel n : ℕ) → 8 * n + 2 ≤ fuel → Total B n (λ prs. parse_primary_expression B fuel prs)
    primary-Total zero n enough prs le = absurd (omega arith)
    primary-Total (suc fuel) n enough prs le =
        primary-Runs B n (λ st. parse_expression B fuel st)
          (λ k lt. expression-Total fuel k (omega arith)) (kind B prs) (content B prs) prs
          (real_token prs.tokens) le

    list-Total :
        (fuel n : ℕ) → 8 * n + 7 ≤ fuel → Total B n (λ prs. parse_initializer_list B fuel prs)
    list-Total zero n enough prs le = absurd (omega arith)
    list-Total (suc fuel) n enough prs le =
        initializer_list-Runs B n (λ st. parse_initializer B fuel st)
          (λ st. parse_initializer_list B fuel st) (initializer-Total fuel n (omega arith))
          (λ k lt. list-Total fuel k (omega arith)) prs le

    loop-Total :
        (fuel n : ℕ)
        → 8 * n + 1 ≤ fuel
        → (x : B.Node) → Total B n (λ prs. postfix_loop B fuel x prs)
    loop-Total zero n enough x prs le = absurd (omega arith)
    loop-Total (suc fuel) n enough x prs le =
        postfix-Runs B n (λ st. parse_expression B fuel st) (λ st. parse_initializer_list B fuel st)
          (λ y st. postfix_loop B fuel y st) (λ k lt. expression-Total fuel k (omega arith))
          (λ k lt. list-Total fuel k (omega arith)) (λ k lt y. loop-Total fuel k (omega arith) y) x
          (suffix_of (kind B prs)) prs (suffix_token prs.tokens) le

    postfix-Total :
        (fuel n : ℕ) → 8 * n + 3 ≤ fuel → Total B n (λ prs. parse_postfix_expression B fuel prs)
    postfix-Total zero n enough prs le = absurd (omega arith)
    postfix-Total (suc fuel) n enough prs le =
        bind-Total B (λ st. parse_primary_expression B fuel st) (λ x st. postfix_loop B fuel x st)
          (primary-Total fuel n (omega arith)) (λ x. loop-Total fuel n (omega arith) x) prs le

    unary-Total :
        (fuel n : ℕ) → 8 * n + 4 ≤ fuel → Total B n (λ prs. parse_unary_expression B fuel prs)
    unary-Total zero n enough prs le = absurd (omega arith)
    unary-Total (suc fuel) n enough prs le =
        unary-Runs B n (λ st. parse_postfix_expression B fuel st)
          (λ st. parse_unary_expression B fuel st) (kind B prs) prs
          (postfix-Total fuel n (omega arith)) (λ k lt. unary-Total fuel k (omega arith))
          (prefix_token prs.tokens) le

    rhs-Total :
        (fuel n : ℕ)
        → 8 * n + 1 ≤ fuel
        → (x : B.Node) (m : ℕ) → 1 ≤ m
        → Total B n (λ prs. parse_rhs_of_binary_expression B fuel x m prs)
    rhs-Total zero n enough x m pos prs le = absurd (omega arith)
    rhs-Total (suc fuel) n enough x m pos prs le =
        let this : ℕ = prec_of (kind B prs) in
        either_rhs (round fuel x m (kind B prs)) (leb m this) x prs le λ goes.
          let above : m ≤ this = ground arith in
          rhs-Runs B n (λ st. parse_initializer B fuel st) (λ st. parse_unary_expression B fuel st)
            (λ y k st. parse_rhs_of_binary_expression B fuel y k st)
            (λ k lt. initializer-Total fuel k (omega arith))
            (λ k lt. unary-Total fuel k (omega arith))
            (λ k lt y j least. rhs-Total fuel k (omega arith) y j least) x m (kind B prs) prs pos
            (omega (arith, right_prec_ge this)) (operator_token m prs.tokens above pos) le

    assignment-Total :
        (fuel n : ℕ) → 8 * n + 5 ≤ fuel → Total B n (λ prs. parse_assignment_expression B fuel prs)
    assignment-Total zero n enough prs le = absurd (omega arith)
    assignment-Total (suc fuel) n enough prs le =
        bind-Total B (λ st. parse_unary_expression B fuel st)
          (λ x st. parse_rhs_of_binary_expression B fuel x 2 st) (unary-Total fuel n (omega arith))
          (λ x. rhs-Total fuel n (omega arith) x 2 (omega arith)) prs le

    expression-Total :
        (fuel n : ℕ) → 8 * n + 6 ≤ fuel → Total B n (λ prs. parse_expression B fuel prs)
    expression-Total zero n enough prs le = absurd (omega arith)
    expression-Total (suc fuel) n enough prs le =
        bind-Total B (λ st. parse_assignment_expression B fuel st)
          (λ x st. parse_rhs_of_binary_expression B fuel x 1 st)
          (assignment-Total fuel n (omega arith))
          (λ x. rhs-Total fuel n (omega arith) x 1 (omega arith)) prs le

    initializer-Total :
        (fuel n : ℕ) → 8 * n + 6 ≤ fuel → Total B n (λ prs. parse_initializer B fuel prs)
    initializer-Total zero n enough prs le = absurd (omega arith)
    initializer-Total (suc fuel) n enough prs le =
        initializer-Runs B n (λ st. parse_initializer_list B fuel st)
          (λ st. parse_assignment_expression B fuel st) (λ k lt. list-Total fuel k (omega arith))
          (assignment-Total fuel n (omega arith)) (is (kind B prs) Wanted.l_brace) prs
          (brace_token prs.tokens) le

  -- With six units of fuel and eight for each of at most `n` tokens, `parse_constant_expression` and
  -- `parse_condition` end and leave at most `n`.
  parse_constant_expression-Total :
      (fuel n : ℕ) → 8 * n + 6 ≤ fuel → Total B n (parse_constant_expression B fuel)
  unfolding parse_constant_expression prec
  parse_constant_expression-Total fuel n enough =
      let finish : B.Node → Parse B = λ x. build B (B.build_constant_expression x) in
      let rest : B.Node → Parse B = λ lhs. parse_rhs_of_binary_expression B fuel lhs 3 in
      bind-Total B (parse_unary_expression B fuel) (λ lhs. rest lhs >>= finish)
        (unary-Total fuel n (omega arith))
        λ lhs.
          bind-Total B (rest lhs) finish (rhs-Total fuel n (omega arith) lhs 3 (omega arith))
            λ x. build-Total B n _

  skipped-Total : (n : ℕ) (set : List Wanted) → Total B n (skip B set >> return B.broken)
  skipped-Total n set =
      bind-Total B (skip B set) (λ u. return B.broken) (skip-Total B n set)
        λ u. return-Total B n B.broken

  closed_condition-Total : (n : ℕ) (x : B.Node) → Total B n (closed_condition B x)
  closed_condition-Total n x =
      let missing : Parse B =
        error B expected_r_paren >> (skip B (Wanted.semicolon ∷ []) >> return B.broken) in
      let close : Bool → Parse B =
        λ closed. if closed then build B (B.build_condition x) else missing in
      bind-Total B (try_consume_token B Wanted.r_paren) close (try-Total B n Wanted.r_paren) (
        if-Total B (build B (B.build_condition x)) missing (build-Total B n _) (
          bind-Total B (error B expected_r_paren)
            (λ u. skip B (Wanted.semicolon ∷ []) >> return B.broken)
            (error-Total B n expected_r_paren) λ u. skipped-Total n (Wanted.semicolon ∷ [])))

  broken_condition-Total : (n : ℕ) → Total B n (broken_condition B)
  broken_condition-Total n =
      bind-Total B (skip B (Wanted.r_paren ∷ Wanted.semicolon ∷ []))
        (λ u. try_consume_token B Wanted.r_paren >> return B.broken)
        (skip-Total B n (Wanted.r_paren ∷ Wanted.semicolon ∷ []))
        λ u.
          bind-Total B (try_consume_token B Wanted.r_paren) (λ b. return B.broken)
            (try-Total B n Wanted.r_paren) λ b. return-Total B n B.broken

  parse_condition-Total : (fuel n : ℕ) → 8 * n + 6 ≤ fuel → Total B n (parse_condition B fuel)
  unfolding parse_condition
  parse_condition-Total fuel n enough =
      let inside : Parse B =
        consume_token B >>= λ l_loc. parse_expression B fuel >>= checked_condition B in
      let missing : Parse B =
        error B expected_l_paren_in_condition
        >> (skip B (Wanted.semicolon ∷ []) >> return B.broken) in
      let opened : Bool → Parse B = λ c. if c then inside else missing in
      bind-Total B (token_is B Wanted.l_paren) opened (token_is-Total B n Wanted.l_paren) (
        if-Total B inside missing
          (bind-Total B (consume_token B) (λ l_loc. parse_expression B fuel >>= checked_condition B)
            (consume-Total B n)
            λ l_loc.
              bind-Total B (parse_expression B fuel) (checked_condition B)
                (expression-Total fuel n (omega arith))
                λ x.
                  if-Total B (closed_condition B x) (broken_condition B)
                    (closed_condition-Total n x) (broken_condition-Total n) (B.is_correct x))
          (bind-Total B (error B expected_l_paren_in_condition)
            (λ u. skip B (Wanted.semicolon ∷ []) >> return B.broken)
            (error-Total B n expected_l_paren_in_condition)
            λ u. skipped-Total n (Wanted.semicolon ∷ [])))

  -- With six units of fuel and eight for each token, `parse_expression` ends on every list of tokens,
  -- errors included, and leaves no more tokens than there were.
  pub parse_expression_ends :
      (fuel : ℕ) (prs : Parser B)
      → 8 * length prs.tokens + 6 ≤ fuel
      → (r : B.Node × Parser B) × (parse_expression B fuel prs ≡ some r)
        × (length r.1.tokens ≤ length prs.tokens)
  parse_expression_ends fuel prs enough =
      expression-Total fuel (length prs.tokens) enough prs (omega arith)
