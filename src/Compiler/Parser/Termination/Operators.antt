-- ===== src/Compiler/Parser/Termination/Operators.antt =====
-- The functions of parser.c for operators end where the functions that they call end.
use ru_c.Prelude.{ℕ, ◌≤◌, ◌<◌, ◌≡◌, refl, Bool, true, false, length, ◌==◌, if◌then◌else◌}
use ru_c.Compiler.Operations.{Token, Precedence, token_to_unary, token_to_binary}
use ru_c.Compiler.Parser.State.{
  Action, ◌>>=◌, return, Location, Builder, expected_colon_in_conditional_expr, Wanted, Parser,
  consume_token, token_is, error, build,
}
use ru_c.Compiler.Parser.Expression.{
  Parse, is_prefix, prec, prec_of, binds, right_prec, next_prec, unary_at, after_middle, middle_of,
  operand_at, tighter, rhs_round,
}
use ru_c.Compiler.Parser.Total.{
  length-behind, Runs, Total, return-Total, build-Total, if-Total, error-Total, token_is-Total,
  next_prec-Total, bind-Total, consume-Runs,
}

module _ (B : Builder) where
  pub unary-Runs :
      (n : ℕ) (postfix unary : Parse B) (token : Token) (prs : Parser B)
      → Total B n postfix
      → ((k : ℕ) → k < n → Total B k unary)
      → (is_prefix token ≡ true → 1 ≤ length prs.tokens)
      → length prs.tokens ≤ n
      → Runs B n (unary_at B postfix unary token) prs
  unary-Runs n postfix unary token prs on_p on_u pos le =
      let node : Location → B.Node → Parse B =
        λ loc x. build B (B.build_unary_expression x (token_to_unary token).0 loc) in
      prefix_or postfix (consume_token B >>= λ loc. unary >>= node loc) prs (is_prefix token)
        (λ e.
          consume-Runs B n (λ loc. unary >>= node loc) prs (pos e) le
            λ k lt loc. bind-Total B unary (node loc) (on_u k lt) λ x. build-Total B k _)
        (on_p prs le)
    where
      prefix_or :
          {n : ℕ} (x y : Parse B) (prs : Parser B) (c : Bool)
          → (c ≡ true → Runs B n y prs)
          → Runs B n x prs
          → Runs B n (if c then y else x) prs
      prefix_or x y prs true on_y on_x = on_y refl
      prefix_or x y prs false on_y on_x = on_x

  module _ (n : ℕ) (initializer unary : Parse B) (rhs : B.Node → ℕ → Parse B)
      (on_i : (k : ℕ) → k < n → Total B k initializer) (on_u : (k : ℕ) → k < n → Total B k unary)
      (on_rhs : (k : ℕ) → k < n → (x : B.Node) (m : ℕ) → 1 ≤ m → Total B k (rhs x m)) where
    middle-Total : (k : ℕ) → k < n → (loc : Location) → Total B k (middle_of B initializer loc)
    middle-Total k lt loc =
        let after : B.Node → Action (Parser B) (B.Node × Location) =
          λ x. token_is B Wanted.colon >>= after_middle B x loc in
        bind-Total B initializer after (on_i k lt) λ x.
          bind-Total B (token_is B Wanted.colon) (after_middle B x loc)
            (token_is-Total B k Wanted.colon)
            (if-Total B _ _ (λ st less. (_, refl, length-behind k st.tokens less))
              (bind-Total B (error B expected_colon_in_conditional_expr) _
                (error-Total B k expected_colon_in_conditional_expr)
                λ u. return-Total B k (x, loc)))

    operand-Total : (k : ℕ) → k < n → Total B k (operand_at B initializer unary)
    operand-Total k lt =
        bind-Total B (token_is B Wanted.l_brace) (λ braced. if braced then initializer else unary)
          (token_is-Total B k Wanted.l_brace) (if-Total B initializer unary (on_i k lt) (on_u k lt))

    tighter-Total :
        (k : ℕ)
        → k < n
        → (this : ℕ) → 1 ≤ right_prec this
        → (x : B.Node) → Total B k (tighter B rhs this x)
    tighter-Total k lt this pos x =
        bind-Total B (next_prec B)
          (λ next. if binds this next then rhs x (right_prec this) else return x)
          (next_prec-Total B k)
          λ next.
            if-Total B (rhs x (right_prec this)) (return x) (on_rhs k lt x (right_prec this) pos)
              (return-Total B k x) (binds this next)

    rest-Total :
        (k : ℕ)
        → k < n
        → (m this : ℕ) → 1 ≤ m
        → 1 ≤ right_prec this
        → (f : B.Node → B.Syntax → B.Node × B.Syntax)
        → Total B k (
            operand_at B initializer unary >>= λ first.
            tighter B rhs this first >>= λ y. build B (f y) >>= λ next. rhs next m)
    rest-Total k lt m this pos above f =
        let node : B.Node → Parse B = λ y. build B (f y) >>= λ next. rhs next m in
        bind-Total B (operand_at B initializer unary) (λ first. tighter B rhs this first >>= node)
          (operand-Total k lt)
          λ first.
            bind-Total B (tighter B rhs this first) node (tighter-Total k lt this above first) λ y.
              bind-Total B (build B (f y)) (λ next. rhs next m) (build-Total B k (f y))
                λ next. on_rhs k lt next m pos

    pub rhs-Runs :
        (x : B.Node) (m : ℕ) (op : Token) (prs : Parser B)
        → 1 ≤ m
        → 1 ≤ right_prec (prec_of op)
        → 1 ≤ length prs.tokens
        → length prs.tokens ≤ n
        → Runs B n (rhs_round B initializer unary rhs x m op) prs
    rhs-Runs x m op prs pos above there le =
        let ternary : Location → Parse B = λ loc. middle_of B initializer loc >>= λ z.
        operand_at B initializer unary >>= λ first. tighter B rhs (prec_of op) first >>= λ y.
        build B (B.build_ternary_expression x z.0 y z.1) >>= λ next. rhs next m in
        let two : Location → Parse B = λ loc. operand_at B initializer unary >>= λ first.
        tighter B rhs (prec_of op) first >>= λ y.
        build B (B.build_binary_expression x y (token_to_binary op).0 loc) >>= λ next. rhs next m in
        either (consume_token B >>= ternary) (consume_token B >>= two) prs
          (prec_of op == prec Precedence.conditional)
          (consume-Runs B n ternary prs there le λ k lt loc.
            bind-Total B (middle_of B initializer loc) _ (middle-Total k lt loc) λ z.
              rest-Total k lt m (prec_of op) pos above λ y. B.build_ternary_expression x z.0 y z.1)
          (consume-Runs B n two prs there le λ k lt loc.
            rest-Total k lt m (prec_of op) pos above
              λ y. B.build_binary_expression x y (token_to_binary op).0 loc)
      where
        either :
            {n : ℕ} (x y : Parse B) (prs : Parser B) (c : Bool)
            → Runs B n x prs
            → Runs B n y prs
            → Runs B n (if c then x else y) prs
        either x y prs true on_x on_y = on_x
        either x y prs false on_x on_y = on_y
