-- ===== src/Compiler/Parser/Termination/Bodies.antt =====
-- What the functions of parser.c for expressions do ends where the functions that they call end.
use ru_c.Prelude.{
  ℕ, ◌≤◌, ◌<◌, ◌≡◌, refl, Bool, true, false, none, some, List, [], ◌∷◌, length, if◌then◌else◌,
}
use ru_c.Compiler.Operations.{Token, Unary}
use ru_c.Compiler.Lexer.Source.{Content}
use ru_c.Compiler.Parser.State.{
  Action, ◌>>=◌, return, Location, Builder, expected_r_paren, expected_r_square, expected_r_brace,
  expected_expression, expected_identifier_in_member_expr, empty_initializer, ident_name, char_of,
  int_of, float_of, string_of, Wanted, is, Parser, consume_token, token_get_ident_name, token_is,
  build, try_consume_token,
}
use ru_c.Compiler.Parser.Expression.{
  Parse, Suffix, subscript, call, increment, decrement, other, member, broken, abandon, primary_at,
  initializer_list_round, postfix_round, initializer_at,
}
use ru_c.Compiler.Parser.Total.{
  length-behind, try-Runs, Runs, Total, return-Total, build-Total, if-Total, token_is-Total,
  consume-Total, try-Total, bind-Total, consume-Runs, broken-Total, abandon-Total,
}

abbrev pub is_other : Suffix → Bool
is_other other = true
is_other _ = false

module _ (B : Builder) where
  module _ (n : ℕ) (expression : Parse B) (on_e : (k : ℕ) → k < n → Total B k expression) where
    pub primary-Runs :
        (token : Token) (value : Content B.Double) (prs : Parser B)
        → (is token Wanted.eof ≡ false → 1 ≤ length prs.tokens)
        → length prs.tokens ≤ n
        → Runs B n (primary_at B expression token value) prs
    primary-Runs Token.identifier value prs pos le =
        consume-Runs B n (λ loc. build B (B.build_identifier_expression (ident_name value) loc)) prs
          (pos refl) le λ k lt loc. build-Total B k _
    primary-Runs Token.char_literal value prs pos le =
        consume-Runs B n (λ loc. build B (B.build_character_literal_expression (char_of value) loc))
          prs (pos refl) le λ k lt loc. build-Total B k _
    primary-Runs Token.int_literal value prs pos le =
        consume-Runs B n (λ loc. build B (B.build_integer_literal_expression (int_of value) loc))
          prs (pos refl) le λ k lt loc. build-Total B k _
    primary-Runs Token.float_literal value prs pos le =
        consume-Runs B n
          (λ loc. build B (B.build_floating_literal_expression (float_of B.no_value value) loc)) prs
          (pos refl) le λ k lt loc. build-Total B k _
    primary-Runs Token.string_literal value prs pos le =
        consume-Runs B n (λ loc. build B (B.build_string_literal_expression (string_of value) loc))
          prs (pos refl) le λ k lt loc. build-Total B k _
    primary-Runs Token.null_keyword value prs pos le =
        consume-Runs B n (λ loc. build B (B.build_null_literal_expression loc)) prs (pos refl) le
          λ k lt loc. build-Total B k _
    primary-Runs Token.true_keyword value prs pos le =
        consume-Runs B n (λ loc. build B (B.build_boolean_literal_expression true loc)) prs
          (pos refl) le λ k lt loc. build-Total B k _
    primary-Runs Token.false_keyword value prs pos le =
        consume-Runs B n (λ loc. build B (B.build_boolean_literal_expression false loc)) prs
          (pos refl) le λ k lt loc. build-Total B k _
    primary-Runs Token.l_paren value prs pos le =
        let close : B.Node → Bool → Parse B =
          λ x closed. if closed then return x else broken B expected_r_paren in
        consume-Runs B n (λ loc. expression >>= λ x. try_consume_token B Wanted.r_paren >>= close x)
          prs (pos refl) le
          λ k lt loc.
            bind-Total B expression (λ x. try_consume_token B Wanted.r_paren >>= close x)
              (on_e k lt)
              λ x.
                bind-Total B (try_consume_token B Wanted.r_paren) (close x)
                  (try-Total B k Wanted.r_paren)
                  (if-Total B (return x) (broken B expected_r_paren) (return-Total B k x)
                    (broken-Total B k expected_r_paren))
    primary-Runs _ value prs pos le = broken-Total B n expected_expression prs le

  -- What waits for a token and takes it, or ends otherwise.
  closing-Total :
      (n : ℕ) (w : Wanted) (f : Location → B.Syntax → B.Node × B.Syntax) (x : Parse B)
      → Total B n x
      → Total B n (
          token_is B w >>= λ found.
          if found then (consume_token B >>= λ loc. build B (f loc)) else x)
  closing-Total n w f x on_x =
      let taken : Parse B = consume_token B >>= λ loc. build B (f loc) in
      bind-Total B (token_is B w) (λ found. if found then taken else x) (token_is-Total B n w)
        (if-Total B taken x
          (bind-Total B (consume_token B) (λ loc. build B (f loc)) (consume-Total B n)
            λ loc. build-Total B n (f loc))
          on_x)

  pub initializer_list-Runs :
      (n : ℕ) (initializer : Parse B) (again : Action (Parser B) (List B.Node))
      → Total B n initializer
      → ((k : ℕ) → k < n → Total B k again)
      → Total B n (initializer_list_round B initializer again)
  initializer_list-Runs n initializer again on_i on_again =
      let after : B.Node → Bool → Action (Parser B) (List B.Node) =
        λ x more. if more then (again >>= λ others. return (x ∷ others)) else return (x ∷ []) in
      bind-Total B initializer (λ x. try_consume_token B Wanted.comma >>= after x) on_i
        λ x.
          try-Runs B n Wanted.comma (after x) refl
            (λ k lt.
              bind-Total B again (λ others. return (x ∷ others)) (on_again k lt)
                λ others. return-Total B k _)
            (return-Total B n _)

  module _ (n : ℕ) (expression : Parse B) (list : Action (Parser B) (List B.Node))
      (again : B.Node → Parse B) (on_e : (k : ℕ) → k < n → Total B k expression)
      (on_list : (k : ℕ) → k < n → Total B k list)
      (on_again : (k : ℕ) → k < n → (x : B.Node) → Total B k (again x)) where
    pub postfix-Runs :
        (x : B.Node) (suffix : Suffix) (prs : Parser B)
        → (is_other suffix ≡ false → 1 ≤ length prs.tokens)
        → length prs.tokens ≤ n
        → Runs B n (postfix_round B expression list again x suffix) prs
    postfix-Runs x subscript prs pos le =
        let close : Location → B.Node → Parse B = λ l y. token_is B Wanted.r_square >>= λ closed.
        if closed
        then (consume_token B >>= λ r. build B (B.build_subscript_expression x y l r))
        else abandon B expected_r_square Wanted.r_square in
        let whole : Location → Parse B = λ l. expression >>= λ y. close l y >>= again in
        consume-Runs B n whole prs (pos refl) le λ k lt l.
          bind-Total B expression (λ y. close l y >>= again) (on_e k lt)
            λ y.
              bind-Total B (close l y) again
                (closing-Total k Wanted.r_square (λ r. B.build_subscript_expression x y l r)
                  (abandon B expected_r_square Wanted.r_square)
                  (abandon-Total B k expected_r_square Wanted.r_square))
                (on_again k lt)
    postfix-Runs x call prs pos le =
        let close : Location → List B.Node → Parse B = λ l args.
          token_is B Wanted.r_paren >>= λ closed.
          if closed
          then (consume_token B >>= λ r. build B (B.build_call_expression x (some args) l r))
          else abandon B expected_r_paren Wanted.r_paren in
        let full : Location → Parse B = λ l. list >>= close l in
        let node : Location → Parse B = λ l. token_is B Wanted.r_paren >>= λ empty.
        if empty
        then (consume_token B >>= λ r. build B (B.build_call_expression x none l r))
        else full l in
        consume-Runs B n (λ l. node l >>= again) prs (pos refl) le
          λ k lt l.
            bind-Total B (node l) again
              (closing-Total k Wanted.r_paren (λ r. B.build_call_expression x none l r) (full l)
                (bind-Total B list (close l) (on_list k lt) λ args.
                  closing-Total k Wanted.r_paren (λ r. B.build_call_expression x (some args) l r)
                    (abandon B expected_r_paren Wanted.r_paren)
                    (abandon-Total B k expected_r_paren Wanted.r_paren)))
              (on_again k lt)
    postfix-Runs x (member b) prs pos le =
        let named : Location → Parse B = λ op. token_get_ident_name B >>= λ name.
        consume_token B >>= λ id. build B (B.build_member_expression x name b op id) in
        let node : Location → Parse B = λ op. token_is B Wanted.identifier >>= λ found.
        if found then named op else broken B expected_identifier_in_member_expr in
        consume-Runs B n (λ op. node op >>= again) prs (pos refl) le
          λ k lt op.
            bind-Total B (node op) again
              (bind-Total B (token_is B Wanted.identifier) _ (token_is-Total B k Wanted.identifier)
                (if-Total B (named op) (broken B expected_identifier_in_member_expr)
                  (λ st less. (_, refl, length-behind k st.tokens less))
                  (broken-Total B k expected_identifier_in_member_expr)))
              (on_again k lt)
    postfix-Runs x increment prs pos le =
        consume-Runs B n (λ op. build B (B.build_unary_expression x Unary.postinc op) >>= again) prs
          (pos refl) le
          λ k lt op.
            bind-Total B (build B (B.build_unary_expression x Unary.postinc op)) again
              (build-Total B k _) (on_again k lt)
    postfix-Runs x decrement prs pos le =
        consume-Runs B n (λ op. build B (B.build_unary_expression x Unary.postdec op) >>= again) prs
          (pos refl) le
          λ k lt op.
            bind-Total B (build B (B.build_unary_expression x Unary.postdec op)) again
              (build-Total B k _) (on_again k lt)
    postfix-Runs x other prs pos le = return-Total B n x prs le

  pub initializer-Runs :
      (n : ℕ) (list : Action (Parser B) (List B.Node)) (assignment : Parse B)
      → ((k : ℕ) → k < n → Total B k list)
      → Total B n assignment
      → (braced : Bool) (prs : Parser B) → (braced ≡ true → 1 ≤ length prs.tokens)
      → length prs.tokens ≤ n
      → Runs B n (initializer_at B list assignment braced) prs
  initializer-Runs n list assignment on_list on_a false prs pos le = on_a prs le
  initializer-Runs n list assignment on_list on_a true prs pos le =
      let close : Location → List B.Node → Parse B = λ l xs. token_is B Wanted.r_brace >>= λ closed.
      if closed
      then (consume_token B >>= λ r. build B (B.build_initializer xs l r))
      else abandon B expected_r_brace Wanted.r_brace in
      let inside : Location → Bool → Parse B =
        λ l empty. if empty then broken B empty_initializer else (list >>= close l) in
      consume-Runs B n (λ l. try_consume_token B Wanted.r_brace >>= inside l) prs (pos refl) le
        λ k lt l.
          bind-Total B (try_consume_token B Wanted.r_brace) (inside l)
            (try-Total B k Wanted.r_brace)
            (if-Total B (broken B empty_initializer) (list >>= close l)
              (broken-Total B k empty_initializer)
              (bind-Total B list (close l) (on_list k lt) λ xs.
                closing-Total k Wanted.r_brace (λ r. B.build_initializer xs l r)
                  (abandon B expected_r_brace Wanted.r_brace)
                  (abandon-Total B k expected_r_brace Wanted.r_brace)))
