-- ===== src/Compiler/Parser/Roundtrip/Steps.antt =====
-- A call of each function for the expressions of parser.c where what it calls succeeds.
use ru_c.Prelude.{
  ℕ, suc, ◌≡◌, refl, ◌∙◌, Bool, true, false, none, some, List, [], ◌∷◌, if◌then◌else◌,
}
use ru_c.Utils.Item.{Size}
use ru_c.Compiler.Operations.{Token, token_to_unary}
use ru_c.Compiler.Lexer.Source.{ident_repr}
use ru_c.Compiler.Parser.State.{
  Action, ◌>>=◌, return, Location, Builder, Wanted, is, Parser, kind, build, token_is,
  try_consume_token, consume_token,
}
use ru_c.Compiler.Parser.Expression.{
  Parse, other, suffix_of, is_prefix, prec, broken, abandon, unary_at, initializer_at,
  parse_primary_expression, parse_initializer_list, postfix_loop, parse_postfix_expression,
  parse_unary_expression, parse_assignment_expression, parse_expression, parse_initializer,
}
use ru_c.Compiler.Parser.State.{
  expected_r_paren, expected_r_square, expected_r_brace, empty_initializer,
}
use ru_c.Compiler.Parser.Grammar.{
  Leaf, name, string, character, integer, floating, null, boolean, leaf_token, leaf_content,
  leaf_node, lexeme, plain, step_token, step_kind, member_token,
}
use ru_c.Compiler.Parser.Roundtrip.Rounds.{
  bind_some, then_at, else_at, if_false, state, first, rhs, Lexemes, Errors,
}

module _ (B : Builder) where
  module _ (fuel : ℕ) (es : Errors B) (sx : B.Syntax) where
    pub primary_leaf :
        (at : Location) (v : Leaf B.Double) (rest : Lexemes B)
        → parse_primary_expression B
            (suc fuel)
            (state B (lexeme at (leaf_token v) (leaf_content v) ∷ rest) es sx)
          ≡ build B (leaf_node B at v) (state B rest es sx)
    unfolding parse_primary_expression
    primary_leaf at (name n) rest = refl
    primary_leaf at (string n) rest = refl
    primary_leaf at (character n) rest = refl
    primary_leaf at (integer n) rest = refl
    primary_leaf at (floating v) rest = refl
    primary_leaf at null rest = refl
    primary_leaf at (boolean true) rest = refl
    primary_leaf at (boolean false) rest = refl

    pub primary_paren :
        (l r : Location) (ts rest : Lexemes B) {x : B.Node} {es' : Errors B} {sx' : B.Syntax}
        → parse_expression B fuel (state B ts es sx)
          ≡ some (x, state B (plain r Token.r_paren ∷ rest) es' sx')
        → parse_primary_expression B (suc fuel) (state B (plain l Token.l_paren ∷ ts) es sx)
          ≡ some (x, state B rest es' sx')
    unfolding parse_primary_expression
    primary_paren l r ts rest e =
        bind_some
          (λ x. try_consume_token B Wanted.r_paren >>= λ closed.
            if closed then return x else broken B expected_r_paren)
          (λ st. parse_expression B fuel st) e

    pub loop_stop :
        (x : B.Node) (rest : Lexemes B)
        → suffix_of (first B rest) ≡ other
        → postfix_loop B (suc fuel) x (state B rest es sx) ≡ some (x, state B rest es sx)
    unfolding parse_primary_expression
    loop_stop x rest e = rw e refl

    pub loop_subscript :
        (x : B.Node) (l r : Location) (ts rest : Lexemes B) {y : B.Node} {es' : Errors B}
        {sx' : B.Syntax}
        → parse_expression B fuel (state B ts es sx)
          ≡ some (y, state B (plain r Token.r_square ∷ rest) es' sx')
        → postfix_loop B (suc fuel) x (state B (plain l Token.l_square ∷ ts) es sx)
          ≡ (build B (B.build_subscript_expression x y l r) >>= λ z st. postfix_loop B fuel z st)
              (state B rest es' sx')
    unfolding parse_primary_expression
    loop_subscript x l r ts rest e =
        bind_some
          (λ y. token_is B Wanted.r_square >>= λ closed.
            (if closed
              then (consume_token B >>= λ r_loc. build B (B.build_subscript_expression x y l r_loc))
              else abandon B expected_r_square Wanted.r_square)
            >>= λ z st. postfix_loop B fuel z st)
          (λ st. parse_expression B fuel st) e

    pub loop_call :
        (x : B.Node) (l r : Location) (rest : Lexemes B)
        → postfix_loop B
            (suc fuel)
            x
            (state B (plain l Token.l_paren ∷ plain r Token.r_paren ∷ rest) es sx)
          ≡ (build B (B.build_call_expression x none l r) >>= λ z st. postfix_loop B fuel z st)
              (state B rest es sx)
    unfolding parse_primary_expression
    loop_call x l r rest = refl

    pub loop_member :
        (x : B.Node) (b : Bool) (op at : Location) (n : Size) (rest : Lexemes B)
        → postfix_loop B (suc fuel) x (
            state B
              (plain op (member_token b) ∷ lexeme at Token.identifier (ident_repr n) ∷ rest)
              es
              sx)
          ≡ (build B (B.build_member_expression x n b op at) >>= λ z st. postfix_loop B fuel z st)
              (state B rest es sx)
    unfolding parse_primary_expression
    loop_member x true op at n rest = refl
    loop_member x false op at n rest = refl

    pub loop_step :
        (x : B.Node) (b : Bool) (op : Location) (rest : Lexemes B)
        → postfix_loop B (suc fuel) x (state B (plain op (step_token b) ∷ rest) es sx)
          ≡ (build B (B.build_unary_expression x (step_kind b) op) >>= λ z st.
                postfix_loop B fuel z st)
              (state B rest es sx)
    unfolding parse_primary_expression
    loop_step x true op rest = refl
    loop_step x false op rest = refl

    pub loop_call_with :
        (x : B.Node) (l r : Location) (ts rest : Lexemes B) {args : List B.Node} {es' : Errors B}
        {sx' : B.Syntax}
        → is (first B ts) Wanted.r_paren ≡ false
        → parse_initializer_list B fuel (state B ts es sx)
          ≡ some (args, state B (plain r Token.r_paren ∷ rest) es' sx')
        → postfix_loop B (suc fuel) x (state B (plain l Token.l_paren ∷ ts) es sx)
          ≡ (build B (B.build_call_expression x (some args) l r) >>= λ z st.
                postfix_loop B fuel z st)
              (state B rest es' sx')
    unfolding parse_primary_expression
    loop_call_with x l r ts rest filled e =
        let again : B.Node → Parse B = λ z st. postfix_loop B fuel z st in
        let close : List B.Node → Bool → Parse B = λ args closed.
          if closed
          then (consume_token B >>= λ r_loc.
              build B (B.build_call_expression x (some args) l r_loc))
          else abandon B expected_r_paren Wanted.r_paren in
        let full : Parse B = (λ st. parse_initializer_list B fuel st) >>= λ args.
        token_is B Wanted.r_paren >>= close args in
        let empty : Parse B =
          consume_token B >>= λ r_loc. build B (B.build_call_expression x none l r_loc) in
        bind_some again (if is (first B ts) Wanted.r_paren then empty else full)
          {from = state B ts es sx}
          (else_at empty full (state B ts es sx) filled
            ∙ bind_some (λ args. token_is B Wanted.r_paren >>= close args)
                (λ st. parse_initializer_list B fuel st) e)

    pub initializer_braces :
        (l r : Location) (ts rest : Lexemes B) {inits : List B.Node} {es' : Errors B}
        {sx' : B.Syntax}
        → is (first B ts) Wanted.r_brace ≡ false
        → parse_initializer_list B fuel (state B ts es sx)
          ≡ some (inits, state B (plain r Token.r_brace ∷ rest) es' sx')
        → parse_initializer B (suc fuel) (state B (plain l Token.l_brace ∷ ts) es sx)
          ≡ build B (B.build_initializer inits l r) (state B rest es' sx')
    unfolding parse_primary_expression
    initializer_braces l r ts rest filled e =
        let close : List B.Node → Bool → Parse B = λ inits closed.
          if closed
          then (consume_token B >>= λ r_loc. build B (B.build_initializer inits l r_loc))
          else abandon B expected_r_brace Wanted.r_brace in
        let full : Parse B = (λ st. parse_initializer_list B fuel st) >>= λ inits.
        token_is B Wanted.r_brace >>= close inits in
        bind_some (λ empty. if empty then broken B empty_initializer else full)
          (try_consume_token B Wanted.r_brace) {from = state B ts es sx} (if_false _ _ filled)
        ∙ bind_some (λ inits. token_is B Wanted.r_brace >>= close inits)
            (λ st. parse_initializer_list B fuel st) e

    pub list_one :
        (ts rest : Lexemes B) {x : B.Node} {es' : Errors B} {sx' : B.Syntax}
        → is (first B rest) Wanted.comma ≡ false
        → parse_initializer B fuel (state B ts es sx) ≡ some (x, state B rest es' sx')
        → parse_initializer_list B (suc fuel) (state B ts es sx)
          ≡ some (x ∷ [], state B rest es' sx')
    unfolding parse_primary_expression
    list_one ts rest {x = x} {es' = es'} {sx' = sx'} last e =
        let after : B.Node → Bool → Action (Parser B) (List B.Node) = λ y more.
          if more
          then ((λ st. parse_initializer_list B fuel st) >>= λ others. return (y ∷ others))
          else return (y ∷ []) in
        bind_some (λ y. try_consume_token B Wanted.comma >>= after y)
          (λ st. parse_initializer B fuel st) e
        ∙ bind_some (after x) (try_consume_token B Wanted.comma) {from = state B rest es' sx'}
            (if_false _ _ last)

    pub list_more :
        (ts us : Lexemes B) (at : Location) {x : B.Node} {es' : Errors B} {sx' : B.Syntax}
        → parse_initializer B fuel (state B ts es sx)
          ≡ some (x, state B (plain at Token.comma ∷ us) es' sx')
        → parse_initializer_list B (suc fuel) (state B ts es sx)
          ≡ ((λ st. parse_initializer_list B fuel st) >>= λ xs. return (x ∷ xs))
              (state B us es' sx')
    unfolding parse_primary_expression
    list_more ts us at e =
        let after : B.Node → Bool → Action (Parser B) (List B.Node) = λ y more.
          if more
          then ((λ st. parse_initializer_list B fuel st) >>= λ others. return (y ∷ others))
          else return (y ∷ []) in
        bind_some (λ y. try_consume_token B Wanted.comma >>= after y)
          (λ st. parse_initializer B fuel st) e

  module _ (fuel : ℕ) (prs : Parser B) where
    pub postfix_suc :
        parse_postfix_expression B (suc fuel) prs
        ≡ ((λ st. parse_primary_expression B fuel st) >>= λ x st. postfix_loop B fuel x st) prs
    unfolding parse_primary_expression
    postfix_suc = refl

    unary_suc :
        parse_unary_expression B (suc fuel) prs
        ≡ unary_at B
            (λ st. parse_postfix_expression B fuel st)
            (λ st. parse_unary_expression B fuel st)
            (kind B prs)
            prs
    unfolding parse_primary_expression
    unary_suc = refl

    initializer_suc :
        parse_initializer B (suc fuel) prs
        ≡ initializer_at B
            (λ st. parse_initializer_list B fuel st)
            (λ st. parse_assignment_expression B fuel st)
            (is (kind B prs) Wanted.l_brace)
            prs
    unfolding parse_primary_expression
    initializer_suc = refl

    pub assignment_suc :
        parse_assignment_expression B (suc fuel) prs
        ≡ ((λ st. parse_unary_expression B fuel st) >>= λ x. rhs B fuel x 2) prs
    unfolding parse_primary_expression prec
    assignment_suc = refl

    pub expression_suc :
        parse_expression B (suc fuel) prs
        ≡ ((λ st. parse_assignment_expression B fuel st) >>= λ x. rhs B fuel x 1) prs
    unfolding parse_primary_expression prec
    expression_suc = refl

    pub unary_postfix :
        is_prefix (kind B prs) ≡ false
        → parse_unary_expression B (suc fuel) prs ≡ parse_postfix_expression B fuel prs
    unary_postfix e = unary_suc ∙ else_at _ _ prs e

    pub initializer_plain :
        is (kind B prs) Wanted.l_brace ≡ false
        → parse_initializer B (suc fuel) prs ≡ parse_assignment_expression B fuel prs
    initializer_plain e = rw (initializer_suc, e) refl

  pub unary_prefix :
      (fuel : ℕ) (es : Errors B) (sx : B.Syntax) (at : Location) (token : Token) (ts : Lexemes B)
      {x : B.Node} {to : Parser B}
      → is_prefix token ≡ true
      → parse_unary_expression B fuel (state B ts es sx) ≡ some (x, to)
      → parse_unary_expression B (suc fuel) (state B (plain at token ∷ ts) es sx)
        ≡ build B (B.build_unary_expression x (token_to_unary token).0 at) to
  unary_prefix fuel es sx at token ts e reads =
      unary_suc fuel (state B (plain at token ∷ ts) es sx)
      ∙ then_at _ _ (state B (plain at token ∷ ts) es sx) e
      ∙ bind_some (λ x. build B (B.build_unary_expression x (token_to_unary token).0 at))
          (λ st. parse_unary_expression B fuel st) reads
