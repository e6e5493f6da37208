-- ===== src/Compiler/Parser/Roundtrip/Correct.antt =====
-- Each function for the expressions of parser.c reads what the grammar writes for it.
use ru_c.Prelude.{
  ℕ, ◌+◌, ◌*◌, ◌≤◌, ◌≡◌, ◌≢◌, refl, inl, inr, Bool, true, false, Bool-cases, some, leb, ◌==◌, arith,
  not, ◌&&◌,
}
use ru_c.Compiler.Operations.{Token}
use ru_c.Compiler.Parser.State.{Location, Builder}
use ru_c.Compiler.Parser.Expression.{prec_of, parse_expression}
use ru_c.Compiler.Parser.Grammar.{
  Postfix, Operand, Expr, Inits, leaf, paren, subscript, call, call_with, member, step, of_postfix,
  prefix, of_operand, braces, binary, ternary, one, more, level, is_braced, is_initializer, IsExpr,
  IsInits, IsOperand, IsPostfix, show, size, node,
}
use ru_c.Compiler.Parser.Roundtrip.Rounds.{state, Lexemes, Errors}
use ru_c.Compiler.Parser.Roundtrip.Reads.{
  commas, IsBehind, PostfixReads, OperandReads, ExprReads, ListReads, InitializerReads, InitsReads,
}
use ru_c.Compiler.Parser.Roundtrip.Operators.{
  binary_reads, ternary_reads, comma_reads, assignment_alone, expression_reads, initializer_reads,
}
use ru_c.Compiler.Parser.Roundtrip.Operands.{
  leaf_reads, paren_reads, subscript_reads, call_reads, call_with_reads, member_reads, step_reads,
  of_postfix_reads, prefix_reads, of_operand_reads, braces_alone, braces_reads, one_reads,
  more_reads,
}

not_false : (a b : Bool) → (a && not b) ≡ true → b ≡ false
not_false true false e = refl
not_false true true e = absurd (ground arith)
not_false false b e = absurd (ground arith)

two_le : (p : ℕ) → 1 ≤ p → (p == 1) ≡ false → 2 ≤ p
two_le p pos e = ground arith

comma_alone : (p : ℕ) (b : Bool) → (p == 1) ≡ true → (leb 2 p && not b) ≢ true
comma_alone p b e shape = let low : leb 2 p ≡ false = ground arith in absurd (ground arith)

module _ (B : Builder) where
  abbrev AllReads : Expr B.Double → Type 0
  AllReads e = ExprReads B e × ListReads B e × InitializerReads B e

  -- An expression that is no list and begins with no brace stands everywhere.
  single :
      (e : Expr B.Double)
      → IsExpr e
      → ExprReads B e
      → 2 ≤ level e
      → commas e ≡ 0
      → (is_initializer e ≡ true → is_braced e ≡ false)
      → AllReads e
  single e ok reads le none_of bare = (
    reads,
    assignment_alone B e ok reads le none_of,
    λ rest es sx fuel enough shape behind.
        initializer_reads B e ok reads le (bare shape) rest es sx fuel enough shape behind,
  )

  binary_all :
      (l : Expr B.Double) (at : Location) (token : Token) (r : Expr B.Double)
      → IsExpr (binary l at token r)
      → AllReads l
      → AllReads r
      → AllReads (binary l at token r)
  unfolding IsPostfix
  binary_all l at token r ok on_l on_r =
      let reads = binary_reads B l r at token ok on_l.0 on_r.0 in
      elim (Bool-cases (prec_of token == 1)) [
        | inl e ↦ (
          reads,
          comma_reads B l r at token (ground arith) ok on_l.1 on_r.0,
          λ rest es sx fuel enough shape behind.
              absurd (comma_alone (prec_of token) (is_braced l) e shape),
        )
        | inr e ↦
            single (binary l at token r) ok reads (two_le (prec_of token) ok.0.0 e) (rw e refl)
              (not_false (leb 2 (prec_of token)) (is_braced l))
      ]

  mutual
    unfolding IsPostfix

    postfix_reads : (p : Postfix B.Double) → IsPostfix p → PostfixReads B p
    postfix_reads (leaf at v) ok = leaf_reads B at v
    postfix_reads (paren l e r) ok = paren_reads B l r e ok.0 (all_reads e ok.0).1 ok.1
    postfix_reads (subscript p l e r) ok =
        subscript_reads B p (postfix_reads p ok.0) l r e ok.1 (all_reads e ok.1).1 ok.2
    postfix_reads (call p l r) ok = call_reads B p (postfix_reads p ok) l r
    postfix_reads (call_with p l xs r) ok =
        call_with_reads B p (postfix_reads p ok.0) l r xs ok.1 (inits_reads xs ok.1)
    postfix_reads (member p b op n at) ok = member_reads B p (postfix_reads p ok) b op at n
    postfix_reads (step p b op) ok = step_reads B p (postfix_reads p ok) b op

    operand_reads : (u : Operand B.Double) → IsOperand u → OperandReads B u
    operand_reads (of_postfix p) ok = of_postfix_reads B p (postfix_reads p ok)
    operand_reads (prefix at token u) ok = prefix_reads B at token u ok.0 (operand_reads u ok.1)

    all_reads : (e : Expr B.Double) → IsExpr e → AllReads e
    all_reads (of_operand u) ok =
        single (of_operand u) ok (of_operand_reads B u ok (operand_reads u ok)) (omega arith) refl
          λ shape. refl
    all_reads (braces l xs r) ok = (
      braces_reads B l r xs ok (inits_reads xs ok),
      λ rest es sx u n f same enough plenty bare behind. absurd (ground arith),
      braces_alone B l r xs ok (inits_reads xs ok),
    )
    all_reads (binary l at token r) ok =
        binary_all l at token r ok (all_reads l ok.1) (all_reads r ok.2)
    all_reads (ternary l at mid colon r) ok =
        single (ternary l at mid colon r) ok
          (ternary_reads B l r at colon mid ok (all_reads l ok.0).0 (all_reads mid ok.1).2
            (all_reads r ok.2).0)
          (omega arith) refl (not_false true (is_braced l))

    inits_reads : (xs : Inits B.Double) → IsInits xs → InitsReads B xs
    inits_reads (one e) ok = one_reads B e ok.1 (all_reads e ok.0).2
    inits_reads (more e at xs) ok =
        more_reads B e at xs ok.1 (all_reads e ok.0).2 (inits_reads xs ok.2)

  -- An expression that the tables of the code allow and that begins with no brace, with a rest behind it
  -- that goes on with none: `parse_expression` makes the calls of the builder for it and leaves the rest.
  pub parse_expression_reads :
      (e : Expr B.Double)
      → IsExpr e
      → is_braced e ≡ false
      → (rest : Lexemes B) (es : Errors B) (sx : B.Syntax) (fuel : ℕ) → 8 * size e + 3 ≤ fuel
      → IsBehind B 1 rest
      → parse_expression B fuel (state B (show e rest) es sx)
        ≡ some ((node B e sx).0, state B rest es (node B e sx).1)
  parse_expression_reads e ok bare rest es sx fuel enough behind =
      expression_reads B e ok (all_reads e ok).1 bare rest es sx fuel enough behind
