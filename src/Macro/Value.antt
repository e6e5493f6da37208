-- ===== src/Macro/Value.antt =====
-- The value of an expression in C, and what evaluates every operand.
use ru_c.Prelude.{◌≡◌, refl, not, Option, none, some, ◌==◌, if◌then◌else◌, arith}
use ru_c.Utils.Item.{Item}
use ru_c.Macro.Token.{Token}
use ru_c.Macro.Arith.{select, truth}
use ru_c.Macro.Expression.{
  Expr, operand, paren, binary, prefix_value, apply_binary, eval_prefixes, eval,
}

-- The truth value of a right operand.
abbrev logical : Option Item → Option Item
logical none = none
logical (some b) = some (truth (not (b == 0)))

-- `&&` and `||` leave the right operand out where the left one tells the result.
abbrev and_value : Option Item → Option Item → Option Item
and_value none r = none
and_value (some a) r = if a == 0 then some 0 else logical r

abbrev or_value : Option Item → Option Item → Option Item
or_value none r = none
or_value (some a) r = if a == 0 then logical r else some 1

abbrev c_binary : Token → Option Item → Option Item → Option Item
c_binary Token.and l r = and_value l r
c_binary Token.or l r = or_value l r
c_binary op l r = apply_binary op l r

-- The value of an expression in C; `none` where C leaves it undefined.
unfoldable pub c_value : Expr → Option Item
unfolding eval_prefixes
c_value (operand ps at num) = eval_prefixes prefix_value ps num
c_value (paren from e to) = c_value e
c_value (binary at op l r) = c_binary op (c_value l) (c_value r)

c_binary-apply_binary :
    (op : Token) (a b : Item) (v : Item)
    → apply_binary op (some a) (some b) ≡ some v
    → c_binary op (some a) (some b) ≡ some v
unfolding select
c_binary-apply_binary Token.and a b v e = ground arith
c_binary-apply_binary Token.or a b v e = ground arith
c_binary-apply_binary _ a b v e = e

both :
    (op : Token) (l r l' r' : Option Item) (v : Item)
    → ((w : Item) → l ≡ some w → l' ≡ some w)
    → ((w : Item) → r ≡ some w → r' ≡ some w)
    → apply_binary op l r ≡ some v
    → c_binary op l' r' ≡ some v
both op none r l' r' v on_l on_r e = absurd (ground arith)
both op (some a) none l' r' v on_l on_r e = absurd (ground arith)
both op (some a) (some b) l' r' v on_l on_r e =
    rw (on_l a refl, on_r b refl) (c_binary-apply_binary op a b v e)

-- Where every operand has a value, the expression has the same in C.
pub c_value-eval : (e : Expr) (v : Item) → eval prefix_value e ≡ some v → c_value e ≡ some v
unfolding eval c_value
c_value-eval (operand ps at num) v ev = ev
c_value-eval (paren from e to) v ev = c_value-eval e v ev
c_value-eval (binary at op l r) v ev =
    both op (eval prefix_value l) (eval prefix_value r) (c_value l) (c_value r) v (c_value-eval l)
      (c_value-eval r) ev
