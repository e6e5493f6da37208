-- ===== src/Macro/Expression.antt =====
-- Expressions, what they mean, and the calls by which `parse_expression` of libs/macro/parser.c
-- hands them to the computer: one call for each token and number, up to the first that fails, and
-- `computer_pop_result` at the end of a line where none fails. A line of names, of characters or of
-- `#eval` in it is not modelled here.
use ru_c.Prelude.{ℕ, ◌-◌, ◌≤◌, not, Bool, Option, none, some, List, [], ◌∷◌, ◌++◌, ◌==◌}
use ru_c.Prelude.Int.{ℤ, pos, negsuc}
use ru_c.Utils.Item.{Item, Size}
use ru_c.Macro.Token.{Token}
use ru_c.Macro.Arith.{Applied, select, complement, negation, truth}
use ru_c.Macro.Operators.{Run, done, ◌>>=◌, Computer}
use ru_c.Macro.Computer.{computer_push_token, computer_push_number, computer_pop_result}

-- What the reader of a line calls the computer with.
pub data Input : Type 0 where
  token : Size → Token → Input
  literal : Size → Item → Input

module _ (grant : ℕ → Bool) where
  unfoldable pub push_input : Input → Computer → Run (Computer × ℤ)
  push_input (token at tk) comp = computer_push_token grant comp at tk
  push_input (literal at num) comp = computer_push_number grant comp at num

  -- Up to the first call that does not return 0.
  unfoldable pub feed : List Input → Computer → Run (Computer × ℤ)
  feed [] comp = done (comp, pos 0)
  feed (i ∷ is) comp = push_input i comp >>= λ r. elim r.1 [
    | pos ℕ.zero ↦ feed is r.0
    | pos (ℕ.suc k) ↦ done r
    | negsuc k ↦ done r
  ]

  -- The value of a line of inputs, which are not none: what `computer_pop_result` returns at the end of
  -- the line, and 0 where a call failed.
  unfoldable pub evaluate : List Input → Computer → Run (Computer × Item)
  evaluate is comp = feed is comp >>= λ r. elim r.1 [
    | pos ℕ.zero ↦ computer_pop_result grant r.0
    | pos (ℕ.suc k) ↦ done (r.0, 0)
    | negsuc k ↦ done (r.0, 0)
  ]

-- The unary operators; `not` is `!`.
pub data Prefix : Type 0 where
  plus minus tilde exclaim : Prefix

-- An operand with unary operators, each with its position; an expression in parentheses; a binary
-- operator between two expressions. A position stands before what is read there.
pub data Expr : Type 0 where
  operand : List (Size × Prefix) → Size → Item → Expr
  paren : Size → Expr → Size → Expr
  binary : Size → Token → Expr → Expr → Expr

abbrev pub prefix_token : Prefix → Token
prefix_token plus = Token.add
prefix_token minus = Token.sub
prefix_token tilde = Token.compl
prefix_token exclaim = Token.not

abbrev pub print_prefixes : List (Size × Prefix) → List Input
print_prefixes [] = []
print_prefixes ((at, p) ∷ ps) = token at (prefix_token p) ∷ print_prefixes ps

-- The inputs as which an expression is read.
unfoldable pub print : Expr → List Input
print (operand ps at num) = print_prefixes ps ++ literal at num ∷ []
print (paren from e to) = token from Token.l_bound ∷ (print e ++ token to Token.r_bound ∷ [])
print (binary at op l r) = print l ++ (token at op ∷ print r)

-- The levels of the C grammar, from the multiplicative operators (1) to the logical or (10).
abbrev pub level : Token → ℕ
level Token.mult = 1
level Token.div = 1
level Token.rem = 1
level Token.add = 2
level Token.sub = 2
level Token.l_shift = 3
level Token.r_shift = 3
level Token.less = 4
level Token.greater = 4
level Token.less_eq = 4
level Token.greater_eq = 4
level Token.eq = 5
level Token.not_eq = 5
level Token.bit_and = 6
level Token.xor = 7
level Token.bit_or = 8
level Token.and = 9
level Token.or = 10
level _ = 11

-- The expression is one of the grammar's level `k`: its operators are binary ones that need no more
-- parentheses, and associate to the left.
abbrev pub IsLevel : ℕ → Expr → Type 0
IsLevel k (operand ps at num) = Unit {0}
IsLevel k (paren from e to) = IsLevel 10 e
IsLevel k (binary at op l r) =
    (level op ≤ k) × (level op ≤ 10) × IsLevel (level op) l × IsLevel (level op - 1) r

-- What a unary operator means in C. `none` is undefined behaviour.
abbrev pub prefix_value : Prefix → Item → Option Item
prefix_value plus num = some num
prefix_value minus num = negation num
prefix_value tilde num = some (complement num)
prefix_value exclaim num = some (truth (num == 0))

-- What the computer makes of it.
abbrev pub prefix_computed : Prefix → Item → Option Item
prefix_computed plus num = some num
prefix_computed minus num = negation num
prefix_computed tilde num = some (complement num)
prefix_computed exclaim num = some (truth (not (num == 0)))

-- A binary operator on operands that may have no value.
abbrev pub apply_binary : Token → Option Item → Option Item → Option Item
apply_binary op none r = none
apply_binary op (some a) none = none
apply_binary op (some a) (some b) = elim (select (some op) a b) [
  | Applied.value v ↦ some v
  | _ ↦ none
]

module _ (meaning : Prefix → Item → Option Item) where
  unfoldable pub eval_prefixes : List (Size × Prefix) → Item → Option Item
  eval_prefixes [] num = some num
  eval_prefixes ((at, p) ∷ ps) num = elim (eval_prefixes ps num) [
    | none ↦ none
    | some n ↦ meaning p n
  ]

  -- The value of an expression of which every operand is evaluated, as the computer does it, those of
  -- `&&` and `||` too; `none` where one of them is undefined in C.
  unfoldable pub eval : Expr → Option Item
  eval (operand ps at num) = eval_prefixes ps num
  eval (paren from e to) = eval e
  eval (binary at op l r) = apply_binary op (eval l) (eval r)
