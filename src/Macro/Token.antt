-- ===== src/Macro/Token.antt =====
-- `token_t` of libs/macro/computer.h, and its conversions.
use Prim.Native.String.{String}
use ru_c.Prelude.{ℕ, ◌%◌, ◌^◌, ◌≡◌, refl, Option, none, some, List, [], ◌∷◌, get_elem?}
use ru_c.Utils.Item.{Item}

-- In the order of the enumeration. `rem` is TK_MOD.
pub data Token : Type 0 where
  l_bound r_bound compl not u_negation u_plus mult div rem add sub l_shift r_shift less greater :
      Token
  less_eq greater_eq eq not_eq bit_and xor bit_or and or : Token

-- The value of the enumeration, as it is pushed onto the operators stack.
abbrev pub code : Token → Item
code l_bound = 0
code r_bound = 1
code compl = 2
code not = 3
code u_negation = 4
code u_plus = 5
code mult = 6
code div = 7
code rem = 8
code add = 9
code sub = 10
code l_shift = 11
code r_shift = 12
code less = 13
code greater = 14
code less_eq = 15
code greater_eq = 16
code eq = 17
code not_eq = 18
code bit_and = 19
code xor = 20
code bit_or = 21
code and = 22
code or = 23

abbrev pub tokens : List Token
tokens =
    l_bound ∷ r_bound ∷ compl ∷ not ∷ u_negation ∷ u_plus ∷ mult ∷ div ∷ rem ∷ add ∷ sub ∷ l_shift
    ∷ r_shift ∷ less ∷ greater ∷ less_eq ∷ greater_eq ∷ eq ∷ not_eq ∷ bit_and ∷ xor ∷ bit_or ∷ and
    ∷ or ∷ []

-- The case of a `switch` on an `item_t` that the item takes; `none` is its `default`.
unfoldable pub token_of_item : Item → Option Token
token_of_item w = get_elem? tokens w

-- The same for a `token_t` that is initialised with the item: an unsigned int of 32 bits.
unfoldable pub cast_token : Item → Option Token
unfolding token_of_item
cast_token w = token_of_item (w % 2 ^ 32)

pub token_of_item-code : (t : Token) → token_of_item (code t) ≡ some t
unfolding token_of_item
token_of_item-code l_bound = refl
token_of_item-code _ = refl

pub cast_token-code : (t : Token) → cast_token (code t) ≡ some t
unfolding cast_token
cast_token-code l_bound = refl
cast_token-code _ = refl

-- The argument of an error message: a text, a character (40 is `(` and 41 is `)`), the digits that
-- `sprintf` writes for a number, or a buffer that nothing was written to.
pub data Spelling : Type 0 where
  text : String → Spelling
  character : ℕ → Spelling
  number : Item → Spelling
  unset : Spelling

unfoldable pub spelling : Token → String
spelling l_bound = "("
spelling r_bound = ")"
spelling compl = "~"
spelling not = "!"
spelling u_negation = "-"
spelling sub = "-"
spelling u_plus = "+"
spelling add = "+"
spelling mult = "*"
spelling div = "/"
spelling rem = "%"
spelling l_shift = "<<"
spelling r_shift = ">>"
spelling less = "<"
spelling greater = ">"
spelling less_eq = "<="
spelling greater_eq = ">="
spelling eq = "=="
spelling not_eq = "!="
spelling bit_and = "&"
spelling xor = "^"
spelling bit_or = "|"
spelling and = "&&"
spelling or = "||"

-- The token is read from the operators stack.
unfoldable pub computer_token_to_string : Option Token → Spelling
unfolding spelling
computer_token_to_string none = unset
computer_token_to_string (some t) = text (spelling t)
