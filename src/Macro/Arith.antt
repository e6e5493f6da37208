-- ===== src/Macro/Arith.antt =====
-- The operators of libs/macro/computer.c on items of type int64_t.
-- What C leaves undefined (a signed overflow, a division by zero, a shift by a negative count or by
-- 64 and more, a left shift of a negative number) has no value here. `>>` of a negative number keeps
-- its sign, as the supported compilers do.
use ru_c.Prelude.{
  ◌-◌, ◌*◌, ◌/◌, ◌^◌, Bool, not, ◌&&◌, ◌||◌, Option, none, some, ltb, leb, ◌==◌, if◌then◌else◌,
  bit_and, bit_or, bit_xor,
}
use ru_c.Prelude.Int.{pos, ◌+ℤ◌, ◌-ℤ◌, ◌*ℤ◌, ◌/ℤ◌, ◌%ℤ◌, ltb_ℤ, leb_ℤ}
use ru_c.Utils.Item.{Item, to_int, of_int}
use ru_c.Macro.Token.{Token}

-- What `computer_select_three` finds for its operator and two numbers.
pub data Applied : Type 0 where
  value : Item → Applied
  undefined : Applied
  no_operator : Applied

abbrev pub of_Option : Option Item → Applied
of_Option none = undefined
of_Option (some v) = value v

abbrev pub truth : Bool → Item
truth b = if b then 1 else 0

unfoldable pub divide : Item → Item → Option Item
divide a b = if b == 0 then none else of_int (to_int a /ℤ to_int b)

-- The remainder is undefined wherever the quotient is.
unfoldable pub remainder : Item → Item → Option Item
unfolding divide
remainder a b = elim (divide a b) [ none ↦ none | some q ↦ of_int (to_int a %ℤ to_int b) ]

unfoldable pub shift_left : Item → Item → Option Item
shift_left a b =
    if leb 64 b || leb (2 ^ 63) a
    then none
    else (if ltb (a * 2 ^ b) (2 ^ 63) then some (a * 2 ^ b) else none)

unfoldable pub shift_right : Item → Item → Option Item
shift_right a b =
    if leb 64 b
    then none
    else some (if ltb a (2 ^ 63) then a / 2 ^ b else 2 ^ 64 - 1 - (2 ^ 64 - 1 - a) / 2 ^ b)

-- The `switch` of `computer_select_three`.
unfoldable pub select : Option Token → Item → Item → Applied
unfolding remainder shift_left shift_right
select none a b = no_operator
select (some Token.mult) a b = of_Option (of_int (to_int a *ℤ to_int b))
select (some Token.div) a b = of_Option (divide a b)
select (some Token.rem) a b = of_Option (remainder a b)
select (some Token.add) a b = of_Option (of_int (to_int a +ℤ to_int b))
select (some Token.sub) a b = of_Option (of_int (to_int a -ℤ to_int b))
select (some Token.l_shift) a b = of_Option (shift_left a b)
select (some Token.r_shift) a b = of_Option (shift_right a b)
select (some Token.less) a b = value (truth (ltb_ℤ (to_int a) (to_int b)))
select (some Token.greater) a b = value (truth (ltb_ℤ (to_int b) (to_int a)))
select (some Token.less_eq) a b = value (truth (leb_ℤ (to_int a) (to_int b)))
select (some Token.greater_eq) a b = value (truth (leb_ℤ (to_int b) (to_int a)))
select (some Token.eq) a b = value (truth (a == b))
select (some Token.not_eq) a b = value (truth (not (a == b)))
select (some Token.bit_and) a b = value (bit_and a b)
select (some Token.xor) a b = value (bit_xor a b)
select (some Token.bit_or) a b = value (bit_or a b)
select (some Token.and) a b = value (truth (not (a == 0) && not (b == 0)))
select (some Token.or) a b = value (truth (not (a == 0) || not (b == 0)))
select (some _) a b = no_operator

-- The unary operators, as `computer_const_number` applies them.
unfoldable pub complement : Item → Item
complement num = 2 ^ 64 - 1 - num

unfoldable pub negation : Item → Option Item
negation num = of_int (pos 0 -ℤ to_int num)
