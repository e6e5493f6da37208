-- ===== src/Compiler/Lexer/Number.antt =====
-- `lex_numeric_literal` of libs/compiler/lexer.c. The arithmetic of doubles is a parameter.
use ru_c.Prelude.{
  ℕ, zero, suc, ◌+◌, ◌*◌, ◌%◌, ◌^◌, Bool, true, false, not, ◌&&◌, ◌||◌, List, [], ◌∷◌, leb, ◌==◌,
  if◌then◌else◌,
}
use ru_c.Utils.Item.{Size}
use ru_c.Utils.Utf8.Letters.{
  utf8_is_digit, utf8_is_hexa_digit, utf8_is_letter, utf8_is_power, utf8_to_number,
}
use ru_c.Compiler.Lexer.Source.{
  character, scan, position, Message, Lexeme, token_int_literal, token_float_literal,
  digit_of_another_base, exponent_has_no_digits, too_long_int,
}

-- The type double, `0.0`, `0.1`, `10.0` and `DBL_MAX`, the conversion of an integer, and what is
-- computed with them.
pub record Floating : Type 1 where
  pub Double : Type 0
  pub zero_point : Double
  pub tenth : Double
  pub ten : Double
  pub dbl_max : Double
  pub of_integer : ℕ → Double
  pub add : Double → Double → Double
  pub mul : Double → Double → Double
  pub pow : Double → Double → Double
  pub negate : Double → Double

-- The base, whether there was a modifier, and the text behind the prefix.
unfoldable pub number_prefix : List ℕ → ℕ × Bool × List ℕ
number_prefix text =
    let next = scan text in
    let c = character next in
    if character text == b'0'
    then (if c == b'x' || c == b'X'
        then (16, true, scan next)
        else (if c == b'd' || c == b'D'
            then (10, true, scan next)
            else (if c == b'o' || c == b'O'
                then (8, true, scan next)
                else (if c == b'b' || c == b'B' then (2, true, scan next) else (10, false, next)))))
    else (10, false, text)

unfoldable pub skip_digits : List ℕ → List ℕ
skip_digits [] = []
skip_digits (c ∷ text) = if utf8_is_hexa_digit c then skip_digits text else c ∷ text

-- What is skipped behind an exponent without digits.
unfoldable pub skip_exponent : List ℕ → List ℕ
skip_exponent [] = []
skip_exponent (c ∷ text) =
    if utf8_is_letter c || utf8_is_digit c || c == b'+' || c == b'-'
    then skip_exponent text
    else c ∷ text

-- A power past 2 ^ 63 - 1 is undefined in C, and read to its end here.
unfoldable pub exponent_loop : List ℕ → ℕ → List ℕ × ℕ
exponent_loop [] power = ([], power)
exponent_loop (c ∷ text) power =
    if utf8_is_digit c
    then exponent_loop text (power * 10 + utf8_to_number c)
    else (c ∷ text, power)

-- `int_value *= 10`, so many times
unfoldable pub times_ten : ℕ → ℕ → ℕ
times_ten zero value = value
times_ten (suc n) value = times_ten n (value * 10 % 2 ^ 64)

module _ (F : Floating) where
  open F use {Double, zero_point, tenth, ten, dbl_max, of_integer, add, mul, pow, negate}

  -- The variables of the value.
  pub record Value : Type 0 where
    pub integer : ℕ
    pub float : Double
    pub is_in_range : Bool
    pub is_integer : Bool

  -- Whether one more digit is too many.
  abbrev pub is_full : ℕ → ℕ → Bool
  is_full base value =
      base == 2 && leb 0x8000000000000000 value
      || base == 8 && leb 0x2000000000000000 value
      || leb 0x1000000000000000 value

  unfoldable pub add_digit : ℕ → ℕ → Value → Value
  add_digit base digit v =
      let v' : Value =
        if is_full base v.integer
        then record v { float = of_integer v.integer; is_in_range = false; is_integer = false }
        else v in
      if v'.is_integer
      then record v' { integer = (v'.integer * base + digit) % 2 ^ 64 }
      else record v' { float = add (mul v'.float (of_integer base)) (of_integer digit) }

  -- The loop over the digits; the flag tells that it met a digit of another base.
  unfoldable pub digits_loop : ℕ → Bool → List ℕ → Value → Bool × List ℕ × Value
  digits_loop base was_modifier [] v = (false, [], v)
  digits_loop base was_modifier (c ∷ text) v =
      let digit = utf8_to_number c in
      let next = digits_loop base was_modifier text (add_digit base digit v) in
      if not (utf8_is_hexa_digit c) || not was_modifier && utf8_is_power c
      then (false, c ∷ text, v)
      else (if leb base digit then (true, c ∷ text, v) else next)

  unfoldable pub fraction_loop : List ℕ → Double → Double → List ℕ × Double
  fraction_loop [] float position_mult = ([], float)
  fraction_loop (c ∷ text) float position_mult =
      if utf8_is_digit c
      then fraction_loop text (add float (mul (of_integer (utf8_to_number c)) position_mult))
          (mul position_mult tenth)
      else (c ∷ text, float)

  -- `float_value = (double)int_value`, where the number was an integer until here.
  abbrev pub to_float : Value → Value
  to_float v =
      if v.is_integer then record v { float = of_integer v.integer; is_integer = false } else v

  unfoldable pub fraction : Bool → List ℕ → Value → List ℕ × Value
  fraction was_modifier text v =
      let v' = to_float v in
      let (text', float) = fraction_loop (scan text) v'.float tenth in
      if character text == b'.' && not was_modifier
      then (text', record v' { float = float })
      else (text, v)

  -- The sign of the power: whether it is negative, the text behind it, and the value.
  unfoldable pub exponent_sign : List ℕ → Value → Bool × List ℕ × Value
  exponent_sign text v =
      if character text == b'-'
      then (true, scan text, to_float v)
      else (if character text == b'+' then (false, scan text, v) else (false, text, v))

  unfoldable pub raise : Bool → ℕ → Value → Value
  raise negative power v =
      let magnitude = of_integer power in
      record v {
        integer = if v.is_integer then times_ten power v.integer else v.integer;
        float = mul v.float (pow ten (if negative then negate magnitude else magnitude));
      }

  -- The exponent; the flag tells that it has no digits.
  unfoldable pub exponent : Bool → List ℕ → Value → Bool × List ℕ × Value
  exponent was_modifier text v =
      let (negative, text', v') = exponent_sign (scan text) v in
      let (text'', power) = exponent_loop text' 0 in
      if utf8_is_power (character text) && not was_modifier
      then (if utf8_is_digit (character text')
          then (false, text'', raise negative power v')
          else (true, text', v'))
      else (false, text, v)

  -- The token, the text behind it and the messages.
  unfoldable pub lex_numeric_literal : Size → List ℕ → Lexeme Double × List ℕ × List Message
  lex_numeric_literal total text =
      let from = position total text in
      let (base, was_modifier, behind) = number_prefix text in
      let start : Value = record {
        integer = 0;
        float = zero_point;
        is_in_range = true;
        is_integer = true;
      } in
      let (wrong, text₁, v₁) = digits_loop base was_modifier behind start in
      let skipped = skip_digits text₁ in
      let (text₂, v₂) = fraction was_modifier text₁ v₁ in
      let (no_digits, text₃, v₃) = exponent was_modifier text₂ v₂ in
      let rest = skip_exponent text₃ in
      let to = position total text₃ in
      if wrong
      then (
        token_int_literal from (position total skipped) v₁.integer,
        skipped,
        (position total text₁, digit_of_another_base) ∷ [],
      )
      else (if no_digits
          then (
            token_float_literal from (position total rest) dbl_max,
            rest,
            (position total text₃, exponent_has_no_digits) ∷ [],
          )
          else (if v₃.is_integer then (token_int_literal from to v₃.integer, text₃, []) else (
            token_float_literal from to v₃.float,
            text₃,
            if v₃.is_in_range then [] else (to, too_long_int) ∷ [],
          )))
