-- ===== src/Compiler/Lexer/Decimal.antt =====
-- Decimal integer literals.
use ru_c.Prelude.{
  ℕ, zero, suc, ◌+◌, ◌*◌, ◌≤◌, ◌<◌, ◌≡◌, refl, true, false, List, [], ◌∷◌, ◌++◌, leb, arith,
}
use ru_c.Utils.Item.{Size}
use ru_c.Utils.Utf8.Letters.{utf8_is_digit, utf8_is_hexa_digit, utf8_is_power, utf8_to_number}
use ru_c.Compiler.Lexer.Source.{position, token_int_literal}
use ru_c.Compiler.Lexer.Number.{
  Floating, Value, add_digit, number_prefix, digits_loop, fraction, exponent, lex_numeric_literal,
}

abbrev pub IsDigits : List ℕ → Type 0
IsDigits [] = Unit {0}
IsDigits (d ∷ ds) = (d < 10) × IsDigits ds

-- The symbols of decimal digits.
abbrev pub symbols : List ℕ → List ℕ
symbols [] = []
symbols (d ∷ ds) = (d + b'0') ∷ symbols ds

-- Their value, behind digits of the value `n`.
abbrev pub value : ℕ → List ℕ → ℕ
value n [] = n
value n (d ∷ ds) = value (n * 10 + d) ds

-- Above it a decimal literal is a double.
abbrev pub integer_bound : ℕ
integer_bound = 0xA000000000000000

value_ge : (n : ℕ) (ds : List ℕ) → n ≤ value n ds
value_ge n [] = omega arith
value_ge n (d ∷ ds) = omega (arith, value_ge (n * 10 + d) ds)

module _ (F : Floating) (rest : List ℕ) where
  add_digit_small :
      (d : ℕ) (v : Value F)
      → d < 10
      → v.is_integer ≡ true
      → v.integer * 10 + d < integer_bound
      → add_digit F 10 d v ≡ record v { integer = v.integer * 10 + d }
  unfolding add_digit
  add_digit_small d v h int bound = ground arith

  digit_symbol :
      (d : ℕ)
      → d < 10
      → (utf8_is_hexa_digit (d + b'0') ≡ true)
        × (utf8_is_power (d + b'0') ≡ false)
        × (utf8_to_number (d + b'0') ≡ d)
        × (leb 10 d ≡ false)
  unfolding utf8_is_hexa_digit utf8_is_digit utf8_is_power utf8_to_number
  digit_symbol d h = (ground arith, ground arith, ground arith, ground arith)

  digits_loop-symbols :
      (ds : List ℕ) (v : Value F)
      → IsDigits ds
      → v.is_integer ≡ true
      → value v.integer ds < integer_bound
      → digits_loop F 10 false (symbols ds ++ b' ' ∷ rest) v
        ≡ (false, b' ' ∷ rest, record v { integer = value v.integer ds })
  unfolding digits_loop
  digits_loop-symbols [] v digits int bound = unfold utf8_is_hexa_digit utf8_is_digit in refl
  digits_loop-symbols (d ∷ ds) v (h, digits) int bound =
      let (hexa, power, number, small) = digit_symbol d h in
      let step = add_digit_small d v h int (omega (arith, value_ge (v.integer * 10 + d) ds)) in
      rw (hexa, power, number, small, step)
        (digits_loop-symbols ds (record v { integer = v.integer * 10 + d }) digits int bound)

  -- The prefix is a leading zero or nothing.
  number_prefix-symbols :
      (d : ℕ) (ds : List ℕ)
      → d < 10
      → IsDigits ds
      → (es : List ℕ) × (number_prefix (symbols (d ∷ ds) ++ b' ' ∷ rest)
          ≡ (10, false, symbols es ++ b' ' ∷ rest))
        × IsDigits es
        × (value 0 es ≡ value 0 (d ∷ ds))
  unfolding number_prefix
  number_prefix-symbols zero [] h digits = ([], refl, tt, refl)
  number_prefix-symbols zero (e ∷ ds) h digits = (e ∷ ds, ground arith, digits, refl)
  number_prefix-symbols (suc d) ds h digits = (suc d ∷ ds, ground arith, (h, digits), refl)

  -- A decimal literal below the bound, with a space behind it, is an integer literal of its value.
  pub lex_numeric_literal-symbols :
      (total : Size) (d : ℕ) (ds : List ℕ)
      → d < 10
      → IsDigits ds
      → value 0 (d ∷ ds) < integer_bound
      → let text = symbols (d ∷ ds) ++ b' ' ∷ rest in
        lex_numeric_literal F total text ≡ (
          token_int_literal (position total text) (position total (b' ' ∷ rest)) (value 0 (d ∷ ds)),
          b' ' ∷ rest,
          [],
        )
  unfolding lex_numeric_literal fraction exponent utf8_is_power
  lex_numeric_literal-symbols total d ds h digits bound =
      let (es, prefix, all, same) = number_prefix-symbols d ds h digits in
      let start : Value F = record {
        integer = 0;
        float = F.zero_point;
        is_in_range = true;
        is_integer = true;
      } in
      let loop = digits_loop-symbols es start all refl (rw same bound) in rw (prefix, loop, same)
