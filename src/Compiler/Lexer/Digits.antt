-- ===== src/Compiler/Lexer/Digits.antt =====
-- The value of a numeric literal.
use ru_c.Prelude.{ℕ, ◌+◌, ◌*◌, ◌^◌, ◌<◌, ◌≡◌, ◌⊎◌, sym, ◌∙◌, ap, true, false, arith, inl, inr}
use ru_c.Compiler.Lexer.Number.{Floating, Value, is_full, add_digit}

-- The bases that a literal can have.
abbrev pub IsBase : ℕ → Type 0
IsBase base = (base ≡ 2) ⊎ ((base ≡ 8) ⊎ ((base ≡ 10) ⊎ (base ≡ 16)))

module _ (F : Floating) where
  -- As long as a literal in base 2, 8, 10 or 16 stays an integer, one more digit below the base does
  -- not wrap: the new value is the exact one, and fits 64 bits.
  pub add_digit_bounds :
      (base digit : ℕ) (v : Value F)
      → IsBase base
      → digit < base
      → (add_digit F base digit v).is_integer ≡ true
      → ((add_digit F base digit v).integer ≡ v.integer * base + digit)
        × (v.integer * base + digit < 2 ^ 64)
  unfolding add_digit
  add_digit_bounds base digit v (inl b) h int = ground arith
  add_digit_bounds base digit v (inr (inl b)) h int = ground arith
  add_digit_bounds base digit v (inr (inr (inl b))) h int = ground arith
  add_digit_bounds base digit v (inr (inr (inr b))) h int = ground arith

  add_digit_full :
      (base digit : ℕ) (v : Value F)
      → is_full F base v.integer ≡ true
      → add_digit F base digit v ≡ record {
        integer = v.integer;
        float = F.add (F.mul (F.of_integer v.integer) (F.of_integer base)) (F.of_integer digit);
        is_in_range = false;
        is_integer = false;
      }
  unfolding add_digit
  add_digit_full base digit v full = ground arith

  -- Where the integer is full, a digit that is not the last has no effect on the value.
  pub add_digit-add_digit :
      (base first second : ℕ) (v : Value F)
      → is_full F base v.integer ≡ true
      → add_digit F base second (add_digit F base first v) ≡ add_digit F base second v
  add_digit-add_digit base first second v full =
      let once = add_digit_full base first v full in
      let kept : (add_digit F base first v).integer ≡ v.integer = ap (λ w. w.integer) once in
      let again = add_digit_full base second (add_digit F base first v) (rw kept full) in
      again ∙ rw kept (sym (add_digit_full base second v full))
