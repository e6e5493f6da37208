-- ===== src/Compiler/Lexer/Names.antt =====
-- The symbols of names and numbers in lexer.c.
use ru_c.Prelude.{
  ℕ, ◌+◌, ◌<◌, ◌≡◌, refl, true, false, ◌||◌, List, [], ◌∷◌, ◌++◌, Bool-cases, inl, inr, ==_iff,
  ◌==◌, arith,
}
use ru_c.Utils.Utf8.Letters.{utf8_is_digit, utf8_is_letter, utf8_is_russian}
use ru_c.Compiler.Lexer.Source.{skip_whitespace}
use ru_c.Compiler.Lexer.Switch.{word, numeric, case_at, read_name}

-- The symbols behind the first of a name.
abbrev pub IsNameRest : List ℕ → Type 0
IsNameRest [] = Unit {0}
IsNameRest (c ∷ cs) = ((utf8_is_letter c || utf8_is_digit c) ≡ true) × IsNameRest cs

pub read_name-space :
    (cs rest : List ℕ) → IsNameRest cs → read_name (cs ++ b' ' ∷ rest) ≡ (cs, b' ' ∷ rest)
unfolding read_name
read_name-space [] rest h = unfold utf8_is_letter utf8_is_russian utf8_is_digit in refl
read_name-space (c ∷ cs) rest (h, hs) = rw (h, read_name-space cs rest hs)

letter_ne : (c k : ℕ) → utf8_is_letter c ≡ true → utf8_is_letter k ≡ false → (c == k) ≡ false
letter_ne c k h other = elim (Bool-cases (c == k)) [
  | inr e ↦ e
  | inl e ↦ let same : c ≡ k = (==_iff c k).0 e in cc (rw same at h)
]

letter_not_digit : (c : ℕ) → utf8_is_letter c ≡ true → utf8_is_digit c ≡ false
unfolding utf8_is_letter utf8_is_russian utf8_is_digit
letter_not_digit c h = ground arith

-- A letter is none of the symbols of the `switch`.
pub case_at-letter : (c : ℕ) (next : List ℕ) → utf8_is_letter c ≡ true → case_at c next ≡ word
unfolding case_at utf8_is_letter utf8_is_russian
case_at-letter c next h =
    let ne = λ (k : ℕ) (other : utf8_is_letter k ≡ false). letter_ne c k h other in
    rw (
      letter_not_digit c h,
      ne b'\'' refl,
      ne b'"' refl,
      ne b'?' refl,
      ne b'[' refl,
      ne b']' refl,
      ne b'(' refl,
      ne b')' refl,
      ne b'{' refl,
      ne b'}' refl,
      ne b'~' refl,
      ne b':' refl,
      ne b';' refl,
      ne b',' refl,
      ne b'.' refl,
      ne b'*' refl,
      ne b'!' refl,
      ne b'%' refl,
      ne b'^' refl,
      ne b'=' refl,
      ne b'+' refl,
      ne b'|' refl,
      ne b'&' refl,
      ne b'-' refl,
      ne b'<' refl,
      ne b'>' refl,
      ne b'/' refl,
      h,
    )

pub letter_space :
    (c : ℕ) (rest : List ℕ) → utf8_is_letter c ≡ true → skip_whitespace (c ∷ rest) ≡ c ∷ rest
unfolding utf8_is_letter utf8_is_russian skip_whitespace
letter_space c rest h = ground arith

pub digit_space :
    (d : ℕ) (rest : List ℕ) → d < 10 → skip_whitespace ((d + b'0') ∷ rest) ≡ (d + b'0') ∷ rest
unfolding skip_whitespace
digit_space d rest h = ground arith

pub case_at-digit : (d : ℕ) (next : List ℕ) → d < 10 → case_at (d + b'0') next ≡ numeric
unfolding case_at utf8_is_digit
case_at-digit d next h = ground arith
