-- ===== src/Utils/Utf8/Roundtrip.antt =====
-- Bytes and symbols there and back, in utf8.c.
use ru_c.Prelude.{
  ℕ, zero, suc, ◌-◌, ◌≤◌, ◌<◌, ◌≡◌, ◌≢◌, refl, Bool, true, ◌&&◌, ◌||◌, List, [], ◌∷◌, ◌++◌, leb,
  ◌==◌, length, length-append, arith,
}
use ru_c.Utils.Utf8.Codepages.{
  case_of, char32_from_cp866, char32_from_cp1251, char_to_cp866, char_to_cp1251,
}
use ru_c.Utils.Utf8.Encoding.{
  utf8_size, utf8_symbol_size, symbol_length, drop, first_bits, convert_loop, utf8_convert,
  octets_loop, write_octets, mark_first, utf8_to_string,
}
use ru_c.Utils.Utf8.Conversion.{
  utf8_from_codepage, to_codepage_loop, utf8_to_codepage, utf8_from_cp866, utf8_from_cp1251,
  utf8_to_cp866, utf8_to_cp1251,
}

-- Whether a test holds for each number below a bound.
unfoldable pub holds_below : ℕ → (ℕ → Bool) → Bool
holds_below zero p = true
holds_below (suc n) p = p n && holds_below n p

pub holds_below-every : (n : ℕ) (p : ℕ → Bool) (x : ℕ) → holds_below n p ≡ true → x < n → p x ≡ true
unfolding holds_below
holds_below-every zero p x h lt = absurd (omega arith)
holds_below-every (suc n) p x h lt = ground (arith, holds_below-every n p x)

program : Unit {0}
unfolding case_of char32_from_cp866 char32_from_cp1251 char_to_cp866 char_to_cp1251 utf8_size
    utf8_symbol_size symbol_length first_bits convert_loop utf8_convert octets_loop write_octets
    mark_first utf8_to_string holds_below
program = tt

-- The bytes of the symbol lead back to it, and their number is the one that the first byte tells.
abbrev pub IsEncoded : ℕ → Type 0
IsEncoded symbol =
    (utf8_convert (utf8_to_string symbol) ≡ symbol)
    × (symbol_length (utf8_to_string symbol) ≡ length (utf8_to_string symbol))
    × (1 ≤ length (utf8_to_string symbol))

abbrev pub encodes : ℕ → Bool
encodes symbol =
    let e = utf8_to_string symbol in
    utf8_convert e == symbol && symbol_length e == length e && leb 1 (length e)

pub encodes-IsEncoded : (symbol : ℕ) → encodes symbol ≡ true → IsEncoded symbol
encodes-IsEncoded symbol h = (ground arith, ground arith, ground arith)

convert_loop-append :
    (n r : ℕ) (e rest : List ℕ) → n ≤ length e → convert_loop n r (e ++ rest) ≡ convert_loop n r e
unfolding convert_loop
convert_loop-append zero r e rest h = refl
convert_loop-append (suc n) r [] rest h = absurd (omega arith)
convert_loop-append (suc n) r (c ∷ e) rest h = convert_loop-append n _ e rest (omega arith)

utf8_convert-append :
    (e rest : List ℕ)
    → symbol_length e ≡ length e
    → 1 ≤ length e
    → utf8_convert (e ++ rest) ≡ utf8_convert e
unfolding utf8_convert symbol_length
utf8_convert-append [] rest h nonempty = absurd (omega arith)
utf8_convert-append (c ∷ e) rest h nonempty =
    convert_loop-append (utf8_symbol_size c - 1) (first_bits (utf8_symbol_size c) c) e rest
      (omega arith)

symbol_length-append :
    (e rest : List ℕ) → 1 ≤ length e → symbol_length (e ++ rest) ≡ symbol_length e
unfolding symbol_length
symbol_length-append [] rest nonempty = absurd (omega arith)
symbol_length-append (c ∷ e) rest nonempty = refl

drop-append_length : (xs ys : List ℕ) → drop (length xs) (xs ++ ys) ≡ ys
unfolding drop
drop-append_length [] ys = refl
drop-append_length (x ∷ xs) ys = drop-append_length xs ys

-- A byte that leads to an encoded symbol and back.
abbrev ReturnsTo : (ℕ → ℕ) → (ℕ → ℕ) → ℕ → Type 0
ReturnsTo from to c = IsEncoded (from c) × (to (from c) ≡ c)

abbrev All : (ℕ → Type 0) → List ℕ → Type 0
All P [] = Unit {0}
All P (c ∷ cs) = P c × All P cs

module _ (from to : ℕ → ℕ) where
  to_codepage_loop_symbol :
      (fuel : ℕ) (e rest : List ℕ)
      → symbol_length e ≡ length e
      → 1 ≤ length e
      → to_codepage_loop to (suc fuel) (e ++ rest)
        ≡ to (utf8_convert e) ∷ to_codepage_loop to fuel rest
  unfolding to_codepage_loop
  to_codepage_loop_symbol fuel [] rest h nonempty = absurd (omega arith)
  to_codepage_loop_symbol fuel (c ∷ e) rest h nonempty = rw (
    utf8_convert-append (c ∷ e) rest h nonempty,
    symbol_length-append (c ∷ e) rest nonempty,
    h,
    drop-append_length (c ∷ e) rest,
  )

  loop_returns :
      (fuel : ℕ) (src : List ℕ)
      → All (ReturnsTo from to) src
      → length src ≤ fuel
      → to_codepage_loop to fuel (utf8_from_codepage from src) ≡ src
  unfolding utf8_from_codepage
  loop_returns zero [] all h = unfold to_codepage_loop in refl
  loop_returns (suc fuel) [] all h = unfold to_codepage_loop in refl
  loop_returns zero (c ∷ src) all h = absurd (omega arith)
  loop_returns (suc fuel) (c ∷ src) (((back, size, nonempty), byte), all) h = rw (
    to_codepage_loop_symbol fuel (utf8_to_string (from c)) (utf8_from_codepage from src) size
        nonempty,
    back,
    byte,
    loop_returns fuel src all (omega arith),
  )

  length-from_codepage :
      (src : List ℕ)
      → All (ReturnsTo from to) src
      → length src ≤ length (utf8_from_codepage from src)
  unfolding utf8_from_codepage
  length-from_codepage [] all = omega arith
  length-from_codepage (c ∷ src) ((encoded, byte), all) =
      rw (length-append (utf8_to_string (from c)) (utf8_from_codepage from src))
        (omega (arith, encoded.2, length-from_codepage src all))

  to_codepage-from_codepage :
      (src : List ℕ)
      → All (ReturnsTo from to) src
      → utf8_to_codepage to (utf8_from_codepage from src) ≡ src
  unfolding utf8_to_codepage
  to_codepage-from_codepage src all = loop_returns _ src all (length-from_codepage src all)

abbrev returns : (ℕ → ℕ) → (ℕ → ℕ) → ℕ → Bool
returns from to c = encodes (from c) && to (from c) == c

returns-ReturnsTo : (from to : ℕ → ℕ) (c : ℕ) → returns from to c ≡ true → ReturnsTo from to c
returns-ReturnsTo from to c h = (encodes-IsEncoded (from c) (ground arith), ground arith)

cp866_table : holds_below 256 (returns char32_from_cp866 char_to_cp866) ≡ true
unfolding program
cp866_table = refl

cp1251_table :
    holds_below 256 (λ c. c == 0x98 || returns char32_from_cp1251 char_to_cp1251 c) ≡ true
unfolding program
cp1251_table = refl

abbrev pub IsBytes : List ℕ → Type 0
IsBytes src = All (λ c. c < 256) src

-- Bytes that are not 0x98, which the code page 1251 does not use.
abbrev pub IsCp1251 : List ℕ → Type 0
IsCp1251 src = All (λ c. (c < 256) × (c ≢ 0x98)) src

every_cp866 : (src : List ℕ) → IsBytes src → All (ReturnsTo char32_from_cp866 char_to_cp866) src
every_cp866 [] bytes = tt
every_cp866 (c ∷ src) (byte, bytes) = (
  returns-ReturnsTo char32_from_cp866 char_to_cp866 c (holds_below-every 256 _ c cp866_table byte),
  every_cp866 src bytes,
)

every_cp1251 : (src : List ℕ) → IsCp1251 src → All (ReturnsTo char32_from_cp1251 char_to_cp1251) src
every_cp1251 [] bytes = tt
every_cp1251 (c ∷ src) ((byte, used), bytes) =
    let entry = holds_below-every 256 _ c cp1251_table byte in
    (
      returns-ReturnsTo char32_from_cp1251 char_to_cp1251 c (ground (arith, entry, used)),
      every_cp1251 src bytes,
    )

-- A string of bytes in the code page 866 is what it was after `utf8_from_cp866` and `utf8_to_cp866`.
pub utf8_to_cp866-utf8_from_cp866 :
    (src : List ℕ) → IsBytes src → utf8_to_cp866 (utf8_from_cp866 src) ≡ src
unfolding utf8_to_cp866 utf8_from_cp866
utf8_to_cp866-utf8_from_cp866 src bytes =
    to_codepage-from_codepage char32_from_cp866 char_to_cp866 src (every_cp866 src bytes)

-- A string of bytes in the code page 1251 without 0x98 is what it was after `utf8_from_cp1251` and
-- `utf8_to_cp1251`.
pub utf8_to_cp1251-utf8_from_cp1251 :
    (src : List ℕ) → IsCp1251 src → utf8_to_cp1251 (utf8_from_cp1251 src) ≡ src
unfolding utf8_to_cp1251 utf8_from_cp1251
utf8_to_cp1251-utf8_from_cp1251 src bytes =
    to_codepage-from_codepage char32_from_cp1251 char_to_cp1251 src (every_cp1251 src bytes)
