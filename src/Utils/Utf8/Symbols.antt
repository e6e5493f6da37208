-- ===== src/Utils/Utf8/Symbols.antt =====
-- The bytes of single symbols, and the letters, in utf8.c.
use ru_c.Prelude.{
  ℕ, ◌+◌, ◌-◌, ◌*◌, ◌/◌, ◌%◌, ◌≤◌, ◌<◌, ◌≡◌, ◌⊎◌, refl, Bool, true, false, not, ◌&&◌, ◌||◌, List,
  [], ◌∷◌, leb, ◌==◌, length, arith,
}
use ru_c.Utils.Utf8.Codepages.{case_of}
use ru_c.Utils.Utf8.Encoding.{
  utf8_size, utf8_symbol_size, symbol_length, first_bits, convert_loop, utf8_convert, octets_loop,
  write_octets, mark_first, utf8_to_string,
}
use ru_c.Utils.Utf8.Transliteration.{char_transliteration}
use ru_c.Utils.Utf8.Letters.{
  utf8_to_upper, utf8_is_russian, utf8_is_letter, utf8_is_digit, utf8_is_hexa_digit, utf8_to_number,
}
use ru_c.Utils.Utf8.Capitals.{capitals, utf8_to_upper-capitals}
use ru_c.Utils.Utf8.Roundtrip.{
  holds_below, holds_below-every, encodes, IsEncoded, encodes-IsEncoded,
}

program : Unit {0}
unfolding case_of char_transliteration utf8_size utf8_symbol_size symbol_length first_bits
    convert_loop utf8_convert octets_loop write_octets mark_first utf8_to_string holds_below
    utf8_to_upper utf8_is_russian utf8_is_letter utf8_is_digit utf8_is_hexa_digit utf8_to_number
program = tt

-- A symbol that takes the bytes that `utf8_size` says.
abbrev fits : ℕ → Bool
fits symbol = encodes symbol && length (utf8_to_string symbol) == utf8_size symbol

-- In 64 blocks of 1024 symbols; two bytes are written from 0x800 to 0xFFF.
plane_table :
    holds_below 64 (λ b. holds_below 1024 (λ i. b == 2 || b == 3 || fits (b * 1024 + i))) ≡ true
unfolding program
plane_table = refl

-- For a symbol below 2 ^ 16 that is not one from 0x800 to 0xFFF, `utf8_convert` reads from the bytes that
-- `utf8_to_string` writes the symbol itself, the first byte tells their number, and it is `utf8_size`.
pub utf8_convert-utf8_to_string :
    (symbol : ℕ)
    → symbol < 0x10000
    → (symbol < 0x800) ⊎ (0x1000 ≤ symbol)
    → IsEncoded symbol × (length (utf8_to_string symbol) ≡ utf8_size symbol)
utf8_convert-utf8_to_string symbol h outside =
    let b = symbol / 1024 in
    let i = symbol % 1024 in
    let row = holds_below-every 64 _ b plane_table (omega arith) in
    let entry = holds_below-every 1024 _ i row (omega arith) in
    let whole : b * 1024 + i ≡ symbol = omega arith in
    let entry' : (b == 2 || b == 3 || fits symbol) ≡ true = rw whole at entry in
    let block : (b == 2 || b == 3) ≡ false = ground (arith, outside) in
    (encodes-IsEncoded symbol (ground (arith, entry', block)), ground (arith, entry', block))

gap_table :
    holds_below 2048 (λ i. length (utf8_to_string (2048 + i)) == 2 && utf8_size (2048 + i) == 3)
    ≡ true
unfolding program
gap_table = refl

-- From 0x800 to 0xFFF `utf8_to_string` writes two bytes, where `utf8_size` says three.
pub utf8_to_string_gap :
    (symbol : ℕ)
    → 0x800 ≤ symbol
    → symbol < 0x1000
    → (length (utf8_to_string symbol) ≡ 2) × (utf8_size symbol ≡ 3)
utf8_to_string_gap symbol lo hi =
    let entry = holds_below-every 2048 _ (symbol - 2048) gap_table (omega arith) in
    let whole : 2048 + (symbol - 2048) ≡ symbol = omega arith in
    let entry' : (length (utf8_to_string symbol) == 2 && utf8_size symbol == 3) ≡ true =
      rw whole at entry in
    (ground (arith, entry'), ground (arith, entry'))

-- Whether each byte is a Latin letter.
abbrev pub all_latin : List ℕ → Bool
all_latin [] = true
all_latin (c ∷ cs) = (leb 0x41 c && leb c 0x5A || leb 0x61 c && leb c 0x7A) && all_latin cs

letters_table :
    holds_below 128
      (λ i. not (utf8_is_russian (1024 + i)) || all_latin (char_transliteration (1024 + i)))
    ≡ true
unfolding program
letters_table = refl

-- A Russian letter is transliterated to Latin letters alone.
pub char_transliteration-utf8_is_russian :
    (symbol : ℕ) → utf8_is_russian symbol ≡ true → all_latin (char_transliteration symbol) ≡ true
char_transliteration-utf8_is_russian symbol h =
    let lo : 1024 ≤ symbol = unfold utf8_is_russian in ground arith in
    let hi : symbol < 1152 = unfold utf8_is_russian in ground arith in
    let entry = holds_below-every 128 _ (symbol - 1024) letters_table (omega arith) in
    let whole : 1024 + (symbol - 1024) ≡ symbol = omega arith in
    let entry' : (not (utf8_is_russian symbol) || all_latin (char_transliteration symbol)) ≡ true =
      rw whole at entry in
    rw h at entry'

-- `utf8_to_upper` of a symbol is the capital that the alphabets have for it as a small letter, without
-- the letter yo, and else the symbol itself; it keeps whether a symbol is a letter, whether it is a
-- hexadecimal digit, and its value as one, and changes nothing the second time.
pub utf8_to_upper-utf8_is_letter :
    (symbol : ℕ)
    → (utf8_to_upper symbol ≡ case_of capitals symbol symbol)
      × (utf8_is_letter (utf8_to_upper symbol) ≡ utf8_is_letter symbol)
      × (utf8_to_upper (utf8_to_upper symbol) ≡ utf8_to_upper symbol)
      × (utf8_is_hexa_digit (utf8_to_upper symbol) ≡ utf8_is_hexa_digit symbol)
      × (utf8_to_number (utf8_to_upper symbol) ≡ utf8_to_number symbol)
unfolding utf8_to_upper utf8_is_letter utf8_is_russian utf8_is_hexa_digit utf8_is_digit
    utf8_to_number
utf8_to_upper-utf8_is_letter symbol =
    (utf8_to_upper-capitals symbol, ground arith, ground arith, ground arith, ground arith)
