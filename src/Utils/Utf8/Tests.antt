-- ===== src/Utils/Utf8/Tests.antt =====
-- Symbols and strings in UTF-8 and the code pages.
use ru_c.Prelude.{ℕ, ◌≡◌, refl, true, List, [], ◌∷◌, length, inr, arith}
use ru_c.Utils.Utf8.Codepages.{case_of, char32_from_cp866, char_to_cp866}
use ru_c.Utils.Utf8.Encoding.{
  utf8_size, utf8_symbol_size, symbol_length, drop, first_bits, convert_loop, utf8_convert,
  octets_loop, write_octets, mark_first, utf8_to_string, utf8_to_first_byte,
}
use ru_c.Utils.Utf8.Transliteration.{
  char_transliteration, transliteration_loop, utf8_transliteration,
}
use ru_c.Utils.Utf8.Letters.{
  utf8_to_upper, utf8_is_letter, utf8_is_russian, utf8_is_hexa_digit, utf8_to_number, utf8_is_power,
}
use ru_c.Utils.Utf8.Conversion.{
  utf8_from_codepage, utf8_to_codepage, to_codepage_loop, utf8_from_cp866, utf8_from_cp1251,
  utf8_to_cp866, utf8_to_cp1251,
}
use ru_c.Utils.Utf8.Roundtrip.{
  IsEncoded, utf8_to_cp866-utf8_from_cp866, utf8_to_cp1251-utf8_from_cp1251,
}
use ru_c.Utils.Utf8.Capitals.{capitals}
use ru_c.Utils.Utf8.Symbols.{
  all_latin, utf8_convert-utf8_to_string, utf8_to_string_gap, char_transliteration-utf8_is_russian,
  utf8_to_upper-utf8_is_letter,
}

program : Unit {0}
unfolding case_of char32_from_cp866 char_to_cp866 utf8_size utf8_symbol_size symbol_length drop
    first_bits convert_loop utf8_convert octets_loop write_octets mark_first utf8_to_string
    utf8_to_first_byte char_transliteration transliteration_loop utf8_transliteration
    utf8_from_codepage utf8_to_codepage to_codepage_loop utf8_from_cp866 utf8_to_cp866 utf8_to_upper
    utf8_is_russian utf8_is_power
program = tt

-- The euro sign
three_bytes : utf8_to_string 0x20AC ≡ 0xE2 ∷ 0x82 ∷ 0xAC ∷ []
unfolding program
three_bytes = refl

-- The Russian letter Щ is SHCH.
latin : utf8_transliteration (0xD0 ∷ 0xA9 ∷ 0x21 ∷ []) ≡ 0x53 ∷ 0x68 ∷ 0x63 ∷ 0x68 ∷ 0x21 ∷ []
unfolding program
latin = refl

first_byte : utf8_to_first_byte (0x41 ∷ 0xE2 ∷ 0x82 ∷ 0xAC ∷ []) 3 ≡ 1
unfolding program
first_byte = refl

-- The letter ё has no upper case here.
small_io : utf8_to_upper 0x451 ≡ 0x451
unfolding program
small_io = refl

power : utf8_is_power 0x435 ≡ true
unfolding program
power = refl

-- The letters А and р of the code page 866
abbrev two_letters : List ℕ
two_letters = 0x80 ∷ 0xE0 ∷ []

in_utf8 : utf8_from_cp866 two_letters ≡ 0xD0 ∷ 0x90 ∷ 0xD1 ∷ 0x80 ∷ []
unfolding program
in_utf8 = refl

utf8_to_cp866-utf8_from_cp866_example : utf8_to_cp866 (utf8_from_cp866 two_letters) ≡ two_letters
utf8_to_cp866-utf8_from_cp866_example =
    utf8_to_cp866-utf8_from_cp866 two_letters (omega arith, (omega arith, tt))

utf8_to_cp1251-utf8_from_cp1251_example :
    utf8_to_cp1251 (utf8_from_cp1251 two_letters) ≡ two_letters
utf8_to_cp1251-utf8_from_cp1251_example =
    utf8_to_cp1251-utf8_from_cp1251 two_letters
      ((omega arith, omega arith), ((omega arith, omega arith), tt))

utf8_convert-utf8_to_string_example :
    IsEncoded 0x20AC × (length (utf8_to_string 0x20AC) ≡ utf8_size 0x20AC)
utf8_convert-utf8_to_string_example =
    utf8_convert-utf8_to_string 0x20AC (omega arith) (inr (omega arith))

-- The letter अ
utf8_to_string_gap_example : (length (utf8_to_string 0x905) ≡ 2) × (utf8_size 0x905 ≡ 3)
utf8_to_string_gap_example = utf8_to_string_gap 0x905 (omega arith) (omega arith)

char_transliteration-utf8_is_russian_example : all_latin (char_transliteration 0x429) ≡ true
unfolding program
char_transliteration-utf8_is_russian_example = char_transliteration-utf8_is_russian 0x429 refl

utf8_to_upper-utf8_is_letter_example :
    (utf8_to_upper 0x62 ≡ case_of capitals 0x62 0x62)
    × (utf8_is_letter (utf8_to_upper 0x62) ≡ utf8_is_letter 0x62)
    × (utf8_to_upper (utf8_to_upper 0x62) ≡ utf8_to_upper 0x62)
    × (utf8_is_hexa_digit (utf8_to_upper 0x62) ≡ utf8_is_hexa_digit 0x62)
    × (utf8_to_number (utf8_to_upper 0x62) ≡ utf8_to_number 0x62)
utf8_to_upper-utf8_is_letter_example = utf8_to_upper-utf8_is_letter 0x62
