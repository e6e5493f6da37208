-- ===== src/Utils/Utf8/Letters.antt =====
-- The kinds of symbols of libs/utils/utf8.c.
use ru_c.Prelude.{ℕ, ◌+◌, ◌-◌, Bool, ◌&&◌, ◌||◌, leb, ◌==◌, if◌then◌else◌}

abbrev pub between : ℕ → ℕ → ℕ → Bool
between lo hi symbol = leb lo symbol && leb symbol hi

-- `'A' - 'a'` and `U'А' - U'а'` are both -32.
unfoldable pub utf8_to_upper : ℕ → ℕ
utf8_to_upper symbol =
    if between 0x61 0x7A symbol
    then symbol - 32
    else (if between 0x430 0x44F symbol then symbol - 32 else symbol)

unfoldable pub utf8_is_russian : ℕ → Bool
utf8_is_russian symbol =
    symbol == 0x401
    || symbol == 0x451
    || between 0x410 0x42F symbol
    || between 0x430 0x43F symbol
    || between 0x440 0x44F symbol

unfoldable pub utf8_is_letter : ℕ → Bool
unfolding utf8_is_russian
utf8_is_letter symbol =
    utf8_is_russian symbol || symbol == 0x5F || between 0x41 0x5A symbol || between 0x61 0x7A symbol

unfoldable pub utf8_is_digit : ℕ → Bool
utf8_is_digit symbol = between 0x30 0x39 symbol

unfoldable pub utf8_is_hexa_digit : ℕ → Bool
unfolding utf8_is_digit
utf8_is_hexa_digit symbol =
    utf8_is_digit symbol || between 0x41 0x46 symbol || between 0x61 0x66 symbol

unfoldable pub utf8_to_number : ℕ → ℕ
unfolding utf8_is_digit
utf8_to_number symbol =
    if utf8_is_digit symbol
    then symbol - 0x30
    else (if between 0x41 0x46 symbol
        then symbol - 0x41 + 10
        else (if between 0x61 0x66 symbol then symbol - 0x61 + 10 else 0))

-- A Latin or a Russian letter e.
unfoldable pub utf8_is_power : ℕ → Bool
utf8_is_power symbol = symbol == 0x65 || symbol == 0x45 || symbol == 0x435 || symbol == 0x415
