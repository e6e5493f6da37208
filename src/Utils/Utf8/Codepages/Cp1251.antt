-- ===== src/Utils/Utf8/Codepages/Cp1251.antt =====
-- `char32_from_cp1251` and `char_to_cp1251` of libs/utils/utf8.c.
use ru_c.Prelude.{ℕ, ◌+◌, ◌-◌, ◌&&◌, List, [], ◌∷◌, ltb, leb, if◌then◌else◌}
use ru_c.Utils.Utf8.Codepages.Cases.{case_of}

-- The `switch` of `char32_from_cp1251`.
abbrev from_cp1251_cases : List (ℕ × ℕ)
from_cp1251_cases =
    (0x80, 0x402)
    ∷ (0x81, 0x403)
    ∷ (0x82, 0x201A)
    ∷ (0x83, 0x453)
    ∷ (0x84, 0x201E)
    ∷ (0x85, 0x2026)
    ∷ (0x86, 0x2020)
    ∷ (0x87, 0x2021)
    ∷ (0x88, 0x20AC)
    ∷ (0x89, 0x2030)
    ∷ (0x8A, 0x409)
    ∷ (0x8B, 0x2039)
    ∷ (0x8C, 0x40A)
    ∷ (0x8D, 0x40C)
    ∷ (0x8E, 0x40B)
    ∷ (0x8F, 0x40F)
    ∷ (0x90, 0x452)
    ∷ (0x91, 0x2018)
    ∷ (0x92, 0x2019)
    ∷ (0x93, 0x201C)
    ∷ (0x94, 0x201D)
    ∷ (0x95, 0x2022)
    ∷ (0x96, 0x2013)
    ∷ (0x97, 0x2014)
    ∷ (0x99, 0x2122)
    ∷ (0x9A, 0x459)
    ∷ (0x9B, 0x203A)
    ∷ (0x9C, 0x45A)
    ∷ (0x9D, 0x45C)
    ∷ (0x9E, 0x45B)
    ∷ (0x9F, 0x45F)
    ∷ (0xA1, 0x40E)
    ∷ (0xA2, 0x45E)
    ∷ (0xA3, 0x408)
    ∷ (0xA5, 0x490)
    ∷ (0xA8, 0x401)
    ∷ (0xAA, 0x404)
    ∷ (0xAF, 0x407)
    ∷ (0xB2, 0x406)
    ∷ (0xB3, 0x456)
    ∷ (0xB4, 0x491)
    ∷ (0xB8, 0x451)
    ∷ (0xB9, 0x2116)
    ∷ (0xBA, 0x454)
    ∷ (0xBC, 0x458)
    ∷ (0xBD, 0x405)
    ∷ (0xBE, 0x455)
    ∷ (0xBF, 0x457)
    ∷ (0xA0, 0xA0)
    ∷ (0xA4, 0xA4)
    ∷ (0xA6, 0xA6)
    ∷ (0xA7, 0xA7)
    ∷ (0xA9, 0xA9)
    ∷ (0xAB, 0xAB)
    ∷ (0xAC, 0xAC)
    ∷ (0xAD, 0xAD)
    ∷ (0xAE, 0xAE)
    ∷ (0xB0, 0xB0)
    ∷ (0xB1, 0xB1)
    ∷ (0xB5, 0xB5)
    ∷ (0xB6, 0xB6)
    ∷ (0xB7, 0xB7)
    ∷ (0xBB, 0xBB)
    ∷ []

unfoldable pub char32_from_cp1251 : ℕ → ℕ
unfolding case_of
char32_from_cp1251 symbol =
    if ltb symbol 0x80
    then symbol
    else (if leb 0xC0 symbol
        then symbol - 0xC0 + 0x410
        else case_of from_cp1251_cases 0xFFFD symbol)

-- The `switch` of `char_to_cp1251`.
abbrev to_cp1251_cases : List (ℕ × ℕ)
to_cp1251_cases =
    (0x402, 0x80)
    ∷ (0x403, 0x81)
    ∷ (0x201A, 0x82)
    ∷ (0x453, 0x83)
    ∷ (0x201E, 0x84)
    ∷ (0x2026, 0x85)
    ∷ (0x2020, 0x86)
    ∷ (0x2021, 0x87)
    ∷ (0x20AC, 0x88)
    ∷ (0x2030, 0x89)
    ∷ (0x409, 0x8A)
    ∷ (0x2039, 0x8B)
    ∷ (0x40A, 0x8C)
    ∷ (0x40C, 0x8D)
    ∷ (0x40B, 0x8E)
    ∷ (0x40F, 0x8F)
    ∷ (0x452, 0x90)
    ∷ (0x2018, 0x91)
    ∷ (0x2019, 0x92)
    ∷ (0x201C, 0x93)
    ∷ (0x201D, 0x94)
    ∷ (0x2022, 0x95)
    ∷ (0x2013, 0x96)
    ∷ (0x2014, 0x97)
    ∷ (0x2122, 0x99)
    ∷ (0x459, 0x9A)
    ∷ (0x203A, 0x9B)
    ∷ (0x45A, 0x9C)
    ∷ (0x45C, 0x9D)
    ∷ (0x45B, 0x9E)
    ∷ (0x45F, 0x9F)
    ∷ (0x40E, 0xA1)
    ∷ (0x45E, 0xA2)
    ∷ (0x408, 0xA3)
    ∷ (0x490, 0xA5)
    ∷ (0x401, 0xA8)
    ∷ (0x404, 0xAA)
    ∷ (0x407, 0xAF)
    ∷ (0x406, 0xB2)
    ∷ (0x456, 0xB3)
    ∷ (0x491, 0xB4)
    ∷ (0x451, 0xB8)
    ∷ (0x2116, 0xB9)
    ∷ (0x454, 0xBA)
    ∷ (0x458, 0xBC)
    ∷ (0x405, 0xBD)
    ∷ (0x455, 0xBE)
    ∷ (0x457, 0xBF)
    ∷ (0xA0, 0xA0)
    ∷ (0xA4, 0xA4)
    ∷ (0xA6, 0xA6)
    ∷ (0xA7, 0xA7)
    ∷ (0xA9, 0xA9)
    ∷ (0xAB, 0xAB)
    ∷ (0xAC, 0xAC)
    ∷ (0xAD, 0xAD)
    ∷ (0xAE, 0xAE)
    ∷ (0xB0, 0xB0)
    ∷ (0xB1, 0xB1)
    ∷ (0xB5, 0xB5)
    ∷ (0xB6, 0xB6)
    ∷ (0xB7, 0xB7)
    ∷ (0xBB, 0xBB)
    ∷ []

unfoldable pub char_to_cp1251 : ℕ → ℕ
unfolding case_of
char_to_cp1251 symbol =
    if ltb symbol 0x80
    then symbol
    else (if leb 0x410 symbol && leb symbol 0x44F
        then symbol - 0x410 + 0xC0
        else case_of to_cp1251_cases 0x1A symbol)
