-- ===== src/Utils/Utf8/Codepages/Cp866.antt =====
-- `char32_from_cp866` and `char_to_cp866` of libs/utils/utf8.c.
use ru_c.Prelude.{ℕ, ◌+◌, ◌-◌, ◌&&◌, List, [], ◌∷◌, ltb, leb, if◌then◌else◌}
use ru_c.Utils.Utf8.Codepages.Cases.{case_of}

-- The `switch` of `char32_from_cp866`.
abbrev from_cp866_cases : List (ℕ × ℕ)
from_cp866_cases =
    (0xB0, 0x2591)
    ∷ (0xB1, 0x2592)
    ∷ (0xB2, 0x2593)
    ∷ (0xB3, 0x2502)
    ∷ (0xB4, 0x2524)
    ∷ (0xB5, 0x2561)
    ∷ (0xB6, 0x2562)
    ∷ (0xB7, 0x2556)
    ∷ (0xB8, 0x2555)
    ∷ (0xB9, 0x2563)
    ∷ (0xBA, 0x2551)
    ∷ (0xBB, 0x2557)
    ∷ (0xBC, 0x255D)
    ∷ (0xBD, 0x255C)
    ∷ (0xBE, 0x255B)
    ∷ (0xBF, 0x2510)
    ∷ (0xC0, 0x2514)
    ∷ (0xC1, 0x2534)
    ∷ (0xC2, 0x252C)
    ∷ (0xC3, 0x251C)
    ∷ (0xC4, 0x2500)
    ∷ (0xC5, 0x253C)
    ∷ (0xC6, 0x255E)
    ∷ (0xC7, 0x255F)
    ∷ (0xC8, 0x255A)
    ∷ (0xC9, 0x2554)
    ∷ (0xCA, 0x2569)
    ∷ (0xCB, 0x2566)
    ∷ (0xCC, 0x2560)
    ∷ (0xCD, 0x2550)
    ∷ (0xCE, 0x256C)
    ∷ (0xCF, 0x2567)
    ∷ (0xD0, 0x2568)
    ∷ (0xD1, 0x2564)
    ∷ (0xD2, 0x2565)
    ∷ (0xD3, 0x2559)
    ∷ (0xD4, 0x2558)
    ∷ (0xD5, 0x2552)
    ∷ (0xD6, 0x2553)
    ∷ (0xD7, 0x256B)
    ∷ (0xD8, 0x256A)
    ∷ (0xD9, 0x2518)
    ∷ (0xDA, 0x250C)
    ∷ (0xDB, 0x2588)
    ∷ (0xDC, 0x2584)
    ∷ (0xDD, 0x258C)
    ∷ (0xDE, 0x2590)
    ∷ (0xDF, 0x2580)
    ∷ (0xF0, 0x401)
    ∷ (0xF1, 0x451)
    ∷ (0xF2, 0x404)
    ∷ (0xF3, 0x454)
    ∷ (0xF4, 0x407)
    ∷ (0xF5, 0x457)
    ∷ (0xF6, 0x40E)
    ∷ (0xF7, 0x45E)
    ∷ (0xF8, 0xB0)
    ∷ (0xF9, 0x2219)
    ∷ (0xFA, 0xB7)
    ∷ (0xFB, 0x221A)
    ∷ (0xFC, 0x2116)
    ∷ (0xFD, 0xA4)
    ∷ (0xFE, 0x25A0)
    ∷ (0xFF, 0xA0)
    ∷ []

unfoldable pub char32_from_cp866 : ℕ → ℕ
unfolding case_of
char32_from_cp866 symbol =
    if ltb symbol 0x80
    then symbol
    else (if leb 0x80 symbol && leb symbol 0xAF
        then symbol - 0x80 + 0x410
        else (if leb 0xE0 symbol && leb symbol 0xEF
            then symbol - 0xE0 + 0x440
            else case_of from_cp866_cases 0xFFFD symbol))

-- The `switch` of `char_to_cp866`.
abbrev to_cp866_cases : List (ℕ × ℕ)
to_cp866_cases =
    (0x2591, 0xB0)
    ∷ (0x2592, 0xB1)
    ∷ (0x2593, 0xB2)
    ∷ (0x2502, 0xB3)
    ∷ (0x2524, 0xB4)
    ∷ (0x2561, 0xB5)
    ∷ (0x2562, 0xB6)
    ∷ (0x2556, 0xB7)
    ∷ (0x2555, 0xB8)
    ∷ (0x2563, 0xB9)
    ∷ (0x2551, 0xBA)
    ∷ (0x2557, 0xBB)
    ∷ (0x255D, 0xBC)
    ∷ (0x255C, 0xBD)
    ∷ (0x255B, 0xBE)
    ∷ (0x2510, 0xBF)
    ∷ (0x2514, 0xC0)
    ∷ (0x2534, 0xC1)
    ∷ (0x252C, 0xC2)
    ∷ (0x251C, 0xC3)
    ∷ (0x2500, 0xC4)
    ∷ (0x253C, 0xC5)
    ∷ (0x255E, 0xC6)
    ∷ (0x255F, 0xC7)
    ∷ (0x255A, 0xC8)
    ∷ (0x2554, 0xC9)
    ∷ (0x2569, 0xCA)
    ∷ (0x2566, 0xCB)
    ∷ (0x2560, 0xCC)
    ∷ (0x2550, 0xCD)
    ∷ (0x256C, 0xCE)
    ∷ (0x2567, 0xCF)
    ∷ (0x2568, 0xD0)
    ∷ (0x2564, 0xD1)
    ∷ (0x2565, 0xD2)
    ∷ (0x2559, 0xD3)
    ∷ (0x2558, 0xD4)
    ∷ (0x2552, 0xD5)
    ∷ (0x2553, 0xD6)
    ∷ (0x256B, 0xD7)
    ∷ (0x256A, 0xD8)
    ∷ (0x2518, 0xD9)
    ∷ (0x250C, 0xDA)
    ∷ (0x2588, 0xDB)
    ∷ (0x2584, 0xDC)
    ∷ (0x258C, 0xDD)
    ∷ (0x2590, 0xDE)
    ∷ (0x2580, 0xDF)
    ∷ (0x401, 0xF0)
    ∷ (0x451, 0xF1)
    ∷ (0x404, 0xF2)
    ∷ (0x454, 0xF3)
    ∷ (0x407, 0xF4)
    ∷ (0x457, 0xF5)
    ∷ (0x40E, 0xF6)
    ∷ (0x45E, 0xF7)
    ∷ (0xB0, 0xF8)
    ∷ (0x2219, 0xF9)
    ∷ (0xB7, 0xFA)
    ∷ (0x221A, 0xFB)
    ∷ (0x2116, 0xFC)
    ∷ (0xA4, 0xFD)
    ∷ (0x25A0, 0xFE)
    ∷ (0xA0, 0xFF)
    ∷ []

unfoldable pub char_to_cp866 : ℕ → ℕ
unfolding case_of
char_to_cp866 symbol =
    if ltb symbol 0x80
    then symbol
    else (if leb 0x410 symbol && leb symbol 0x43F
        then symbol - 0x410 + 0x80
        else (if leb 0x440 symbol && leb symbol 0x44F
            then symbol - 0x440 + 0xE0
            else case_of to_cp866_cases 0x1A symbol))
