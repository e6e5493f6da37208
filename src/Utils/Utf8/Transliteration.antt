-- ===== src/Utils/Utf8/Transliteration.antt =====
-- `utf8_transliteration` of libs/utils/utf8.c: Russian letters in Latin ones.
use ru_c.Prelude.{ℕ, zero, suc, List, [], ◌∷◌, ◌++◌, length}
use ru_c.Utils.Utf8.Codepages.{case_of}
use ru_c.Utils.Utf8.Encoding.{utf8_to_string, utf8_convert, symbol_length, drop}

-- The `switch` of `char_transliteration`: the bytes that are written for a letter.
abbrev transliterations : List (ℕ × List ℕ)
transliterations =
    (0x410, 65 ∷ [])
    ∷ (0x430, 97 ∷ [])
    ∷ (0x411, 66 ∷ [])
    ∷ (0x431, 98 ∷ [])
    ∷ (0x412, 86 ∷ [])
    ∷ (0x432, 118 ∷ [])
    ∷ (0x413, 71 ∷ [])
    ∷ (0x433, 103 ∷ [])
    ∷ (0x414, 68 ∷ [])
    ∷ (0x434, 100 ∷ [])
    ∷ (0x417, 90 ∷ [])
    ∷ (0x437, 122 ∷ [])
    ∷ (0x418, 73 ∷ [])
    ∷ (0x419, 73 ∷ [])
    ∷ (0x438, 105 ∷ [])
    ∷ (0x439, 105 ∷ [])
    ∷ (0x41A, 75 ∷ [])
    ∷ (0x43A, 107 ∷ [])
    ∷ (0x41B, 76 ∷ [])
    ∷ (0x43B, 108 ∷ [])
    ∷ (0x41C, 77 ∷ [])
    ∷ (0x43C, 109 ∷ [])
    ∷ (0x41D, 78 ∷ [])
    ∷ (0x43D, 110 ∷ [])
    ∷ (0x41E, 79 ∷ [])
    ∷ (0x43E, 111 ∷ [])
    ∷ (0x41F, 80 ∷ [])
    ∷ (0x43F, 112 ∷ [])
    ∷ (0x420, 82 ∷ [])
    ∷ (0x440, 114 ∷ [])
    ∷ (0x421, 83 ∷ [])
    ∷ (0x441, 115 ∷ [])
    ∷ (0x422, 84 ∷ [])
    ∷ (0x442, 116 ∷ [])
    ∷ (0x423, 85 ∷ [])
    ∷ (0x443, 117 ∷ [])
    ∷ (0x424, 70 ∷ [])
    ∷ (0x444, 102 ∷ [])
    ∷ (0x42B, 89 ∷ [])
    ∷ (0x44B, 121 ∷ [])
    ∷ (0x415, 69 ∷ [])
    ∷ (0x401, 69 ∷ [])
    ∷ (0x42D, 69 ∷ [])
    ∷ (0x435, 101 ∷ [])
    ∷ (0x451, 101 ∷ [])
    ∷ (0x44D, 101 ∷ [])
    ∷ (0x416, 90 ∷ 104 ∷ [])
    ∷ (0x436, 122 ∷ 104 ∷ [])
    ∷ (0x425, 75 ∷ 104 ∷ [])
    ∷ (0x445, 107 ∷ 104 ∷ [])
    ∷ (0x426, 84 ∷ 115 ∷ [])
    ∷ (0x446, 116 ∷ 115 ∷ [])
    ∷ (0x427, 67 ∷ 104 ∷ [])
    ∷ (0x447, 99 ∷ 104 ∷ [])
    ∷ (0x428, 83 ∷ 104 ∷ [])
    ∷ (0x448, 115 ∷ 104 ∷ [])
    ∷ (0x42A, 73 ∷ 101 ∷ [])
    ∷ (0x44A, 105 ∷ 101 ∷ [])
    ∷ (0x42E, 73 ∷ 117 ∷ [])
    ∷ (0x44E, 105 ∷ 117 ∷ [])
    ∷ (0x42F, 73 ∷ 97 ∷ [])
    ∷ (0x44F, 105 ∷ 97 ∷ [])
    ∷ (0x429, 83 ∷ 104 ∷ 99 ∷ 104 ∷ [])
    ∷ (0x449, 115 ∷ 104 ∷ 99 ∷ 104 ∷ [])
    ∷ (0x42C, [])
    ∷ (0x44C, [])
    ∷ []

unfoldable pub char_transliteration : ℕ → List ℕ
unfolding case_of
char_transliteration symbol = case_of transliterations (utf8_to_string symbol) symbol

-- The loop of `utf8_transliteration`, with fuel for the bytes of the string.
unfoldable pub transliteration_loop : ℕ → List ℕ → List ℕ
transliteration_loop zero src = []
transliteration_loop (suc fuel) [] = []
transliteration_loop (suc fuel) (c ∷ src) =
    char_transliteration (utf8_convert (c ∷ src))
    ++ transliteration_loop fuel (drop (symbol_length (c ∷ src)) (c ∷ src))

unfoldable pub utf8_transliteration : List ℕ → List ℕ
unfolding transliteration_loop
utf8_transliteration src = transliteration_loop (length src) src
