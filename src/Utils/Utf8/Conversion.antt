-- ===== src/Utils/Utf8/Conversion.antt =====
-- The conversion of strings between UTF-8 and a code page in libs/utils/utf8.c.
use ru_c.Prelude.{ℕ, zero, suc, List, [], ◌∷◌, ◌++◌, length}
use ru_c.Utils.Utf8.Codepages.{char32_from_cp866, char32_from_cp1251, char_to_cp866, char_to_cp1251}
use ru_c.Utils.Utf8.Encoding.{utf8_to_string, utf8_convert, symbol_length, drop}

-- The loop of `utf8_from_codepage`.
unfoldable pub utf8_from_codepage : (ℕ → ℕ) → List ℕ → List ℕ
utf8_from_codepage char_from_codepage [] = []
utf8_from_codepage char_from_codepage (c ∷ src) =
    utf8_to_string (char_from_codepage c) ++ utf8_from_codepage char_from_codepage src

-- The loop of `utf8_to_codepage`, with fuel for the bytes of the string.
unfoldable pub to_codepage_loop : (ℕ → ℕ) → ℕ → List ℕ → List ℕ
to_codepage_loop char_to_codepage zero src = []
to_codepage_loop char_to_codepage (suc fuel) [] = []
to_codepage_loop char_to_codepage (suc fuel) (c ∷ src) =
    char_to_codepage (utf8_convert (c ∷ src))
    ∷ to_codepage_loop char_to_codepage fuel (drop (symbol_length (c ∷ src)) (c ∷ src))

unfoldable pub utf8_to_codepage : (ℕ → ℕ) → List ℕ → List ℕ
utf8_to_codepage char_to_codepage src = to_codepage_loop char_to_codepage (length src) src

unfoldable pub utf8_from_cp866 : List ℕ → List ℕ
utf8_from_cp866 src = utf8_from_codepage char32_from_cp866 src

unfoldable pub utf8_from_cp1251 : List ℕ → List ℕ
utf8_from_cp1251 src = utf8_from_codepage char32_from_cp1251 src

unfoldable pub utf8_to_cp866 : List ℕ → List ℕ
utf8_to_cp866 src = utf8_to_codepage char_to_cp866 src

unfoldable pub utf8_to_cp1251 : List ℕ → List ℕ
utf8_to_cp1251 src = utf8_to_codepage char_to_cp1251 src
