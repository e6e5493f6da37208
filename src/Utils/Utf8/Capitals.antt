-- ===== src/Utils/Utf8/Capitals.antt =====
-- The alphabets, for utf8_to_upper of utf8.c.
use ru_c.Prelude.{
  ℕ, ◌≤◌, ◌≡◌, refl, Bool, true, ◌&&◌, Bool-cases, inl, inr, List, [], ◌∷◌, ltb, ◌==◌, arith,
}
use ru_c.Utils.Utf8.Codepages.{case_of}
use ru_c.Utils.Utf8.Letters.{utf8_to_upper}
use ru_c.Utils.Utf8.Roundtrip.{holds_below, holds_below-every}

-- Each small Latin letter with its capital, and each small Russian one but the letter yo, from the letter
-- a (U+0430) to the letter ya (U+044F).
abbrev pub capitals : List (ℕ × ℕ)
capitals =
    (b'a', b'A')
    ∷ (b'b', b'B')
    ∷ (b'c', b'C')
    ∷ (b'd', b'D')
    ∷ (b'e', b'E')
    ∷ (b'f', b'F')
    ∷ (b'g', b'G')
    ∷ (b'h', b'H')
    ∷ (b'i', b'I')
    ∷ (b'j', b'J')
    ∷ (b'k', b'K')
    ∷ (b'l', b'L')
    ∷ (b'm', b'M')
    ∷ (b'n', b'N')
    ∷ (b'o', b'O')
    ∷ (b'p', b'P')
    ∷ (b'q', b'Q')
    ∷ (b'r', b'R')
    ∷ (b's', b'S')
    ∷ (b't', b'T')
    ∷ (b'u', b'U')
    ∷ (b'v', b'V')
    ∷ (b'w', b'W')
    ∷ (b'x', b'X')
    ∷ (b'y', b'Y')
    ∷ (b'z', b'Z')
    ∷ (0x430, 0x410)
    ∷ (0x431, 0x411)
    ∷ (0x432, 0x412)
    ∷ (0x433, 0x413)
    ∷ (0x434, 0x414)
    ∷ (0x435, 0x415)
    ∷ (0x436, 0x416)
    ∷ (0x437, 0x417)
    ∷ (0x438, 0x418)
    ∷ (0x439, 0x419)
    ∷ (0x43A, 0x41A)
    ∷ (0x43B, 0x41B)
    ∷ (0x43C, 0x41C)
    ∷ (0x43D, 0x41D)
    ∷ (0x43E, 0x41E)
    ∷ (0x43F, 0x41F)
    ∷ (0x440, 0x420)
    ∷ (0x441, 0x421)
    ∷ (0x442, 0x422)
    ∷ (0x443, 0x423)
    ∷ (0x444, 0x424)
    ∷ (0x445, 0x425)
    ∷ (0x446, 0x426)
    ∷ (0x447, 0x427)
    ∷ (0x448, 0x428)
    ∷ (0x449, 0x429)
    ∷ (0x44A, 0x42A)
    ∷ (0x44B, 0x42B)
    ∷ (0x44C, 0x42C)
    ∷ (0x44D, 0x42D)
    ∷ (0x44E, 0x42E)
    ∷ (0x44F, 0x42F)
    ∷ []

abbrev keys_below : ℕ → List (ℕ × ℕ) → Bool
keys_below n [] = true
keys_below n ((k, v) ∷ rest) = ltb k n && keys_below n rest

case_of_default :
    (n : ℕ) (table : List (ℕ × ℕ)) (default symbol : ℕ)
    → keys_below n table ≡ true
    → n ≤ symbol
    → case_of table default symbol ≡ default
unfolding case_of
case_of_default n [] default symbol h le = refl
case_of_default n ((k, v) ∷ rest) default symbol h le =
    ground (arith, case_of_default n rest default symbol)

table : holds_below 0x450 (λ s. utf8_to_upper s == case_of capitals s s) ≡ true
unfolding case_of utf8_to_upper holds_below
table = refl

pub utf8_to_upper-capitals : (symbol : ℕ) → utf8_to_upper symbol ≡ case_of capitals symbol symbol
utf8_to_upper-capitals symbol = elim (Bool-cases (ltb symbol 0x450)) [
  | inl e ↦
      ground
        (arith, holds_below-every 0x450 (λ s. utf8_to_upper s == case_of capitals s s) symbol table)
  | inr e ↦
      let past = case_of_default 0x450 capitals symbol symbol refl (ground arith) in
      rw past (unfold utf8_to_upper in ground arith)
]
