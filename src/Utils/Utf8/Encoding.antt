-- ===== src/Utils/Utf8/Encoding.antt =====
-- UTF-8 in libs/utils/utf8.c. A char is a byte, a number below 256, and a char32_t a number below
-- 2 ^ 32. A byte that is read past the end of a string is the zero that ends it.
use ru_c.Prelude.{
  ℕ, zero, suc, ◌-◌, ◌*◌, ◌/◌, ◌%◌, ◌^◌, List, [], ◌∷◌, ◌==◌, if◌then◌else◌, bit_and, bit_or,
}

unfoldable pub utf8_size : ℕ → ℕ
utf8_size symbol =
    if bit_and symbol 0xFFFFFF80 == 0
    then 1
    else (if bit_and symbol 0xFFFFF800 == 0
        then 2
        else (if bit_and symbol 0xFFFF0000 == 0
            then 3
            else (if bit_and symbol 0xFFE00000 == 0 then 4 else 0)))

unfoldable pub utf8_symbol_size : ℕ → ℕ
utf8_symbol_size symbol =
    if bit_and symbol 0x80 == 0x00
    then 1
    else (if bit_and symbol 0xE0 == 0xC0
        then 2
        else (if bit_and symbol 0xF0 == 0xE0
            then 3
            else (if bit_and symbol 0xF8 == 0xF0 then 4 else 1)))

-- `utf8_symbol_size(src[i])`
unfoldable pub symbol_length : List ℕ → ℕ
unfolding utf8_symbol_size
symbol_length [] = utf8_symbol_size 0
symbol_length (c ∷ src) = utf8_symbol_size c

-- `i += n`
unfoldable pub drop : ℕ → List ℕ → List ℕ
drop zero xs = xs
drop (suc n) [] = []
drop (suc n) (x ∷ xs) = drop n xs

-- The bits of the first byte that belong to the symbol.
unfoldable pub first_bits : ℕ → ℕ → ℕ
first_bits size c =
    if size == 2
    then bit_and c 0x1F
    else (if size == 3 then bit_and c 0x0F else (if size == 4 then bit_and c 0x07 else c))

-- The loop of `utf8_convert` over the next bytes.
unfoldable pub convert_loop : ℕ → ℕ → List ℕ → ℕ
convert_loop zero result src = result
convert_loop (suc n) result [] = convert_loop n (result * 2 ^ 6 % 2 ^ 32) []
convert_loop (suc n) result (c ∷ src) =
    convert_loop n (bit_or (result * 2 ^ 6 % 2 ^ 32) (bit_and 0x3F c)) src

unfoldable pub utf8_convert : List ℕ → ℕ
unfolding utf8_symbol_size first_bits convert_loop
utf8_convert [] = 0
utf8_convert (c ∷ src) =
    let size = utf8_symbol_size c in convert_loop (size - 1) (first_bits size c) src

-- The loop that finds the number of octets, and the mask of the first.
unfoldable pub octets_loop : ℕ → ℕ → ℕ → ℕ × ℕ
octets_loop symbol mask (suc (suc k)) =
    let rest = octets_loop symbol (mask / 2 ^ 6) (suc k) in
    if bit_and symbol mask == 0 then rest else (suc (suc k), mask)
octets_loop symbol mask octets = (octets, mask)

-- The loop that writes them.
unfoldable pub write_octets : ℕ → ℕ → ℕ → List ℕ
write_octets symbol mask zero = []
write_octets symbol mask (suc k) =
    bit_or 0x80 (bit_and symbol mask / 2 ^ (6 * k) % 256) ∷ write_octets symbol (mask / 2 ^ 6) k

-- The `switch` that marks the first.
unfoldable pub mark_first : ℕ → List ℕ → List ℕ
mark_first octets [] = []
mark_first octets (c ∷ buffer) =
    bit_or c (
      if octets == 2
      then 0xC0
      else (if octets == 3 then 0xE0 else (if octets == 4 then 0xF0 else 0)))
    ∷ buffer

-- The bytes that are written before the zero; the result of the function is their number.
unfoldable pub utf8_to_string : ℕ → List ℕ
unfolding octets_loop write_octets mark_first
utf8_to_string symbol =
    let (octets, mask) = octets_loop symbol 0x00FC0000 4 in
    if bit_and symbol 0xFFE00000 == 0
    then (if bit_and symbol 0xFFFFFF80 == 0
        then symbol ∷ []
        else mark_first octets (write_octets symbol mask octets))
    else []

-- `utf8_to_first_byte` of a string at an index. At 0 the code reads on before the string where it
-- begins inside a symbol; a string that does is no argument here.
unfoldable pub utf8_to_first_byte : List ℕ → ℕ → ℕ
unfolding drop
utf8_to_first_byte str zero = zero
utf8_to_first_byte str (suc index) =
    let before = utf8_to_first_byte str index in
    elim (drop (suc index) str) [
      | [] ↦ suc index
      | c ∷ rest ↦ if bit_and c 0xC0 == 0x80 then before else suc index
    ]
