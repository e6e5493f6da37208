-- ===== src/Utils/Item.antt =====
-- libs/utils/item.h with the default `ITEM` of -64: an `item_t` is an int64_t.
-- An `item_t` and a `size_t` are both a 64-bit pattern, a number below 2 ^ 64, so that the casts
-- between them keep the pattern; `to_int` is the number for which the pattern of an item stands.
use ru_c.Prelude.{ℕ, ◌-◌, ◌^◌, ltb, if◌then◌else◌}
use ru_c.Prelude.{Option, none, some}
use ru_c.Prelude.Int.{ℤ, pos, negsuc}

abbrev pub Item : Type 0
Item = ℕ

abbrev pub Size : Type 0
Size = ℕ

abbrev pub word : ℕ
word = 2 ^ 64

-- `ITEM_MAX`, which is `LLONG_MAX`
abbrev pub item_max : Item
item_max = 2 ^ 63 - 1

-- `SIZE_MAX`
abbrev pub size_max : Size
size_max = 2 ^ 64 - 1

-- `sizeof(item_t)`
abbrev pub item_bytes : ℕ
item_bytes = 8

abbrev pub to_int : Item → ℤ
to_int w = if ltb w (2 ^ 63) then pos w else negsuc (2 ^ 64 - w - 1)

-- `none` where the number is no int64_t.
abbrev pub of_int : ℤ → Option Item
of_int (pos n) = if ltb n (2 ^ 63) then some n else none
of_int (negsuc n) = if ltb n (2 ^ 63) then some (2 ^ 64 - 1 - n) else none
