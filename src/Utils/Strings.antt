-- ===== src/Utils/Strings.antt =====
-- libs/utils/strings.c. `all_strings` and `indexes` are `none` where the pointer is NULL, and else what
-- stands below the sizes, which are the lengths. A string is the list of its characters, without the
-- `\0` behind it; an argument `vec` or `str` is never NULL.
-- `grant` is the C allocator: whether a request for so many bytes succeeds.
mod Tests
pub mod Contents
pub mod Reading
pub mod Safety
pub mod Lengths
use ru_c.Prelude.{
  ℕ, zero, suc, ◌+◌, ◌-◌, ◌*◌, ◌%◌, ◌^◌, Bool, true, false, Option, none, some, List, [], ◌∷◌, ◌++◌,
  ltb, leb, ◌==◌, ◌&&◌, if◌then◌else◌, length, get_or, take, drop,
}
use ru_c.Prelude.Int.{ℤ, pos, negsuc}
use ru_c.Utils.Item.{Size, word, size_max}

pub record Strings : Type 0 where
  pub all_strings : Option (List ℕ)
  pub all_strings_alloc : Size
  pub indexes : Option (List Size)
  pub indexes_alloc : Size

-- `AVERAGE_STRING_SIZE`
abbrev pub average_string_size : Size
average_string_size = 256

-- What a pointer points to.
abbrev pub stored : Option (List ℕ) → List ℕ
stored none = []
stored (some xs) = xs

abbrev pub is_there : Option (List ℕ) → Bool
is_there none = false
is_there (some xs) = true

-- `all_strings_size`
abbrev pub all_strings_size : Strings → Size
all_strings_size vec = length (stored vec.all_strings)

-- `indexes_size`
abbrev pub indexes_size : Strings → Size
indexes_size vec = length (stored vec.indexes)

unfoldable pub strings_is_correct : Strings → Bool
strings_is_correct vec = is_there vec.indexes && is_there vec.all_strings

-- The string that begins at a place: the characters up to `\0`.
abbrev pub string_at : List ℕ → List ℕ
string_at [] = []
string_at (c ∷ cs) = let rest = string_at cs in if c == 0 then [] else c ∷ rest

-- `vec->all_strings[vec->all_strings_size++] = c`
abbrev pub push_char : Strings → ℕ → Strings
push_char vec c = record vec { all_strings = some (stored vec.all_strings ++ c ∷ []) }

-- The end of `strings_add`, whose string began at `start`.
abbrev pub finish_string : Strings → Size → Strings × Size
finish_string vec start = (
  record vec {
    all_strings = some (stored vec.all_strings ++ 0 ∷ []);
    indexes = some (stored vec.indexes ++ start ∷ []);
  },
  indexes_size vec,
)

module _ (grant : ℕ → Bool) where
  -- The code and the allocated size; the index is written behind the others.
  unfoldable pub strings_add_index : Strings → Strings × ℤ
  strings_add_index vec =
      if indexes_size vec == vec.indexes_alloc
      then (if grant (2 * vec.indexes_alloc * 8 % word)
          then (record vec { indexes_alloc = 2 * vec.indexes_alloc % word }, pos 0)
          else (vec, negsuc 0))
      else (vec, pos 0)

  -- `none` is no result: the fuel ran out.
  unfoldable pub strings_increase : ℕ → Strings → Size → Option (Strings × ℤ)
  strings_increase zero vec size = none
  strings_increase (suc fuel) vec size =
      let twice = 2 * vec.all_strings_alloc % word in
      let rest = strings_increase fuel (record vec { all_strings_alloc = twice }) size in
      if leb ((all_strings_size vec + size) % word) vec.all_strings_alloc
      then some (vec, pos 0)
      else (if grant twice then rest else some (vec, negsuc 0))

  unfoldable pub strings_create : Size → Strings
  strings_create alloc =
      let n = if alloc == 0 then 1 else alloc in
      let size = n * average_string_size % word in
      let has_indexes = grant (n * 8 % word) in
      record {
        all_strings = if has_indexes && grant size then some [] else none;
        all_strings_alloc = size;
        indexes = if has_indexes then some [] else none;
        indexes_alloc = n;
      }

  -- The loop of `strings_add`, and what is behind it. It doubles the storage for as long as the size
  -- fits 64 bits, 64 times at most.
  unfoldable pub add_chars : List ℕ → Strings → Size → Option (Strings × Size)
  unfolding strings_increase
  add_chars [] vec start = some (finish_string vec start)
  add_chars (c ∷ str) vec start = elim (strings_increase 65 vec 2) [
    | none ↦ none
    | some (vec', pos zero) ↦ add_chars str (push_char vec' c) start
    | some (vec', code) ↦ some (vec', size_max)
  ]

  -- What `strings_add` does behind `strings_add_index`.
  abbrev pub add_behind_index : List ℕ → Size → Strings × ℤ → Option (Strings × Size)
  add_behind_index str start (vec, pos zero) = add_chars str vec start
  add_behind_index str start (vec, code) = some (vec, size_max)

  unfoldable pub strings_add : Strings → List ℕ → Option (Strings × Size)
  unfolding strings_is_correct strings_add_index add_chars
  strings_add vec str =
      if strings_is_correct vec && ltb 0 (length str)
      then add_behind_index str (all_strings_size vec) (strings_add_index vec)
      else some (vec, size_max)

-- The string; `none` is NULL.
unfoldable pub strings_get : Strings → Size → Option (List ℕ)
unfolding strings_is_correct
strings_get vec index =
    if strings_is_correct vec && ltb index (indexes_size vec)
    then some (string_at (drop (get_or (stored vec.indexes) index 0) (stored vec.all_strings)))
    else none

unfoldable pub strings_get_length : Strings → Size → Size
unfolding strings_is_correct
strings_get_length vec index =
    let start = get_or (stored vec.indexes) index 0 in
    if strings_is_correct vec && ltb index (indexes_size vec)
    then (if index == indexes_size vec - 1
        then all_strings_size vec - start - 1
        else get_or (stored vec.indexes) (index + 1) 0 - start - 1)
    else 0

-- The string stands behind the new size, as before.
unfoldable pub strings_remove : Strings → Strings × Option (List ℕ)
unfolding strings_is_correct
strings_remove vec =
    let last = indexes_size vec - 1 in
    let start = get_or (stored vec.indexes) last 0 in
    if strings_is_correct vec && ltb 0 (indexes_size vec)
    then (
      record vec {
        all_strings = some (take start (stored vec.all_strings));
        indexes = some (take last (stored vec.indexes));
      },
      some (string_at (drop start (stored vec.all_strings))),
    )
    else (vec, none)

unfoldable pub strings_size : Strings → Size
unfolding strings_is_correct
strings_size vec = if strings_is_correct vec then indexes_size vec else size_max

unfoldable pub strings_clear : Strings → Strings × ℤ
unfolding strings_is_correct
strings_clear vec =
    if strings_is_correct vec
    then (record vec { all_strings = none; indexes = none }, pos 0)
    else (vec, negsuc 0)
