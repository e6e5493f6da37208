-- ===== src/Utils/Strings/Safety.antt =====
-- The storage of libs/utils/strings.c, whatever the allocator grants.
use ru_c.Prelude.{
  ℕ, suc, ◌+◌, ◌*◌, ◌%◌, ◌^◌, ◌≤◌, ◌≡◌, ◌⊎◌, ◌∙◌, ap, refl, inl, inr, Bool, true, Bool-cases,
  Option, some, List, [], ◌∷◌, ◌++◌, length, length-append, leb, ◌==◌, arith,
}
use ru_c.Prelude.Int.{pos, negsuc}
use ru_c.Utils.Item.{Size, size_max, word}
use ru_c.Utils.Strings.{
  Strings, all_strings_size, strings_increase, add_chars, add_behind_index, strings_add,
  strings_add_index, strings_is_correct,
}
use ru_c.Utils.Strings.Contents.{bytes_of, holding, add_chars_step, strings_add-holding}
use ru_c.Utils.Strings.Reading.{add_all, add_all_step}

-- Correct strings whose characters fit the storage.
abbrev pub IsSafe : Strings → Type 0
IsSafe vec =
    (xs : List ℕ) × (a : Size) × (ix : List Size) × (b : Size) × (vec ≡ holding xs a ix b)
    × (length xs ≤ a)
    × (2 ≤ a)
    × (a ≤ 2 ^ 62)

-- The result of an addition: safe, and no longer than the bound.
abbrev IsGrown : Size → Option (Strings × Size) → Type 0
IsGrown bound r =
    (vec : Strings) × (index : Size) × (r ≡ some (vec, index))
    × IsSafe vec
    × (all_strings_size vec ≤ bound)

-- Either there is room for two characters more, or the strings are as before but for their storage.
strings_increase_cases :
    (grant : ℕ → Bool) (xs : List ℕ) (a : Size) (ix : List Size) (b : Size)
    → length xs ≤ a
    → 2 ≤ a
    → a ≤ 2 ^ 62
    → length xs + 2 ≤ 2 ^ 60
    → (strings_increase grant 65 (holding xs a ix b) 2 ≡ some (holding xs a ix b, negsuc 0))
      ⊎ ((a' : Size) × (strings_increase grant 65 (holding xs a ix b) 2
            ≡ some (holding xs a' ix b, pos 0))
          × (length xs + 2 ≤ a')
          × (a' ≤ 2 ^ 62))
unfolding strings_increase
strings_increase_cases grant xs a ix b fits two bound small =
    let exact : (length xs + 2) % word ≡ length xs + 2 = omega arith in
    let exact' : 2 * a % word ≡ 2 * a = omega arith in
    elim (Bool-cases (leb (length xs + 2) a)) [
      | inl e ↦ inr (a, rw (exact, e) refl, ground arith, bound)
      | inr e ↦ elim (Bool-cases (grant (2 * a))) [
        | inr refused ↦ inl (rw (exact, e, exact', refused) refl)
        | inl granted ↦
            let e' : leb (length xs + 2) (2 * a) ≡ true = ground arith in
            inr (2 * a, rw (exact, e, exact', granted, e') refl, ground arith, ground arith)
      ]
    ]

add_chars_refused :
    (grant : ℕ → Bool) (c : ℕ) (str : List ℕ) (vec vec' : Strings) (start : Size)
    → strings_increase grant 65 vec 2 ≡ some (vec', negsuc 0)
    → add_chars grant (c ∷ str) vec start ≡ some (vec', size_max)
unfolding add_chars
add_chars_refused grant c str vec vec' start e = rw (e, add_chars) refl

-- A character, where the rest is safe.
add_chars_next :
    (grant : ℕ → Bool) (c : ℕ) (str xs : List ℕ) (a : Size) (ix : List Size) (b start bound : Size)
    → length xs ≤ a
    → 2 ≤ a
    → a ≤ 2 ^ 62
    → length xs + 2 ≤ 2 ^ 60
    → length xs ≤ bound
    → ((a' : Size)
        → length xs + 2 ≤ a'
        → a' ≤ 2 ^ 62
        → IsGrown bound (add_chars grant str (holding (xs ++ c ∷ []) a' ix b) start))
    → IsGrown bound (add_chars grant (c ∷ str) (holding xs a ix b) start)
add_chars_next grant c str xs a ix b start bound fits two limit small le rest =
    elim (strings_increase_cases grant xs a ix b fits two limit small) [
      | inl e ↦ (
        holding xs a ix b,
        size_max,
        add_chars_refused grant c str (holding xs a ix b) (holding xs a ix b) start e,
        (xs, a, ix, b, refl, fits, two, limit),
        le,
      )
      | inr (a', e, room, limit') ↦
          let (vec, index, run, safe, le') = rest a' room limit' in
          (
            vec,
            index,
            add_chars_step grant c str (holding xs a ix b) (holding xs a' ix b) start e ∙ run,
            safe,
            le',
          )
    ]

-- With room for the `\0`.
add_chars_rest_safe :
    (grant : ℕ → Bool) (str xs : List ℕ) (a : Size) (ix : List Size) (b start bound : Size)
    → length xs + 1 ≤ a
    → 2 ≤ a
    → a ≤ 2 ^ 62
    → length xs + length str + 2 ≤ 2 ^ 60
    → length xs + length str + 1 ≤ bound
    → IsGrown bound (add_chars grant str (holding xs a ix b) start)
add_chars_rest_safe grant [] xs a ix b start bound fits two limit small le =
    let more : length (xs ++ 0 ∷ []) ≡ length xs + 1 = length-append xs (0 ∷ []) in
    (
      holding (xs ++ 0 ∷ []) a (ix ++ start ∷ []) b,
      length ix,
      unfold add_chars in refl,
      (xs ++ 0 ∷ [], a, ix ++ start ∷ [], b, refl, omega (arith, more, fits), two, limit),
      omega (arith, more, le),
    )
add_chars_rest_safe grant (c ∷ str) xs a ix b start bound fits two limit small le =
    let more : length (xs ++ c ∷ []) ≡ length xs + 1 = length-append xs (c ∷ []) in
    add_chars_next grant c str xs a ix b start bound (omega arith) two limit (omega arith)
      (omega arith)
      (λ a' room limit'.
        add_chars_rest_safe grant str (xs ++ c ∷ []) a' ix b start bound (omega (arith, more, room))
          (omega (arith, room)) limit' (omega (arith, more, small)) (omega (arith, more, le)))

strings_add_index-cases :
    (grant : ℕ → Bool) (xs : List ℕ) (a : Size) (ix : List Size) (b : Size)
    → (strings_add_index grant (holding xs a ix b) ≡ (holding xs a ix b, negsuc 0))
      ⊎ ((b' : Size) × (strings_add_index grant (holding xs a ix b) ≡ (holding xs a ix b', pos 0)))
unfolding strings_add_index
strings_add_index-cases grant xs a ix b = elim (Bool-cases (length ix == b)) [
  | inr e ↦ inr (b, rw e refl)
  | inl e ↦ elim (Bool-cases (grant (2 * b * 8 % word))) [
    | inl granted ↦ inr (2 * b % word, rw (e, granted) refl)
    | inr refused ↦ inl (rw (e, refused) refl)
  ]
]

strings_add_safe :
    (grant : ℕ → Bool) (str : List ℕ) (vec : Strings) (bound : Size)
    → IsSafe vec
    → all_strings_size vec + length str + 1 ≤ bound
    → bound + 1 ≤ 2 ^ 60
    → IsGrown bound (strings_add grant vec str)
strings_add_safe grant [] vec bound (xs, a, ix, b, e, fits, two, limit) le small =
    let empty : strings_add grant (holding xs a ix b) [] ≡ some (holding xs a ix b, size_max) =
      unfold strings_add strings_is_correct in refl in
    let size : all_strings_size vec ≡ length xs = ap all_strings_size e in
    (
      holding xs a ix b,
      size_max,
      ap (λ v. strings_add grant v []) e ∙ empty,
      (xs, a, ix, b, refl, fits, two, limit),
      omega (arith, size, le),
    )
strings_add_safe grant (c ∷ str) vec bound (xs, a, ix, b, e, fits, two, limit) le small =
    let size : all_strings_size vec ≡ length xs = ap all_strings_size e in
    let first : strings_add grant vec (c ∷ str)
        ≡ add_behind_index grant (c ∷ str) (length xs)
            (strings_add_index grant (holding xs a ix b)) =
      ap (λ v. strings_add grant v (c ∷ str)) e ∙ strings_add-holding grant c str xs a ix b in
    let behind = add_behind_index grant (c ∷ str) (length xs) in
    elim (strings_add_index-cases grant xs a ix b) [
      | inl refused ↦ (
        holding xs a ix b,
        size_max,
        first ∙ ap behind refused,
        (xs, a, ix, b, refl, fits, two, limit),
        omega (arith, size, le),
      )
      | inr (b', added) ↦
          let more : length (xs ++ c ∷ []) ≡ length xs + 1 = length-append xs (c ∷ []) in
          let (vec', index, run, safe, le') =
            add_chars_next grant c str xs a ix b' (length xs) bound fits two limit
              (omega (arith, size, le, small)) (omega (arith, size, le))
              (λ a' room limit'.
                add_chars_rest_safe grant str (xs ++ c ∷ []) a' ix b' (length xs) bound
                  (omega (arith, more, room)) (omega (arith, room)) limit'
                  (omega (arith, more, size, le, small)) (omega (arith, more, size, le))) in
          (vec', index, first ∙ ap behind added ∙ run, safe, le')
    ]

-- Whatever the allocator grants: where strings are added to correct ones, whose characters fit a storage
-- of 2 to 2 ^ 62 bytes, and all are of 2 ^ 60 - 1 bytes together at most, the additions end and leave
-- such strings: no character is written past the storage, even when an addition fails on its way.
pub add_all-IsSafe :
    (grant : ℕ → Bool) (strs : List (List ℕ)) (vec : Strings)
    → IsSafe vec
    → all_strings_size vec + length (bytes_of strs) + 1 ≤ 2 ^ 60
    → (vec' : Strings) × (add_all grant strs vec ≡ some vec') × IsSafe vec'
unfolding add_all bytes_of
add_all-IsSafe grant [] vec safe small = (vec, refl, safe)
add_all-IsSafe grant (s ∷ strs) vec safe small =
    let size : length (s ++ 0 ∷ bytes_of strs) ≡ length s + suc (length (bytes_of strs)) =
      length-append s (0 ∷ bytes_of strs) in
    let (vec₁, index, run, safe₁, le) =
      strings_add_safe grant s vec (all_strings_size vec + length s + 1) safe (omega arith)
        (omega (arith, size, small)) in
    let (vec₂, run', safe₂) =
      add_all-IsSafe grant strs vec₁ safe₁ (omega (arith, size, small, le)) in
    (vec₂, add_all_step grant s strs vec vec₁ index run ∙ run', safe₂)
