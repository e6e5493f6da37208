-- ===== src/Utils/Strings/Contents.antt =====
-- The strings that are stored, in libs/utils/strings.c.
use ru_c.Prelude.{
  ℕ, suc, ◌+◌, ◌*◌, ◌%◌, ◌^◌, ◌≤◌, ◌<◌, ◌≡◌, ◌∙◌, ap, sym, refl, inl, inr, Bool, true, Bool-cases,
  some, List, [], ◌∷◌, ◌++◌, append_assoc, append-nil, length, length-append, ltb, leb, ◌==◌,
  if◌then◌else◌, arith,
}
use ru_c.Prelude.Int.{pos}
use ru_c.Utils.Item.{Size, size_max, word}
use ru_c.Utils.Stack.Lifo.{Grants}
use ru_c.Utils.Strings.{
  Strings, strings_add_index, strings_increase, add_chars, push_char, finish_string,
  add_behind_index, strings_add, strings_is_correct,
}

-- The strings with a `\0` behind each.
unfoldable pub bytes_of : List (List ℕ) → List ℕ
bytes_of [] = []
bytes_of (s ∷ strs) = s ++ 0 ∷ bytes_of strs

-- Where they begin, from a place on.
unfoldable pub starts : Size → List (List ℕ) → List Size
starts n [] = []
starts n (s ∷ strs) = n ∷ starts (n + length s + 1) strs

abbrev pub holding : List ℕ → Size → List Size → Size → Strings
holding xs alloc indexes indexes_alloc = record {
  all_strings = some xs;
  all_strings_alloc = alloc;
  indexes = some indexes;
  indexes_alloc = indexes_alloc;
}

strings_increase_once :
    (grant : ℕ → Bool) (xs : List ℕ) (a : Size) (ix : List Size) (b : Size)
    → Grants grant
    → length xs ≤ a
    → 2 ≤ a
    → a ≤ 2 ^ 62
    → length xs + 2 ≤ 2 ^ 60
    → (a' : Size) × (strings_increase grant 65 (holding xs a ix b) 2
        ≡ some (holding xs a' ix b, pos 0))
      × (length xs + 2 ≤ a')
      × (a' ≤ 2 ^ 62)
unfolding strings_increase
strings_increase_once grant xs a ix b grants fits two bound small =
    let exact : (length xs + 2) % word ≡ length xs + 2 = omega arith in
    let exact' : 2 * a % word ≡ 2 * a = omega arith in
    elim (Bool-cases (leb (length xs + 2) a)) [
      | inl e ↦ (a, rw (exact, e) refl, ground arith, bound)
      | inr e ↦
          let e' : leb (length xs + 2) (2 * a) ≡ true = ground arith in
          (2 * a, rw (exact, e, exact', grants (2 * a), e') refl, ground arith, ground arith)
    ]

pub add_chars_step :
    (grant : ℕ → Bool) (c : ℕ) (str : List ℕ) (vec vec' : Strings) (start : Size)
    → strings_increase grant 65 vec 2 ≡ some (vec', pos 0)
    → add_chars grant (c ∷ str) vec start ≡ add_chars grant str (push_char vec' c) start
unfolding add_chars
add_chars_step grant c str vec vec' start e = rw (e, add_chars) refl

add_chars_rest :
    (grant : ℕ → Bool) (str xs : List ℕ) (a : Size) (ix : List Size) (b start : Size)
    → Grants grant
    → length xs + 1 ≤ a
    → 2 ≤ a
    → a ≤ 2 ^ 62
    → length xs + length str + 2 ≤ 2 ^ 60
    → (a' : Size) × (add_chars grant str (holding xs a ix b) start
        ≡ some (finish_string (holding (xs ++ str) a' ix b) start))
      × (length xs + length str + 1 ≤ a')
      × (a' ≤ 2 ^ 62)
unfolding add_chars
add_chars_rest grant [] xs a ix b start grants fits two bound small =
    (a, rw (append-nil xs) refl, omega arith, bound)
add_chars_rest grant (c ∷ str) xs a ix b start grants fits two bound small =
    let (a₁, run, room, bound₁) =
      strings_increase_once grant xs a ix b grants (omega arith) two bound (omega arith) in
    let more : length (xs ++ c ∷ []) ≡ length xs + 1 = length-append xs (c ∷ []) in
    let (a₂, run', room', bound₂) =
      add_chars_rest grant str (xs ++ c ∷ []) a₁ ix b start grants (rw more (omega arith))
        (omega arith) bound₁ (rw more (omega arith)) in
    (
      a₂,
      add_chars_step grant c str (holding xs a ix b) (holding xs a₁ ix b) start run
          ∙ run'
          ∙ ap (λ ys. some (finish_string (holding ys a₂ ix b) start))
              (append_assoc xs (c ∷ []) str),
      omega (arith, room', more),
      bound₂,
    )

append_cons : (s t u : List ℕ) (c : ℕ) → (s ++ c ∷ t) ++ u ≡ s ++ c ∷ (t ++ u)
append_cons [] t u c = refl
append_cons (a ∷ s) t u c = ap (λ ys. a ∷ ys) (append_cons s t u c)

pub bytes_of-append :
    (strs : List (List ℕ)) (str : List ℕ)
    → bytes_of strs ++ (str ++ 0 ∷ []) ≡ bytes_of (strs ++ str ∷ [])
unfolding bytes_of
bytes_of-append [] str = refl
bytes_of-append (s ∷ strs) str =
    append_cons s (bytes_of strs) (str ++ 0 ∷ []) 0
    ∙ ap (λ ys. s ++ 0 ∷ ys) (bytes_of-append strs str)

starts-append :
    (n : Size) (strs : List (List ℕ)) (str : List ℕ)
    → starts n (strs ++ str ∷ []) ≡ starts n strs ++ (n + length (bytes_of strs)) ∷ []
unfolding starts bytes_of
starts-append n [] str = ap (λ k. k ∷ []) (omega arith)
starts-append n (s ∷ strs) str =
    let size : length (s ++ 0 ∷ bytes_of strs) ≡ length s + suc (length (bytes_of strs)) =
      length-append s (0 ∷ bytes_of strs) in
    let place : n + length s + 1 + length (bytes_of strs) ≡ n + length (s ++ 0 ∷ bytes_of strs) =
      omega (arith, size) in
    ap (λ ys. n ∷ ys) (starts-append (n + length s + 1) strs str)
    ∙ ap (λ k. n ∷ (starts (n + length s + 1) strs ++ k ∷ [])) place

pub length-starts : (n : Size) (strs : List (List ℕ)) → length (starts n strs) ≡ length strs
unfolding starts
length-starts n [] = refl
length-starts n (s ∷ strs) = ap suc (length-starts (n + length s + 1) strs)

-- The strings are stored, in storage that is large enough.
abbrev pub IsStored : List (List ℕ) → Strings → Type 0
IsStored strs vec =
    (a : Size) × (b : Size) × (vec ≡ holding (bytes_of strs) a (starts 0 strs) b)
    × (length (bytes_of strs) ≤ a)
    × (2 ≤ a)
    × (a ≤ 2 ^ 62)

add_chars_lem :
    (grant : ℕ → Bool) (c : ℕ) (str xs : List ℕ) (a : Size) (ix : List Size) (b start : Size)
    → Grants grant
    → length xs ≤ a
    → 2 ≤ a
    → a ≤ 2 ^ 62
    → length xs + length str + 3 ≤ 2 ^ 60
    → (a' : Size) × (add_chars grant (c ∷ str) (holding xs a ix b) start
        ≡ some (finish_string (holding (xs ++ c ∷ str) a' ix b) start))
      × (length xs + length str + 2 ≤ a')
      × (a' ≤ 2 ^ 62)
unfolding add_chars
add_chars_lem grant c str xs a ix b start grants fits two bound small =
    let (a₁, run, room, bound₁) =
      strings_increase_once grant xs a ix b grants fits two bound (omega arith) in
    let more : length (xs ++ c ∷ []) ≡ length xs + 1 = length-append xs (c ∷ []) in
    let (a₂, run', room', bound₂) =
      add_chars_rest grant str (xs ++ c ∷ []) a₁ ix b start grants (rw more (omega arith))
        (omega arith) bound₁ (rw more (omega arith)) in
    (
      a₂,
      add_chars_step grant c str (holding xs a ix b) (holding xs a₁ ix b) start run
          ∙ run'
          ∙ ap (λ ys. some (finish_string (holding ys a₂ ix b) start))
              (append_assoc xs (c ∷ []) str),
      omega (arith, room', more),
      bound₂,
    )

strings_add_index-holding :
    (grant : ℕ → Bool) (xs : List ℕ) (a : Size) (ix : List Size) (b : Size)
    → Grants grant
    → (b' : Size) × (strings_add_index grant (holding xs a ix b) ≡ (holding xs a ix b', pos 0))
unfolding strings_add_index
strings_add_index-holding grant xs a ix b grants = elim (Bool-cases (length ix == b)) [
  | inl e ↦ (2 * b % word, rw (e, grants (2 * b * 8 % word)) refl)
  | inr e ↦ (b, rw e refl)
]

pub strings_add-holding :
    (grant : ℕ → Bool) (c : ℕ) (str xs : List ℕ) (a : Size) (ix : List Size) (b : Size)
    → strings_add grant (holding xs a ix b) (c ∷ str)
      ≡ add_behind_index grant (c ∷ str) (length xs) (strings_add_index grant (holding xs a ix b))
unfolding strings_add strings_is_correct
strings_add-holding grant c str xs a ix b =
    let some_char : ltb 0 (length (c ∷ str)) ≡ true = ground arith in
    ap
      (λ t.
        if t
        then add_behind_index grant (c ∷ str) (length xs)
            (strings_add_index grant (holding xs a ix b))
        else some (holding xs a ix b, size_max))
      some_char

-- `strings_add` behind stored strings.
pub strings_add-IsStored :
    (grant : ℕ → Bool) (strs : List (List ℕ)) (str : List ℕ) (vec : Strings)
    → Grants grant
    → IsStored strs vec
    → 0 < length str
    → length (bytes_of strs) + length str + 2 ≤ 2 ^ 60
    → (vec' : Strings) × (strings_add grant vec str ≡ some (vec', length strs))
      × IsStored (strs ++ str ∷ []) vec'
strings_add-IsStored grant strs [] vec grants is some_char small = absurd (omega arith)
strings_add-IsStored grant strs (c ∷ str) vec grants (a, b, e, fits, two, bound) some_char small =
    let xs = bytes_of strs in
    let ix = starts 0 strs in
    let (b', indexed) = strings_add_index-holding grant xs a ix b grants in
    let (a', run, room, bound') =
      add_chars_lem grant c str xs a ix b' (length xs) grants fits two bound (omega arith) in
    let all : (xs ++ c ∷ str) ++ 0 ∷ [] ≡ bytes_of (strs ++ (c ∷ str) ∷ []) =
      append_cons xs str (0 ∷ []) c ∙ bytes_of-append strs (c ∷ str) in
    let total : length (bytes_of (strs ++ (c ∷ str) ∷ [])) ≤ a' = omega (
      arith,
      ap (λ (ys : List ℕ). length ys) all,
      length-append xs (c ∷ str),
      length-append (xs ++ c ∷ str) (0 ∷ []),
      room,
    ) in
    let from_zero : 0 + length xs ≡ length xs = omega arith in
    let places : starts 0 (strs ++ (c ∷ str) ∷ []) ≡ ix ++ length xs ∷ [] =
      starts-append 0 strs (c ∷ str) ∙ ap (λ k. ix ++ k ∷ []) from_zero in
    (
      holding (bytes_of (strs ++ (c ∷ str) ∷ [])) a' (starts 0 (strs ++ (c ∷ str) ∷ [])) b',
      ap (λ v. strings_add grant v (c ∷ str)) e
          ∙ strings_add-holding grant c str xs a ix b
          ∙ ap (add_behind_index grant (c ∷ str) (length xs)) indexed
          ∙ run
          ∙ ap (λ ys. some (holding ys a' (ix ++ length xs ∷ []) b', length ix)) all
          ∙ ap (λ is. some (holding (bytes_of (strs ++ (c ∷ str) ∷ [])) a' is b', length ix))
              (sym places)
          ∙ ap
              (λ n. some (
                holding (bytes_of (strs ++ (c ∷ str) ∷ [])) a' (starts 0 (strs ++ (c ∷ str) ∷ []))
                    b',
                n,
              ))
              (length-starts 0 strs),
      (a', b', refl, total, omega arith, bound'),
    )
