-- ===== src/Utils/Strings/Reading.antt =====
-- strings_get of libs/utils/strings.c on what strings_add stored.
use ru_c.Prelude.{
  ℕ, zero, suc, ◌+◌, ◌*◌, ◌%◌, ◌^◌, ◌≤◌, ◌<◌, ◌≡◌, ◌≢◌, ◌∙◌, ap, sym, refl, inl, inr, Bool,
  Bool-cases, Option, none, some, List, [], ◌∷◌, ◌++◌, append_assoc, append-nil, length,
  length-append, ltb, ◌==◌, if◌then◌else◌, get_or, get_elem?, drop, arith,
}
use ru_c.Utils.Item.{Size, word}
use ru_c.Utils.Stack.Lifo.{Grants}
use ru_c.Utils.Strings.{
  Strings, string_at, strings_add, strings_is_correct, strings_create, strings_get,
  strings_get_length,
}
use ru_c.Utils.Strings.Lengths.{strings_get_length-IsStored}
use ru_c.Utils.Strings.Contents.{
  bytes_of, starts, length-starts, IsStored, strings_add-IsStored, bytes_of-append,
}

abbrev pub HasNoZero : List ℕ → Type 0
HasNoZero [] = Unit {0}
HasNoZero (c ∷ str) = (c ≢ 0) × HasNoZero str

-- Strings of C that are not empty.
abbrev pub AreStrings : List (List ℕ) → Type 0
AreStrings [] = Unit {0}
AreStrings (s ∷ strs) = (0 < length s) × HasNoZero s × AreStrings strs

string_at-append : (s rest : List ℕ) → HasNoZero s → string_at (s ++ 0 ∷ rest) ≡ s
string_at-append [] rest h = refl
string_at-append (c ∷ s) rest (other, h) = ground (arith, string_at-append s rest h)

drop-append : (xs ys : List ℕ) → drop (length xs) (xs ++ ys) ≡ ys
drop-append [] ys = refl
drop-append (x ∷ xs) ys = drop-append xs ys

-- The string that begins at the place of an index.
string_at-starts :
    (before : List ℕ) (strs : List (List ℕ)) (i : Size)
    → AreStrings strs
    → i < length strs
    → some (string_at (drop (get_or (starts (length before) strs) i 0) (before ++ bytes_of strs)))
      ≡ get_elem? strs i
unfolding starts bytes_of
string_at-starts before [] i are lt = absurd (omega arith)
string_at-starts before (s ∷ strs) zero (some_char, h, are) lt =
    ap (λ ys. some (string_at ys)) (drop-append before (s ++ 0 ∷ bytes_of strs))
    ∙ ap some (string_at-append s (bytes_of strs) h)
string_at-starts before (s ∷ strs) (suc i) (some_char, h, are) lt =
    let behind = before ++ (s ++ 0 ∷ []) in
    let size : length behind ≡ length before + length s + 1 =
      omega (arith, length-append before (s ++ 0 ∷ []), length-append s (0 ∷ [])) in
    let all : behind ++ bytes_of strs ≡ before ++ (s ++ 0 ∷ bytes_of strs) =
      append_assoc before (s ++ 0 ∷ []) (bytes_of strs)
      ∙ ap (λ ys. before ++ ys) (append_assoc s (0 ∷ []) (bytes_of strs)) in
    let read =
      λ (n : Size) (xs : List ℕ). some (string_at (drop (get_or (starts n strs) i 0) xs)) in
    sym (ap (λ n. read n (before ++ (s ++ 0 ∷ bytes_of strs))) size)
    ∙ sym (ap (read (length behind)) all)
    ∙ string_at-starts behind strs i are (omega arith)

get_elem?-past : (strs : List (List ℕ)) (i : Size) → length strs ≤ i → get_elem? strs i ≡ none
get_elem?-past [] i h = refl
get_elem?-past (s ∷ strs) zero h = absurd (omega arith)
get_elem?-past (s ∷ strs) (suc i) h = get_elem?-past strs i (omega arith)

strings_get-IsStored :
    (strs : List (List ℕ)) (vec : Strings) (i : Size)
    → IsStored strs vec
    → AreStrings strs
    → strings_get vec i ≡ get_elem? strs i
unfolding strings_get strings_is_correct
strings_get-IsStored strs vec i (a, b, e, fits, two, bound) are =
    let size = length-starts 0 strs in
    ap (λ v. strings_get v i) e ∙ elim (Bool-cases (ltb i (length strs))) [
      | inl h ↦ rw (size, h) (string_at-starts [] strs i are (ground arith))
      | inr h ↦ rw (size, h) (sym (get_elem?-past strs i (ground arith)))
    ]

-- The calls of `strings_add`, one after another; the indices are not kept.
unfoldable pub add_all : (ℕ → Bool) → List (List ℕ) → Strings → Option Strings
unfolding strings_add
add_all grant [] vec = some vec
add_all grant (s ∷ strs) vec = elim (strings_add grant vec s) [
  | none ↦ none
  | some (vec', index) ↦ add_all grant strs vec'
]

pub add_all_step :
    (grant : ℕ → Bool) (s : List ℕ) (strs : List (List ℕ)) (vec vec' : Strings) (index : Size)
    → strings_add grant vec s ≡ some (vec', index)
    → add_all grant (s ∷ strs) vec ≡ add_all grant strs vec'
unfolding add_all
add_all_step grant s strs vec vec' index e = rw (e, add_all) refl

add_all-IsStored :
    (grant : ℕ → Bool) (before strs : List (List ℕ)) (vec : Strings)
    → Grants grant
    → IsStored before vec
    → AreStrings strs
    → length (bytes_of before) + length (bytes_of strs) + 2 ≤ 2 ^ 60
    → (vec' : Strings) × (add_all grant strs vec ≡ some vec') × IsStored (before ++ strs) vec'
unfolding add_all bytes_of
add_all-IsStored grant before [] vec grants is are small = (vec, refl, rw (append-nil before) is)
add_all-IsStored grant before (s ∷ strs) vec grants is (some_char, h, are) small =
    let size : length (s ++ 0 ∷ bytes_of strs) ≡ length s + suc (length (bytes_of strs)) =
      length-append s (0 ∷ bytes_of strs) in
    let (vec₁, run, is₁) =
      strings_add-IsStored grant before s vec grants is some_char (omega (arith, size, small)) in
    let more : length (bytes_of (before ++ s ∷ [])) ≡ length (bytes_of before) + (length s + 1) =
      omega (
        arith,
        ap (λ (ys : List ℕ). length ys) (bytes_of-append before s),
        length-append (bytes_of before) (s ++ 0 ∷ []),
        length-append s (0 ∷ []),
      ) in
    let (vec₂, run', is₂) =
      add_all-IsStored grant (before ++ s ∷ []) strs vec₁ grants is₁ are
        (omega (arith, size, small, more)) in
    (
      vec₂,
      add_all_step grant s strs vec vec₁ (length before) run ∙ run',
      rw (append_assoc before (s ∷ []) strs) at is₂,
    )

created-IsStored :
    (grant : ℕ → Bool) (alloc : Size)
    → Grants grant
    → alloc < 2 ^ 53
    → IsStored [] (strings_create grant alloc)
unfolding strings_create bytes_of starts
created-IsStored grant alloc grants small =
    let n = if alloc == 0 then 1 else alloc in
    let exact : n * 256 % word ≡ n * 256 = ground arith in
    (
      n * 256 % word,
      n,
      rw (grants (n * 8 % word), grants (n * 256 % word)) refl,
      omega arith,
      ground arith,
      ground arith,
    )

-- Where the allocator grants all requests, and strings are created for fewer than 2 ^ 53: those that are
-- then added one after another, none of them empty or with a `\0` and of 2 ^ 60 - 2 bytes together
-- at most, are read at their positions with their lengths, and NULL with the length 0 is read at
-- and past their number.
pub strings_get-add_all :
    (grant : ℕ → Bool) (alloc : Size) (strs : List (List ℕ)) (i : Size)
    → Grants grant
    → alloc < 2 ^ 53
    → AreStrings strs
    → length (bytes_of strs) + 2 ≤ 2 ^ 60
    → (vec : Strings) × (add_all grant strs (strings_create grant alloc) ≡ some vec)
      × (strings_get vec i ≡ get_elem? strs i)
      × (strings_get_length vec i ≡ length (get_or strs i []))
strings_get-add_all grant alloc strs i grants small are fits =
    let created = created-IsStored grant alloc grants small in
    let (vec, run, is) =
      add_all-IsStored grant [] strs (strings_create grant alloc) grants created are
        (unfold bytes_of in omega (arith, fits)) in
    (vec, run, strings_get-IsStored strs vec i is are, strings_get_length-IsStored strs vec i is)
