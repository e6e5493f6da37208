-- ===== src/Utils/Strings/Lengths.antt =====
-- strings_get_length of libs/utils/strings.c on what strings_add stored.
use ru_c.Prelude.{
  ℕ, zero, suc, ◌+◌, ◌-◌, ◌<◌, ◌≡◌, ◌∙◌, ap, refl, inl, inr, true, false, Bool-cases, List, [], ◌∷◌,
  ◌++◌, length, length-append, ltb, ◌==◌, if◌then◌else◌, get_or, get_or_past, arith,
}
use ru_c.Utils.Item.{Size}
use ru_c.Utils.Strings.{Strings, strings_is_correct, strings_get_length}
use ru_c.Utils.Strings.Contents.{bytes_of, starts, length-starts, IsStored}

-- Where the string behind a string begins, or the strings end.
next_start :
    (n : Size) (strs : List (List ℕ)) (i : Size)
    → i < length strs
    → (if i == length strs - 1
        then n + length (bytes_of strs)
        else get_or (starts n strs) (i + 1) 0)
      ≡ get_or (starts n strs) i 0 + length (get_or strs i []) + 1
unfolding starts bytes_of
next_start n [] i lt = absurd (omega arith)
next_start n (s ∷ []) zero lt =
    let size : length (s ++ 0 ∷ []) ≡ length s + 1 = length-append s (0 ∷ []) in
    ground (arith, size)
next_start n (s ∷ []) (suc i) lt = absurd (omega arith)
next_start n (s ∷ t ∷ strs) zero lt = ground arith
next_start n (s ∷ t ∷ strs) (suc i) lt =
    let size : length (s ++ 0 ∷ bytes_of (t ∷ strs))
        ≡ length s + suc (length (bytes_of (t ∷ strs))) =
      length-append s (0 ∷ bytes_of (t ∷ strs)) in
    let rest = next_start (n + length s + 1) (t ∷ strs) i (omega arith) in
    let total : n + length (s ++ 0 ∷ bytes_of (t ∷ strs))
        ≡ n + length s + 1 + length (bytes_of (t ∷ strs)) =
      omega (arith, size) in
    let step : suc i + 1 ≡ suc (i + 1) = omega arith in
    elim (Bool-cases (i == length (t ∷ strs) - 1)) [
      | inl e ↦
          let e' : (suc i == length (s ∷ t ∷ strs) - 1) ≡ true = ground arith in
          rw e' (total ∙ (rw e at rest))
      | inr e ↦
          let e' : (suc i == length (s ∷ t ∷ strs) - 1) ≡ false = ground arith in
          rw e' (ap (λ j. get_or (starts n (s ∷ t ∷ strs)) j 0) step ∙ (rw e at rest))
    ]

-- In stored strings strings_get_length is the length of the string at an index, and 0 at and past their
-- number.
pub strings_get_length-IsStored :
    (strs : List (List ℕ)) (vec : Strings) (i : Size)
    → IsStored strs vec
    → strings_get_length vec i ≡ length (get_or strs i [])
unfolding strings_get_length strings_is_correct
strings_get_length-IsStored strs vec i (a, b, e, fits, two, bound) =
    let xs = bytes_of strs in
    let ix = starts 0 strs in
    let size = length-starts 0 strs in
    ap (λ v. strings_get_length v i) e ∙ elim (Bool-cases (ltb i (length strs))) [
      | inl h ↦
          let next = next_start 0 strs i (ground arith) in
          elim (Bool-cases (i == length strs - 1)) [
            | inl l ↦
                let ends : 0 + length xs ≡ get_or ix i 0 + length (get_or strs i []) + 1 =
                  rw l at next in
                rw (size, h, l) (omega (arith, ends))
            | inr l ↦
                let ends : get_or ix (i + 1) 0 ≡ get_or ix i 0 + length (get_or strs i []) + 1 =
                  rw l at next in
                rw (size, h, l) (omega (arith, ends))
          ]
      | inr h ↦
          let past : get_or strs i [] ≡ [] = get_or_past strs i [] (ground arith) in
          rw (size, h, past) refl
    ]
