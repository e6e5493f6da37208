-- ===== src/Utils/Strings/Tests.antt =====
-- Runs of strings.
use ru_c.Prelude.{
  ℕ, ◌≡◌, refl, Bool, true, none, some, List, [], ◌∷◌, leb, get_elem?, get_or, length, arith,
}
use ru_c.Utils.Item.{Size}
use ru_c.Utils.Stack.Lifo.{Grants}
use ru_c.Utils.Strings.{
  Strings, strings_is_correct, strings_add_index, strings_increase, strings_create, add_chars,
  strings_add, strings_get, strings_get_length, strings_remove, strings_size,
}
use ru_c.Utils.Strings.Contents.{bytes_of, holding}
use ru_c.Utils.Strings.Reading.{AreStrings, add_all, strings_get-add_all}
use ru_c.Utils.Strings.Safety.{IsSafe, add_all-IsSafe}

abbrev grant_all : ℕ → Bool
grant_all n = true

grant_all-Grants : Grants grant_all
grant_all-Grants n = refl

program : Unit {0}
unfolding strings_is_correct strings_add_index strings_increase strings_create add_chars strings_add
    strings_get strings_get_length strings_remove strings_size bytes_of add_all
program = tt

-- `if` and `else`
abbrev words : List (List ℕ)
words = (b'i' ∷ b'f' ∷ []) ∷ (b'e' ∷ b'l' ∷ b's' ∷ b'e' ∷ []) ∷ []

words-AreStrings : AreStrings words
words-AreStrings = (
  omega arith,
  (omega arith, (omega arith, tt)),
  (omega arith, (omega arith, (omega arith, (omega arith, (omega arith, tt)))), tt),
)

strings_get-add_all_example :
    (vec : Strings) × (add_all grant_all words (strings_create grant_all 1) ≡ some vec)
    × (strings_get vec 1 ≡ get_elem? words 1)
    × (strings_get_length vec 1 ≡ length (get_or words 1 []))
strings_get-add_all_example =
    strings_get-add_all grant_all 1 words 1 grant_all-Grants (omega arith) words-AreStrings
      (unfold program in omega arith)

-- The lengths, and the string that is removed.
lengths :
    elim (add_all grant_all words (strings_create grant_all 1)) as (λ r. List Size) [
      | none ↦ []
      | some vec ↦
          strings_size vec
          ∷ strings_get_length vec 0
          ∷ strings_get_length vec 1
          ∷ strings_size (strings_remove vec).0
          ∷ []
    ]
    ≡ 2 ∷ 2 ∷ 4 ∷ 1 ∷ []
unfolding program
lengths = refl

-- Requests up to 3 bytes are granted.
abbrev grant_small : ℕ → Bool
grant_small n = leb n 3

abbrev full : Strings
full = holding (b'a' ∷ 0 ∷ []) 3 (0 ∷ []) 8

full-IsSafe : IsSafe full
full-IsSafe = (b'a' ∷ 0 ∷ [], 3, 0 ∷ [], 8, refl, omega arith, omega arith, omega arith)

add_all-IsSafe_example : (vec : Strings) × (add_all grant_small words full ≡ some vec) × IsSafe vec
add_all-IsSafe_example =
    add_all-IsSafe grant_small words full full-IsSafe (unfold program in omega arith)
