-- ===== src/Utils/Utf8/Codepages/Cases.antt =====
-- A `switch` of libs/utils/utf8.c as a table.
use ru_c.Prelude.{ℕ, List, [], ◌∷◌, ◌==◌, if◌then◌else◌}

-- The value of the case that the symbol takes, or that of the `default`.
unfoldable pub case_of {ℓ} : {A : Type ℓ} → List (ℕ × A) → A → ℕ → A
case_of [] default symbol = default
case_of ((k, v) ∷ cases) default symbol =
    let rest = case_of cases default symbol in if symbol == k then v else rest
