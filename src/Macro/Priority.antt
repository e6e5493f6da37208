-- ===== src/Macro/Priority.antt =====
-- `computer_compare_priority` against the levels of the grammar.
use ru_c.Prelude.{
  ℕ, zero, suc, ◌≤◌, ◌≡◌, refl, Bool, true, false, not, ◌&&◌, ◌||◌, some, List, [], ◌∷◌, ltb, leb,
  ◌==◌, if◌then◌else◌, get_elem?, arith,
}
use ru_c.Prelude.Int.{ℤ, pos, negsuc}
use ru_c.Utils.Item.{item_max}
use ru_c.Macro.Token.{Token, code, tokens, token_of_item, token_of_item-code}
use ru_c.Macro.Operators.{computer_compare_priority, priority_case}
use ru_c.Macro.Computer.{is_opening}
use ru_c.Macro.Expression.{level}

-- Tighter operators have the lower level: 1, 0 and -1 for a tighter, an equal and a looser one.
abbrev pub by_levels : Token → Token → ℤ
by_levels fst snd =
    if ltb (level fst) (level snd)
    then pos 1
    else if level fst == level snd
    then pos 0
    else negsuc 0

abbrev same_ℤ : ℤ → ℤ → Bool
same_ℤ (pos a) (pos b) = a == b
same_ℤ (negsuc a) (negsuc b) = a == b
same_ℤ _ _ = false

same_ℤ-eq : (a b : ℤ) → same_ℤ a b ≡ true → a ≡ b
same_ℤ-eq (pos a) (pos b) h = ground arith
same_ℤ-eq (negsuc a) (negsuc b) h = ground arith
same_ℤ-eq (pos a) (negsuc b) h = cc
same_ℤ-eq (negsuc a) (pos b) h = cc

all_hold : (Token → Bool) → List Token → Bool
all_hold p [] = true
all_hold p (t ∷ ts) = p t && all_hold p ts

all_hold-get :
    (p : Token → Bool) (ts : List Token) (i : ℕ) (t : Token)
    → all_hold p ts ≡ true
    → get_elem? ts i ≡ some t
    → p t ≡ true
unfolding all_hold
all_hold-get p [] i t h e = cc
all_hold-get p (x ∷ ts) zero t h e = ground arith
all_hold-get p (x ∷ ts) (suc i) t h e = all_hold-get p ts i t (ground arith) e

all_hold-every : (p : Token → Bool) (t : Token) → all_hold p tokens ≡ true → p t ≡ true
all_hold-every p t h =
    all_hold-get p tokens (code t) t h (unfold token_of_item in token_of_item-code t)

priority_agrees : Token → Token → Bool
priority_agrees o t =
    not (leb (level o) 10)
    || not (leb (level t) 10)
    || same_ℤ (computer_compare_priority (code o) (code t)) (by_levels o t)

priority_table : all_hold (λ o. all_hold (priority_agrees o) tokens) tokens ≡ true
unfolding all_hold priority_agrees computer_compare_priority priority_case token_of_item
priority_table = refl

-- On two binary operators `computer_compare_priority` is 1, 0 or -1 as the first is of a tighter, the
-- same or a looser level of the C grammar than the second.
pub computer_compare_priority-level :
    (fst snd : Token)
    → level fst ≤ 10
    → level snd ≤ 10
    → computer_compare_priority (code fst) (code snd) ≡ by_levels fst snd
unfolding priority_agrees
computer_compare_priority-level fst snd hf hs =
    let row = all_hold-every (λ o. all_hold (priority_agrees o) tokens) fst priority_table in
    let entry = all_hold-every (priority_agrees fst) snd row in same_ℤ-eq _ _ (ground arith)

-- A binary operator is none of the tokens that open an operand, and no bracket.
pub is_opening-level :
    (t : Token) → level t ≤ 10 → (is_opening t ≡ false) × ((code t == code Token.r_bound) ≡ false)
is_opening-level Token.l_bound h = absurd (omega arith)
is_opening-level Token.r_bound h = absurd (omega arith)
is_opening-level Token.compl h = absurd (omega arith)
is_opening-level Token.not h = absurd (omega arith)
is_opening-level Token.u_negation h = absurd (omega arith)
is_opening-level Token.u_plus h = absurd (omega arith)
is_opening-level _ h = (refl, refl)

-- Nor is it the mark of an empty stack.
pub code-level :
    (t : Token)
    → level t ≤ 10
    → ((code t == item_max) ≡ false) × ((code t == code Token.l_bound) ≡ false)
code-level Token.l_bound h = absurd (omega arith)
code-level Token.r_bound h = absurd (omega arith)
code-level Token.compl h = absurd (omega arith)
code-level Token.not h = absurd (omega arith)
code-level Token.u_negation h = absurd (omega arith)
code-level Token.u_plus h = absurd (omega arith)
code-level _ h = (refl, refl)
