-- ===== src/Macro/Chain.antt =====
-- A chain of waiting operators that gets one more at its bottom.
use ru_c.Prelude.{ℕ, ◌-◌, ◌≤◌, ◌<◌, ◌≡◌, refl, ap, some, List, [], ◌∷◌, ◌++◌, arith}
use ru_c.Utils.Item.{Item, Size}
use ru_c.Macro.Token.{Token, code}
use ru_c.Macro.Arith.{Applied, select}
use ru_c.Macro.Expression.{level}
use ru_c.Macro.Pending.{Waiting, on_operators, on_numbers, collapse, collapse_step, IsSorted}

pub level_pos : (t : Token) → 1 ≤ level t
level_pos Token.l_bound = omega arith
level_pos _ = omega arith

module _ (o : Token) (at : Size) (a : Item) where
  pub on_numbers-append :
      (ts : List Waiting) (ns : List Item)
      → on_numbers (ts ++ (o, at, a) ∷ []) ns ≡ on_numbers ts (a ∷ ns)
  on_numbers-append [] ns = refl
  on_numbers-append ((p, to, b) ∷ ts) ns = ap (◌∷◌ b) (on_numbers-append ts ns)

  pub on_operators-append :
      (ts : List Waiting) (ops : List Item)
      → on_operators (ts ++ (o, at, a) ∷ []) ops ≡ on_operators ts (code o ∷ at ∷ ops)
  on_operators-append [] ops = refl
  on_operators-append ((p, to, b) ∷ ts) ops =
      ap (λ (xs : List Item). code p ∷ to ∷ xs) (on_operators-append ts ops)

  pub IsSorted-append :
      (ts : List Waiting) (lo k : ℕ)
      → IsSorted lo (level o - 1) ts
      → lo < level o
      → level o ≤ k
      → IsSorted lo k (ts ++ (o, at, a) ∷ [])
  IsSorted-append [] lo k h lt le = (lt, le, tt)
  IsSorted-append ((p, to, b) ∷ ts) lo k h lt le =
      let above : level p < level o = omega (arith, level_pos o) in
      (h.0, omega arith, IsSorted-append ts (level p) k h.2 above le)

  pub collapse-append :
      (ts : List Waiting) (b w v : Item)
      → collapse b ts ≡ some w
      → select (some o) a w ≡ Applied.value v
      → collapse b (ts ++ (o, at, a) ∷ []) ≡ some v
  collapse-append [] b w v e picked = let same : b ≡ w = cc in rw (same, picked, collapse)
  collapse-append ((p, to, c) ∷ ts) b w v e picked =
      let (x, first, rest) = collapse_step (select (some p) c b) ts w e in
      rw (first, collapse) (collapse-append ts x w v rest picked)
