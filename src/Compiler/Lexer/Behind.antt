-- ===== src/Compiler/Lexer/Behind.antt =====
-- The text behind what lexer.c skips.
use ru_c.Prelude.{
  ℕ, ◌≤◌, ◌≡◌, Bool, true, false, ◌||◌, List, [], ◌∷◌, length, ◌==◌, if◌then◌else◌, arith,
  Bool-cases, inl, inr,
}
use ru_c.Utils.Utf8.Letters.{utf8_is_digit, utf8_is_letter}
use ru_c.Compiler.Lexer.Source.{
  scan, is_space, skip_whitespace, skip_line_comment, skip_block_comment,
}
use ru_c.Compiler.Lexer.Switch.{read_name}

-- The text ends in two line breaks, or is the end of such a text.
unfoldable pub IsTerminated : List ℕ → Type 0
IsTerminated [] = Unit {0}
IsTerminated (c ∷ []) = c ≡ b'\n'
IsTerminated (c ∷ d ∷ []) = (c ≡ b'\n') × (d ≡ b'\n')
IsTerminated (c ∷ d ∷ e ∷ text) = IsTerminated (d ∷ e ∷ text)

-- What is left of a text when some of it is skipped.
abbrev pub IsBehind : List ℕ → List ℕ → Type 0
IsBehind rest text = (length rest ≤ length text) × (IsTerminated text → IsTerminated rest)

pub IsTerminated-tail : (c : ℕ) (text : List ℕ) → IsTerminated (c ∷ text) → IsTerminated text
unfolding IsTerminated
IsTerminated-tail c [] h = tt
IsTerminated-tail c (d ∷ []) h = h.1
IsTerminated-tail c (d ∷ e ∷ text) h = h

pub IsBehind-refl : (text : List ℕ) → IsBehind text text
IsBehind-refl text = (omega arith, λ h. h)

pub IsBehind-trans : (s t u : List ℕ) → IsBehind s t → IsBehind t u → IsBehind s u
IsBehind-trans s t u (le, keep) (le', keep') = (omega arith, λ h. keep (keep' h))

pub IsBehind-cons : (c : ℕ) (s t : List ℕ) → IsBehind s t → IsBehind s (c ∷ t)
IsBehind-cons c s t (le, keep) = (omega arith, λ h. keep (IsTerminated-tail c t h))

pub IsBehind-scan : (text : List ℕ) → IsBehind (scan text) text
IsBehind-scan [] = IsBehind-refl []
IsBehind-scan (c ∷ text) = IsBehind-cons c text text (IsBehind-refl text)

-- Either of two texts.
IsBehind-if :
    (b : Bool) (s s' t : List ℕ) → IsBehind s t → IsBehind s' t → IsBehind (if b then s else s') t
IsBehind-if true s s' t h h' = h
IsBehind-if false s s' t h h' = h'

pub IsBehind-skip_whitespace : (text : List ℕ) → IsBehind (skip_whitespace text) text
unfolding skip_whitespace
IsBehind-skip_whitespace [] = IsBehind-refl []
IsBehind-skip_whitespace (c ∷ text) =
    IsBehind-if (is_space c) (skip_whitespace text) (c ∷ text) (c ∷ text)
      (IsBehind-cons c (skip_whitespace text) text (IsBehind-skip_whitespace text))
      (IsBehind-refl (c ∷ text))

pub IsBehind-skip_line_comment : (text : List ℕ) → IsBehind (skip_line_comment text) text
unfolding skip_line_comment
IsBehind-skip_line_comment [] = IsBehind-refl []
IsBehind-skip_line_comment (c ∷ text) =
    IsBehind-if (c == b'\n') (c ∷ text) (skip_line_comment text) (c ∷ text)
      (IsBehind-refl (c ∷ text))
      (IsBehind-cons c (skip_line_comment text) text (IsBehind-skip_line_comment text))

pub IsBehind-skip_block_comment : (text : List ℕ) → IsBehind (skip_block_comment text).0 text
unfolding skip_block_comment
IsBehind-skip_block_comment [] = IsBehind-refl []
IsBehind-skip_block_comment (c ∷ []) = IsBehind-scan (c ∷ [])
IsBehind-skip_block_comment (c ∷ d ∷ text) =
    let over = λ (s : List ℕ) (h : IsBehind s text).
      IsBehind-cons c s (d ∷ text) (IsBehind-cons d s text h) in
    let next = IsBehind-skip_block_comment (d ∷ text) in
    let after_next = IsBehind-skip_block_comment text in
    elim (Bool-cases (c == b'*')) [
      | inr e ↦ rw e (IsBehind-cons c (skip_block_comment (d ∷ text)).0 (d ∷ text) next)
      | inl e ↦ elim (Bool-cases (d == b'/')) [
        | inl e' ↦ rw (e, e') (over text (IsBehind-refl text))
        | inr e' ↦ rw (e, e') (over (skip_block_comment text).0 after_next)
      ]
    ]

pub IsBehind-read_name : (text : List ℕ) → IsBehind (read_name text).1 text
unfolding read_name
IsBehind-read_name [] = IsBehind-refl []
IsBehind-read_name (c ∷ text) = elim (Bool-cases (utf8_is_letter c || utf8_is_digit c)) [
  | inl e ↦ rw e (IsBehind-cons c (read_name text).1 text (IsBehind-read_name text))
  | inr e ↦ rw e (IsBehind-refl (c ∷ text))
]
