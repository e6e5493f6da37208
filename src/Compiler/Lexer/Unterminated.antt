-- ===== src/Compiler/Lexer/Unterminated.antt =====
-- String literals without an end, in lexer.c.
use ru_c.Prelude.{
  ℕ, zero, suc, ◌≡◌, ◌≢◌, refl, true, ◌&&◌, not, none, List, [], ◌∷◌, ◌++◌, ◌==◌, arith, inl, inr,
}
use ru_c.Utils.Item.{Size}
use ru_c.Compiler.Lexer.Source.{character, scan, Message}
use ru_c.Compiler.Lexer.Text.{get_next_string_elem, string_elems}
use ru_c.Compiler.Lexer.Strings.{get_next_string_elem-text}

-- Neither a quote nor a line break stands in the text.
abbrev pub IsUnterminated : List ℕ → Type 0
IsUnterminated [] = Unit {0}
IsUnterminated (c ∷ text) = (c ≢ b'"') × (c ≢ b'\n') × IsUnterminated text

IsUnterminated-scan : (text : List ℕ) → IsUnterminated text → IsUnterminated (scan text)
IsUnterminated-scan [] h = tt
IsUnterminated-scan (c ∷ text) h = h.2

goes_on :
    (text : List ℕ)
    → IsUnterminated text
    → (not (character text == b'"') && not (character text == b'\n')) ≡ true
goes_on [] h = refl
goes_on (c ∷ text) (quote, line, h) = ground arith

IsUnterminated-get_next_string_elem :
    (total : Size) (text : List ℕ)
    → IsUnterminated text
    → IsUnterminated (scan (get_next_string_elem total text).1)
IsUnterminated-get_next_string_elem total text h = elim (get_next_string_elem-text total text) [
  | inl e ↦ rw e (IsUnterminated-scan (scan text) (IsUnterminated-scan text h))
  | inr e ↦ rw e (IsUnterminated-scan text h)
]

-- Where neither a quote nor a line break is left before the end of the file, the loop over the
-- elements of a string literal does not end: no number of rounds gives a result.
pub string_elems_unterminated :
    (fuel : ℕ) (total : Size) (text lexstr : List ℕ) (messages : List Message)
    → IsUnterminated text
    → string_elems fuel total text lexstr messages ≡ none
unfolding string_elems
string_elems_unterminated zero total text lexstr messages h = refl
string_elems_unterminated (suc fuel) total text lexstr messages h =
    let elem = get_next_string_elem total text in
    rw
      (
        goes_on text h,
        string_elems_unterminated fuel total (scan elem.1) (lexstr ++ elem.0 ∷ [])
            (messages ++ elem.2) (IsUnterminated-get_next_string_elem total text h),
      )
      refl
