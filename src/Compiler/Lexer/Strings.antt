-- ===== src/Compiler/Lexer/Strings.antt =====
-- The loops over string literals of lexer.c end on a text that ends in two line breaks.
use ru_c.Prelude.{
  ℕ, zero, suc, ◌+◌, ◌≤◌, ◌<◌, ◌≡◌, ◌≢◌, ◌⊎◌, refl, ap, ◌&&◌, not, Option, some, List, [], ◌∷◌,
  ◌++◌, length, ◌==◌, ==_iff, arith, Bool-cases, inl, inr,
}
use ru_c.Utils.Item.{Size}
use ru_c.Compiler.Lexer.Source.{character, scan, Message, skip_whitespace}
use ru_c.Compiler.Lexer.Text.{get_next_string_elem, string_elems, close_string, string_parts}
use ru_c.Compiler.Lexer.Behind.{
  IsTerminated, IsTerminated-tail, IsBehind, IsBehind-refl, IsBehind-trans, IsBehind-cons,
  IsBehind-scan, IsBehind-skip_whitespace,
}

-- There is a result, and it is such.
abbrev pub Gives : {A : Type 0} → (A → Type 0) → Option A → Type 0
Gives {A} P r = (a : A) × (r ≡ some a) × P a

pub get_next_string_elem-text :
    (total : Size) (text : List ℕ)
    → ((get_next_string_elem total text).1 ≡ scan text)
      ⊎ ((get_next_string_elem total text).1 ≡ text)
unfolding get_next_string_elem
get_next_string_elem-text total text = ground arith

-- An element does not reach past the last line break.
get_next_string_elem-next :
    (total : Size) (c : ℕ) (text : List ℕ)
    → IsTerminated (c ∷ text)
    → c ≢ b'\n'
    → (d : ℕ) × (rest : List ℕ) × (scan (get_next_string_elem total (c ∷ text)).1 ≡ d ∷ rest)
      × IsBehind (d ∷ rest) text
unfolding IsTerminated
get_next_string_elem-next total c [] h other = absurd (other h)
get_next_string_elem-next total c (d ∷ []) h other = absurd (other h.0)
get_next_string_elem-next total c (d ∷ e ∷ text) h other =
    elim (get_next_string_elem-text total (c ∷ d ∷ e ∷ text)) [
      | inl p ↦
          (e, text, ap scan p, IsBehind-cons d (e ∷ text) (e ∷ text) (IsBehind-refl (e ∷ text)))
      | inr p ↦ (d, e ∷ text, ap scan p, IsBehind-refl (d ∷ e ∷ text))
    ]

-- The text behind the elements of a string.
abbrev IsElems : ℕ → List ℕ → List ℕ × List ℕ × List Message → Type 0
IsElems c text (rest, lexstr, messages) = IsBehind rest (c ∷ text)

string_elems_end :
    (fuel : ℕ) (total : Size) (c : ℕ) (text lexstr : List ℕ) (messages : List Message)
    → IsTerminated (c ∷ text)
    → length text < fuel
    → Gives (IsElems c text) (string_elems fuel total (c ∷ text) lexstr messages)
unfolding string_elems
string_elems_end zero total c text lexstr messages h le = absurd (omega arith)
string_elems_end (suc fuel) total c text lexstr messages h le =
    elim (Bool-cases (not (c == b'"') && not (c == b'\n'))) [
      | inr stop ↦ ((c ∷ text, lexstr, messages), rw stop refl, IsBehind-refl (c ∷ text))
      | inl go ↦
          let other : c ≢ b'\n' = ground arith in
          let (d, rest, e, behind) = get_next_string_elem-next total c text h other in
          let (value, elem, new) = get_next_string_elem total (c ∷ text) in
          let keeps = IsBehind-cons c (d ∷ rest) text behind in
          let (r, run, rest_behind) =
            string_elems_end fuel total d rest
              (lexstr ++ (get_next_string_elem total (c ∷ text)).0 ∷ [])
              (messages ++ (get_next_string_elem total (c ∷ text)).2) (keeps.1 h) (omega arith) in
          (r, rw (go, e) run, IsBehind-trans r.0 (d ∷ rest) (c ∷ text) rest_behind keeps)
    ]

IsBehind-close_string :
    (total : Size) (text : List ℕ) (messages : List Message)
    → IsBehind (close_string total text messages).0 text
IsBehind-close_string total text messages = elim (Bool-cases (character text == b'"')) [
  | inl e ↦ rw e (
      IsBehind-trans (skip_whitespace (scan text)) (scan text) text
        (IsBehind-skip_whitespace (scan text)) (IsBehind-scan text))
  | inr e ↦ rw e (IsBehind-skip_whitespace text)
]

-- The text behind string literals that follow each other.
abbrev pub IsParts : List ℕ → List ℕ × List ℕ × List Message → Type 0
IsParts text (rest, lexstr, messages) = IsBehind rest text

string_elems_quote :
    (fuel : ℕ) (total : Size) (next lexstr : List ℕ) (messages : List Message)
    → IsTerminated (b'"' ∷ next)
    → length next < fuel
    → Gives (IsParts next) (string_elems fuel total next lexstr messages)
unfolding IsTerminated
string_elems_quote fuel total [] lexstr messages h le = absurd (omega arith)
string_elems_quote fuel total (d ∷ rest) lexstr messages h le =
    string_elems_end fuel total d rest lexstr messages (IsTerminated-tail b'"' (d ∷ rest) h)
      (omega arith)

close_lt : (a b c : ℕ) → a ≤ b → suc b < suc c → a < c
close_lt a b c h h' = omega arith

pub string_parts_end :
    (fuel : ℕ) (total : Size) (text lexstr : List ℕ) (messages : List Message)
    → IsTerminated text
    → length text < fuel
    → Gives (IsParts text) (string_parts fuel total text lexstr messages)
unfolding string_parts
string_parts_end zero total text lexstr messages h le = absurd (omega arith)
string_parts_end (suc fuel) total [] lexstr messages h le =
    (([], lexstr, messages), refl, IsBehind-refl [])
string_parts_end (suc fuel) total (c ∷ next) lexstr messages h le = elim (Bool-cases (c == b'"')) [
  | inr stop ↦ ((c ∷ next, lexstr, messages), rw stop refl, IsBehind-refl (c ∷ next))
  | inl go ↦
      let quoted : c ≡ b'"' = (==_iff c b'"').0 go in
      let (r, run, behind) =
        string_elems_quote (length (c ∷ next) + 1) total next lexstr messages (rw quoted at h)
          (omega arith) in
      let closed = close_string total r.0 r.2 in
      let next_behind =
        IsBehind-trans closed.0 r.0 next (IsBehind-close_string total r.0 r.2) behind in
      let closed_behind = IsBehind-cons c closed.0 next next_behind in
      let shorter : length closed.0 < fuel =
        close_lt (length closed.0) (length next) fuel next_behind.0 le in
      let (r', run', behind') =
        string_parts_end fuel total closed.0 r.1 closed.1 (closed_behind.1 h) shorter in
      (r', rw (go, run) run', IsBehind-trans r'.0 closed.0 (c ∷ next) behind' closed_behind)
]
