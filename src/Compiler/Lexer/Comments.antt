-- ===== src/Compiler/Lexer/Comments.antt =====
-- Comments, as lexer.c skips them. A block comment is skipped from the `*` that opens it.
use ru_c.Prelude.{ℕ, ◌≡◌, refl, false, ◌∙◌, ◌≢◌, List, [], ◌∷◌, ◌++◌, arith}
use ru_c.Compiler.Lexer.Source.{skip_block_comment}

-- No star stands in the text.
abbrev pub HasNoStar : List ℕ → Type 0
HasNoStar [] = Unit {0}
HasNoStar (c ∷ text) = (c ≢ b'*') × HasNoStar text

-- A text without stars is skipped up to the star behind it.
skip_block_comment_body :
    (body rest : List ℕ)
    → HasNoStar body
    → skip_block_comment (body ++ b'*' ∷ rest) ≡ skip_block_comment (b'*' ∷ rest)
unfolding skip_block_comment
skip_block_comment_body [] rest h = refl
skip_block_comment_body (c ∷ []) rest h = ground arith
skip_block_comment_body (c ∷ d ∷ body) rest (hc, h) =
    ground (arith, skip_block_comment_body (d ∷ body) rest h)

-- A body that is not empty, has no star and does not begin with `/`: up to its end.
skip_block_comment_open :
    (c : ℕ) (body rest : List ℕ)
    → c ≢ b'*'
    → c ≢ b'/'
    → HasNoStar body
    → skip_block_comment (b'*' ∷ c ∷ (body ++ b'*' ∷ rest)) ≡ skip_block_comment (b'*' ∷ rest)
skip_block_comment_open c body rest hc hs h =
    unfold skip_block_comment in ground (arith, skip_block_comment_body body rest h)

-- A block comment whose body is not empty, has no star and does not begin with `/` ends at its `*/`,
-- and no error is met.
pub skip_block_comment_closed :
    (c : ℕ) (body rest : List ℕ)
    → c ≢ b'*'
    → c ≢ b'/'
    → HasNoStar body
    → skip_block_comment (b'*' ∷ c ∷ (body ++ b'*' ∷ b'/' ∷ rest)) ≡ (rest, false)
skip_block_comment_closed c body rest hc hs h =
    skip_block_comment_open c body (b'/' ∷ rest) hc hs h ∙ unfold skip_block_comment in refl

-- Where such a body is followed by `**/`, the comment does not end there: what comes behind the last
-- star is skipped on.
pub skip_block_comment_stars :
    (c : ℕ) (body rest : List ℕ)
    → c ≢ b'*'
    → c ≢ b'/'
    → HasNoStar body
    → skip_block_comment (b'*' ∷ c ∷ (body ++ b'*' ∷ b'*' ∷ b'/' ∷ rest))
      ≡ skip_block_comment (b'/' ∷ rest)
skip_block_comment_stars c body rest hc hs h =
    skip_block_comment_open c body (b'*' ∷ b'/' ∷ rest) hc hs h ∙ unfold skip_block_comment in refl
