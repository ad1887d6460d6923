-- ===== src/Assembler/Lexing.antt =====
-- `lexer` of project-2/prj2/Assembly/assemble32.c on lines that are written token by token.
use da_bus.Base.{
  ℕ, zero, suc, ◌≤◌, ◌<◌, ◌≡◌, refl, ap, ◌∙◌, true, false, List, [], ◌∷◌, ◌++◌, arith, length, All,
  ◌==◌,
}
use da_bus.Assembler.{Token, colon, comma, lparen, rparen, word, text}
use da_bus.Assembler.Lexer.{
  is_eol, is_whitespace, is_rawdelimiter, ends_word, strip_comment, skip_whitespace, word_of,
  after_word, next_token, split_line, delimiter, lexer,
}

strip_comment_at :
    (n : ℕ) (line comment : List ℕ) (c : ℕ)
    → is_eol c ≡ true
    → strip_comment n (line ++ c ∷ comment) ≡ strip_comment n line
unfolding strip_comment
strip_comment_at zero line comment c h = refl
strip_comment_at (suc n) [] comment c h = rw h refl
strip_comment_at (suc n) (x ∷ line) comment c h = rw (strip_comment_at n line comment c h) refl

-- A comment, and the character that begins it, change no token of the line.
pub lexer_comment :
    (line comment : List ℕ) (c : ℕ) → is_eol c ≡ true → lexer (line ++ c ∷ comment) ≡ lexer line
unfolding lexer
lexer_comment line comment c h = rw (lexer, strip_comment_at 1023 line comment c h) refl

abbrev pub Plain : List ℕ → Type 0
Plain = All (λ c. (ends_word c ≡ false) × ((c == 10) ≡ false))

-- A token that can be written: a word has a char, and no char that ends a
-- word or a line.
abbrev pub IsWritten : Token → Type 0
IsWritten (word []) = (true ≡ false)
IsWritten (word (c ∷ rest)) = Plain (c ∷ rest)
IsWritten t = Unit

-- Each token with a space behind it.
abbrev pub spaced : List Token → List ℕ
spaced [] = []
spaced (t ∷ ts) = text t ++ b' ' ∷ spaced ts

word_of-Plain :
    (w rest : List ℕ)
    → Plain w
    → (word_of (w ++ b' ' ∷ rest) ≡ w) × (after_word (w ++ b' ' ∷ rest) ≡ b' ' ∷ rest)
unfolding word_of after_word ends_word is_eol is_whitespace
word_of-Plain [] rest h = (refl, refl)
word_of-Plain (c ∷ w) rest h =
    let (before, behind) = word_of-Plain w rest h.1 in
    (rw (word_of, h.0.0, before) refl, rw (after_word, h.0.0) behind)

ends_word-false :
    (c : ℕ)
    → ends_word c ≡ false
    → (is_eol c ≡ false) × (is_whitespace c ≡ false) × (is_rawdelimiter c ≡ false)
unfolding ends_word
ends_word-false c h = ground arith

split_line_space : (n : ℕ) (line : List ℕ) → split_line n (b' ' ∷ line) ≡ split_line n line
unfolding split_line skip_whitespace is_whitespace
split_line_space zero line = refl
split_line_space (suc n) line = refl

split_word :
    (n c : ℕ) (w rest : List ℕ)
    → Plain (c ∷ w)
    → split_line (suc (suc n)) (c ∷ (w ++ b' ' ∷ rest))
      ≡ word (c ∷ w) ∷ split_line (suc n) (b' ' ∷ rest)
unfolding split_line skip_whitespace next_token is_whitespace
split_word n c w rest h =
    let (_, no_space, no_delimiter) = ends_word-false c h.0.0 in
    let (before, behind) = word_of-Plain (c ∷ w) rest h in
    rw (split_line, skip_whitespace, no_space, next_token, no_delimiter, before, behind) refl

split_line-spaced :
    (n : ℕ) (ts : List Token) → length ts < n → All IsWritten ts → split_line n (spaced ts) ≡ ts
unfolding split_line skip_whitespace next_token is_whitespace is_rawdelimiter delimiter text
split_line-spaced zero ts l h = absurd (omega arith)
split_line-spaced (suc n) [] l h = refl
split_line-spaced (suc n) (colon ∷ ts) l h =
    ap (◌∷◌ colon) (split_line_space n (spaced ts) ∙ split_line-spaced n ts (omega arith) h.1)
split_line-spaced (suc n) (comma ∷ ts) l h =
    ap (◌∷◌ comma) (split_line_space n (spaced ts) ∙ split_line-spaced n ts (omega arith) h.1)
split_line-spaced (suc n) (lparen ∷ ts) l h =
    ap (◌∷◌ lparen) (split_line_space n (spaced ts) ∙ split_line-spaced n ts (omega arith) h.1)
split_line-spaced (suc n) (rparen ∷ ts) l h =
    ap (◌∷◌ rparen) (split_line_space n (spaced ts) ∙ split_line-spaced n ts (omega arith) h.1)
split_line-spaced (suc n) (word [] ∷ ts) l h = cc (h.0)
split_line-spaced (suc zero) (word (c ∷ w) ∷ ts) l h = absurd (omega arith)
split_line-spaced (suc (suc n)) (word (c ∷ w) ∷ ts) l h =
    split_word n c w (spaced ts) h.0
    ∙ ap (◌∷◌ (word (c ∷ w)))
        (split_line_space (suc n) (spaced ts) ∙ split_line-spaced (suc n) ts (omega arith) h.1)

abbrev pub Stays : ℕ → Type 0
Stays c = (is_eol c ≡ false) × ((c == 10) ≡ false)

All-append : (xs ys : List ℕ) → All Stays xs → All Stays ys → All Stays (xs ++ ys)
All-append [] ys h k = k
All-append (x ∷ xs) ys h k = (h.0, All-append xs ys h.1 k)

Stays-Plain : (w : List ℕ) → Plain w → All Stays w
Stays-Plain [] h = tt
Stays-Plain (c ∷ w) h = (((ends_word-false c h.0.0).0, h.0.1), Stays-Plain w h.1)

Stays-text : (t : Token) → IsWritten t → All Stays (text t)
unfolding text is_eol
Stays-text colon h = ((refl, refl), tt)
Stays-text comma h = ((refl, refl), tt)
Stays-text lparen h = ((refl, refl), tt)
Stays-text rparen h = ((refl, refl), tt)
Stays-text (word []) h = tt
Stays-text (word (c ∷ w)) h = Stays-Plain (c ∷ w) h

pub Stays-spaced : (ts : List Token) → All IsWritten ts → All Stays (spaced ts)
unfolding is_eol
Stays-spaced [] h = tt
Stays-spaced (t ∷ ts) h =
    All-append (text t) (b' ' ∷ spaced ts) (Stays-text t h.0) ((refl, refl), Stays-spaced ts h.1)

strip_comment-Stays :
    (n : ℕ) (line : List ℕ) → length line ≤ n → All Stays line → strip_comment n line ≡ line
unfolding strip_comment
strip_comment-Stays zero [] l h = refl
strip_comment-Stays zero (c ∷ line) l h = absurd (omega arith)
strip_comment-Stays (suc n) [] l h = refl
strip_comment-Stays (suc n) (c ∷ line) l h =
    rw (strip_comment, h.0.0, strip_comment-Stays n line (omega arith) h.1) refl

-- Fewer than 63 tokens, written in at most 1023 bytes with a space behind each, are the tokens of
-- that line.
pub lexer-spaced :
    (ts : List Token)
    → length ts < 63
    → length (spaced ts) ≤ 1023
    → All IsWritten ts
    → lexer (spaced ts) ≡ ts
unfolding lexer
lexer-spaced ts few short h =
    ap (split_line 63) (strip_comment-Stays 1023 (spaced ts) short (Stays-spaced ts h))
    ∙ split_line-spaced 63 ts few h
