-- ===== src/Assembler/Lexer.antt =====
-- `getLine` and `lexer` of project-2/prj2/Assembly/assemble32.c. A file is the list of what `getc`
-- returns before EOF.
use da_bus.Base.{
  ℕ, zero, suc, ◌-◌, Bool, ◌||◌, Option, none, some, List, [], ◌∷◌, ◌==◌, if◌then◌else◌, length,
}
use da_bus.Assembler.{Token, colon, comma, lparen, rparen, word}

abbrev pub max_line_length : ℕ
max_line_length = 1024

abbrev pub max_tokens : ℕ
max_tokens = 64

-- The loop of `getLine` with `n` rounds: the line, and what is left to read.
unfoldable pub get_chars : ℕ → List ℕ → List ℕ × List ℕ
get_chars zero input = ([], input)
get_chars (suc n) [] = ([], [])
get_chars (suc n) (c ∷ rest) =
    let more = get_chars n rest in if c == 10 then ([], rest) else (c ∷ more.0, more.1)

unfoldable pub get_line : List ℕ → Option (List ℕ × List ℕ)
get_line [] = none
get_line (c ∷ rest) = some (get_chars (max_line_length - 1) (c ∷ rest))

-- The lines of `while ((line = getLine(input)) != NULL)`, in at most `n` rounds.
unfoldable pub get_lines : ℕ → List ℕ → List (List ℕ)
get_lines zero input = []
get_lines (suc n) input = elim (get_line input) [
  | none ↦ []
  | some (line, rest) ↦ line ∷ get_lines n rest
]

-- Each line takes a byte of the file at least.
unfoldable pub read_lines : List ℕ → List (List ℕ)
unfolding get_lines get_line get_chars
read_lines input = get_lines (length input) input

unfoldable pub is_whitespace : ℕ → Bool
is_whitespace c = (c == b' ') || (c == 9)

unfoldable pub is_rawdelimiter : ℕ → Bool
is_rawdelimiter c = (c == b':') || (c == b',') || (c == b'(') || (c == b')')

unfoldable pub is_eol : ℕ → Bool
is_eol c = (c == 0) || (c == b'!') || (c == b'#') || (c == b';')

-- The copy of a line up to its comment, `n` bytes at most.
unfoldable pub strip_comment : ℕ → List ℕ → List ℕ
strip_comment zero line = []
strip_comment (suc n) [] = []
strip_comment (suc n) (c ∷ rest) =
    let more = strip_comment n rest in if is_eol c then [] else c ∷ more

unfoldable pub skip_whitespace : List ℕ → List ℕ
skip_whitespace [] = []
skip_whitespace (c ∷ rest) =
    let more = skip_whitespace rest in if is_whitespace c then more else c ∷ rest

unfoldable pub ends_word : ℕ → Bool
ends_word c = is_eol c || is_whitespace c || is_rawdelimiter c

-- The bytes of a fragment before and from the end of its first word.
unfoldable pub word_of : List ℕ → List ℕ
word_of [] = []
word_of (c ∷ rest) = let more = word_of rest in if ends_word c then [] else c ∷ more

unfoldable pub after_word : List ℕ → List ℕ
after_word [] = []
after_word (c ∷ rest) = let more = after_word rest in if ends_word c then c ∷ rest else more

unfoldable pub delimiter : ℕ → Token
delimiter c =
    if c == b',' then comma else if c == b':' then colon else if c == b'(' then lparen else rparen

-- The token at `c ∷ rest`, with `n` rounds to come, and what is behind it. The byte behind a word
-- is made NUL by the next round; in the last round the word runs to the end of the line.
unfoldable pub next_token : ℕ → ℕ → List ℕ → Token × List ℕ
next_token n c rest =
    if is_rawdelimiter c
    then (delimiter c, rest)
    else (word (elim n [ zero ↦ c ∷ rest | suc _ ↦ word_of (c ∷ rest) ]), after_word (c ∷ rest))

-- The loop over `kount`, with `n` rounds.
unfoldable pub split_line : ℕ → List ℕ → List Token
split_line zero line = []
split_line (suc n) line = elim (skip_whitespace line) [
  | [] ↦ []
  | c ∷ rest ↦ let (t, behind) = next_token n c rest in t ∷ split_line n behind
]

-- The tokens before the NULL at the end.
unfoldable pub lexer : List ℕ → List Token
unfolding split_line strip_comment skip_whitespace next_token word_of after_word delimiter ends_word
    is_eol is_whitespace is_rawdelimiter
lexer line = split_line (max_tokens - 1) (strip_comment (max_line_length - 1) line)
