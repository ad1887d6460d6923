-- ===== src/Assembler/Files.antt =====
-- `getLine` and `lexer` of project-2/prj2/Assembly/assemble32.c on a whole file.
use da_bus.Base.{
  ℕ, zero, suc, ◌≤◌, ◌<◌, ◌≡◌, refl, ap, ◌∙◌, some, List, [], ◌∷◌, ◌++◌, arith, length,
  length-append, All, map,
}
use da_bus.Assembler.{Token}
use da_bus.Assembler.Lexer.{get_chars, get_line, get_lines, read_lines, lexer}
use da_bus.Assembler.Lexing.{IsWritten, Stays, spaced, Stays-spaced, lexer-spaced}
use da_bus.Assembler.Passes.{lines_of}

-- A file with a newline at the end of each line.
abbrev pub unlines : List (List ℕ) → List ℕ
unlines [] = []
unlines (line ∷ rest) = line ++ 10 ∷ unlines rest

get_chars-line :
    (n : ℕ) (line rest : List ℕ)
    → length line < n
    → All Stays line
    → get_chars n (line ++ 10 ∷ rest) ≡ (line, rest)
unfolding get_chars
get_chars-line zero line rest l h = absurd (omega arith)
get_chars-line (suc n) [] rest l h = refl
get_chars-line (suc n) (c ∷ line) rest l h =
    rw (get_chars, h.0.1, get_chars-line n line rest (omega arith) h.1) refl

abbrev IsLine : List ℕ → Type 0
IsLine line = (length line < 1023) × All Stays line

get_line-line :
    (line rest : List ℕ) → IsLine line → get_line (line ++ 10 ∷ rest) ≡ some (line, rest)
unfolding get_line
get_line-line [] rest h = ap some (get_chars-line 1023 [] rest h.0 h.1)
get_line-line (c ∷ line) rest h = ap some (get_chars-line 1023 (c ∷ line) rest h.0 h.1)

get_lines-unlines :
    (n : ℕ) (lines : List (List ℕ))
    → length lines ≤ n
    → All IsLine lines
    → get_lines n (unlines lines) ≡ lines
unfolding get_lines get_line
get_lines-unlines zero [] l h = refl
get_lines-unlines zero (line ∷ rest) l h = absurd (omega arith)
get_lines-unlines (suc n) [] l h = refl
get_lines-unlines (suc n) (line ∷ rest) l h =
    rw
      (get_lines, get_line-line line (unlines rest) h.0, get_lines-unlines n rest (omega arith) h.1)
      refl

length-unlines : (lines : List (List ℕ)) → length lines ≤ length (unlines lines)
length-unlines [] = omega arith
length-unlines (line ∷ rest) =
    omega (arith, length-append line (10 ∷ unlines rest), length-unlines rest)

-- A line of a source file, as tokens.
abbrev pub IsSourceLine : List Token → Type 0
IsSourceLine ts = (length ts < 63) × (length (spaced ts) < 1023) × All IsWritten ts

IsLine-spaced :
    (program : List (List Token)) → All IsSourceLine program → All IsLine (map spaced program)
IsLine-spaced [] h = tt
IsLine-spaced (ts ∷ rest) h = ((h.0.1, Stays-spaced ts h.0.2), IsLine-spaced rest h.1)

map-lexer-spaced :
    (program : List (List Token))
    → All IsSourceLine program
    → map lexer (map spaced program) ≡ program
map-lexer-spaced [] h = refl
map-lexer-spaced (ts ∷ rest) h =
    rw (lexer-spaced ts h.0.0 (omega (arith, h.0.1)) h.0.2, map-lexer-spaced rest h.1) refl

-- A file of lines with fewer than 63 tokens each, none of them a word that is empty or has a
-- char that ends a word or a line, and with a space behind each token and fewer than 1023 bytes on
-- a line, is read as these tokens, line by line.
pub lines_of-unlines :
    (program : List (List Token))
    → All IsSourceLine program
    → lines_of (unlines (map spaced program)) ≡ program
unfolding read_lines
lines_of-unlines program h =
    ap (map lexer) (
      get_lines-unlines (length (unlines (map spaced program))) (map spaced program)
        (length-unlines (map spaced program)) (IsLine-spaced program h))
    ∙ map-lexer-spaced program h
