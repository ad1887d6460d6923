-- ===== src/Assembler/Printing.antt =====
-- What the assembler of project-2/prj2/Assembly/assemble32.c prints, read by its own `hextoi`.
use mathlib.Core.List.{append_assoc}
use native.Mathlib.Nat.{pow-suc}
use da_bus.Base.{
  ℕ, zero, suc, ◌+◌, ◌*◌, ◌/◌, ◌%◌, ◌^◌, ◌<◌, ◌≡◌, refl, ◌∙◌, some, List, [], ◌∷◌, ◌++◌, arith,
  length, drop, All,
}
use da_bus.Assembler.{codes}
use da_bus.Assembler.Numbers.{hex_digit, hex_from, hextoi}
use da_bus.Assembler.Passes.{hex_char, hex_chars, print_words}

hex_digit-hex_char : (d : ℕ) → d < 16 → hex_digit (hex_char d) ≡ some d
unfolding hex_digit
hex_digit-hex_char d h = ground arith

hex_from-hex_chars :
    (n number w : ℕ) (rest : List ℕ)
    → w < 16 ^ n
    → number * 16 ^ n + w < 2 ^ 64
    → hex_from number (hex_chars n w ++ rest) ≡ hex_from (number * 16 ^ n + w) rest
unfolding hex_from hex_chars
hex_from-hex_chars zero number w rest h l =
    let e : number * 16 ^ 0 + w ≡ number = omega arith in rw e refl
hex_from-hex_chars (suc n) number w rest h l =
    let d = hex_char (w % 16) in
    let t = pow-suc 16 n in
    let sixteen : number * (16 ^ n * 16) ≡ 16 * (number * 16 ^ n) = grind arith in
    let value : number * 16 ^ suc n + w ≡ 16 * (number * 16 ^ n) + w = rw (t, sixteen) refl in
    let ih = hex_from-hex_chars n number (w / 16) (d ∷ rest) (omega arith) (omega arith) in
    let next : ((number * 16 ^ n + w / 16) * 16 + w % 16) % 2 ^ 64 ≡ number * 16 ^ suc n + w =
      omega (arith, value, l) in
    rw
      (
        append_assoc (hex_chars n (w / 16)) (d ∷ []) rest,
        ih,
        hex_from,
        hex_digit-hex_char (w % 16) (omega arith),
        next,
      )
      refl

-- A printed word, read up to the space behind it.
hextoi-printed :
    (w : ℕ) (rest : List ℕ) → w < 2 ^ 32 → hextoi (codes "0x" ++ (hex_chars 8 w ++ b' ' ∷ rest)) ≡ w
unfolding hextoi hex_digit
hextoi-printed w rest h = hex_from-hex_chars 8 0 w (b' ' ∷ rest) h (omega arith) ∙ omega arith

-- The first `n` words of a file: `hextoi` on each, with `0x` before it.
abbrev pub read_words : ℕ → List ℕ → List ℕ
read_words zero file = []
read_words (suc n) file = hextoi (codes "0x" ++ file) ∷ read_words n (drop 9 file)

-- The words of 32 bits in an output file are read back by `hextoi`, each behind `0x`.
pub read_words-print_words :
    (words : List ℕ)
    → All (λ w. w < 2 ^ 32) words
    → read_words (length words) (print_words words) ≡ words
unfolding print_words
read_words-print_words [] h = refl
read_words-print_words (w ∷ rest) h =
    let behind : drop 9 (print_words (w ∷ rest)) ≡ print_words rest = refl in
    rw (hextoi-printed w (print_words rest) h.0, read_words-print_words rest h.1) refl
