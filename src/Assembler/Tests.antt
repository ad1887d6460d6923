-- ===== src/Assembler/Tests.antt =====
-- Runs of the assembler and the witnesses.
use da_bus.Base.{
  All, ◌<◌, ℕ, ◌-◌, ◌%◌, ◌^◌, ◌≡◌, refl, true, some, List, [], ◌∷◌, ◌++◌, arith, length, map,
}
use da_bus.Assembler.{codes, Token, colon, comma, word, text}
use da_bus.Assembler.Lexer.{lexer}
use da_bus.Assembler.Symbols.{Symbol, symbol_lookup}
use da_bus.Assembler.Numbers.{hextoi, is_numeric, check_offset}
use da_bus.Assembler.Encode.{construct_i}
use da_bus.Assembler.Passes.{
  assemble, lines_of, first_pass, second_pass, print_words, construct_output_filename,
}
use da_bus.Assembler.Words.{opcode_of, x_of, y_of, offset_of, construct_i-decoded}
use da_bus.Assembler.Image.{second_pass-print_words}
use da_bus.Assembler.Printing.{read_words}
use da_bus.Assembler.Addresses.{around, label_address}
use da_bus.Assembler.Lexing.{spaced}
use da_bus.Assembler.Files.{unlines, lines_of-unlines}
use da_bus.Assembler.Outcomes.{assemble-success, construct_output_filename_lem}

abbrev program : List ℕ
program =
    codes "loop: add $a0, $a1, $a2 ! sum\n"
    ++ codes "\n  beq $zero,$zero,loop\n\tlw $s0, -4($sp)\nend:\n"
    ++ codes "la $ra, end\n.word 0xBEEF # data"

abbrev image : List ℕ
image = codes "03400005 500FFFFE 38DFFFFC 2F000003 0000BEEF "

assemble-program :
    assemble 0 (codes "loop.s") (some program) true
    ≡ record { status = 0; errors = []; written = some (codes "loop.lc", image) }
unfolding assemble
assemble-program = refl

-- A line with too few operands prints the last word again.
assemble_repeats :
    (assemble 0 (codes "a.s") (some (codes ".word 7\nadd $a0\n")) true).written
    ≡ some (codes "a.lc", codes "00000007 00000007 ")
unfolding assemble
assemble_repeats = refl

-- `-0x10` is numeric, and `atoi` reads it as 0.
negative_hex : (is_numeric (codes "-0x10") ≡ true) × (hextoi (codes "-0x10") ≡ 0)
unfolding is_numeric hextoi
negative_hex = (refl, refl)

-- The only `.` of the name is the one of the directory.
output_name : construct_output_filename (codes "./prog") ≡ codes ".lc"
unfolding construct_output_filename
output_name = refl

abbrev register : Token → Token → List Token
register a b = a ∷ comma ∷ b ∷ []

abbrev a0 : Token
a0 = word (codes "$a0")

abbrev sp : Token
sp = word (codes "$sp")

abbrev beq : Token
beq = word (codes "beq")

abbrev loop : Token
loop = word (codes "loop")

-- `beq $a0, $sp, loop`
abbrev branch : List Token
branch = a0 ∷ comma ∷ sp ∷ comma ∷ loop ∷ []

abbrev symbols : List Symbol
symbols = record { value = 3; name = codes "loop" } ∷ []

construct_i-decoded_example :
    let w = construct_i 3 13 8 (2 ^ 32 - 4) in
    (opcode_of w ≡ 3) × (x_of w ≡ 8) × (y_of w ≡ 13) × (offset_of w ≡ 2 ^ 32 - 4)
unfolding check_offset
construct_i-decoded_example =
    construct_i-decoded 3 13 8 (2 ^ 32 - 4) (omega arith) (omega arith) (omega arith) (omega arith)
      refl

second_pass-print_words_example :
    let words = (second_pass 0 (first_pass (lines_of program)).table (lines_of program)).printed in
    All (λ w. w < 2 ^ 32) words × (read_words (length words) (print_words words) ≡ words)
second_pass-print_words_example = second_pass-print_words 0 (lines_of program) (omega arith)

-- A line before the label and the branch to it.
abbrev before : List (List Token)
before = (word (codes "halt") ∷ []) ∷ []

label_address_example :
    let lines = around before loop (beq ∷ branch) [] in
    symbol_lookup (codes "loop") (first_pass lines).table
    ≡ some (record {
      value = length (second_pass 0 (first_pass lines).table before).printed % 2 ^ 32;
      name = codes "loop";
    })
unfolding assemble
label_address_example = label_address 0 before loop (beq ∷ branch) [] refl refl refl

abbrev source : List (List Token)
source = (word (codes "l") ∷ colon ∷ []) ∷ [] ∷ (word (codes "ei") ∷ []) ∷ []

lines_of-unlines_example : lines_of (unlines (map spaced source)) ≡ source
unfolding text lexer
lines_of-unlines_example = lines_of-unlines source (
  (omega arith, omega arith, (((refl, refl), tt), (tt, tt))),
  (
    (omega arith, omega arith, tt),
    ((omega arith, omega arith, (((refl, refl), ((refl, refl), tt)), tt)), tt),
  ),
)

assemble-success_example :
    let first = first_pass (lines_of program) in
    let second = second_pass 0 first.table (lines_of program) in
    (true ≡ true)
    × (first.errors ≡ [])
    × (second.errors ≡ [])
    × ((assemble 0 (codes "loop.s") (some program) true).written
        ≡ some (construct_output_filename (codes "loop.s"), print_words second.printed))
    × (length second.printed ≡ first.pc)
unfolding assemble
assemble-success_example = assemble-success 0 (codes "loop.s") program true refl

output_names :
    (construct_output_filename (codes "a.b.s") ≡ codes "a.b.lc")
    × (construct_output_filename (codes "s") ≡ codes "s.lc")
output_names = construct_output_filename_lem (codes "a.b") (codes "s") refl
