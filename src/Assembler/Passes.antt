-- ===== src/Assembler/Passes.antt =====
-- The two passes and `main` of project-2/prj2/Assembly/assemble32.c. The list `lines` holds the
-- tokens of each line of the input; `pc` counts, and is an int where its value is used.
use da_bus.Base.{
  ℕ, zero, suc, ◌+◌, ◌-◌, ◌/◌, ◌%◌, ◌^◌, Bool, true, false, ◌||◌, Option, none, some, List, [], ◌∷◌,
  ◌++◌, ltb, ◌==◌, if◌then◌else◌, map,
}
use da_bus.Assembler.{
  codes, Token, colon, comma, lparen, rparen, text, is_pointer, Complaint, delimiter_at_beginning,
  bad_delimiter, duplicate_symbol, bad_opcode,
}
use da_bus.Assembler.Lexer.{lexer, read_lines}
use da_bus.Assembler.Symbols.{Symbol, symbol_insert}
use da_bus.Assembler.Table.{Instruction, lookup_instruction}
use da_bus.Assembler.Encode.{encode}

unfoldable pub is_delimiter : Token → Bool
unfolding is_pointer
is_delimiter token =
    is_pointer token comma
    || is_pointer token colon
    || is_pointer token lparen
    || is_pointer token rparen

pub record First : Type 0 where
  pub pc : ℕ
  pub table : List Symbol
  pub errors : List Complaint

-- `if (tokens[0] != NULL) pc++`
unfoldable pub count_opcode : List Token → First → First
count_opcode [] s = s
count_opcode (t ∷ rest) s = record s { pc = s.pc + 1 }

-- With what `symbol_insert` returns.
unfoldable pub labelled : List ℕ → Option (List Symbol) → First → First
labelled name none s = record s { errors = s.errors ++ (duplicate_symbol name ∷ []) }
labelled name (some table) s = record s { table = table }

unfoldable pub add_label : Token → First → First
unfolding labelled
add_label label s = labelled (text label) (symbol_insert (text label) (s.pc % 2 ^ 32) s.table) s

-- The first pass on a line whose first token `t` is no delimiter.
unfoldable pub first_statement : Token → List Token → First → First
first_statement t (colon ∷ rest) s = count_opcode rest (add_label t s)
first_statement t rest s = count_opcode (t ∷ rest) s

unfoldable pub first_line : List Token → First → First
first_line [] s = s
first_line (t ∷ rest) s =
    if is_delimiter t
    then record s { errors = s.errors ++ (delimiter_at_beginning t ∷ []) }
    else first_statement t rest s

unfoldable pub first_lines : List (List Token) → First → First
first_lines [] s = s
first_lines (line ∷ rest) s = first_lines rest (first_line line s)

unfoldable pub first_pass : List (List Token) → First
first_pass lines = first_lines lines (record { pc = 0; table = []; errors = [] })

-- `printed` are the words that `fprintf(output, "%08X ", machinecode)` has got.
pub record Second : Type 0 where
  pub pc : ℕ
  pub machinecode : ℕ
  pub printed : List ℕ
  pub errors : List Complaint

abbrev pub emit : ℕ → Second → Second
emit w s = record s { pc = s.pc + 1; machinecode = w; printed = s.printed ++ (w ∷ []) }

-- `none` leaves `machinecode` as the last line has left it.
unfoldable pub emit_code : Option ℕ → Second → Second
emit_code (some w) s = emit w s
emit_code none s = emit s.machinecode s

-- The statement of the mnemonic `t` and the tokens behind it.
unfoldable pub translate_as :
    List Symbol → Token → List Token → Option Instruction → Second → Second
unfolding emit_code
translate_as table t tokens none s =
    emit 0 (record s { errors = s.errors ++ (bad_opcode (text t) ∷ []) })
translate_as table t tokens (some i) s =
    let (code, es) = encode table s.pc i.opcode (text t) tokens i.format in
    emit_code code (record s { errors = s.errors ++ es })

-- A line from its mnemonic on.
unfoldable pub translate : List Symbol → List Token → Second → Second
translate table [] s = s
translate table (t ∷ tokens) s =
    if is_delimiter t
    then record s { errors = s.errors ++ (bad_delimiter t ∷ []) }
    else translate_as table t tokens (lookup_instruction (text t)) s

unfoldable pub second_statement : List Symbol → Token → List Token → Second → Second
second_statement table t (colon ∷ rest) s = translate table rest s
second_statement table t rest s = translate table (t ∷ rest) s

unfoldable pub second_line : List Symbol → List Token → Second → Second
second_line table [] s = s
second_line table (t ∷ rest) s = if is_delimiter t then s else second_statement table t rest s

unfoldable pub second_lines : List Symbol → List (List Token) → Second → Second
second_lines table [] s = s
second_lines table (line ∷ rest) s = second_lines table rest (second_line table line s)

-- `garbage` is what the variable `machinecode` holds before its first assignment.
unfoldable pub second_pass : ℕ → List Symbol → List (List Token) → Second
second_pass garbage table lines =
    second_lines table lines (record { pc = 0; machinecode = garbage; printed = []; errors = [] })

abbrev pub hex_char : ℕ → ℕ
hex_char d = if ltb d 10 then b'0' + d else b'A' + (d - 10)

-- `n` hexadecimal digits, the last one of them the lowest digit of `w`.
unfoldable pub hex_chars : ℕ → ℕ → List ℕ
hex_chars zero w = []
hex_chars (suc n) w = hex_chars n (w / 16) ++ (hex_char (w % 16) ∷ [])

-- The file that the words make.
unfoldable pub print_words : List ℕ → List ℕ
unfolding hex_chars
print_words [] = []
print_words (w ∷ rest) = hex_chars 8 w ++ b' ' ∷ print_words rest

-- The part of the name before its last `.`, if it has one.
unfoldable pub before_dot : List ℕ → Option (List ℕ)
before_dot [] = none
before_dot (c ∷ rest) = elim (before_dot rest) [
  | some stem ↦ some (c ∷ stem)
  | none ↦ if c == b'.' then some [] else none
]

-- The buffer for the name is long enough.
unfoldable pub construct_output_filename : List ℕ → List ℕ
unfolding before_dot
construct_output_filename name = elim (before_dot name) [
  | some stem ↦ stem ++ codes ".lc"
  | none ↦ name ++ codes ".lc"
]

-- What `main` leaves: its exit status, the complaints, and the name and bytes of the file written.
pub record Outcome : Type 0 where
  pub status : ℕ
  pub errors : List Complaint
  pub written : Option (List ℕ × List ℕ)

abbrev pub lines_of : List ℕ → List (List Token)
lines_of input = map lexer (read_lines input)

abbrev pub succeeds : List Complaint → Bool
succeeds [] = true
succeeds (e ∷ es) = false

-- `main` with a file name: `input` is the file, `none` if `fopen` fails, and `opens` says whether
-- the output can be opened. On errors of the second pass the file keeps what was printed.
unfoldable pub assemble : ℕ → List ℕ → Option (List ℕ) → Bool → Outcome
unfolding first_pass first_lines first_line first_statement add_label labelled count_opcode
    second_pass second_lines second_line second_statement translate translate_as encode
    lookup_instruction is_delimiter symbol_insert print_words construct_output_filename read_lines
    lexer text
assemble garbage name none opens = record { status = 1; errors = []; written = none }
assemble garbage name (some input) opens =
    let lines = lines_of input in
    let first = first_pass lines in
    let second = second_pass garbage first.table lines in
    let output = some (construct_output_filename name, print_words second.printed) in
    if succeeds first.errors
    then (if opens
        then (if succeeds second.errors
            then record { status = 0; errors = []; written = output }
            else record { status = 1; errors = second.errors; written = output })
        else record { status = 1; errors = []; written = none })
    else record { status = 1; errors = first.errors; written = none }
