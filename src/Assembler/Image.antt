-- ===== src/Assembler/Image.antt =====
-- The output file of project-2/prj2/Assembly/assemble32.c holds words of 32 bits.
use mathlib.Core.Option.{some_inj}
use da_bus.Base.{
  ℕ, ◌%◌, ◌^◌, ◌<◌, ◌≡◌, refl, Bool, true, false, Option, none, some, List, [], ◌∷◌, arith,
  if◌then◌else◌, Option-cases, inl, inr, All, All-snoc, length,
}
use da_bus.Assembler.{Token, text}
use da_bus.Assembler.Symbols.{Symbol, symbol_lookup, symbol_insert}
use da_bus.Assembler.Table.{Instruction, instruction_table, lookup_instruction}
use da_bus.Assembler.Bounds.{
  IsWord, IsCode, Values, table-IsRow, instruction_from-IsRow, encode-IsCode,
}
use da_bus.Assembler.Labels.{statement-cases}
use da_bus.Assembler.Printing.{read_words, read_words-print_words}
use da_bus.Assembler.Passes.{
  is_delimiter, First, Second, count_opcode, labelled, add_label, first_statement, first_line,
  first_lines, first_pass, emit_code, translate_as, translate, second_statement, second_line,
  second_lines, second_pass, print_words,
}

-- The first pass gives labels int values.
labelled-Values :
    (name : List ℕ) (value : ℕ) (o : Option (List Symbol)) (s : First)
    → IsWord value
    → symbol_insert name value s.table ≡ o
    → Values s.table
    → Values (labelled name o s).table
unfolding labelled symbol_insert
labelled-Values name value none s l e a = a
labelled-Values name value (some table) s l e a = elim (Option-cases (symbol_lookup name s.table)) [
  | inl absent ↦
      let new : some (record { value = value; name = name } ∷ s.table) ≡ some table =
        rw (symbol_insert, absent) at e in
      rw (← some_inj.0 new) (l, a)
  | inr (old, there) ↦ let no : none ≡ some table = rw (symbol_insert, there) at e in cc
]

count_opcode-Values :
    (ts : List Token) (s : First) → Values s.table → Values (count_opcode ts s).table
unfolding count_opcode
count_opcode-Values [] s a = a
count_opcode-Values (t ∷ ts) s a = a

statement-Values :
    (x : Token) (rest : List Token) (s : First)
    → Values s.table
    → Values (first_statement x rest s).table
unfolding first_statement add_label
statement-Values x rest s a = elim (statement-cases rest) [
  | inl found ↦ rw found.1 (
      count_opcode-Values found.0 (add_label x s)
        (labelled-Values (text x) (s.pc % 2 ^ 32) _ s (omega arith) refl a))
  | inr plain ↦ rw (plain.0 x s) (count_opcode-Values (x ∷ rest) s a)
]

first_lines-Values :
    (lines : List (List Token)) (s : First) → Values s.table → Values (first_lines lines s).table
unfolding first_lines first_line
first_lines-Values [] s a = a
first_lines-Values ([] ∷ rest) s a = first_lines-Values rest s a
first_lines-Values ((x ∷ line) ∷ rest) s a =
    first_lines-Values rest (first_line (x ∷ line) s)
      (if-Values (is_delimiter x) _ _ a (statement-Values x line s a))
  where
    if-Values :
        (b : Bool) (s t : First)
        → Values s.table
        → Values t.table
        → Values (if b then s else t).table
    if-Values true s t p q = p
    if-Values false s t p q = q

-- What the second pass has printed, and would print again, are words.
abbrev Words : Second → Type 0
Words q = All IsWord q.printed × IsWord q.machinecode

emit_code-Words : (code : Option ℕ) (q : Second) → IsCode code → Words q → Words (emit_code code q)
unfolding emit_code
emit_code-Words none q h a = (All-snoc IsWord q.printed q.machinecode a.0 a.1, a.1)
emit_code-Words (some w) q h a = (All-snoc IsWord q.printed w a.0 h, h)

translate_as-Words :
    (table : List Symbol) (x : Token) (tokens : List Token) (i : Option Instruction) (q : Second)
    → Values table
    → lookup_instruction (text x) ≡ i
    → Words q
    → Words (translate_as table x tokens i q)
unfolding translate_as lookup_instruction
translate_as-Words table x tokens none q v e a =
    (All-snoc IsWord q.printed 0 a.0 (omega arith), omega arith)
translate_as-Words table x tokens (some i) q v e a =
    let row = instruction_from-IsRow (text x) instruction_table i table-IsRow e in
    emit_code-Words _ _ (encode-IsCode table q.pc i.opcode (text x) tokens i.format v row) a

if-Words : (b : Bool) (p q : Second) → Words p → Words q → Words (if b then p else q)
if-Words true p q h k = h
if-Words false p q h k = k

translate-Words :
    (table : List Symbol) (ts : List Token) (q : Second)
    → Values table
    → Words q
    → Words (translate table ts q)
unfolding translate
translate-Words table [] q v a = a
translate-Words table (x ∷ tokens) q v a =
    if-Words (is_delimiter x) _ _ a
      (translate_as-Words table x tokens (lookup_instruction (text x)) q v refl a)

second_statement-Words :
    (table : List Symbol) (x : Token) (rest : List Token) (q : Second)
    → Values table
    → Words q
    → Words (second_statement table x rest q)
unfolding second_statement
second_statement-Words table x rest q v a = elim (statement-cases rest) [
  | inl found ↦ rw found.1 (translate-Words table found.0 q v a)
  | inr plain ↦ rw (plain.1 table x q) (translate-Words table (x ∷ rest) q v a)
]

second_lines-Words :
    (table : List Symbol) (lines : List (List Token)) (q : Second)
    → Values table
    → Words q
    → Words (second_lines table lines q)
unfolding second_lines second_line
second_lines-Words table [] q v a = a
second_lines-Words table ([] ∷ rest) q v a = second_lines-Words table rest q v a
second_lines-Words table ((x ∷ line) ∷ rest) q v a =
    second_lines-Words table rest (second_line table (x ∷ line) q) v
      (if-Words (is_delimiter x) q _ a (second_statement-Words table x line q v a))

-- Whatever the program, and whatever int `machinecode` holds at first, the words that the second
-- pass prints have 32 bits, and `hextoi` reads them back from the file, each behind `0x`.
pub second_pass-print_words :
    (garbage : ℕ) (lines : List (List Token))
    → garbage < 2 ^ 32
    → let words = (second_pass garbage (first_pass lines).table lines).printed in
      All IsWord words × (read_words (length words) (print_words words) ≡ words)
unfolding first_pass second_pass
second_pass-print_words garbage lines h =
    let table = (first_pass lines).table in
    let values = first_lines-Values lines (record { pc = 0; table = []; errors = [] }) tt in
    let start : Second = record { pc = 0; machinecode = garbage; printed = []; errors = [] } in
    let (words, _) = second_lines-Words table lines start values (tt, h) in
    (words, read_words-print_words _ words)
