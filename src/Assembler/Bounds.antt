-- ===== src/Assembler/Bounds.antt =====
-- Every word that the assembler of project-2/prj2/Assembly/assemble32.c makes has 32 bits.
use mathlib.Core.Option.{some_inj}
use da_bus.Base.{
  ℕ, ◌^◌, ◌<◌, ◌≡◌, Bool, true, false, Option, none, some, List, [], ◌∷◌, arith, if◌then◌else◌,
  Option-cases, Bool-cases, inl, inr, All,
}
use da_bus.Assembler.{codes, same, Token, text, Checked}
use da_bus.Assembler.Symbols.{Symbol, symbol_lookup}
use da_bus.Assembler.Numbers.{is_numeric, token_to_number}
use da_bus.Assembler.Table.{
  Instruction, Format, r_format, i_format, ii_format, j_format, o_format, s_format, p_format,
  m_format, instruction_table, instruction_from, op_addi,
}
use da_bus.Assembler.Encode.{
  operand, when_long, check_length, construct_i, construct_j, construct_om, encode_r, encode_i,
  encode_ii, two_registers, encode_la, encode_p, encode,
}
use da_bus.Assembler.Words.{construct_r-sum, construct_i-sum, construct_j-sum}
use da_bus.Assembler.Branches.{token_to_regno-lt}

abbrev pub IsWord : ℕ → Type 0
IsWord w = w < 2 ^ 32

-- A row of the table whose opcode goes into a word has one below 16; none has the S format.
abbrev pub HasOpcode : ℕ → Format → Type 0
HasOpcode opcode p_format = Unit
HasOpcode opcode s_format = (true ≡ false)
HasOpcode opcode _ = opcode < 16

abbrev pub IsRow : Instruction → Type 0
IsRow i = HasOpcode i.opcode i.format

pub table-IsRow : All IsRow instruction_table
table-IsRow = (
  omega arith,
  (
    omega arith,
    (
      omega arith,
      (
        omega arith,
        (
          omega arith,
          (
            omega arith,
            (
              omega arith,
              (
                omega arith,
                (
                  omega arith,
                  (
                    omega arith,
                    (
                      omega arith,
                      (
                        omega arith,
                        (omega arith, (omega arith, (omega arith, (tt, (tt, (tt, tt)))))),
                      ),
                    ),
                  ),
                ),
              ),
            ),
          ),
        ),
      ),
    ),
  ),
)

pub instruction_from-IsRow :
    (name : List ℕ) (rows : List Instruction) (i : Instruction)
    → All IsRow rows
    → instruction_from name rows ≡ some i
    → IsRow i
unfolding instruction_from
instruction_from-IsRow name [] i a h = cc
instruction_from-IsRow name (r ∷ rest) i a h = elim (Bool-cases (same name r.mnemonic)) [
  | inl here ↦
      let found : some r ≡ some i = rw (instruction_from, here) at h in rw (← some_inj.0 found) a.0
  | inr other ↦
      let later : instruction_from name rest ≡ some i = rw (instruction_from, other) at h in
      instruction_from-IsRow name rest i a.1 later
]

abbrev pub Values : List Symbol → Type 0
Values = All (λ s. IsWord s.value)

symbol_lookup-IsWord :
    (name : List ℕ) (table : List Symbol) (s : Symbol)
    → Values table
    → symbol_lookup name table ≡ some s
    → IsWord s.value
unfolding symbol_lookup
symbol_lookup-IsWord name [] s a h = cc
symbol_lookup-IsWord name (t ∷ rest) s a h = elim (Bool-cases (same t.name name)) [
  | inl here ↦
      let found : some t ≡ some s = rw (symbol_lookup, here) at h in rw (← some_inj.0 found) a.0
  | inr other ↦
      let later : symbol_lookup name rest ≡ some s = rw (symbol_lookup, other) at h in
      symbol_lookup-IsWord name rest s a.1 later
]

token_to_number-IsWord :
    (table : List Symbol) (token : Token) → Values table → IsWord (token_to_number table token).0
unfolding token_to_number
token_to_number-IsWord table token a = elim (Bool-cases (is_numeric (text token))) [
  | inl number ↦ rw (token_to_number, number) (omega arith)
  | inr name ↦ elim (Option-cases (symbol_lookup (text token) table)) [
    | inl undefined ↦ rw (token_to_number, name, undefined) (omega arith)
    | inr (s, there) ↦
        rw (token_to_number, name, there) (symbol_lookup-IsWord (text token) table s a there)
  ]
]

construct_i-IsWord :
    (op a b offset : ℕ) → op < 16 → a < 16 → b < 16 → IsWord (construct_i op a b offset)
construct_i-IsWord op a b offset p q r = rw (construct_i-sum op a b offset p q r) (omega arith)

-- The words of the formats.
encode_r-IsWord : (op : ℕ) (tokens : List Token) → op < 16 → IsWord (encode_r op tokens).0
unfolding encode_r
encode_r-IsWord op tokens p =
    let a = token_to_regno-lt (operand tokens 2) in
    let b = token_to_regno-lt (operand tokens 4) in
    let dst = token_to_regno-lt (operand tokens 0) in
    rw (construct_r-sum op _ _ _ p a b dst) (omega (arith, p, a, b, dst))

encode_i-IsWord :
    (table : List Symbol) (op : ℕ) (tokens : List Token)
    → op < 16
    → IsWord (encode_i table op tokens).0
unfolding encode_i
encode_i-IsWord table op tokens p =
    construct_i-IsWord op _ _ _ p (token_to_regno-lt (operand tokens 4))
      (token_to_regno-lt (operand tokens 0))

encode_ii-IsWord :
    (table : List Symbol) (pc : ℕ) (name : List ℕ) (op : ℕ) (tokens : List Token)
    → op < 16
    → IsWord (encode_ii table pc name op tokens).0
unfolding encode_ii
encode_ii-IsWord table pc name op tokens p =
    construct_i-IsWord op _ _ _ p (token_to_regno-lt (operand tokens 2))
      (token_to_regno-lt (operand tokens 0))

encode_la-IsWord : (table : List Symbol) (tokens : List Token) → IsWord (encode_la table tokens).0
unfolding encode_la
encode_la-IsWord table tokens =
    construct_i-IsWord op_addi _ _ _ (omega arith) (omega arith)
      (token_to_regno-lt (operand tokens 0))

encode_j-IsWord :
    (op : ℕ) (tokens : List Token) → op < 16 → IsWord (two_registers (construct_j op) tokens).0
unfolding two_registers
encode_j-IsWord op tokens p =
    let a = token_to_regno-lt (operand tokens 0) in
    let b = token_to_regno-lt (operand tokens 2) in
    rw (construct_j-sum op _ _ p a b) (omega (arith, p, a, b))

-- A word, if there is one.
abbrev pub IsCode : Option ℕ → Type 0
IsCode none = Unit
IsCode (some w) = IsWord w

when_long-IsCode :
    (tokens : List Token) (n : ℕ) (body : Checked ℕ)
    → IsWord body.0
    → IsCode (when_long tokens n body).0
when_long-IsCode tokens n body h = elim (Bool-cases (check_length tokens n).0) [
  | inl fits ↦ rw fits h
  | inr short ↦ rw short tt
]

encode_p-IsCode :
    (table : List Symbol) (name : List ℕ) (tokens : List Token)
    → Values table
    → IsCode (encode_p table name tokens).0
unfolding encode_p
encode_p-IsCode table name tokens a =
    let plain =
      when_long-IsCode tokens 1 (token_to_number table (operand tokens 0))
        (token_to_number-IsWord table (operand tokens 0) a) in
    if-IsCode (same name (codes "la")) _ _
      (if-IsCode (check_length tokens 3).0 _ _ (encode_la-IsWord table tokens) plain) plain
  where
    if-IsCode :
        (b : Bool) (x y : Checked (Option ℕ))
        → IsCode x.0
        → IsCode y.0
        → IsCode (if b then x else y).0
    if-IsCode true x y p q = p
    if-IsCode false x y p q = q

-- What a row of the table encodes is a word, if anything.
pub encode-IsCode :
    (table : List Symbol) (pc op : ℕ) (name : List ℕ) (tokens : List Token) (f : Format)
    → Values table
    → HasOpcode op f
    → IsCode (encode table pc op name tokens f).0
unfolding encode construct_om
encode-IsCode table pc op name tokens r_format a r =
    when_long-IsCode tokens 5 (encode_r op tokens) (encode_r-IsWord op tokens r)
encode-IsCode table pc op name tokens i_format a r =
    when_long-IsCode tokens 6 (encode_i table op tokens) (encode_i-IsWord table op tokens r)
encode-IsCode table pc op name tokens ii_format a r =
    when_long-IsCode tokens 5 (encode_ii table pc name op tokens)
      (encode_ii-IsWord table pc name op tokens r)
encode-IsCode table pc op name tokens j_format a r =
    when_long-IsCode tokens 3 (two_registers (construct_j op) tokens) (encode_j-IsWord op tokens r)
encode-IsCode table pc op name tokens o_format a r =
    when_long-IsCode tokens 0 (construct_om op, []) (omega arith)
encode-IsCode table pc op name tokens m_format a r =
    when_long-IsCode tokens 0 (construct_om op, []) (omega arith)
encode-IsCode table pc op name tokens p_format a r = encode_p-IsCode table name tokens a
encode-IsCode table pc op name tokens s_format a r = cc
