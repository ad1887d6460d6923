-- ===== src/Assembler/Table.antt =====
-- The instruction table and the register names of project-2/prj2/Assembly/assemble32.c.
use da_bus.Base.{ℕ, suc, ◌-◌, ◌^◌, Option, none, some, List, [], ◌∷◌, if◌then◌else◌}
use da_bus.Assembler.{codes, same, Token, text, no_register, Checked, pure}

pub data Format : Type 0 where
  r_format i_format ii_format j_format o_format s_format p_format m_format : Format

pub record Instruction : Type 0 where
  pub opcode : ℕ
  pub mnemonic : List ℕ
  pub format : Format

abbrev pub op_addi : ℕ
op_addi = 2

-- The opcode -1 of a pseudo-op.
abbrev pub no_opcode : ℕ
no_opcode = 2 ^ 32 - 1

abbrev row : ℕ → List ℕ → Format → Instruction
row opcode mnemonic format = record { opcode = opcode; mnemonic = mnemonic; format = format }

abbrev pub instruction_table : List Instruction
instruction_table =
    row 0 (codes "add") r_format
    ∷ row 1 (codes "nand") r_format
    ∷ row op_addi (codes "addi") ii_format
    ∷ row 3 (codes "lw") i_format
    ∷ row 4 (codes "sw") i_format
    ∷ row 5 (codes "beq") ii_format
    ∷ row 6 (codes "jalr") j_format
    ∷ row 7 (codes "halt") o_format
    ∷ row 8 (codes "bonr") r_format
    ∷ row 9 (codes "bono") o_format
    ∷ row 10 (codes "ei") m_format
    ∷ row 11 (codes "di") m_format
    ∷ row 12 (codes "reti") m_format
    ∷ row 13 (codes "boni") ii_format
    ∷ row 14 (codes "bonj") j_format
    ∷ row no_opcode (codes ".word") p_format
    ∷ row no_opcode (codes ".fill") p_format
    ∷ row no_opcode (codes "la") p_format
    ∷ []

abbrev pub register_names : List (List ℕ)
register_names =
    codes "$zero"
    ∷ codes "$at"
    ∷ codes "$v0"
    ∷ codes "$a0"
    ∷ codes "$a1"
    ∷ codes "$a2"
    ∷ codes "$a3"
    ∷ codes "$a4"
    ∷ codes "$s0"
    ∷ codes "$s1"
    ∷ codes "$s2"
    ∷ codes "$s3"
    ∷ codes "$k0"
    ∷ codes "$sp"
    ∷ codes "$fp"
    ∷ codes "$ra"
    ∷ []

-- The loop of `lookup_instruction`.
unfoldable pub instruction_from : List ℕ → List Instruction → Option Instruction
unfolding same
instruction_from mnemonic [] = none
instruction_from mnemonic (i ∷ rest) =
    let more = instruction_from mnemonic rest in if same mnemonic i.mnemonic then some i else more

unfoldable pub lookup_instruction : List ℕ → Option Instruction
unfolding instruction_from
lookup_instruction mnemonic = instruction_from mnemonic instruction_table

-- The loop of `token_to_regno`, at number `n`.
unfoldable pub register_from : ℕ → List (List ℕ) → List ℕ → Option ℕ
unfolding same
register_from n [] name = none
register_from n (r ∷ rest) name =
    let more = register_from (suc n) rest name in if same name r then some n else more

unfoldable pub token_to_regno : Token → Checked ℕ
unfolding register_from
token_to_regno token = elim (register_from 0 register_names (text token)) [
  | some n ↦ pure n
  | none ↦ (0, no_register token ∷ [])
]
