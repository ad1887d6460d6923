-- ===== src/Assembler/Encode.antt =====
-- The constructors of the instruction words and the formats of `second_pass` in project-2/prj2/Assembly/assemble32.c.
use Prim.Native.Nat.{bit_and, bit_or}
use da_bus.Base.{
  ℕ, zero, suc, ◌+◌, ◌-◌, ◌*◌, ◌%◌, ◌^◌, Bool, true, false, Option, none, some, List, [], ◌∷◌, ◌==◌,
  if◌then◌else◌, get_or,
}
use da_bus.Assembler.{
  codes, same, Token, comma, lparen, rparen, is_pointer, wrong_length, missing_delimiter, Checked,
  ◌>>=◌, ◌>>◌, pure,
}
use da_bus.Assembler.Symbols.{Symbol}
use da_bus.Assembler.Table.{
  Format, r_format, i_format, ii_format, j_format, o_format, s_format, p_format, m_format, op_addi,
  token_to_regno,
}
use da_bus.Assembler.Numbers.{check_offset, token_to_number}

-- The number of tokens before NULL among the first `n`.
unfoldable pub count_found : ℕ → List Token → ℕ
count_found zero tokens = 0
count_found (suc n) [] = 0
count_found (suc n) (t ∷ rest) = suc (count_found n rest)

unfoldable pub check_length : List Token → ℕ → Checked Bool
unfolding count_found
check_length tokens n =
    let found = count_found (n + 1) tokens in
    if found == n then pure true else (false, wrong_length found n ∷ [])

unfoldable pub check_delimiter : Token → Token → Checked (Unit {0})
unfolding is_pointer
check_delimiter token delimiter =
    if is_pointer token delimiter then pure tt else (tt, missing_delimiter token delimiter ∷ [])

-- `n << k` on an int.
abbrev shl : ℕ → ℕ → ℕ
shl n k = n * 2 ^ k % 2 ^ 32

unfoldable pub construct_r : ℕ → ℕ → ℕ → ℕ → ℕ
construct_r opcode a b dst =
    bit_or (bit_or (bit_or (shl opcode 28) (shl a 20)) (shl b 0)) (shl dst 24)

unfoldable pub construct_i : ℕ → ℕ → ℕ → ℕ → ℕ
construct_i opcode a b offset =
    bit_or (bit_or (bit_or (shl opcode 28) (shl a 20)) (shl b 24))
      (shl (bit_and offset (2 ^ 20 - 1)) 0)

unfoldable pub construct_j : ℕ → ℕ → ℕ → ℕ
construct_j opcode a b = bit_or (bit_or (shl opcode 28) (shl a 24)) (shl b 20)

unfoldable pub construct_om : ℕ → ℕ
construct_om opcode = shl opcode 28

unfoldable pub construct_s : ℕ → ℕ → ℕ → ℕ
construct_s opcode a b =
    bit_or (bit_or (bit_or (shl opcode 28) (shl a 24)) (shl b 20))
      (shl (bit_and (2 ^ 32 - 1) (2 ^ 20 - 1)) 0)

-- `tokens[k]` where `check_length` has found that many.
abbrev pub operand : List Token → ℕ → Token
operand tokens k = get_or tokens k comma

-- `break` leaves the switch before `machinecode` is assigned, which is `none`.
abbrev pub when_long : List Token → ℕ → Checked ℕ → Checked (Option ℕ)
when_long tokens n body = do
  fits ← check_length tokens n
  if fits then (do w ← body; pure (some w)) else pure none

-- The cases of the switch; `tokens` are those behind the mnemonic.
unfoldable pub encode_r : ℕ → List Token → Checked ℕ
encode_r opcode tokens = do
  dst ← token_to_regno (operand tokens 0)
  check_delimiter (operand tokens 1) comma
  a ← token_to_regno (operand tokens 2)
  check_delimiter (operand tokens 3) comma
  b ← token_to_regno (operand tokens 4)
  pure (construct_r opcode a b dst)

unfoldable pub encode_i : List Symbol → ℕ → List Token → Checked ℕ
encode_i table opcode tokens = do
  b ← token_to_regno (operand tokens 0)
  check_delimiter (operand tokens 1) comma
  offset ← token_to_number table (operand tokens 2)
  check_offset offset
  check_delimiter (operand tokens 3) lparen
  a ← token_to_regno (operand tokens 4)
  check_delimiter (operand tokens 5) rparen
  pure (construct_i opcode a b offset)

-- `offset - (pc + 1)` on ints.
abbrev pub from_pc : ℕ → ℕ → ℕ
from_pc offset pc = (offset + 2 ^ 32 - (pc + 1) % 2 ^ 32) % 2 ^ 32

unfoldable pub encode_ii : List Symbol → ℕ → List ℕ → ℕ → List Token → Checked ℕ
encode_ii table pc mnemonic opcode tokens = do
  b ← token_to_regno (operand tokens 0)
  check_delimiter (operand tokens 1) comma
  a ← token_to_regno (operand tokens 2)
  check_delimiter (operand tokens 3) comma
  number ← token_to_number table (operand tokens 4)
  let offset = if same mnemonic (codes "beq") then from_pc number pc else number
  check_offset offset
  pure (construct_i opcode a b offset)

unfoldable pub two_registers : (ℕ → ℕ → ℕ) → List Token → Checked ℕ
two_registers construct tokens = do
  a ← token_to_regno (operand tokens 0)
  check_delimiter (operand tokens 1) comma
  b ← token_to_regno (operand tokens 2)
  pure (construct a b)

unfoldable pub encode_la : List Symbol → List Token → Checked ℕ
encode_la table tokens = do
  b ← token_to_regno (operand tokens 0)
  check_delimiter (operand tokens 1) comma
  offset ← token_to_number table (operand tokens 2)
  check_offset offset
  pure (construct_i op_addi 0 b offset)

-- `la` with a wrong number of tokens goes on to the case of `.word`.
unfoldable pub encode_p : List Symbol → List ℕ → List Token → Checked (Option ℕ)
encode_p table mnemonic tokens =
    let plain = when_long tokens 1 (token_to_number table (operand tokens 0)) in
    if same mnemonic (codes "la")
    then (do
      fits ← check_length tokens 3
      if fits then (do w ← encode_la table tokens; pure (some w)) else plain)
    else plain

unfoldable pub encode : List Symbol → ℕ → ℕ → List ℕ → List Token → Format → Checked (Option ℕ)
unfolding check_length encode_r encode_i encode_ii two_registers construct_r construct_i construct_j
    construct_om construct_s encode_p encode_la token_to_regno check_delimiter check_offset
    token_to_number same
encode table pc opcode mnemonic tokens r_format = when_long tokens 5 (encode_r opcode tokens)
encode table pc opcode mnemonic tokens i_format = when_long tokens 6 (encode_i table opcode tokens)
encode table pc opcode mnemonic tokens ii_format =
    when_long tokens 5 (encode_ii table pc mnemonic opcode tokens)
encode table pc opcode mnemonic tokens j_format =
    when_long tokens 3 (two_registers (construct_j opcode) tokens)
encode table pc opcode mnemonic tokens o_format = when_long tokens 0 (pure (construct_om opcode))
encode table pc opcode mnemonic tokens m_format = when_long tokens 0 (pure (construct_om opcode))
encode table pc opcode mnemonic tokens p_format = encode_p table mnemonic tokens
encode table pc opcode mnemonic tokens s_format =
    when_long tokens 3 (two_registers (construct_s opcode) tokens)
