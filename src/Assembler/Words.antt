-- ===== src/Assembler/Words.antt =====
-- The fields of the instruction words that the constructors of
-- project-2/prj2/Assembly/assemble32.c make.
use Prim.Native.Nat.{bit_or, bit_and}
use da_bus.Base.{ℕ, ◌+◌, ◌-◌, ◌*◌, ◌/◌, ◌%◌, ◌^◌, ◌<◌, ◌≡◌, ◌∙◌, true, arith, ltb, if◌then◌else◌}
use da_bus.Base.Bits.{bit_or-field, bit_and-field}
use da_bus.Assembler.Encode.{construct_r, construct_i, construct_j}
use da_bus.Assembler.Numbers.{check_offset}

-- How the processor reads a word: its opcode, its registers, and its offset as an int.
abbrev pub opcode_of : ℕ → ℕ
opcode_of w = w / 2 ^ 28

abbrev pub x_of : ℕ → ℕ
x_of w = w / 2 ^ 24 % 16

abbrev pub y_of : ℕ → ℕ
y_of w = w / 2 ^ 20 % 16

abbrev pub z_of : ℕ → ℕ
z_of w = w % 16

abbrev pub offset_of : ℕ → ℕ
offset_of w = let n = w % 2 ^ 20 in if ltb n (2 ^ 19) then n else n + (2 ^ 32 - 2 ^ 20)

bit_and_low : (n : ℕ) → bit_and n (2 ^ 20 - 1) ≡ n % 2 ^ 20
bit_and_low n = omega (arith, bit_and-field 20 0 n)

-- The opcode and a register at bit 20.
or_left :
    (op a : ℕ)
    → op < 16
    → a < 16
    → bit_or (op * 2 ^ 28 % 2 ^ 32) (a * 2 ^ 20 % 2 ^ 32) ≡ op * 2 ^ 28 + a * 2 ^ 20
or_left op a p q =
    bit_or-field 20 8 op 0 a (omega arith) (omega arith) (omega arith) (omega arith) ∙ omega arith

-- A register at bit 24, above a low part.
or_x :
    (op l b : ℕ)
    → op < 16
    → l < 2 ^ 24
    → b < 16
    → bit_or (op * 2 ^ 28 + l) (b * 2 ^ 24 % 2 ^ 32) ≡ op * 2 ^ 28 + b * 2 ^ 24 + l
or_x op l b p q r = bit_or-field 24 4 op l b (omega arith) q (omega arith) r ∙ omega arith

-- A low part below `h * 2 ^ 20`.
or_low : (h l : ℕ) → l < 2 ^ 20 → bit_or (h * 2 ^ 20) l ≡ h * 2 ^ 20 + l
or_low h l p = bit_or-field 0 20 h 0 l (omega arith) (omega arith) (omega arith) p

pub construct_r-sum :
    (op a b dst : ℕ)
    → op < 16
    → a < 16
    → b < 16
    → dst < 16
    → construct_r op a b dst ≡ op * 2 ^ 28 + dst * 2 ^ 24 + a * 2 ^ 20 + b
unfolding construct_r
construct_r-sum op a b dst p q r s =
    let base : op * 2 ^ 28 + a * 2 ^ 20 ≡ (op * 256 + a) * 2 ^ 20 = omega arith in
    let low : b * 2 ^ 0 % 2 ^ 32 ≡ b = omega arith in
    let whole : (op * 256 + a) * 2 ^ 20 + b ≡ op * 2 ^ 28 + (a * 2 ^ 20 + b) = omega arith in
    rw (or_left op a p q, low, base, or_low (op * 256 + a) b (omega arith), whole)
      (or_x op (a * 2 ^ 20 + b) dst p (omega arith) s ∙ omega arith)

pub construct_i-sum :
    (op a b offset : ℕ)
    → op < 16
    → a < 16
    → b < 16
    → construct_i op a b offset ≡ op * 2 ^ 28 + b * 2 ^ 24 + a * 2 ^ 20 + offset % 2 ^ 20
unfolding construct_i
construct_i-sum op a b offset p q r =
    let low : offset % 2 ^ 20 * 2 ^ 0 % 2 ^ 32 ≡ offset % 2 ^ 20 = omega arith in
    let whole : op * 2 ^ 28 + b * 2 ^ 24 + a * 2 ^ 20 ≡ (op * 256 + b * 16 + a) * 2 ^ 20 =
      omega arith in
    rw (or_left op a p q, or_x op (a * 2 ^ 20) b p (omega arith) r, bit_and_low offset, low, whole)
      (or_low (op * 256 + b * 16 + a) (offset % 2 ^ 20) (omega arith))

pub construct_j-sum :
    (op a b : ℕ)
    → op < 16
    → a < 16
    → b < 16
    → construct_j op a b ≡ op * 2 ^ 28 + a * 2 ^ 24 + b * 2 ^ 20
unfolding construct_j
construct_j-sum op a b p q r =
    let one : bit_or (op * 2 ^ 28 % 2 ^ 32) (a * 2 ^ 24 % 2 ^ 32) ≡ op * 2 ^ 28 + a * 2 ^ 24 =
      bit_or-field 24 4 op 0 a (omega arith) (omega arith) (omega arith) q ∙ omega arith in
    let base : op * 2 ^ 28 + a * 2 ^ 24 ≡ (op * 16 + a) * 2 ^ (4 + 20) + 0 = omega arith in
    rw one (bit_or-field 20 4 (op * 16 + a) 0 b base (omega arith) (omega arith) r ∙ omega arith)

pub construct_j-decoded :
    (op a b : ℕ)
    → op < 16
    → a < 16
    → b < 16
    → let w = construct_j op a b in (opcode_of w ≡ op) × (x_of w ≡ a) × (y_of w ≡ b)
construct_j-decoded op a b p q r =
    let e = construct_j-sum op a b p q r in rw e (omega arith, omega arith, omega arith)

-- The processor reads a word of three registers, made of an opcode and registers below 16, as it
-- was made.
pub construct_r-decoded :
    (op a b dst : ℕ)
    → op < 16
    → a < 16
    → b < 16
    → dst < 16
    → let w = construct_r op a b dst in
      (opcode_of w ≡ op) × (x_of w ≡ dst) × (y_of w ≡ a) × (z_of w ≡ b)
construct_r-decoded op a b dst p q r s =
    let e = construct_r-sum op a b dst p q r s in
    rw e (omega arith, omega arith, omega arith, omega arith)

-- The processor reads a word of two registers and an offset, made of an opcode and registers below
-- 16 and of an offset that `check_offset` accepts, as it was made.
pub construct_i-decoded :
    (op a b offset : ℕ)
    → op < 16
    → a < 16
    → b < 16
    → offset < 2 ^ 32
    → (check_offset offset).0 ≡ true
    → let w = construct_i op a b offset in
      (opcode_of w ≡ op) × (x_of w ≡ b) × (y_of w ≡ a) × (offset_of w ≡ offset)
unfolding check_offset
construct_i-decoded op a b offset p q r l h =
    let e = construct_i-sum op a b offset p q r in
    rw e (omega arith, omega arith, omega arith, ground arith)
