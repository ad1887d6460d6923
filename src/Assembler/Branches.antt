-- ===== src/Assembler/Branches.antt =====
-- What the words stand for that `second_pass` of project-2/prj2/Assembly/assemble32.c makes of its
-- operands when it does not complain.
use mathlib.Core.Option.{some_inj}
use da_bus.Base.{
  ℕ, zero, suc, ◌+◌, ◌<◌, ◌≡◌, refl, sym, ◌∙◌, true, Option, none, some, List, [], ◌∷◌, ◌++◌, arith,
  get_elem?, Bool-cases, inl, inr, length,
}
use da_bus.Assembler.{same, Token, text, Complaint, no_register, Checked, pure}
use da_bus.Assembler.Table.{register_names, register_from, token_to_regno}
use da_bus.Assembler.Words.{opcode_of, x_of, y_of, offset_of}

pub append_empty : (xs ys : List Complaint) → xs ++ ys ≡ [] → (xs ≡ []) × (ys ≡ [])
append_empty [] ys h = (refl, h)
append_empty (x ∷ xs) ys h = cc

-- strcmp finds equal strings only.
pub same→eq : (xs ys : List ℕ) → same xs ys ≡ true → xs ≡ ys
unfolding same
same→eq [] [] h = refl
same→eq [] (y ∷ ys) h = cc
same→eq (x ∷ xs) [] h = cc
same→eq (x ∷ xs) (y ∷ ys) h = ground (arith, same→eq xs ys)

-- The number of a register.
abbrev pub Names : Token → ℕ → Type 0
Names token n = (get_elem? register_names n ≡ some (text token)) × (n < 16)

register_from-get_elem? :
    (k : ℕ) (names : List (List ℕ)) (name : List ℕ) (n : ℕ)
    → register_from k names name ≡ some n
    → (i : ℕ) × (n ≡ k + i) × (get_elem? names i ≡ some name) × (i < length names)
unfolding register_from
register_from-get_elem? k [] name n h = cc
register_from-get_elem? k (r ∷ rest) name n h = elim (Bool-cases (same name r)) [
  | inl e ↦
      let found : some k ≡ some n = sym (rw (register_from, e) refl) ∙ h in
      (zero, omega (arith, some_inj.0 found), rw (same→eq name r e) refl, omega arith)
  | inr e ↦
      let found : register_from (suc k) rest name ≡ some n = sym (rw (register_from, e) refl) ∙ h in
      let (i, at, name_at, below) = register_from-get_elem? (suc k) rest name n found in
      (suc i, omega arith, name_at, omega arith)
]

-- `token_to_regno` on what its loop has found.
regno_of : Token → Option ℕ → Checked ℕ
regno_of token found = elim found [ some n ↦ pure n | none ↦ (0, no_register token ∷ []) ]

regno_of-lt :
    (token : Token) (found : Option ℕ)
    → register_from 0 register_names (text token) ≡ found
    → (regno_of token found).0 < 16
unfolding regno_of
regno_of-lt token none e = omega arith
regno_of-lt token (some n) e =
    let (i, at, name_at, below) = register_from-get_elem? 0 register_names (text token) n e in
    omega (arith, at, below)

pub token_to_regno-lt : (token : Token) → (token_to_regno token).0 < 16
unfolding token_to_regno regno_of
token_to_regno-lt token = regno_of-lt token (register_from 0 register_names (text token)) refl

-- What a word of two registers and an offset says.
abbrev Says : ℕ → ℕ → Token → Token → ℕ → Type 0
Says w opcode x y offset =
    (opcode_of w ≡ opcode) × Names x (x_of w) × Names y (y_of w) × (offset_of w ≡ offset)
