-- ===== src/Assembler.antt =====
-- The LC-2200 assembler, project-2/prj2/Assembly/assemble32.c: what its parts share. A char is its
-- byte, a string the list of its bytes before the NUL, and an int or a long its pattern of 32 or 64
-- bits. What is printed to stderr is a list of complaints, so `nerrors` is its length.
mod Lexer
mod Symbols
pub mod Numbers
mod Table
mod Encode
mod Passes
mod Words
mod Printing
mod Branches
mod Labels
mod Addresses
mod Lexing
mod Files
mod Outcomes
mod Bounds
mod Image
mod Tests
use Prim.Native.Char.{code}
use Prim.Native.String.{String}
use da_bus.Base.{ℕ, ◌+◌, ◌%◌, ◌^◌, Bool, true, false, ◌&&◌, List, [], ◌∷◌, ◌++◌, ltb, ◌==◌}

-- The bytes of a string literal.
abbrev pub codes : String → List ℕ
codes String.[] = []
codes (String.◌∷◌ c s) = code c ∷ codes s

-- `strcmp(a, b) == 0`
unfoldable pub same : List ℕ → List ℕ → Bool
same [] [] = true
same (c ∷ rest) (d ∷ other) = (c == d) && same rest other
same _ _ = false

-- The four delimiters are shared strings, which the code compares as pointers.
pub data Token : Type 0 where
  colon comma lparen rparen : Token
  word : List ℕ → Token

-- The string that a token points to.
unfoldable pub text : Token → List ℕ
text colon = codes ":"
text comma = codes ","
text lparen = codes "("
text rparen = codes ")"
text (word w) = w

-- `token == delimiter`, on pointers.
unfoldable pub is_pointer : Token → Token → Bool
is_pointer colon colon = true
is_pointer comma comma = true
is_pointer lparen lparen = true
is_pointer rparen rparen = true
is_pointer _ _ = false

-- The messages, without the source's file name and line number.
pub data Complaint : Type 0 where
  delimiter_at_beginning bad_delimiter : Token → Complaint
  duplicate_symbol bad_opcode : List ℕ → Complaint
  undefined_symbol no_register : Token → Complaint
  wrong_length : ℕ → ℕ → Complaint
  missing_delimiter : Token → Token → Complaint
  offset_too_small offset_too_great : ℕ → Complaint

-- A value together with the complaints on the way to it.
abbrev pub Checked {ℓ} : Type ℓ → Type ℓ
Checked A = A × List Complaint

module _ {ℓ κ} {A : Type ℓ} {B : Type κ} where
  infixl 5 ◌>>=◌ ◌>>◌
  abbrev pub ◌>>=◌ : Checked A → (A → Checked B) → Checked B
  (a, es) >>= f = let (b, fs) = f a in (b, es ++ fs)

  abbrev pub ◌>>◌ : Checked A → Checked B → Checked B
  m >> k = m >>= λ _. k

abbrev pub pure {ℓ} : {A : Type ℓ} → A → Checked A
pure a = (a, [])

-- `a < b` on int patterns.
abbrev pub int_lt : ℕ → ℕ → Bool
int_lt a b = ltb ((a + 2 ^ 31) % 2 ^ 32) ((b + 2 ^ 31) % 2 ^ 32)
