-- ===== src/Assembler/Numbers.antt =====
-- The numbers of project-2/prj2/Assembly/assemble32.c: `hextoi`, `is_numeric`, `check_offset` and
-- `token_to_number`. `atoi` is `(int) strtol(string, NULL, 10)`, as in the GNU C library.
use da_bus.Base.{
  ℕ, ◌+◌, ◌-◌, ◌*◌, ◌%◌, ◌^◌, min, Bool, true, false, ◌&&◌, ◌||◌, not, Option, none, some, List, [],
  ◌∷◌, ltb, leb, ◌==◌, if◌then◌else◌,
}
use da_bus.Assembler.{
  Token, text, Checked, pure, int_lt, undefined_symbol, offset_too_small, offset_too_great,
}
use da_bus.Assembler.Symbols.{Symbol, symbol_lookup}

-- A char of 128 or more is negative, and fails these tests as it does here.
pub is_decimal_char : ℕ → Bool
is_decimal_char c = leb b'0' c && leb c b'9'

pub is_octal_char : ℕ → Bool
is_octal_char c = leb b'0' c && leb c b'7'

pub is_hexadecimal_char : ℕ → Bool
unfolding is_decimal_char
is_hexadecimal_char c =
    is_decimal_char c || (leb b'A' c && leb c b'F') || (leb b'a' c && leb c b'f')

-- A loop over a token that returns 0 at the first bad char.
unfoldable pub all_chars : (ℕ → Bool) → List ℕ → Bool
all_chars p [] = true
all_chars p (c ∷ rest) = p c && all_chars p rest

abbrev pub is_x : ℕ → Bool
is_x c = (c == b'x') || (c == b'X')

-- `is_numeric` behind the sign.
unfoldable pub is_unsigned : List ℕ → Bool
unfolding all_chars is_decimal_char is_octal_char is_hexadecimal_char
is_unsigned [] = true
is_unsigned (c ∷ []) = is_decimal_char c
is_unsigned (c ∷ x ∷ digits) =
    if c == b'0'
    then (if is_x x
        then elim digits [ [] ↦ false | d ∷ more ↦ all_chars is_hexadecimal_char (d ∷ more) ]
        else all_chars is_octal_char (x ∷ digits))
    else all_chars is_decimal_char (c ∷ x ∷ digits)

-- The assert at the beginning wants a token that is not empty.
unfoldable pub is_numeric : List ℕ → Bool
unfolding is_unsigned
is_numeric [] = false
is_numeric (c ∷ rest) = if c == b'-' then is_unsigned rest else is_unsigned (c ∷ rest)

-- The digits that `strtol` reads, and their number.
unfoldable pub decimal_from : ℕ → List ℕ → ℕ
unfolding is_decimal_char
decimal_from n [] = n
decimal_from n (c ∷ rest) =
    let more = decimal_from (n * 10 + (c - b'0')) rest in if is_decimal_char c then more else n

unfoldable pub skip_space : List ℕ → List ℕ
skip_space [] = []
skip_space (c ∷ rest) =
    let more = skip_space rest in if (c == b' ') || (leb 9 c && leb c 13) then more else c ∷ rest

-- The sign, and `strtol` staying within a long.
unfoldable pub atoi : List ℕ → ℕ
unfolding decimal_from skip_space
atoi string = elim (skip_space string) [
  | [] ↦ 0
  | c ∷ rest ↦
      if c == b'-'
      then (2 ^ 64 - min (decimal_from 0 rest) (2 ^ 63)) % 2 ^ 32
      else min (decimal_from 0 (if c == b'+' then rest else c ∷ rest)) (2 ^ 63 - 1) % 2 ^ 32
]

-- An int as a long.
abbrev pub to_long : ℕ → ℕ
to_long n = if ltb n (2 ^ 31) then n else n + (2 ^ 64 - 2 ^ 32)

-- `none` where the loop of `hextoi` breaks.
unfoldable pub hex_digit : ℕ → Option ℕ
hex_digit c =
    if leb b'0' c && leb c b'9'
    then some (c - b'0')
    else if leb b'A' c && leb c b'F'
    then some (c - b'A' + 10)
    else if leb b'a' c && leb c b'f'
    then some (c - b'a' + 10)
    else none

unfoldable pub hex_from : ℕ → List ℕ → ℕ
unfolding hex_digit
hex_from number [] = number
hex_from number (c ∷ rest) = elim (hex_digit c) [
  | some digit ↦ hex_from ((number * 16 + digit) % 2 ^ 64) rest
  | none ↦ number
]

unfoldable pub hextoi : List ℕ → ℕ
unfolding atoi hex_from
hextoi (c ∷ x ∷ digits) =
    if (c == b'0') && is_x x then hex_from 0 digits else to_long (atoi (c ∷ x ∷ digits))
hextoi string = to_long (atoi string)

-- An offset of 20 bits; the value returned says whether it fits.
unfoldable pub check_offset : ℕ → Checked Bool
check_offset offset =
    if int_lt offset (2 ^ 32 - 2 ^ 19)
    then (false, offset_too_small offset ∷ [])
    else if not (int_lt offset (2 ^ 19))
    then (false, offset_too_great offset ∷ [])
    else pure true

-- The long that `hextoi` gives is cut to an int.
unfoldable pub token_to_number : List Symbol → Token → Checked ℕ
unfolding is_numeric hextoi symbol_lookup
token_to_number table token =
    if is_numeric (text token)
    then pure (hextoi (text token) % 2 ^ 32)
    else elim (symbol_lookup (text token) table) [
      | none ↦ (0, undefined_symbol token ∷ [])
      | some s ↦ pure s.value
    ]
