-- ===== src/Rtp/Bytes.antt =====
-- Byte lists: prefixes, writes at the end of a prefix, and the checksum as a sum.
use da_bus.Base.{
  ℕ, zero, suc, ◌+◌, ◌-◌, ◌%◌, ◌^◌, ◌≤◌, ◌<◌, ◌≡◌, refl, ap, ◌∙◌, some, List, [], ◌∷◌, ◌++◌, arith,
  length, take, set, get_or,
}
use da_bus.Rtp.{char_to_int, checksum_loop, checksum, rounds}

pub take_all : {A : Type 0} (xs : List A) → take (length xs) xs ≡ xs
take_all [] = refl
take_all (x ∷ xs) = ap (◌∷◌ x) (take_all xs)

pub take-append_le :
    {A : Type 0} (n : ℕ) (xs ys : List A) → n ≤ length xs → take n (xs ++ ys) ≡ take n xs
take-append_le zero xs ys h = refl
take-append_le (suc n) [] ys h = absurd (omega arith)
take-append_le (suc n) (x ∷ xs) ys h = ap (◌∷◌ x) (take-append_le n xs ys (omega arith))

pub take-append_ge :
    {A : Type 0} (n : ℕ) (xs ys : List A)
    → length xs ≤ n
    → take n (xs ++ ys) ≡ xs ++ take (n - length xs) ys
take-append_ge n [] ys h = ap (λ k. take k ys) (omega arith)
take-append_ge zero (x ∷ xs) ys h = absurd (omega arith)
take-append_ge (suc n) (x ∷ xs) ys h =
    ap (◌∷◌ x) (take-append_ge n xs ys (omega arith) ∙ ap (λ k. xs ++ take k ys) (omega arith))

pub take-set-suc :
    {A : Type 0} (n : ℕ) (x : A) (xs : List A)
    → n < length xs
    → take (suc n) (set xs n x) ≡ take n xs ++ x ∷ []
take-set-suc n x [] h = elim h [ ]
take-set-suc zero x (y ∷ xs) h = refl
take-set-suc (suc n) x (y ∷ xs) h = ap (◌∷◌ y) (take-set-suc n x xs (omega arith))

-- Reading and writing right behind a prefix.
pub get_or-append :
    {A : Type 0} (xs : List A) (y : A) (ys : List A) (d : A)
    → get_or (xs ++ y ∷ ys) (length xs) d ≡ y
get_or-append [] y ys d = refl
get_or-append (x ∷ xs) y ys d = get_or-append xs y ys d

pub set-append :
    {A : Type 0} (xs : List A) (y v : A) (ys : List A)
    → set (xs ++ y ∷ ys) (length xs) v ≡ xs ++ v ∷ ys
set-append [] y v ys = refl
set-append (x ∷ xs) y v ys = ap (◌∷◌ x) (set-append xs y v ys)

-- The sum of the characters.
pub total : List ℕ → ℕ
total [] = 0
total (b ∷ bs) = char_to_int b + total bs

checksum_loop-total :
    (buffer : List ℕ) (n tally : ℕ)
    → n ≤ length buffer
    → tally < 2 ^ 32
    → checksum_loop buffer n tally ≡ some ((tally + total (take n buffer)) % 2 ^ 32)
unfolding checksum_loop total
checksum_loop-total buffer zero tally h t = ap some (omega arith)
checksum_loop-total [] (suc n) tally h t = absurd (omega arith)
checksum_loop-total (b ∷ buffer) (suc n) tally h t =
    checksum_loop-total buffer n ((tally + char_to_int b) % 2 ^ 32) (omega arith) (omega arith)
    ∙ ap some (omega arith)

-- Within the buffer the checksum is the sum of the first `n` characters, as signed numbers modulo
-- 2 ^ 32.
pub checksum-total :
    (buffer : List ℕ) (n : ℕ)
    → n ≤ length buffer
    → n < 2 ^ 31
    → checksum buffer n ≡ some (total (take n buffer) % 2 ^ 32)
unfolding checksum rounds
checksum-total buffer n h k = ground (arith, checksum_loop-total buffer n 0)
