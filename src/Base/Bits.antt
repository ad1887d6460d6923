-- ===== src/Base/Bits.antt =====
-- `bit_and` with a mask of ones, shifted or not: the forms that address decoding uses.
use Prim.Native.Nat.{
  ℕ, zero, suc, ◌+◌, ◌-◌, ◌*◌, ◌/◌, ◌%◌, ◌^◌, ◌≤◌, ◌<◌, min, max, bit_and, bit_or, digits,
  bit_and-bitwise, bit_or-bitwise,
}
use mathlib.Core.Path.{◌≡◌, refl, sym, ap, ◌∙◌}
use native.Mathlib.Omega.{arith}
use native.Mathlib.Nat.{
  pow-suc, div-add-mod, div-div-eq-div-mul, div-one, add-zero, add-suc, zero-div, zero-mod,
  mul-div_left,
}

pub pow_two_suc : (k : ℕ) → 2 ^ suc k ≡ 2 * 2 ^ k
pow_two_suc k = omega (arith, pow-suc 2 k)

pub pow_two_pos : (k : ℕ) → 0 < 2 ^ k
pow_two_pos zero = omega arith
pow_two_pos (suc k) = omega (arith, pow_two_suc k, pow_two_pos k)

mod_double : (m a : ℕ) → 0 < m → a % (2 * m) ≡ (a / 2 % m) * 2 + a % 2
mod_double m a h = omega (
  arith,
  div-add-mod a (2 * m),
  div-add-mod (a / 2) m,
  ap (λ (q : ℕ). m * q) (div-div-eq-div-mul a 2 m),
)

-- `m` ones above `k` zeros.
abbrev window : ℕ → ℕ → ℕ
window m k = (2 ^ m - 1) * 2 ^ k

abbrev masked : ℕ → ℕ → ℕ → ℕ
masked = digits (λ b. 0) min

-- Half of a window is the window one place lower.
window-shifted : (m k : ℕ) → (window m (suc k) / 2 ≡ window m k) × (window m (suc k) % 2 ≡ 0)
window-shifted m k =
    let e : window m (suc k) ≡ 2 * window m k = rw (pow_two_suc k) (omega arith) in
    (omega (arith, e), omega (arith, e))

window-odd : (m : ℕ) → (window (suc m) 0 / 2 ≡ window m 0) × (window (suc m) 0 % 2 ≡ 1)
window-odd m =
    let e : window (suc m) 0 ≡ 2 * window m 0 + 1 = omega (arith, pow_two_suc m, pow_two_pos m) in
    (omega (arith, e), omega (arith, e))

masked_zero : (n a : ℕ) → a ≤ n → masked n a 0 ≡ 0
masked_zero zero a h = refl
masked_zero (suc n) zero h = refl
masked_zero (suc n) (suc a) h = omega (arith, masked_zero n (suc a / 2) (omega arith))

-- No digit of 0 lies in a window.
field_zero : (m k : ℕ) → 0 / 2 ^ k % 2 ^ m * 2 ^ k ≡ 0
field_zero m k = rw (zero-div (2 ^ k), zero-mod (2 ^ m)) (omega arith)

-- The digits of a window, read with enough fuel.
masked-window : (n a m k : ℕ) → a ≤ n → masked n a (window m k) ≡ a / 2 ^ k % 2 ^ m * 2 ^ k
masked-window zero zero m k h = sym (field_zero m k)
masked-window zero (suc a) m k h = absurd (omega arith)
masked-window (suc n) zero m k h = sym (field_zero m k)
masked-window (suc n) (suc a) m (suc k) h =
    let (half, even) = window-shifted m k in
    let rest = masked-window n (suc a / 2) m k (omega arith) in
    rw (half, even, rest, div-div-eq-div-mul (suc a) 2 (2 ^ k), pow_two_suc k) (omega arith)
masked-window (suc n) (suc a) zero zero h = masked_zero (suc n) (suc a) h ∙ omega arith
masked-window (suc n) (suc a) (suc m) zero h =
    let (half, odd) = window-odd m in
    let rest = masked-window n (suc a / 2) m 0 (omega arith) in
    rw (half, odd, rest, div-one, div-one, pow_two_suc m)
      (omega (arith, mod_double (2 ^ m) (suc a) (pow_two_pos m)))

pub pow_two_add : (a b : ℕ) → 2 ^ (a + b) ≡ 2 ^ a * 2 ^ b
pow_two_add a zero = rw add-zero (omega arith)
pow_two_add a (suc b) =
    rw (add-suc, pow_two_suc (a + b), pow_two_add a b, pow_two_suc b) (omega arith)

pub pow_two_mono : (a b : ℕ) → a ≤ b → 2 ^ a ≤ 2 ^ b
pow_two_mono a b h =
    let e : b ≡ a + (b - a) = omega arith in
    rw (e, pow_two_add a (b - a)) (grind (arith, pow_two_pos (b - a)))

-- Reading `m` digits above position `k` through a shifted mask.
pub bit_and-field : (m k a : ℕ) → bit_and a ((2 ^ m - 1) * 2 ^ k) / 2 ^ k ≡ a / 2 ^ k % 2 ^ m
bit_and-field m k a =
    rw (bit_and-bitwise a (window m k), masked-window a a m k (omega arith))
      (mul-div_left (a / 2 ^ k % 2 ^ m) (pow_two_pos k))

abbrev merged : ℕ → ℕ → ℕ → ℕ
merged = digits (λ b. b) max

merged_zero : (n a : ℕ) → a ≤ n → merged n a 0 ≡ a
merged_zero zero a h = omega arith
merged_zero (suc n) zero h = refl
merged_zero (suc n) (suc a) h = omega (arith, merged_zero n (suc a / 2) (omega arith))

double_left : (a m : ℕ) → a * (2 * m) ≡ 2 * (a * m)
double_left a m = grind arith

-- A number above position `k` and one below it, read with enough fuel.
merged-disjoint : (n x k a b : ℕ) → x ≤ n → x ≡ a * 2 ^ k → b < 2 ^ k → merged n x b ≡ x + b
merged-disjoint zero x k a b h e l = omega arith
merged-disjoint (suc n) zero k a b h e l = omega arith
merged-disjoint (suc n) (suc x) zero a b h e l =
    let z : b ≡ 0 = omega arith in rw (z) (omega (arith, merged_zero n (suc x / 2) (omega arith)))
merged-disjoint (suc n) (suc x) (suc k) a b h e l =
    let p = pow_two_suc k in
    let e' : suc x ≡ 2 * (a * 2 ^ k) = e ∙ ap (λ (m : ℕ). a * m) p ∙ double_left a (2 ^ k) in
    let rest =
      merged-disjoint n (suc x / 2) k a (b / 2) (omega arith) (omega arith) (omega arith) in
    omega (arith, rest)

-- The second number fills places where the first one has zeros: `j` places from `k` on.
merged-field :
    (n x y k j u l v : ℕ)
    → x ≤ n
    → x ≡ u * 2 ^ (j + k) + l
    → l < 2 ^ k
    → y ≡ v * 2 ^ k
    → v < 2 ^ j
    → merged n x y ≡ x + y
merged-field zero x y k j u l v h e p f q = omega arith
merged-field (suc n) zero y k j u l v h e p f q = omega arith
merged-field (suc n) (suc x) y zero j u l v h e p f q =
    let s : j + 0 ≡ j = omega arith in
    let e' : suc x ≡ u * 2 ^ j + l = e ∙ ap (λ (m : ℕ). u * 2 ^ m + l) s in
    merged-disjoint (suc n) (suc x) j u y h (omega arith) (omega arith)
merged-field (suc n) (suc x) y (suc k) j u l v h e p f q =
    let t = pow_two_suc k in
    let s : j + suc k ≡ suc (j + k) = omega arith in
    let e' : suc x ≡ 2 * (u * 2 ^ (j + k)) + l =
      rw (e, s, pow_two_suc (j + k), double_left u (2 ^ (j + k))) refl in
    let f' : y ≡ 2 * (v * 2 ^ k) = rw (f, t, double_left v (2 ^ k)) refl in
    let rest =
      merged-field n (suc x / 2) (y / 2) k j u (l / 2) v (omega arith) (omega arith) (omega arith)
        (omega arith) q in
    omega (arith, rest)

pub bit_or-field :
    (k j u l v : ℕ) {x y : ℕ}
    → x ≡ u * 2 ^ (j + k) + l
    → l < 2 ^ k
    → y ≡ v * 2 ^ k
    → v < 2 ^ j
    → bit_or x y ≡ x + y
bit_or-field k j u l v {x} {y} e p f q =
    rw (bit_or-bitwise x y) (merged-field x x y k j u l v (omega arith) e p f q)
