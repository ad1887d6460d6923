-- ===== src/Cache/Address.antt =====
-- `index_decode` and `tag_decode` as arithmetic: the fields of an address.
use native.Mathlib.Nat.{mod-eq_of_lt, mod-lt, div-lt_iff_lt-mul, div-add-mod', div-div-eq-div-mul}
use da_bus.Base.{ℕ, ◌+◌, ◌-◌, ◌*◌, ◌/◌, ◌%◌, ◌^◌, ◌≤◌, ◌<◌, ◌≡◌, ap, ◌∙◌, arith}
use da_bus.Base.Bits.{pow_two_add, pow_two_mono, pow_two_pos, bit_and-field}
use da_bus.Cache.{
  Cache, shl_int, sign_extend, mask, index_bits, offset_bits, index_decode, tag_decode,
}

-- The sizes for which the decoding is meant: the block and set sizes fit into the cache, and an
-- index with its offset takes between 1 and 31 bits.
pub record IsSized (c : Cache) : Type 0 where
  pub fits : c.b_bits + c.s_bits ≤ c.c_bits
  pub lower : c.s_bits < c.c_bits
  pub upper : c.c_bits ≤ c.s_bits + 31

-- What the shifts and the subtraction leave: `r` ones, shifted.
ones_product : (r k : ℕ) → 2 ^ (r + k) ≡ (2 ^ r - 1) * 2 ^ k + 2 ^ k
ones_product r k =
    let e : 2 ^ r ≡ 2 ^ r - 1 + 1 = omega (arith, pow_two_pos r) in
    pow_two_add r k ∙ ap (λ p. p * 2 ^ k) e ∙ omega arith

ones_bound : (r k : ℕ) → r + k ≤ 32 → (2 ^ r - 1) * 2 ^ k < 2 ^ 32
ones_bound r k h = omega (arith, ones_product r k, pow_two_pos k, pow_two_mono (r + k) 32 h)

shl_int-mul : (x n : ℕ) → n < 32 → x * 2 ^ n < 2 ^ 32 → shl_int x n ≡ x * 2 ^ n
unfolding shl_int
shl_int-mul x n h h' = rw (mod-eq_of_lt h) (mod-eq_of_lt h')

pub shl_int-one : (bits r : ℕ) → bits % 32 ≡ r → r < 32 → shl_int 1 bits ≡ 2 ^ r
unfolding shl_int
shl_int-one bits r e h = rw e (omega (arith, pow_two_mono r 31 (omega arith)))

mask-ones :
    (bits r shift : ℕ)
    → bits % 32 ≡ r
    → r < 32
    → shift < 32
    → r + shift ≤ 32
    → mask bits shift ≡ sign_extend ((2 ^ r - 1) * 2 ^ shift)
unfolding mask
mask-ones bits r shift e h h' b =
    let ones : (shl_int 1 bits + (2 ^ 32 - 1)) % 2 ^ 32 ≡ 2 ^ r - 1 =
      omega (arith, shl_int-one bits r e h, pow_two_pos r, pow_two_mono r 31 (omega arith)) in
    rw ones (ap sign_extend (shl_int-mul (2 ^ r - 1) shift h' (ones_bound r shift b)))

mask_low : (bits shift : ℕ) → bits + shift ≤ 31 → mask bits shift ≡ (2 ^ bits - 1) * 2 ^ shift
unfolding sign_extend
mask_low bits shift h =
    mask-ones bits bits shift (omega arith) (omega arith) (omega arith) (omega arith)
    ∙ ground (arith, ones_product bits shift, pow_two_pos shift, pow_two_mono (bits + shift) 31 h)

mask_high : (k : ℕ) → 0 < k → k ≤ 31 → mask (64 - k) k ≡ (2 ^ (64 - k) - 1) * 2 ^ k
unfolding sign_extend
mask_high k h h' =
    let a : 32 - k + k ≡ 32 = omega arith in
    let b : 64 - k + k ≡ 64 = omega arith in
    mask-ones (64 - k) (32 - k) k (omega arith) (omega arith) (omega arith) (omega arith)
    ∙ ground (
      arith,
      ones_product (32 - k) k,
      ap (λ n. 2 ^ n) a,
      ones_product (64 - k) k,
      ap (λ n. 2 ^ n) b,
      pow_two_mono k 31 h',
    )

module _ {c : Cache} (sized : IsSized c) where
  index_bits-sub : index_bits c ≡ c.c_bits - c.b_bits - c.s_bits
  unfolding index_bits
  index_bits-sub = omega arith

  offset_bits-eq : offset_bits c ≡ c.b_bits
  unfolding offset_bits
  offset_bits-eq = omega arith

  -- The index is the field of `C - B - S` bits above the offset.
  pub index_decode-field :
      (a : ℕ) → index_decode c a ≡ a / 2 ^ c.b_bits % 2 ^ (c.c_bits - c.b_bits - c.s_bits)
  unfolding index_decode
  index_decode-field a =
      let m = c.c_bits - c.b_bits - c.s_bits in
      let count : c.b_bits % 64 ≡ c.b_bits = omega arith in
      rw (index_bits-sub, offset_bits-eq, mask_low m c.b_bits (omega arith), count)
        (bit_and-field m c.b_bits a)

  -- The tag is all that stands above index and offset.
  pub tag_decode-field : (a : ℕ) → a < 2 ^ 64 → tag_decode c a ≡ a / 2 ^ (c.c_bits - c.s_bits)
  unfolding tag_decode
  tag_decode-field a h =
      let k = c.c_bits - c.s_bits in
      let shift : (c.b_bits + (c.c_bits - c.b_bits - c.s_bits)) % 2 ^ 32 ≡ k = omega arith in
      let bits : (64 + 2 ^ 33 - (c.c_bits - c.b_bits - c.s_bits) - c.b_bits) % 2 ^ 32 ≡ 64 - k =
        omega arith in
      let count : k % 64 ≡ k = omega arith in
      rw
        (
          index_bits-sub,
          offset_bits-eq,
          shift,
          bits,
          mask_high k (omega arith) (omega arith),
          count,
        )
        (bit_and-field (64 - k) k a
          ∙ mod-eq_of_lt (
              (div-lt_iff_lt-mul (pow_two_pos k)).1
                (omega (arith, pow_two_add (64 - k) k, ap (λ n. 2 ^ n) (join k (omega arith))))))
    where
      join : (k : ℕ) → k ≤ 64 → 64 - k + k ≡ 64
      join k h = omega arith

  pub index_decode-lt : (a : ℕ) → index_decode c a < 2 ^ (c.c_bits - c.b_bits - c.s_bits)
  index_decode-lt a = rw (index_decode-field a) (mod-lt _ (pow_two_pos _))

  -- Tag and index together name the memory block of the address, and nothing else: for a cache of
  -- a supported size and a 64-bit address, `tag * 2 ^ (C - B - S) + index` is the address without
  -- its offset.
  pub tag_decode-index_decode :
      (a : ℕ)
      → a < 2 ^ 64
      → tag_decode c a * 2 ^ (c.c_bits - c.b_bits - c.s_bits) + index_decode c a ≡ a / 2 ^ c.b_bits
  tag_decode-index_decode a h =
      let m = c.c_bits - c.b_bits - c.s_bits in
      let k : c.c_bits - c.s_bits ≡ c.b_bits + m = omega arith in
      rw
        (
          tag_decode-field a h,
          index_decode-field a,
          k,
          pow_two_add c.b_bits m,
          ← div-div-eq-div-mul a (2 ^ c.b_bits) (2 ^ m),
        )
        (div-add-mod' (a / 2 ^ c.b_bits) (2 ^ m))
