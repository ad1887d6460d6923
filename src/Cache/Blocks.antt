-- ===== src/Cache/Blocks.antt =====
-- The arrays of the cache: their sizes, and how reads see writes.
use da_bus.Base.{
  ℕ, ◌<◌, ◌≡◌, refl, sym, ◌∙◌, ◌≢◌, ◌⊎◌, inl, inr, List, [], arith, ◌==◌, Bool-cases, get_or, set,
  length, length-set, get_or-set_self, get_or-set_ne, ==_iff, ne_of_==, false,
}
use da_bus.Cache.{
  Block, CacheSet, Cache, block_at, set_block, update_lru, bubble, index_decode, tag_decode,
  index_bits, offset_bits,
}

abbrev pub no_set : CacheSet
no_set = record { lines = 0; blocks = [] }

abbrev pub lru_at : Cache → ℕ → List ℕ
lru_at c i = get_or c.lru i []

-- Every array has the size that the two counts announce.
pub record IsShaped (c : Cache) : Type 0 where
  pub ways : length c.sets ≡ c.associativity
  pub rows : length c.lru ≡ c.lines
  pub blocks : (w : ℕ) → w < c.associativity → length (get_or c.sets w no_set).blocks ≡ c.lines

module _ (c : Cache) (way index : ℕ) (b : Block) where
  -- The set that the write leaves at its way.
  written : CacheSet
  written = let s = get_or c.sets way no_set in record s { blocks = set s.blocks index b }

  set_of_way :
      IsShaped c → way < c.associativity → get_or (set c.sets way written) way no_set ≡ written
  set_of_way s hw = get_or-set_self c.sets way written no_set (omega (arith, s.ways))

  set_of_other :
      (w : ℕ) → w ≢ way → get_or (set c.sets way written) w no_set ≡ get_or c.sets w no_set
  set_of_other w ne = get_or-set_ne c.sets way w written no_set (λ e. ne (sym e))

  pub block_at-set_block_self :
      IsShaped c
      → way < c.associativity
      → index < c.lines
      → block_at (set_block c way index b) way index ≡ b
  unfolding block_at set_block written
  block_at-set_block_self s hw hi =
      rw (set_of_way s hw) (
        get_or-set_self (get_or c.sets way no_set).blocks index b _
          (omega (arith, s.blocks way hw)))

  pub block_at-set_block_ne :
      (w i : ℕ)
      → IsShaped c
      → way < c.associativity
      → (w ≢ way) ⊎ (i ≢ index)
      → block_at (set_block c way index b) w i ≡ block_at c w i
  unfolding block_at set_block written
  block_at-set_block_ne w i s hw (inl ne) = rw (set_of_other w ne)
  block_at-set_block_ne w i s hw (inr ne) = elim (Bool-cases (w == way)) [
    | inl e ↦
        rw ((==_iff w way).0 e, set_of_way s hw)
          (get_or-set_ne (get_or c.sets way no_set).blocks index i b _ (λ p. ne (sym p)))
    | inr e ↦ rw (set_of_other w (ne_of_== w way e))
  ]

  blocks_after :
      (w : ℕ)
      → IsShaped c
      → way < c.associativity
      → w < c.associativity
      → length (get_or (set c.sets way written) w no_set).blocks ≡ c.lines
  unfolding written
  blocks_after w s hw h = elim (Bool-cases (w == way)) [
    | inl e ↦
        rw ((==_iff w way).0 e, set_of_way s hw)
          (length-set (get_or c.sets way no_set).blocks index b ∙ s.blocks way hw)
    | inr e ↦ rw (set_of_other w (ne_of_== w way e)) (s.blocks w h)
  ]

  pub IsShaped-set_block : way < c.associativity → IsShaped c → IsShaped (set_block c way index b)
  unfolding set_block written
  IsShaped-set_block hw s = record {
    ways = length-set c.sets way _ ∙ s.ways;
    rows = s.rows;
    blocks = λ w h. blocks_after w s hw h;
  }

  pub decode-set_block :
      (a : ℕ)
      → (index_decode (set_block c way index b) a ≡ index_decode c a)
        × (tag_decode (set_block c way index b) a ≡ tag_decode c a)
  unfolding index_decode tag_decode index_bits offset_bits set_block
  decode-set_block a = (refl, refl)

module _ (c : Cache) (address way : ℕ) where
  pub block_at-update_lru : block_at (update_lru address way c) ≡ block_at c
  unfolding block_at update_lru
  block_at-update_lru = refl

  pub IsShaped-update_lru : IsShaped c → IsShaped (update_lru address way c)
  unfolding update_lru
  IsShaped-update_lru s = record {
    ways = s.ways;
    rows = length-set c.lru _ _ ∙ s.rows;
    blocks = s.blocks;
  }

  pub lru_at-update_lru_self :
      IsShaped c
      → index_decode c address < c.lines
      → lru_at (update_lru address way c) (index_decode c address)
        ≡ bubble false way (lru_at c (index_decode c address))
  unfolding update_lru
  lru_at-update_lru_self s h = get_or-set_self c.lru _ _ [] (omega (arith, s.rows))

  pub lru_at-update_lru_ne :
      (i : ℕ) → i ≢ index_decode c address → lru_at (update_lru address way c) i ≡ lru_at c i
  unfolding update_lru
  lru_at-update_lru_ne i ne = get_or-set_ne c.lru _ i _ [] (λ e. ne (sym e))

-- The decoding reads only the sizes.
pub index_decode-update_lru :
    (c : Cache) (address way a : ℕ) → index_decode (update_lru address way c) a ≡ index_decode c a
unfolding index_decode index_bits offset_bits update_lru
index_decode-update_lru c address way a = refl

pub tag_decode-update_lru :
    (c : Cache) (address way a : ℕ) → tag_decode (update_lru address way c) a ≡ tag_decode c a
unfolding tag_decode index_bits offset_bits update_lru
tag_decode-update_lru c address way a = refl
