-- ===== src/Cache/Invariant.antt =====
-- The invariant of the cache, the tags of a line, and the one change that an access makes.
use da_bus.Base.{ℕ, ◌-◌, ◌^◌, ◌<◌, ◌≡◌, true, List, arith, has, IsNodup, length}
use da_bus.Cache.{Block, Cache, block_at, set_block, update_lru, index_decode}
use da_bus.Cache.Address.{IsSized, index_decode-lt}
use da_bus.Cache.Blocks.{IsShaped, lru_at}
use da_bus.Cache.Ways.{resident}

-- The LRU list of a line is an order of all its ways, and no tag is held twice.
pub record IsLine (c : Cache) (i : ℕ) : Type 0 where
  pub order : IsNodup (lru_at c i)
  pub count : length (lru_at c i) ≡ c.associativity
  pub members : (w : ℕ) → has w (lru_at c i) ≡ true → w < c.associativity
  pub complete : (w : ℕ) → w < c.associativity → has w (lru_at c i) ≡ true
  pub unique :
      (v w : ℕ)
      → v < c.associativity
      → w < c.associativity
      → (block_at c v i).valid ≡ true
      → (block_at c w i).valid ≡ true
      → (block_at c v i).tag ≡ (block_at c w i).tag
      → v ≡ w

pub record IsValid (c : Cache) : Type 0 where
  pub shaped : IsShaped c
  pub sized : IsSized c
  pub rows : c.lines ≡ 2 ^ (c.c_bits - c.b_bits - c.s_bits)
  pub some_way : 0 < c.associativity
  pub line : (i : ℕ) → i < c.lines → IsLine c i

-- The valid tags of a line, the least recently used first.
unfoldable pub resident_tags : Cache → ℕ → List ℕ
resident_tags c i = resident (λ w. block_at c w i) (lru_at c i)

-- `c'` comes from `c` by putting the block `b` in a way of the line of `address`, as its most
-- recent one.
unfoldable pub place : Cache → ℕ → ℕ → Block → Cache
place c address w b = set_block (update_lru address w c) w (index_decode c address) b

pub index_decode-lt_lines : {c : Cache} → IsValid c → (a : ℕ) → index_decode c a < c.lines
index_decode-lt_lines valid a = omega (arith, valid.rows, index_decode-lt valid.sized a)
