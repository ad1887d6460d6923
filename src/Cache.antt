-- ===== src/Cache.antt =====
-- The cache simulator, project-5/prj5/cachesim.c and cachesim.h, and the trace loop of
-- cachesim_driver.c. One global `cache_t`; a pointer to a block is its way (the number of its set)
-- beside the index of its line; the list of LRU nodes of a line is the list of their `set_index`.
-- The source's "set" is what is usually called a way.
mod Address
mod Recency
mod Blocks
mod Ways
mod Invariant
mod Place
mod Access
mod Stats
mod History
mod Tests
use Prim.Native.Nat.{bit_and}
use da_bus.Base.{
  ℕ, zero, suc, ◌+◌, ◌-◌, ◌*◌, ◌/◌, ◌%◌, ◌^◌, Bool, true, false, ◌&&◌, ◌||◌, not, Option, none,
  some, List, [], ◌∷◌, ltb, ◌==◌, if◌then◌else◌, get_or, set, replicate,
}

pub record Block : Type 0 where
  pub valid : Bool
  pub dirty : Bool
  pub tag : ℕ

-- `set_t`.
pub record CacheSet : Type 0 where
  pub lines : ℕ
  pub blocks : List Block

-- `cache_t`; `c_bits`, `b_bits` and `s_bits` are its fields C, B and S.
pub record Cache : Type 0 where
  pub associativity : ℕ
  pub lines : ℕ
  pub sets : List CacheSet
  pub lru : List (List ℕ)
  pub c_bits : ℕ
  pub b_bits : ℕ
  pub s_bits : ℕ

-- `struct cache_stats_t` without its two fields of type double.
pub record CacheStats : Type 0 where
  pub accesses : ℕ
  pub reads : ℕ
  pub read_misses : ℕ
  pub writes : ℕ
  pub write_misses : ℕ
  pub misses : ℕ
  pub write_backs : ℕ
  pub access_time : ℕ
  pub miss_penalty : ℕ

-- The character 'w'; any other is treated as a read.
abbrev pub write : ℕ
write = b'w'

-- `x++` on a uint64_t.
pub inc64 : ℕ → ℕ
inc64 x = (x + 1) % 2 ^ 64

-- `x << n` on an int, as a 32-bit pattern. C leaves a count of 32 or more undefined; the count is
-- taken modulo 32, as the x86 instruction does.
pub shl_int : ℕ → ℕ → ℕ
shl_int x n = x * 2 ^ (n % 32) % 2 ^ 32

-- The conversion from int to uint64_t, on bit patterns.
pub sign_extend : ℕ → ℕ
sign_extend x = if ltb x (2 ^ 31) then x else x + (2 ^ 64 - 2 ^ 32)

-- `((1 << bits) - 1) << shift`, converted to uint64_t.
pub mask : ℕ → ℕ → ℕ
unfolding shl_int sign_extend
mask bits shift = sign_extend (shl_int ((shl_int 1 bits + (2 ^ 32 - 1)) % 2 ^ 32) shift)

-- `C - B - S` on uint64_t, cut to an int; 2 ^ 65 keeps the difference above 0.
pub index_bits : Cache → ℕ
index_bits c = (c.c_bits + 2 ^ 65 - c.b_bits - c.s_bits) % 2 ^ 32

pub offset_bits : Cache → ℕ
offset_bits c = c.b_bits % 2 ^ 32

pub index_decode : Cache → ℕ → ℕ
index_decode c address =
    bit_and address (mask (index_bits c) (offset_bits c)) / 2 ^ (offset_bits c % 64)

pub tag_decode : Cache → ℕ → ℕ
tag_decode c address =
    let shift = (offset_bits c + index_bits c) % 2 ^ 32 in
    let tag_bits = (64 + 2 ^ 33 - index_bits c - offset_bits c) % 2 ^ 32 in
    bit_and address (mask tag_bits shift) / 2 ^ (shift % 64)

abbrev pub blank : Block
blank = record { valid = false; dirty = false; tag = 0 }

-- The nodes of one LRU list: `n` of them, from `j` on.
pub lru_nodes : ℕ → ℕ → List ℕ
lru_nodes zero j = []
lru_nodes (suc n) j = j ∷ lru_nodes n (j + 1)

pub cache_init : ℕ → ℕ → ℕ → Cache
unfolding shl_int lru_nodes
cache_init c s b =
    let ways = shl_int 1 s in
    let rows = shl_int 1 (c + 2 ^ 65 - b - s) in
    record {
      associativity = ways;
      lines = rows;
      sets = replicate ways (record { lines = rows; blocks = replicate rows blank });
      lru = replicate rows (lru_nodes ways 0);
      c_bits = c;
      b_bits = b;
      s_bits = s;
    }

-- `cache->sets[way].blocks[index]`.
pub block_at : Cache → ℕ → ℕ → Block
block_at c way index =
    get_or (get_or c.sets way (record { lines = 0; blocks = [] })).blocks index blank

pub set_block : Cache → ℕ → ℕ → Block → Cache
set_block c way index b =
    let s = get_or c.sets way (record { lines = 0; blocks = [] }) in
    record c { sets = set c.sets way (record s { blocks = set s.blocks index b }) }

-- The loop of `update_LRU`: from the node that holds `way` on, each node takes the number of the
-- next one, and the last node takes `way`. The list is never empty.
pub bubble : Bool → ℕ → List ℕ → List ℕ
bubble hit way [] = []
bubble hit way (x ∷ []) = way ∷ []
bubble hit way (x ∷ y ∷ xs) =
    let hit' = hit || (x == way) in (if hit' then y else x) ∷ bubble hit' way (y ∷ xs)

pub update_lru : ℕ → ℕ → Cache → Cache
unfolding bubble
update_lru address way c =
    let index = index_decode c address in
    record c { lru = set c.lru index (bubble false way (get_or c.lru index [])) }

-- The loop of `block_search`, with `n` rounds left at way `i`.
pub search_from : Cache → ℕ → ℕ → ℕ → ℕ → Option ℕ
search_from c index tag zero i = none
search_from c index tag (suc n) i =
    let b = block_at c i index in
    let rest = search_from c index tag n (i + 1) in
    if b.valid && (b.tag == tag) then some i else rest

pub block_search : ℕ → Cache → Option ℕ × Cache
block_search address c =
    elim (search_from c (index_decode c address) (tag_decode c address) c.associativity 0) [
      | none ↦ (none, c)
      | some way ↦ (some way, update_lru address way c)
    ]

-- The loop of `find_invalid_block`, with `n` rounds left at way `i`.
pub invalid_from : Cache → ℕ → ℕ → ℕ → Option ℕ
invalid_from c index zero i = none
invalid_from c index (suc n) i =
    let rest = invalid_from c index n (i + 1) in
    if not (block_at c i index).valid then some i else rest

pub find_invalid_block : ℕ → Cache → Option ℕ × Cache
find_invalid_block address c = elim (invalid_from c (index_decode c address) c.associativity 0) [
  | none ↦ (none, c)
  | some way ↦ (some way, update_lru address way c)
]

pub find_lru_block : ℕ → Cache → ℕ × Cache
find_lru_block address c =
    let way = get_or (get_or c.lru (index_decode c address) []) 0 0 in
    (way, update_lru address way c)

pub cache_hit : ℕ → ℕ → ℕ → Cache → Cache
cache_hit way rw address c =
    let index = index_decode c address in
    if rw == write
    then set_block c way index (record (block_at c way index) { dirty = true })
    else c

-- The choice of the victim in `cache_miss`.
pub choose_victim : ℕ → Cache → ℕ × Cache
choose_victim address c =
    let (found, c') = find_invalid_block address c in
    elim found [ none ↦ find_lru_block address c' | some way ↦ (way, c') ]

pub count_miss : ℕ → CacheStats → CacheStats
unfolding inc64
count_miss rw s =
    let s' = record s { misses = inc64 s.misses } in
    if rw == write
    then record s' { write_misses = inc64 s'.write_misses }
    else record s' { read_misses = inc64 s'.read_misses }

pub cache_miss : ℕ → ℕ → Cache → CacheStats → Cache × CacheStats
cache_miss rw address c s =
    let (way, c') = choose_victim address c in
    let index = index_decode c' address in
    let s' =
      if (block_at c' way index).dirty then record s { write_backs = inc64 s.write_backs } else s in
    let fresh : Block = record { valid = true; dirty = false; tag = tag_decode c' address } in
    (set_block c' way index fresh, count_miss rw s')

pub count_access : ℕ → CacheStats → CacheStats
unfolding inc64
count_access rw s =
    let s' = record s { accesses = inc64 s.accesses } in
    if rw == write
    then record s' { writes = inc64 s'.writes }
    else record s' { reads = inc64 s'.reads }

pub cache_access : ℕ → ℕ → Cache → CacheStats → Cache × CacheStats
cache_access rw address c s =
    let s' = count_access rw s in
    let (found, c') = block_search address c in
    elim found [ none ↦ cache_miss rw address c' s' | some way ↦ (cache_hit way rw address c', s') ]

-- The statistics that the driver starts with.
abbrev pub initial_stats : CacheStats
initial_stats = record {
  accesses = 0;
  reads = 0;
  read_misses = 0;
  writes = 0;
  write_misses = 0;
  misses = 0;
  write_backs = 0;
  access_time = 2;
  miss_penalty = 100;
}

-- The loop of the driver, over the records of the trace that `fscanf` reads in full.
pub run_trace : List (ℕ × ℕ) → Cache → CacheStats → Cache × CacheStats
run_trace [] c s = (c, s)
run_trace ((rw, address) ∷ trace) c s =
    let (c', s') = cache_access rw address c s in run_trace trace c' s'
