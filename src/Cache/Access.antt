-- ===== src/Cache/Access.antt =====
-- `cache_access` against its specification: which tags each line holds, and in which order.
use da_bus.Base.{
  ℕ, ◌≡◌, sym, ap, ◌∙◌, true, false, ◌&&◌, none, some, ◌<◌, arith, ◌==◌, if◌then◌else◌, Bool-cases,
  Option-cases, inl, inr, get_or, set-get_or,
}
use da_bus.Cache.{
  Block, Cache, CacheStats, block_at, set_block, update_lru, index_decode, tag_decode, write,
  search_from, invalid_from, find_invalid_block, find_lru_block, choose_victim, cache_hit,
  cache_miss, block_search, cache_access,
}
use da_bus.Cache.Invariant.{place}
use da_bus.Cache.Blocks.{
  lru_at, no_set, block_at-update_lru, index_decode-update_lru, tag_decode-update_lru,
}
use da_bus.Cache.Ways.{
  Holds, search_from-some, search_from-none, invalid_from-some, invalid_from-none,
}

set_block-block_at : (c : Cache) (w i : ℕ) → set_block c w i (block_at c w i) ≡ c
unfolding set_block block_at
set_block-block_at c w i =
    rw (set-get_or (get_or c.sets w no_set).blocks i _, set-get_or c.sets w no_set)

-- The block that a hit leaves.
abbrev pub hit_block : ℕ → Block → Block
hit_block op b = if op == write then record b { dirty = true } else b

-- The block that a miss leaves.
abbrev pub miss_block : ℕ → Block
miss_block t = record { valid = true; dirty = false; tag = t }

-- What one access does to the cache: it puts a block in one way of the line, on a hit that of the
-- tag, on a miss the first invalid way or, with all ways valid, the head of the LRU list.
pub data Outcome (c : Cache) (op address : ℕ) (c' : Cache) : Type 0 where
  hit :
      (w : ℕ)
      → w < c.associativity
      → Holds c (index_decode c address) (tag_decode c address) w
      → c' ≡ place c address w (hit_block op (block_at c w (index_decode c address)))
      → Outcome c op address c'
  fill :
      (w : ℕ)
      → w < c.associativity
      → (block_at c w (index_decode c address)).valid ≡ false
      → ((v : ℕ)
          → v < c.associativity
          → ((block_at c v (index_decode c address)).valid
              && ((block_at c v (index_decode c address)).tag == tag_decode c address))
            ≡ false)
      → c' ≡ place c address w (miss_block (tag_decode c address))
      → Outcome c op address c'
  evict :
      ((v : ℕ) → v < c.associativity → (block_at c v (index_decode c address)).valid ≡ true)
      → ((v : ℕ)
          → v < c.associativity
          → ((block_at c v (index_decode c address)).valid
              && ((block_at c v (index_decode c address)).tag == tag_decode c address))
            ≡ false)
      → c'
        ≡ place c address
            (get_or (lru_at c (index_decode c address)) 0 0)
            (miss_block (tag_decode c address))
      → Outcome c op address c'

module _ (c : Cache) (op address : ℕ) where
  cache_hit-place :
      (w : ℕ)
      → cache_hit w op address (update_lru address w c)
        ≡ place c address w (hit_block op (block_at c w (index_decode c address)))
  unfolding cache_hit place
  cache_hit-place w = elim (Bool-cases (op == write)) [
    | inl e ↦ rw (e, index_decode-update_lru c address w address, block_at-update_lru c address w)
    | inr e ↦ rw e (sym keep)
  ]
    where
      keep :
          set_block
            (update_lru address w c)
            w
            (index_decode c address)
            (block_at c w (index_decode c address))
          ≡ update_lru address w c
      keep =
          ap
            (λ f.
              set_block (update_lru address w c) w (index_decode c address)
                (f w (index_decode c address)))
            (sym (block_at-update_lru c address w))
          ∙ set_block-block_at (update_lru address w c) w (index_decode c address)

  cache_miss-place :
      (s : CacheStats) (w : ℕ)
      → choose_victim address c ≡ (w, update_lru address w c)
      → (cache_miss op address c s).0 ≡ place c address w (miss_block (tag_decode c address))
  unfolding cache_miss place
  cache_miss-place s w e =
      rw (e, index_decode-update_lru c address w address, tag_decode-update_lru c address w address)

  pub block_search-some :
      {w : ℕ}
      → search_from c (index_decode c address) (tag_decode c address) c.associativity 0 ≡ some w
      → block_search address c ≡ (some w, update_lru address w c)
  unfolding block_search
  block_search-some e = rw (e, block_search)

  pub block_search-none :
      search_from c (index_decode c address) (tag_decode c address) c.associativity 0 ≡ none
      → block_search address c ≡ (none, c)
  unfolding block_search
  block_search-none e = rw (e, block_search)

  found_lem :
      {w : ℕ}
      → invalid_from c (index_decode c address) c.associativity 0 ≡ some w
      → find_invalid_block address c ≡ (some w, update_lru address w c)
  unfolding find_invalid_block
  found_lem e = rw (e, find_invalid_block)

  found_none :
      invalid_from c (index_decode c address) c.associativity 0 ≡ none
      → find_invalid_block address c ≡ (none, c)
  unfolding find_invalid_block
  found_none e = rw (e, find_invalid_block)

  choose_victim-some :
      {w : ℕ}
      → invalid_from c (index_decode c address) c.associativity 0 ≡ some w
      → choose_victim address c ≡ (w, update_lru address w c)
  unfolding choose_victim
  choose_victim-some e = rw (found_lem e, choose_victim, found_lem e)

  choose_victim-none :
      invalid_from c (index_decode c address) c.associativity 0 ≡ none
      → choose_victim address c ≡ (
        get_or (lru_at c (index_decode c address)) 0 0,
        update_lru address (get_or (lru_at c (index_decode c address)) 0 0) c,
      )
  unfolding choose_victim find_lru_block
  choose_victim-none e = rw (found_none e, choose_victim, found_none e)

  cache_access-some :
      (s : CacheStats) {w : ℕ}
      → block_search address c ≡ (some w, update_lru address w c)
      → (cache_access op address c s).0
        ≡ place c address w (hit_block op (block_at c w (index_decode c address)))
  unfolding cache_access
  cache_access-some s {w} e = rw (e, cache_access, e) (cache_hit-place w)

  cache_access-none :
      (s : CacheStats) {w : ℕ}
      → block_search address c ≡ (none, c)
      → choose_victim address c ≡ (w, update_lru address w c)
      → (cache_access op address c s).0 ≡ place c address w (miss_block (tag_decode c address))
  unfolding cache_access
  cache_access-none s {w} e e' = rw (e, cache_access, e) (cache_miss-place _ w e')

  miss-Outcome :
      (s : CacheStats)
      → search_from c (index_decode c address) (tag_decode c address) c.associativity 0 ≡ none
      → Outcome c op address (cache_access op address c s).0
  miss-Outcome s e =
      let n = c.associativity in
      let i = index_decode c address in
      let absent = λ (v : ℕ) (h : v < n).
        search_from-none c i (tag_decode c address) n 0 v e (omega arith) (omega arith) in
      elim (Option-cases (invalid_from c i n 0)) [
        | inl e' ↦
            evict (λ v h. invalid_from-none c i n 0 v e' (omega arith) (omega arith)) absent
              (cache_access-none s (block_search-none e) (choose_victim-none e'))
        | inr (w, e') ↦
            let (lt, bad) = invalid_from-some c i n 0 w e' in
            fill w (omega arith) bad absent
              (cache_access-none s (block_search-none e) (choose_victim-some e'))
      ]

  -- Of any access, hit or miss, read or write, the cache afterwards is one of three.
  pub cache_access-Outcome : (s : CacheStats) → Outcome c op address (cache_access op address c s).0
  cache_access-Outcome s =
      let n = c.associativity in
      let i = index_decode c address in
      let t = tag_decode c address in
      elim (Option-cases (search_from c i t n 0)) [
        | inl e ↦ miss-Outcome s e
        | inr (w, e) ↦
            let (lt, holds) = search_from-some c i t n 0 w e in
            hit w (omega arith) holds (cache_access-some s (block_search-some e))
      ]
