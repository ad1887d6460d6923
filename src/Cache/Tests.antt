-- ===== src/Cache/Tests.antt =====
-- Runs of the cache simulator at small inputs, and the theorems at concrete caches.
use da_bus.Base.{
  ℕ, ◌^◌, ◌/◌, ◌%◌, ◌+◌, ◌*◌, ◌-◌, List, [], ◌∷◌, ◌++◌, ◌≡◌, ◌↔◌, refl, false, none, has, arith,
  length,
}
use da_bus.Cache.{
  Cache, cache_init, cache_access, run_trace, tag_decode, index_decode, write, initial_stats, mask,
  shl_int, sign_extend, index_bits, offset_bits, block_at, set_block, update_lru, bubble,
  search_from, block_search, invalid_from, find_invalid_block, find_lru_block, choose_victim,
  cache_hit, cache_miss, count_miss, count_access, lru_nodes, inc64,
}
use da_bus.Cache.Address.{tag_decode-index_decode}
use da_bus.Cache.Invariant.{IsValid, resident_tags}
use da_bus.Cache.Recency.{bubbles, recency, Within, bubbles-recency}
use da_bus.Cache.Stats.{IsCounted, tally, run_trace_counts}
use da_bus.Cache.History.{Accessed, cache_access-Accessed}
use da_bus.Cache.History.Start.{IsGeometry, cache_init-IsValid, run_trace-last}
use da_bus.Cache.History.Hits.{miss_iff_history}
use da_bus.Cache.History.Window.{last}
use da_bus.Cache.History.Run.{line_tags}
use da_bus.Cache.History.Dirty.{Held, miss-clean}

program : Unit {0}
unfolding run_trace cache_access cache_init tag_decode index_decode block_at set_block update_lru
    bubble search_from invalid_from cache_hit choose_victim cache_miss count_miss count_access mask
    index_bits offset_bits block_search find_invalid_block find_lru_block shl_int sign_extend
    lru_nodes inc64
program = tt

-- 256 bytes, two ways, blocks of 16 bytes: eight lines.
abbrev small : Cache
small = cache_init 8 1 4

-- A read, a write to the other way, a third block that evicts the first, and a hit.
abbrev trace : List (ℕ × ℕ)
trace = (b'r', 0x10) ∷ (b'w', 0x110) ∷ (b'r', 0x210) ∷ (b'r', 0x110) ∷ []

fields_small : (tag_decode small 0xabcd ≡ 0x157) × (index_decode small 0xabcd ≡ 4)
unfolding program
fields_small = (refl, refl)

misses_small : (run_trace trace small initial_stats).1.misses ≡ 3
unfolding program
misses_small = refl

-- The block written at 0x110 is evicted by the last access and not written back.
write_backs_small :
    (run_trace (trace ++ (b'r', 0x310) ∷ (b'r', 0x410) ∷ []) small initial_stats).1.write_backs ≡ 0
unfolding program
write_backs_small = refl

small-IsGeometry : IsGeometry 8 1 4
small-IsGeometry = omega arith

miss_iff_history_example :
    ((block_search 0x210 (run_trace trace small initial_stats).0).0 ≡ none) ↔ (
      has
        (tag_decode small 0x210)
        (last (2 ^ 1) (recency (line_tags small (index_decode small 0x210) trace)))
      ≡ false)
miss_iff_history_example = miss_iff_history 8 1 4 small-IsGeometry trace 0x210 initial_stats

run_trace-last_example :
    resident_tags (run_trace trace small initial_stats).0 1
    ≡ last (2 ^ 1) (recency (line_tags small 1 trace))
run_trace-last_example = run_trace-last 8 1 4 small-IsGeometry trace 1 initial_stats (omega arith)

cache_init-IsValid_example : IsValid small
cache_init-IsValid_example = cache_init-IsValid 8 1 4 small-IsGeometry

cache_access-Accessed_example :
    Accessed small 0x110 (cache_access write 0x110 small initial_stats).0
cache_access-Accessed_example =
    cache_access-Accessed small write 0x110 cache_init-IsValid_example initial_stats

touched-Within : Within (1 ∷ 0 ∷ 1 ∷ []) (lru_nodes 3 0)
unfolding lru_nodes
touched-Within = (refl, (refl, (refl, tt)))

bubbles-recency_example :
    bubbles (1 ∷ 0 ∷ 1 ∷ []) (lru_nodes 3 0) ≡ recency (lru_nodes 3 0 ++ 1 ∷ 0 ∷ 1 ∷ [])
bubbles-recency_example = bubbles-recency 3 (1 ∷ 0 ∷ 1 ∷ []) touched-Within

tag_decode-index_decode_example :
    tag_decode small 0xabcd * 2 ^ (8 - 4 - 1) + index_decode small 0xabcd ≡ 0xabcd / 2 ^ 4
unfolding cache_init
tag_decode-index_decode_example =
    tag_decode-index_decode cache_init-IsValid_example.sized 0xabcd (omega arith)

cold : (block_search 0x110 small).0 ≡ none
unfolding program
cold = refl

miss-clean_example : Held small 0x110 (cache_access write 0x110 small initial_stats).0 false
miss-clean_example = miss-clean small write 0x110 cache_init-IsValid_example initial_stats cold

run_trace_counts_example :
    IsCounted (λ f. tally f trace small) (run_trace trace small initial_stats).1
    × ((run_trace trace small initial_stats).1.accesses ≡ length trace % 2 ^ 64)
run_trace_counts_example = run_trace_counts trace small
