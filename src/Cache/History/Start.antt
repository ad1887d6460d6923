-- ===== src/Cache/History/Start.antt =====
-- The cache that `cache_init` builds, and the headline statement on a whole trace.
use da_bus.Base.{
  ℕ, ◌+◌, ◌-◌, ◌^◌, ◌≤◌, ◌<◌, ◌≡◌, refl, sym, ap, ◌∙◌, List, [], arith, length, get_or,
  get_or-replicate, length-replicate,
}
use da_bus.Base.Bits.{pow_two_pos}
use da_bus.Cache.{
  Block, Cache, CacheStats, index_decode, run_trace, cache_init, block_at, shl_int, lru_nodes,
  blank, CacheSet,
}
use da_bus.Cache.Address.{IsSized, shl_int-one}
use da_bus.Cache.Blocks.{IsShaped, lru_at}
use da_bus.Cache.Recency.{
  recency, recency-nil, IsNodup-lru_nodes, has-lru_nodes, lt_of_has-lru_nodes, length-lru_nodes,
}
use da_bus.Cache.Invariant.{IsValid, IsLine, resident_tags, index_decode-lt_lines}
use da_bus.Cache.Ways.{resident_none}
use da_bus.Cache.History.Window.{last, last-nil}
use da_bus.Cache.History.Run.{line_tags, run_trace-last_from}

-- The sizes that the simulator supports: 2 ^ C bytes, at most 2 ^ 30 ways, and an index with its
-- offset between 1 and 30 bits.
pub record IsGeometry (c s b : ℕ) : Type 0 where
  pub fits : b + s ≤ c
  pub ways : s ≤ 30
  pub lower : s < c
  pub upper : c ≤ s + 30

module _ (c s b : ℕ) (g : IsGeometry c s b) where
  abbrev pub init : Cache
  init = cache_init c s b

  init-counts : (init.associativity ≡ 2 ^ s) × (init.lines ≡ 2 ^ (c - b - s))
  unfolding cache_init shl_int
  init-counts = (
    shl_int-one s s (omega arith) (omega arith),
    shl_int-one (c + 2 ^ 65 - b - s) (c - b - s) (omega arith) (omega arith),
  )

  init-IsShaped : IsShaped init
  unfolding cache_init
  init-IsShaped = record {
    ways = length-replicate _ _;
    rows = length-replicate _ _;
    blocks = λ w h.
        ap (λ (x : CacheSet). length x.blocks) (get_or-replicate _ w _ _ h) ∙ length-replicate _ _;
  }

  init-blank : (w i : ℕ) → w < init.associativity → i < init.lines → block_at init w i ≡ blank
  unfolding cache_init block_at
  init-blank w i hw hi =
      ap (λ (x : CacheSet). get_or x.blocks i blank) (get_or-replicate _ w _ _ hw)
      ∙ get_or-replicate _ i _ _ hi

  init-lru : (i : ℕ) → i < init.lines → lru_at init i ≡ lru_nodes init.associativity 0
  unfolding cache_init
  init-lru i h = get_or-replicate _ i _ _ h

  init-sizes : (init.c_bits ≡ c) × (init.b_bits ≡ b) × (init.s_bits ≡ s)
  unfolding cache_init
  init-sizes = (refl, refl, refl)

  init-IsSized : IsSized init
  unfolding cache_init
  init-IsSized = record { fits = g.fits; lower = g.lower; upper = omega arith }

  init-rows : init.lines ≡ 2 ^ (init.c_bits - init.b_bits - init.s_bits)
  unfolding cache_init
  init-rows = init-counts.1

  init-IsLine : (i : ℕ) → i < init.lines → IsLine init i
  init-IsLine i h = record {
    order = rw (init-lru i h) (IsNodup-lru_nodes init.associativity 0);
    count = rw (init-lru i h) (length-lru_nodes init.associativity 0);
    members =
        λ w k. omega (arith, lt_of_has-lru_nodes init.associativity 0 w (rw (init-lru i h) at k));
    complete =
        λ w k. rw (init-lru i h) (has-lru_nodes init.associativity 0 w (omega arith) (omega arith));
    unique = λ v w hv hw kv. absurd (ground (arith, init-blank v i hv h));
  }

  -- The cache that `cache_init` builds for a supported geometry satisfies the invariant.
  pub cache_init-IsValid : IsValid init
  cache_init-IsValid = record {
    shaped = init-IsShaped;
    sized = init-IsSized;
    rows = init-rows;
    some_way = rw init-counts.0 (pow_two_pos s);
    line = init-IsLine;
  }

  init-resident : (i : ℕ) → i < init.lines → resident_tags init i ≡ []
  unfolding resident_tags
  init-resident i h =
      resident_none (λ w. block_at init w i) (lru_at init i)
        (λ w k. ap (λ (x : Block). x.valid) (init-blank w i ((init-IsLine i h).members w k) h))

  -- For every supported geometry and every trace, each line of the cache holds exactly the last
  -- 2 ^ S distinct tags that the trace used in it, ordered by their last use.
  pub run_trace-last :
      (trace : List (ℕ × ℕ)) (i : ℕ) (stats : CacheStats)
      → i < 2 ^ (c - b - s)
      → resident_tags (run_trace trace init stats).0 i
        ≡ last (2 ^ s) (recency (line_tags init i trace))
  run_trace-last trace i stats h =
      run_trace-last_from trace (2 ^ s) init i stats [] cache_init-IsValid init-counts.0 (
        init-resident i (rw init-counts.1 h)
        ∙ sym (ap (last (2 ^ s)) recency-nil ∙ last-nil (2 ^ s)))

  pub init-index_lt : (a : ℕ) → index_decode init a < 2 ^ (c - b - s)
  init-index_lt a = omega (arith, index_decode-lt_lines cache_init-IsValid a, init-counts.1)
