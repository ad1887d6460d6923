-- ===== src/Cache/History/Dirty.antt =====
-- The dirty bit of the block that an access uses.
use da_bus.Base.{
  ℕ, Bool, ◌≡◌, refl, ap, true, false, none, arith, ◌<◌, ◌==◌, inl, inr, ◌&&◌, Option-cases,
}
use da_bus.Cache.{
  Block, Cache, CacheStats, index_decode, tag_decode, block_at, block_search, search_from,
  cache_access,
}
use da_bus.Cache.Invariant.{IsValid, place}
use da_bus.Cache.Place.{block-place_self}
use da_bus.Cache.Ways.{search_from-none}
use da_bus.Cache.Access.{
  Outcome, hit, fill, evict, miss_block, cache_access-Outcome, block_search-some,
}
use da_bus.Cache.History.{miss-alone, head-lt}

-- The line of `address` in `c'` holds its tag in a block whose dirty bit is `d`.
pub Held : Cache → ℕ → Cache → Bool → Type 0
Held c address c' d =
    (w : ℕ) × (w < c.associativity)
    × ((block_at c' w (index_decode c address)).valid ≡ true)
    × ((block_at c' w (index_decode c address)).tag ≡ tag_decode c address)
    × ((block_at c' w (index_decode c address)).dirty ≡ d)

module _ (c : Cache) (op address : ℕ) (valid : IsValid c) where
  abbrev f : ℕ → Block
  f w = block_at c w (index_decode c address)

  place-Held :
      (w : ℕ)
      → w < c.associativity
      → ((v : ℕ)
          → v < c.associativity
          → ((f v).valid && ((f v).tag == tag_decode c address)) ≡ false)
      → Held c address (place c address w (miss_block (tag_decode c address))) false
  unfolding Held
  place-Held w hw absent =
      let b = miss_block (tag_decode c address) in
      let e = block-place_self valid address w b hw refl (miss-alone c op address valid w absent) in
      (
        w,
        hw,
        ap (λ (x : Block). x.valid) e,
        ap (λ (x : Block). x.tag) e,
        ap (λ (x : Block). x.dirty) e,
      )

  -- On a cache that satisfies the invariant, the new block is clean after a miss, also when the
  -- access is a write.
  pub miss-clean :
      (s : CacheStats)
      → (block_search address c).0 ≡ none
      → Held c address (cache_access op address c s).0 false
  miss-clean s e = go (cache_access-Outcome c op address s)
    where
      search-none :
          search_from c (index_decode c address) (tag_decode c address) c.associativity 0 ≡ none
      search-none =
          elim (Option-cases
            (search_from c (index_decode c address) (tag_decode c address) c.associativity 0)) [
              | inl k ↦ k
              | inr (w, k) ↦
                  absurd (ground (arith, e, ap (λ r. r.0) (block_search-some c op address k)))
            ]

      go : {c' : Cache} → Outcome c op address c' → Held c address c' false
      go (hit w hw holds p) = absurd (
          ground (
            arith,
            search_from-none c (index_decode c address) (tag_decode c address) c.associativity 0 w
                search-none (omega arith) (omega arith),
            holds,
          ))
      go (fill w hw bad absent p) = rw p (place-Held w hw absent)
      go (evict full absent p) = rw p (place-Held _ (head-lt c op address valid) absent)
