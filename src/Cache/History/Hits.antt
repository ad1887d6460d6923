-- ===== src/Cache/History/Hits.antt =====
-- When an access hits.
use mathlib.Core.Path.{ap₂}
use da_bus.Base.{
  ℕ, ◌≡◌, sym, ap, ◌∙◌, false, none, Option-cases, inl, inr, ◌↔◌, has, arith, List, ◌^◌,
}
use da_bus.Cache.{
  Block, Cache, CacheStats, index_decode, tag_decode, block_at, block_search, search_from,
  run_trace, cache_init,
}
use da_bus.Cache.Invariant.{IsValid, IsLine, resident_tags, index_decode-lt_lines}
use da_bus.Cache.Ways.{has-resident, not-has-resident, search_from-some, search_from-none}
use da_bus.Cache.Blocks.{lru_at}
use da_bus.Cache.Access.{block_search-some, block_search-none}
use da_bus.Cache.Recency.{recency}
use da_bus.Cache.History.Window.{last}
use da_bus.Cache.History.Run.{line_tags, run_trace-Same}
use da_bus.Cache.History.Start.{IsGeometry, cache_init-IsValid, run_trace-last, init-index_lt}

module _ (c : Cache) (address : ℕ) (valid : IsValid c) where
  pub miss_iff :
      ((block_search address c).0 ≡ none)
      ↔ (has (tag_decode c address) (resident_tags c (index_decode c address)) ≡ false)
  unfolding resident_tags
  miss_iff = elim (Option-cases (search_from c i t n 0)) [
    | inl e ↦ (
      λ _.
          not-has-resident f t (lru_at c i)
            (λ v h. search_from-none c i t n 0 v e (omega arith) (omega (arith, l.members v h))),
      λ _. ap (λ r. r.0) (block_search-none c 0 address e),
    )
    | inr (w, e) ↦
        let (lt, holds) = search_from-some c i t n 0 w e in
        let held = has-resident f w (lru_at c i) (l.complete w (omega arith)) holds.0 in
        (λ h. absurd (ground (arith, block_search-some c 0 address e)), λ h. absurd (ground arith))
  ]
    where
      i : ℕ
      i = index_decode c address

      t : ℕ
      t = tag_decode c address

      n : ℕ
      n = c.associativity

      f : ℕ → Block
      f w = block_at c w i

      l : IsLine c i
      l = valid.line i (index_decode-lt_lines valid address)

module _ (c s b : ℕ) (g : IsGeometry c s b) where
  -- For every supported geometry, after every trace the lookup of an address misses exactly if its
  -- tag is not among the last 2 ^ S distinct tags that the trace used in its line.
  pub miss_iff_history :
      (trace : List (ℕ × ℕ)) (address : ℕ) (stats : CacheStats)
      → ((block_search address (run_trace trace (cache_init c s b) stats).0).0 ≡ none) ↔ (
          has (tag_decode (cache_init c s b) address) (
            last (2 ^ s) (
              recency
                (line_tags (cache_init c s b) (index_decode (cache_init c s b) address) trace)))
          ≡ false)
  miss_iff_history trace address stats =
      let c' = (run_trace trace (cache_init c s b) stats).0 in
      let same = run_trace-Same trace (cache_init c s b) stats (cache_init-IsValid c s b g) in
      let i = index_decode (cache_init c s b) address in
      let held = run_trace-last c s b g trace i stats (init-index_lt c s b g address) in
      let e = ap₂ has (same.tag address) (ap (resident_tags c') (same.index address) ∙ held) in
      let miss = miss_iff c' address same.valid in (λ h. sym e ∙ miss.0 h, λ h. miss.1 (e ∙ h))
