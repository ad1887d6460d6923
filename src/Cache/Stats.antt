-- ===== src/Cache/Stats.antt =====
-- The statistics that `cache_access` keeps.
use da_bus.Base.{
  ℕ, ◌+◌, ◌%◌, ◌^◌, ◌≡◌, refl, ap, ◌∙◌, List, [], ◌∷◌, arith, if◌then◌else◌, length, Option,
  Option-cases, inl, inr, none, some, Bool, true, false, ◌==◌, ◌&&◌, not,
}
use da_bus.Cache.{
  Cache, CacheStats, write, inc64, count_access, count_miss, cache_miss, cache_access, block_search,
  run_trace, choose_victim, block_at, index_decode, initial_stats,
}

is_none : Option ℕ → Bool
is_none none = true
is_none (some way) = false

-- The lookup of the address misses.
unfoldable pub missed : ℕ → Cache → Bool
unfolding is_none
missed a c = is_none (block_search a c).0

abbrev pub one : Bool → ℕ
one true = 1
one false = 0

-- The records of the trace that pass a test, given whether the record is a write and whether it
-- misses in the cache that the records before it have left.
abbrev pub tally : (Bool → Bool → Bool) → List (ℕ × ℕ) → Cache → ℕ
tally f [] c = 0
tally f ((op, a) ∷ trace) c =
    one (f (op == write) (missed a c)) + tally f trace (cache_access op a c initial_stats).0

-- The statistics are the numbers `n` of the accesses that pass each test.
pub record IsCounted (n : (Bool → Bool → Bool) → ℕ) (s : CacheStats) : Type 0 where
  pub accesses : s.accesses ≡ n (λ w m. true) % 2 ^ 64
  pub reads : s.reads ≡ n (λ w m. not w) % 2 ^ 64
  pub writes : s.writes ≡ n (λ w m. w) % 2 ^ 64
  pub misses : s.misses ≡ n (λ w m. m) % 2 ^ 64
  pub read_misses : s.read_misses ≡ n (λ w m. not w && m) % 2 ^ 64
  pub write_misses : s.write_misses ≡ n (λ w m. w && m) % 2 ^ 64

-- One access more.
abbrev plus : ((Bool → Bool → Bool) → ℕ) → Bool → Bool → (Bool → Bool → Bool) → ℕ
plus n w m f = n f + one (f w m)

bumped : (x n : ℕ) → x ≡ n % 2 ^ 64 → inc64 x ≡ (n + 1) % 2 ^ 64
unfolding inc64
bumped x n h = omega (arith, h)

kept : (x n : ℕ) → x ≡ n % 2 ^ 64 → x ≡ (n + 0) % 2 ^ 64
kept x n h = omega (arith, h)

shifted : (x n : ℕ) → x ≡ (n + 0) % 2 ^ 64 → inc64 x ≡ (n + 1) % 2 ^ 64
unfolding inc64
shifted x n h = omega (arith, h)

module _ (op : ℕ) (n : (Bool → Bool → Bool) → ℕ) (s : CacheStats) where
  count_access-IsCounted :
      (w : Bool)
      → (op == write) ≡ w
      → IsCounted n s
      → IsCounted (plus n w false) (count_access op s)
  unfolding count_access
  count_access-IsCounted true e h =
      rw (count_access, e)
        (record {
          accesses = bumped _ _ h.accesses;
          reads = kept _ _ h.reads;
          writes = bumped _ _ h.writes;
          misses = kept _ _ h.misses;
          read_misses = kept _ _ h.read_misses;
          write_misses = kept _ _ h.write_misses;
        })
  count_access-IsCounted false e h =
      rw (count_access, e)
        (record {
          accesses = bumped _ _ h.accesses;
          reads = bumped _ _ h.reads;
          writes = kept _ _ h.writes;
          misses = kept _ _ h.misses;
          read_misses = kept _ _ h.read_misses;
          write_misses = kept _ _ h.write_misses;
        })

  count_miss-IsCounted :
      (w : Bool)
      → (op == write) ≡ w
      → IsCounted (plus n w false) s
      → IsCounted (plus n w true) (count_miss op s)
  unfolding count_miss
  count_miss-IsCounted true e h =
      rw (count_miss, e)
        (record {
          accesses = h.accesses;
          reads = h.reads;
          writes = h.writes;
          misses = shifted _ _ h.misses;
          read_misses = h.read_misses;
          write_misses = shifted _ _ h.write_misses;
        })
  count_miss-IsCounted false e h =
      rw (count_miss, e)
        (record {
          accesses = h.accesses;
          reads = h.reads;
          writes = h.writes;
          misses = shifted _ _ h.misses;
          read_misses = shifted _ _ h.read_misses;
          write_misses = h.write_misses;
        })

  -- Writing back is counted on its own.
  written-IsCounted :
      (b : Bool)
      → IsCounted n s
      → IsCounted n (if b then record s { write_backs = inc64 s.write_backs } else s)
  written-IsCounted true h = record {
    accesses = h.accesses;
    reads = h.reads;
    writes = h.writes;
    misses = h.misses;
    read_misses = h.read_misses;
    write_misses = h.write_misses;
  }
  written-IsCounted false h = h

cache_miss-IsCounted :
    (op a : ℕ) (c : Cache) (n : (Bool → Bool → Bool) → ℕ) (s : CacheStats)
    → IsCounted (plus n (op == write) false) s
    → IsCounted (plus n (op == write) true) (cache_miss op a c s).1
unfolding cache_miss
cache_miss-IsCounted op a c n s h =
    let (w, c') = choose_victim a c in
    count_miss-IsCounted op n _ (op == write) refl (
      written-IsCounted op (plus n (op == write) false) s (block_at c' w (index_decode c' a)).dirty
        h)

module _ (op a : ℕ) (c : Cache) where
  cache_access-IsCounted :
      (n : (Bool → Bool → Bool) → ℕ) (s : CacheStats)
      → IsCounted n s
      → IsCounted (plus n (op == write) (missed a c)) (cache_access op a c s).1
  unfolding cache_access missed is_none
  cache_access-IsCounted n s h =
      let h' = count_access-IsCounted op n s (op == write) refl h in
      elim (Option-cases (block_search a c).0) [
        | inl e ↦
            rw (cache_access, missed, e)
              (cache_miss-IsCounted op a (block_search a c).1 n (count_access op s) h')
        | inr (w, e) ↦ rw (cache_access, missed, e) h'
      ]

  -- The cache does not depend on the statistics.
  cache_access_same : (s t : CacheStats) → (cache_access op a c s).0 ≡ (cache_access op a c t).0
  unfolding cache_access cache_miss
  cache_access_same s t = elim (Option-cases (block_search a c).0) [
    | inl e ↦ rw (cache_access, e) refl
    | inr (w, e) ↦ rw (cache_access, e) refl
  ]

IsCounted-same :
    (n n' : (Bool → Bool → Bool) → ℕ) (s : CacheStats)
    → ((f : Bool → Bool → Bool) → n f ≡ n' f)
    → IsCounted n s
    → IsCounted n' s
IsCounted-same n n' s e h = record {
  accesses = h.accesses ∙ ap (λ k. k % 2 ^ 64) (e _);
  reads = h.reads ∙ ap (λ k. k % 2 ^ 64) (e _);
  writes = h.writes ∙ ap (λ k. k % 2 ^ 64) (e _);
  misses = h.misses ∙ ap (λ k. k % 2 ^ 64) (e _);
  read_misses = h.read_misses ∙ ap (λ k. k % 2 ^ 64) (e _);
  write_misses = h.write_misses ∙ ap (λ k. k % 2 ^ 64) (e _);
}

run_trace-IsCounted :
    (trace : List (ℕ × ℕ)) (c : Cache) (n : (Bool → Bool → Bool) → ℕ) (s : CacheStats)
    → IsCounted n s
    → IsCounted (λ f. n f + tally f trace c) (run_trace trace c s).1
unfolding run_trace
run_trace-IsCounted [] c n s h = IsCounted-same n (λ f. n f + 0) s (λ f. omega arith) h
run_trace-IsCounted ((op, a) ∷ trace) c n s h =
    let c' = (cache_access op a c s).0 in
    let one_more = plus n (op == write) (missed a c) in
    IsCounted-same (λ f. one_more f + tally f trace c') (λ f. n f + tally f ((op, a) ∷ trace) c)
      (run_trace trace c' (cache_access op a c s).1).1
      (λ f.
        let e = ap (tally f trace) (cache_access_same op a c s initial_stats) in omega (arith, e))
      (run_trace-IsCounted trace c' one_more (cache_access op a c s).1
        (cache_access-IsCounted op a c n s h))

tally_all : (trace : List (ℕ × ℕ)) (c : Cache) → tally (λ w m. true) trace c ≡ length trace
tally_all [] c = refl
tally_all ((op, a) ∷ trace) c =
    let e = tally_all trace (cache_access op a c initial_stats).0 in omega (arith, e)

-- After any trace, on any cache, the driver's statistics are, modulo 2 ^ 64, the number of the
-- records, of those that are reads, of those that are writes, and of the reads, of the writes and of
-- all records that miss in the cache that the records before them have left.
pub run_trace_counts :
    (trace : List (ℕ × ℕ)) (c : Cache)
    → IsCounted (λ f. tally f trace c) (run_trace trace c initial_stats).1
      × ((run_trace trace c initial_stats).1.accesses ≡ length trace % 2 ^ 64)
run_trace_counts trace c =
    let k : IsCounted (λ f. tally f trace c) (run_trace trace c initial_stats).1 =
      IsCounted-same (λ f. 0 + tally f trace c) (λ f. tally f trace c)
        (run_trace trace c initial_stats).1 (λ f. omega arith)
        (run_trace-IsCounted trace c (λ f. 0) initial_stats (omega arith)) in
    (k, k.accesses ∙ ap (λ n. n % 2 ^ 64) (tally_all trace c))
