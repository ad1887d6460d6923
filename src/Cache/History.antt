-- ===== src/Cache/History.antt =====
-- The content of the lines over a whole run, against an ideal record of the use.
pub mod Window
pub mod Run
pub mod Start
pub mod Hits
pub mod Dirty
use da_bus.Base.{
  ℕ, suc, ◌≡◌, refl, sym, ap, ◌∙◌, ◌≢◌, Bool, true, false, ◌&&◌, List, [], ◌∷◌, ◌++◌, ◌<◌, arith,
  ◌==◌, if◌then◌else◌, Bool-cases, inl, inr, has, erase, length, ltb, drop, get_or, ==_iff, ◌^◌,
}
use da_bus.Cache.{
  Block, Cache, CacheStats, block_at, index_decode, tag_decode, cache_access, run_trace,
}
use da_bus.Cache.Invariant.{IsValid, IsLine, resident_tags, place, index_decode-lt_lines}
use da_bus.Cache.Place.{
  same_ways, lru-place, IsValid-place, resident-place, resident-place_ne, decode-place,
}
use da_bus.Cache.Blocks.{lru_at}
use da_bus.Cache.Ways.{
  Holds, resident, has-resident, not-has-resident, resident-erase_invalid, resident-erase_valid,
  length-resident-lt, length-resident_full,
}
use da_bus.Cache.Access.{Outcome, hit, fill, evict, hit_block, miss_block, cache_access-Outcome}

has-head : (l : List ℕ) → 0 < length l → has (get_or l 0 0) l ≡ true
has-head [] h = absurd (omega arith)
has-head (x ∷ l) h = ground arith

resident-erase_head :
    (f : ℕ → Block) (l : List ℕ)
    → 0 < length l
    → (f (get_or l 0 0)).valid ≡ true
    → resident f (erase (get_or l 0 0) l) ≡ drop 1 (resident f l)
unfolding resident
resident-erase_head f [] h v = absurd (omega arith)
resident-erase_head f (x ∷ l) h v = ground arith

-- A least recently used set of at most `n` tags, the oldest first, when the tag `t` is used.
unfoldable pub use_tag : ℕ → ℕ → List ℕ → List ℕ
use_tag n t m =
    if has t m
    then erase t m ++ t ∷ []
    else if ltb (length m) n
    then m ++ t ∷ []
    else drop 1 m ++ t ∷ []

-- What an access at `address` may do to the cache.
pub record Accessed (c : Cache) (address : ℕ) (c' : Cache) : Type 0 where
  pub valid : IsValid c'
  pub here :
      resident_tags c' (index_decode c address)
      ≡ use_tag c.associativity (tag_decode c address) (resident_tags c (index_decode c address))
  pub elsewhere : (i : ℕ) → i ≢ index_decode c address → resident_tags c' i ≡ resident_tags c i
  pub ways : c'.associativity ≡ c.associativity
  pub index : (a : ℕ) → index_decode c' a ≡ index_decode c a
  pub tag : (a : ℕ) → tag_decode c' a ≡ tag_decode c a

module _ (c : Cache) (op address : ℕ) (valid : IsValid c) where
  abbrev i : ℕ
  i = index_decode c address

  abbrev t : ℕ
  t = tag_decode c address

  abbrev f : ℕ → Block
  f w = block_at c w i

  abbrev l : List ℕ
  l = lru_at c i

  this : IsLine c i
  this = valid.line i (index_decode-lt_lines valid address)

  abbrev Absent : Type 0
  Absent = (v : ℕ) → v < c.associativity → ((f v).valid && ((f v).tag == t)) ≡ false

  place-Accessed :
      (w : ℕ) (b : Block) (hw : w < c.associativity) (keeps : b.valid ≡ true)
      (alone : (v : ℕ) → v < c.associativity → v ≢ w → (f v).valid ≡ true → (f v).tag ≢ b.tag)
      → resident f (erase w l) ++ b.tag ∷ [] ≡ use_tag c.associativity t (resident f l)
      → Accessed c address (place c address w b)
  unfolding resident_tags
  place-Accessed w b hw keeps alone e = record {
    valid = IsValid-place valid address w b hw keeps alone;
    here = resident-place valid address w b hw keeps alone ∙ e;
    elsewhere = resident-place_ne valid address w b hw keeps alone;
    ways = same_ways valid address w b hw keeps alone;
    index = λ a. (decode-place valid address w b hw keeps alone a).0;
    tag = λ a. (decode-place valid address w b hw keeps alone a).1;
  }

  pub miss-alone :
      (w : ℕ) → Absent → (v : ℕ) → v < c.associativity → v ≢ w → (f v).valid ≡ true → (f v).tag ≢ t
  miss-alone w absent v h ne k = ground (arith, absent v h)

  not-has-t : Absent → has t (resident f l) ≡ false
  not-has-t absent = not-has-resident f t l (λ v h. absent v (this.members v h))

  hit-Accessed :
      (w : ℕ) (hw : w < c.associativity)
      → Holds c i t w
      → Accessed c address (place c address w (hit_block op (f w)))
  unfolding use_tag
  hit-Accessed w hw holds =
      place-Accessed w (hit_block op (f w)) hw (ground arith)
        (λ v h ne k e. ne (this.unique v w h hw k holds.0 (ground (arith, e))))
        (rw
          (resident-erase_valid f w l (λ v h k e. this.unique v w (this.members v h) hw k holds.0 e)
            (this.complete w hw) holds.0)
          (ground (arith, has-resident f w l (this.complete w hw) holds.0)))

  fill-Accessed :
      (w : ℕ) (hw : w < c.associativity)
      → (f w).valid ≡ false
      → Absent
      → Accessed c address (place c address w (miss_block t))
  unfolding use_tag
  fill-Accessed w hw bad absent = place-Accessed w (miss_block t) hw refl (miss-alone w absent) (
      rw (resident-erase_invalid f w l bad) (
        ground
          (arith, not-has-t absent, length-resident-lt f w l (this.complete w hw) bad, this.count)))

  pub head-lt : get_or l 0 0 < c.associativity
  head-lt = this.members _ (has-head l (omega (arith, this.count, valid.some_way)))

  evict-Accessed :
      (full : (v : ℕ) → v < c.associativity → (f v).valid ≡ true)
      → Absent
      → Accessed c address (place c address (get_or l 0 0) (miss_block t))
  unfolding use_tag
  evict-Accessed full absent =
      place-Accessed (get_or l 0 0) (miss_block t) head-lt refl (miss-alone (get_or l 0 0) absent) (
        rw (resident-erase_head f l (omega (arith, this.count, valid.some_way)) (full _ head-lt)) (
          ground (
            arith,
            not-has-t absent,
            length-resident_full f l (λ v h. full v (this.members v h)),
            this.count,
          )))

  -- On a cache that satisfies the invariant one access, whatever it is, keeps the invariant, uses
  -- the tag in its line, and leaves the other lines and the decoding of addresses alone.
  pub cache_access-Accessed : (s : CacheStats) → Accessed c address (cache_access op address c s).0
  cache_access-Accessed s = go (cache_access-Outcome c op address s)
    where
      go : {c' : Cache} → Outcome c op address c' → Accessed c address c'
      go (hit w hw holds e) = rw e (hit-Accessed w hw holds)
      go (fill w hw bad absent e) = rw e (fill-Accessed w hw bad absent)
      go (evict full absent e) = rw e (evict-Accessed full absent)
