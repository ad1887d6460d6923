-- ===== src/Cache/Ways.antt =====
-- One line of the cache: the tags it holds in the order of the LRU list, and the two searches.
use da_bus.Base.{
  ℕ, zero, suc, ◌+◌, ◌≤◌, ◌<◌, ◌≡◌, refl, true, false, ◌&&◌, none, some, List, [], ◌∷◌, ◌++◌, arith,
  ◌==◌, if◌then◌else◌, has, erase, length,
}
use da_bus.Cache.{Block, Cache, block_at, search_from, invalid_from}

unfoldable pub resident : (ℕ → Block) → List ℕ → List ℕ
resident f [] = []
resident f (w ∷ ws) = let rest = resident f ws in if (f w).valid then (f w).tag ∷ rest else rest

pub resident-append :
    (f : ℕ → Block) (xs ys : List ℕ) → resident f (xs ++ ys) ≡ resident f xs ++ resident f ys
unfolding resident
resident-append f [] ys = refl
resident-append f (x ∷ xs) ys = ground (arith, resident-append f xs ys)

pub resident-agree :
    (f g : ℕ → Block) (ws : List ℕ)
    → ((w : ℕ) → has w ws ≡ true → f w ≡ g w)
    → resident f ws ≡ resident g ws
unfolding resident
resident-agree f g [] h = refl
resident-agree f g (w ∷ ws) h =
    rw (h w (ground arith), resident-agree f g ws (λ v k. h v (ground arith)))

pub has-resident :
    (f : ℕ → Block) (w : ℕ) (ws : List ℕ)
    → has w ws ≡ true
    → (f w).valid ≡ true
    → has (f w).tag (resident f ws) ≡ true
unfolding resident
has-resident f w [] h v = ground arith
has-resident f w (x ∷ ws) h v = ground (arith, has-resident f w ws)

-- A tag that no way of the list holds is not resident.
pub not-has-resident :
    (f : ℕ → Block) (t : ℕ) (ws : List ℕ)
    → ((w : ℕ) → has w ws ≡ true → ((f w).valid && ((f w).tag == t)) ≡ false)
    → has t (resident f ws) ≡ false
unfolding resident
not-has-resident f t [] h = refl
not-has-resident f t (w ∷ ws) h =
    ground (arith, h w, not-has-resident f t ws (λ v k. h v (ground arith)))

pub resident-erase_invalid :
    (f : ℕ → Block) (w : ℕ) (ws : List ℕ)
    → (f w).valid ≡ false
    → resident f (erase w ws) ≡ resident f ws
unfolding resident
resident-erase_invalid f w [] v = refl
resident-erase_invalid f w (x ∷ ws) v = ground (arith, resident-erase_invalid f w ws)

pub resident-erase_valid :
    (f : ℕ → Block) (w : ℕ) (ws : List ℕ)
    → ((x : ℕ) → has x ws ≡ true → (f x).valid ≡ true → (f x).tag ≡ (f w).tag → x ≡ w)
    → has w ws ≡ true
    → (f w).valid ≡ true
    → resident f (erase w ws) ≡ erase (f w).tag (resident f ws)
unfolding resident
resident-erase_valid f w [] one h v = ground arith
resident-erase_valid f w (x ∷ ws) one h v =
    ground (arith, one x, resident-erase_valid f w ws (λ y k. one y (ground arith)))

pub length-resident-le : (f : ℕ → Block) (ws : List ℕ) → length (resident f ws) ≤ length ws
unfolding resident
length-resident-le f [] = omega arith
length-resident-le f (w ∷ ws) = ground (arith, length-resident-le f ws)

-- With an invalid way in the list not all places are taken.
pub length-resident-lt :
    (f : ℕ → Block) (w : ℕ) (ws : List ℕ)
    → has w ws ≡ true
    → (f w).valid ≡ false
    → length (resident f ws) < length ws
unfolding resident
length-resident-lt f w [] h v = ground arith
length-resident-lt f w (x ∷ ws) h v =
    ground (arith, length-resident-lt f w ws, length-resident-le f ws)

pub length-resident_full :
    (f : ℕ → Block) (ws : List ℕ)
    → ((w : ℕ) → has w ws ≡ true → (f w).valid ≡ true)
    → length (resident f ws) ≡ length ws
unfolding resident
length-resident_full f [] h = refl
length-resident_full f (w ∷ ws) h =
    ground (arith, h w, length-resident_full f ws (λ v k. h v (ground arith)))

pub resident_none :
    (f : ℕ → Block) (ws : List ℕ)
    → ((w : ℕ) → has w ws ≡ true → (f w).valid ≡ false)
    → resident f ws ≡ []
unfolding resident
resident_none f [] h = refl
resident_none f (w ∷ ws) h = ground (arith, h w, resident_none f ws (λ v k. h v (ground arith)))

-- The two searches find the first way that passes their test.
module _ (c : Cache) (index : ℕ) where
  abbrev pub Holds : ℕ → ℕ → Type 0
  Holds t w = ((block_at c w index).valid ≡ true) × ((block_at c w index).tag ≡ t)

  pub search_from-some :
      (t n i w : ℕ) → search_from c index t n i ≡ some w → (w < i + n) × Holds t w
  unfolding search_from
  search_from-some t zero i w h = ground arith
  search_from-some t (suc n) i w h = ground (arith, search_from-some t n (i + 1) w)

  pub search_from-none :
      (t n i w : ℕ)
      → search_from c index t n i ≡ none
      → i ≤ w
      → w < i + n
      → ((block_at c w index).valid && ((block_at c w index).tag == t)) ≡ false
  unfolding search_from
  search_from-none t zero i w h p q = absurd (omega arith)
  search_from-none t (suc n) i w h p q = ground (arith, search_from-none t n (i + 1) w)

  pub invalid_from-some :
      (n i w : ℕ)
      → invalid_from c index n i ≡ some w
      → (w < i + n) × ((block_at c w index).valid ≡ false)
  unfolding invalid_from
  invalid_from-some zero i w h = ground arith
  invalid_from-some (suc n) i w h = ground (arith, invalid_from-some n (i + 1) w)

  pub invalid_from-none :
      (n i w : ℕ)
      → invalid_from c index n i ≡ none
      → i ≤ w
      → w < i + n
      → (block_at c w index).valid ≡ true
  unfolding invalid_from
  invalid_from-none zero i w h p q = absurd (omega arith)
  invalid_from-none (suc n) i w h p q = ground (arith, invalid_from-none n (i + 1) w)
