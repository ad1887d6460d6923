-- ===== src/Cache/Recency.antt =====
-- The LRU list of one line: what `update_LRU` does to it, and what a sequence of updates leaves.
use mathlib.Core.List.{append_assoc, append-nil}
use da_bus.Base.{
  ℕ, zero, suc, ◌+◌, ◌≤◌, ◌<◌, ◌≡◌, refl, sym, ap, ◌∙◌, true, false, inl, inr, List, [], ◌∷◌, ◌++◌,
  arith, if◌then◌else◌, Bool-cases, has, erase, IsNodup, has-append, erase_absent, length,
}
use da_bus.Cache.{bubble, lru_nodes}

bubble-shift : (s x : ℕ) (xs : List ℕ) → bubble true s (x ∷ xs) ≡ xs ++ s ∷ []
unfolding bubble
bubble-shift s x [] = refl
bubble-shift s x (y ∷ xs) = ap (◌∷◌ y) (bubble-shift s y xs)

-- An update moves the way to the end of the list, and keeps the order of the others.
pub bubble-erase :
    (s : ℕ) (xs : List ℕ) → has s xs ≡ true → bubble false s xs ≡ erase s xs ++ s ∷ []
unfolding bubble
bubble-erase s [] h = ground arith
bubble-erase s (x ∷ []) h = ground arith
bubble-erase s (x ∷ y ∷ xs) h = ground (arith, bubble-erase s (y ∷ xs), bubble-shift s y xs)

-- A history with only the last occurrence of each element kept: the least recent comes first.
pub recency : List ℕ → List ℕ
recency [] = []
recency (x ∷ xs) = let rest = recency xs in if has x xs then rest else x ∷ rest

pub recency-nil : recency [] ≡ []
unfolding recency
recency-nil = refl

pub has-recency : (a : ℕ) (xs : List ℕ) → has a (recency xs) ≡ has a xs
unfolding recency
has-recency a [] = refl
has-recency a (x ∷ xs) = ground (arith, has-recency a xs, has-recency x xs)

pub IsNodup-recency : (xs : List ℕ) → IsNodup (recency xs)
unfolding recency
IsNodup-recency [] = tt
IsNodup-recency (x ∷ xs) = elim (Bool-cases (has x xs)) [
  | inl h ↦ rw h (IsNodup-recency xs)
  | inr h ↦ rw h (has-recency x xs ∙ h, IsNodup-recency xs)
]

pub recency-snoc : (s : ℕ) (xs : List ℕ) → recency (xs ++ s ∷ []) ≡ erase s (recency xs) ++ s ∷ []
unfolding recency
recency-snoc s [] = refl
recency-snoc s (x ∷ xs) = ground (
  arith,
  recency-snoc s xs,
  has-append x xs (s ∷ []),
  has-recency x xs,
  erase_absent x (recency xs),
)

pub recency_of_IsNodup : (xs : List ℕ) → IsNodup xs → recency xs ≡ xs
unfolding recency
recency_of_IsNodup [] h = refl
recency_of_IsNodup (x ∷ xs) h = ground (arith, recency_of_IsNodup xs)

-- The updates of one line in turn.
pub bubbles : List ℕ → List ℕ → List ℕ
bubbles [] l = l
bubbles (s ∷ ss) l = bubbles ss (bubble false s l)

abbrev pub Within : List ℕ → List ℕ → Type 0
Within [] l = Unit
Within (s ∷ ss) l = (has s l ≡ true) × Within ss l

Within-append : (ss l m : List ℕ) → Within ss l → Within ss (l ++ m)
Within-append [] l m w = tt
Within-append (s ∷ ss) l m w = (ground (arith, has-append s l m), Within-append ss l m w.1)

bubbles-from : (h ss : List ℕ) → Within ss h → bubbles ss (recency h) ≡ recency (h ++ ss)
unfolding bubbles
bubbles-from h [] w = rw (append-nil h)
bubbles-from h (s ∷ ss) w =
    rw (bubble-erase s (recency h) (has-recency s h ∙ w.0), ← recency-snoc s h)
      (bubbles-from (h ++ s ∷ []) ss (Within-append ss h (s ∷ []) w.1)
        ∙ ap recency (append_assoc h (s ∷ []) ss))

pub has-lru_nodes : (n j i : ℕ) → j ≤ i → i < j + n → has i (lru_nodes n j) ≡ true
unfolding lru_nodes
has-lru_nodes zero j i h k = absurd (omega arith)
has-lru_nodes (suc n) j i h k = ground (arith, has-lru_nodes n (j + 1) i)

pub not-has-lru_nodes : (n j i : ℕ) → i < j → has i (lru_nodes n j) ≡ false
unfolding lru_nodes
not-has-lru_nodes zero j i h = refl
not-has-lru_nodes (suc n) j i h = ground (arith, not-has-lru_nodes n (j + 1) i)

pub lt_of_has-lru_nodes : (n j i : ℕ) → has i (lru_nodes n j) ≡ true → i < j + n
unfolding lru_nodes
lt_of_has-lru_nodes zero j i h = ground arith
lt_of_has-lru_nodes (suc n) j i h = ground (arith, lt_of_has-lru_nodes n (j + 1) i)

pub IsNodup-lru_nodes : (n j : ℕ) → IsNodup (lru_nodes n j)
unfolding lru_nodes
IsNodup-lru_nodes zero j = tt
IsNodup-lru_nodes (suc n) j =
    (not-has-lru_nodes n (j + 1) j (omega arith), IsNodup-lru_nodes n (j + 1))

pub length-lru_nodes : (n j : ℕ) → length (lru_nodes n j) ≡ n
unfolding lru_nodes
length-lru_nodes zero j = refl
length-lru_nodes (suc n) j = ap suc (length-lru_nodes n (j + 1))

-- Whatever ways of a line are touched in whatever order, its LRU list is the initial order followed
-- by all touches, with only the last occurrence of each way.
pub bubbles-recency :
    (n : ℕ) (touched : List ℕ)
    → Within touched (lru_nodes n 0)
    → bubbles touched (lru_nodes n 0) ≡ recency (lru_nodes n 0 ++ touched)
bubbles-recency n touched w =
    ap (bubbles touched) (sym (recency_of_IsNodup (lru_nodes n 0) (IsNodup-lru_nodes n 0)))
    ∙ bubbles-from (lru_nodes n 0) touched w
