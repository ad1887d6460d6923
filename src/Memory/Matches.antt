-- ===== src/Memory/Matches.antt =====
-- Searches of the TLB and of the swap file of project-4/prj4 that find nothing, or something.
use mathlib.Core.Option.{some_inj}
use da_bus.Base.{
  Option, ℕ, ◌≡◌, refl, ap, false, ◌&&◌, none, some, List, [], ◌∷◌, ◌==◌, map, All, Bool-cases,
  Option-cases, inl, inr,
}
use da_bus.Memory.{Tlbe, SwapPage, clear_entry, clear_if, find_page}
use da_bus.Memory.Paging.{matches, last_match}

-- No entry matches a page when neither the first one nor the others do.
pub last_match-none :
    (v : ℕ) (e : Tlbe) (rest : List Tlbe)
    → matches v e ≡ false
    → last_match v rest ≡ none
    → last_match v (e ∷ rest) ≡ none
unfolding last_match
last_match-none v e rest h k = rw (last_match, k, h) refl

pub none-last_match :
    (v : ℕ) (e : Tlbe) (rest : List Tlbe)
    → last_match v (e ∷ rest) ≡ none
    → (matches v e ≡ false) × (last_match v rest ≡ none)
unfolding last_match
none-last_match v e rest h = elim (Option-cases (last_match v rest)) [
  | inl none_there ↦ (
    elim (Bool-cases (matches v e)) [
      | inl match ↦ let no : some e.pfn ≡ none = rw (last_match, none_there, match) at h in cc
      | inr other ↦ other
    ],
    none_there,
  )
  | inr (pfn, there) ↦ let no : some pfn ≡ none = rw (last_match, there) at h in cc
]

matches-clear_if : (v u : ℕ) (e : Tlbe) → matches v e ≡ false → matches v (clear_if u e) ≡ false
unfolding clear_if clear_entry matches
matches-clear_if v u e h = elim (Bool-cases (e.vpn == u)) [
  | inl here ↦ rw (clear_if, here) refl
  | inr other ↦ rw (clear_if, other) h
]

pub last_match-clear_if :
    (v u : ℕ) (tlb : List Tlbe)
    → last_match v tlb ≡ none
    → last_match v (map (clear_if u) tlb) ≡ none
unfolding last_match
last_match-clear_if v u [] h = refl
last_match-clear_if v u (e ∷ rest) h =
    let (other, none_there) = none-last_match v e rest h in
    last_match-none v (clear_if u e) (map (clear_if u) rest) (matches-clear_if v u e other)
      (last_match-clear_if v u rest none_there)

pub find_page-All :
    (P : SwapPage → Type 0) (vpn pid : ℕ) (pages : List SwapPage) (found : SwapPage)
    (rest : List SwapPage)
    → find_page vpn pid pages ≡ some (found, rest)
    → All P pages
    → P found × All P rest
unfolding find_page
find_page-All P vpn pid [] found rest h a = cc
find_page-All P vpn pid (curr ∷ next) found rest h a =
    elim (Bool-cases ((curr.pid == pid) && (curr.vpn == vpn))) [
      | inl here ↦
          let found_is : some (curr, next) ≡ some (found, rest) = rw (find_page, here) at h in
          let pair = some_inj.0 found_is in
          rw
            (
              ← ap (λ (q : SwapPage × List SwapPage). q.0) pair,
              ← ap (λ (q : SwapPage × List SwapPage). q.1) pair,
            )
            a
      | inr other ↦ elim (Option-cases (find_page vpn pid next)) [
        | inl missing ↦
            let no : ◌≡◌ {A = Option (SwapPage × List SwapPage)} none (some (found, rest)) =
              rw (find_page, other, missing) at h in
            cc
        | inr (later, there) ↦
            let found_is : some (later.0, curr ∷ later.1) ≡ some (found, rest) =
              rw (find_page, other, there) at h in
            let pair = some_inj.0 found_is in
            let (p, q) = find_page-All P vpn pid next later.0 later.1 there a.1 in
            rw
              (
                ← ap (λ (q : SwapPage × List SwapPage). q.0) pair,
                ← ap (λ (q : SwapPage × List SwapPage). q.1) pair,
              )
              (p, (a.0, q))
      ]
    ]
