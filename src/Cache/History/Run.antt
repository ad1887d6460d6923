-- ===== src/Cache/History/Run.antt =====
-- A whole trace, from the empty cache on.
use mathlib.Core.List.{append_assoc, append-nil}
use da_bus.Base.{
  ℕ, ◌<◌, ◌≡◌, refl, sym, ap, ◌∙◌, List, [], ◌∷◌, ◌++◌, arith, ◌==◌, if◌then◌else◌, Bool-cases, inl,
  inr, ==_iff, ne_of_==,
}
use da_bus.Cache.{Cache, CacheStats, index_decode, tag_decode, cache_access, run_trace}
use da_bus.Cache.Recency.{recency, recency-snoc, IsNodup-recency}
use da_bus.Cache.Invariant.{IsValid, resident_tags}
use da_bus.Cache.History.{use_tag, Accessed, cache_access-Accessed}
use da_bus.Cache.History.Window.{last, window-use}

-- The tags that a trace uses in line `i`.
pub line_tags : Cache → ℕ → List (ℕ × ℕ) → List ℕ
line_tags c i [] = []
line_tags c i ((op, a) ∷ trace) =
    let rest = line_tags c i trace in if index_decode c a == i then tag_decode c a ∷ rest else rest

line_tags-Accessed :
    (c : Cache) (a : ℕ) (c' : Cache) (i : ℕ) (trace : List (ℕ × ℕ))
    → Accessed c a c'
    → line_tags c' i trace ≡ line_tags c i trace
unfolding line_tags
line_tags-Accessed c a c' i [] acc = refl
line_tags-Accessed c a c' i ((op, b) ∷ trace) acc =
    rw (acc.index b, acc.tag b, line_tags-Accessed c a c' i trace acc)

use_tag-last :
    (n t : ℕ) (h : List ℕ)
    → 0 < n
    → use_tag n t (last n (recency h)) ≡ last n (recency (h ++ t ∷ []))
unfolding use_tag
use_tag-last n t h pos =
    window-use n t (recency h) pos (IsNodup-recency h) ∙ ap (last n) (sym (recency-snoc t h))

-- One access moves the window of its own line by the tag, and no other.
step-last :
    (c : Cache) (i op a : ℕ) (s : CacheStats) (h : List ℕ)
    → IsValid c
    → resident_tags c i ≡ last c.associativity (recency h)
    → resident_tags (cache_access op a c s).0 i
      ≡ last c.associativity (recency (h ++ line_tags c i ((op, a) ∷ [])))
unfolding line_tags
step-last c i op a s h valid e = elim (Bool-cases (index_decode c a == i)) [
  | inl here ↦
      let p = (==_iff (index_decode c a) i).0 here in
      rw here (
        ap (resident_tags c') (sym p)
        ∙ acc.here
        ∙ ap (use_tag c.associativity (tag_decode c a)) (ap (resident_tags c) p ∙ e)
        ∙ use_tag-last c.associativity (tag_decode c a) h valid.some_way)
  | inr away ↦
      rw (away, append-nil h)
        (acc.elsewhere i (λ p. ne_of_== (index_decode c a) i away (sym p)) ∙ e)
]
  where
    c' : Cache
    c' = (cache_access op a c s).0

    acc : Accessed c a c'
    acc = cache_access-Accessed c op a valid s

line_tags-cons :
    (c : Cache) (i op a : ℕ) (trace : List (ℕ × ℕ))
    → line_tags c i ((op, a) ∷ trace) ≡ line_tags c i ((op, a) ∷ []) ++ line_tags c i trace
unfolding line_tags
line_tags-cons c i op a trace = ground arith

pub run_trace-last_from :
    (trace : List (ℕ × ℕ)) (n : ℕ) (c : Cache) (i : ℕ) (s : CacheStats) (h : List ℕ)
    → IsValid c
    → c.associativity ≡ n
    → resident_tags c i ≡ last n (recency h)
    → resident_tags (run_trace trace c s).0 i ≡ last n (recency (h ++ line_tags c i trace))
unfolding run_trace line_tags
run_trace-last_from [] n c i s h valid w e = e ∙ ap (λ l. last n (recency l)) (sym (append-nil h))
run_trace-last_from ((op, a) ∷ trace) n c i s h valid w e =
    let c' = (cache_access op a c s).0 in
    let acc = cache_access-Accessed c op a valid s in
    let new = line_tags c i ((op, a) ∷ []) in
    let e' = step-last c i op a s h valid (e ∙ ap (λ k. last k (recency h)) (sym w)) in
    run_trace-last_from trace n c' i _ (h ++ new) acc.valid (acc.ways ∙ w)
      (e' ∙ ap (λ k. last k (recency (h ++ new))) w)
    ∙ ap (λ l. last n (recency l))
        (ap (λ l. (h ++ new) ++ l) (line_tags-Accessed c a c' i trace acc)
          ∙ append_assoc h new (line_tags c i trace)
          ∙ ap (λ l. h ++ l) (sym (line_tags-cons c i op a trace)))

-- A run keeps the invariant and the decoding.
pub record Same (c c' : Cache) : Type 0 where
  pub valid : IsValid c'
  pub ways : c'.associativity ≡ c.associativity
  pub index : (a : ℕ) → index_decode c' a ≡ index_decode c a
  pub tag : (a : ℕ) → tag_decode c' a ≡ tag_decode c a

pub run_trace-Same :
    (trace : List (ℕ × ℕ)) (c : Cache) (s : CacheStats) → IsValid c → Same c (run_trace trace c s).0
unfolding run_trace
run_trace-Same [] c s valid = record {
  valid = valid;
  ways = refl;
  index = λ a. refl;
  tag = λ a. refl;
}
run_trace-Same ((op, a) ∷ trace) c s valid =
    let acc = cache_access-Accessed c op a valid s in
    let same = run_trace-Same trace (cache_access op a c s).0 (cache_access op a c s).1 acc.valid in
    record {
      valid = same.valid;
      ways = same.ways ∙ acc.ways;
      index = λ x. same.index x ∙ acc.index x;
      tag = λ x. same.tag x ∙ acc.tag x;
    }
