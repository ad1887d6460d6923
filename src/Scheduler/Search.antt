-- ===== src/Scheduler/Search.antt =====
-- The loop of `wake_up` of project-6/prj6/student.c over the CPUs: which one it finds.
use mathlib.Core.Option.{some_inj}
use da_bus.Base.{
  ℕ, zero, suc, ◌+◌, ◌≤◌, ◌<◌, ◌≡◌, ◌≢◌, refl, sym, ap, ◌∙◌, Option, none, some, arith, ◌==◌,
  if◌then◌else◌, Bool, true, false, Bool-cases, Option-cases, inl, inr, ltb, lt→ltb, ==_iff,
  ne_of_==,
}
use da_bus.Scheduler.{Os, idle_cpu, lowest, find_lowest}

pub if_same : {A : Type 0} (b : Bool) (x : A) → (if b then x else x) ≡ x
if_same true x = refl
if_same false x = refl

-- No CPU is idle.
abbrev pub AllBusy : Os → Type 0
AllBusy os = (j : ℕ) → j < os.cpu_count → os.current j ≢ none

-- The CPU `k` runs `q`, and is the first of those with the lowest priority.
pub record IsLowest (os : Os) (k q : ℕ) : Type 0 where
  pub in_range : k < os.cpu_count
  pub runs : os.current k ≡ some q
  pub smallest :
      (j r : ℕ)
      → j < os.cpu_count
      → os.current j ≡ some r
      → (os.pcbs q).static_priority ≤ (os.pcbs r).static_priority
  pub first :
      (j r : ℕ)
      → j < k
      → os.current j ≡ some r
      → (os.pcbs q).static_priority < (os.pcbs r).static_priority

pub find_lowest_idle :
    (os : Os) (j n i pr : ℕ) (ix : Option ℕ)
    → os.current j ≡ none
    → i ≤ j
    → j < i + n
    → find_lowest os n i pr ix ≡ idle_cpu
unfolding find_lowest
find_lowest_idle os j zero i pr ix e h k = absurd (omega arith)
find_lowest_idle os j (suc n) i pr ix e h k = elim (Option-cases (os.current i)) [
  | inl f ↦ rw (find_lowest, f) refl
  | inr (p, f) ↦
      let ne : i ≢ j = λ g. ground (arith, sym f ∙ ap os.current g ∙ e) in
      let m = (os.pcbs p).static_priority in
      rw
        (
          find_lowest,
          f,
          find_lowest_idle os j n (i + 1) m (some i) e (omega (arith, ne)) (omega arith),
          find_lowest_idle os j n (i + 1) pr ix e (omega (arith, ne)) (omega arith),
        )
        (if_same (ltb m pr) idle_cpu)
]

find_lowest_rest :
    (os : Os) (n i pr : ℕ) (ix : Option ℕ)
    → AllBusy os
    → ((j r : ℕ) → j < os.cpu_count → os.current j ≡ some r → pr ≤ (os.pcbs r).static_priority)
    → i + n ≤ os.cpu_count
    → find_lowest os n i pr ix ≡ lowest pr ix
unfolding find_lowest
find_lowest_rest os zero i pr ix busy h k = refl
find_lowest_rest os (suc n) i pr ix busy h k = elim (Option-cases (os.current i)) [
  | inl f ↦ absurd (busy i (omega arith) f)
  | inr (p, f) ↦
      let no : ltb (os.pcbs p).static_priority pr ≡ false = ground (arith, h i p (omega arith) f) in
      rw (find_lowest, f, no) (find_lowest_rest os n (i + 1) pr ix busy h (omega arith))
]

pub find_lowest-IsLowest :
    (os : Os) (k q n i pr : ℕ) (ix : Option ℕ)
    → AllBusy os
    → IsLowest os k q
    → i ≤ k
    → i + n ≡ os.cpu_count
    → (os.pcbs q).static_priority < pr
    → find_lowest os n i pr ix ≡ lowest (os.pcbs q).static_priority (some k)
unfolding find_lowest
find_lowest-IsLowest os k q zero i pr ix busy v h e l = absurd (omega (arith, v.in_range))
find_lowest-IsLowest os k q (suc n) i pr ix busy v h e l = elim (Option-cases (os.current i)) [
  | inl f ↦ absurd (busy i (omega arith) f)
  | inr (p, f) ↦ elim (Bool-cases (i == k)) [
    | inl g ↦
        let at : i ≡ k = (==_iff i k).0 g in
        let m = (os.pcbs q).static_priority in
        let same : p ≡ q = some_inj.0 (sym f ∙ ap os.current at ∙ v.runs) in
        let yes : ltb m pr ≡ true = lt→ltb m pr l in
        rw (find_lowest, f, same, yes)
          (find_lowest_rest os n (i + 1) m (some i) busy v.smallest (omega arith)
            ∙ ap (λ c. lowest m (some c)) at)
    | inr g ↦
        let before : i < k = omega (arith, h, ne_of_== i k g) in
        let m = (os.pcbs p).static_priority in
        rw
          (
            find_lowest,
            f,
            find_lowest-IsLowest os k q n (i + 1) m (some i) busy v (omega arith) (omega arith)
                (v.first i p before f),
            find_lowest-IsLowest os k q n (i + 1) pr ix busy v (omega arith) (omega arith) l,
          )
          (if_same (ltb m pr) (lowest (os.pcbs q).static_priority (some k)))
  ]
]
