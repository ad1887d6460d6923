-- ===== src/Scheduler/Priority.antt =====
-- `dequeue_priority_ready` of project-6/prj6/student.c, which nothing calls: its walks along the
-- queue, on a number of rounds, and the process that it chooses.
use da_bus.Base.{
  ℕ, zero, suc, ◌-◌, ◌≤◌, ◌<◌, ◌≡◌, refl, ap, ◌∙◌, Option, none, some, List, [], ◌∷◌, arith, length,
  Bool, true, false, ltb, ◌==◌, if◌then◌else◌, has, ◌⊎◌, ==_iff, Bool-cases, inl, inr, ltb→lt,
}
use da_bus.Scheduler.{Pcb, Os, update}

-- The search from `temp` on, with the best process so far; `none` is a walk of more than `rounds`.
unfoldable pub highest_from : (ℕ → Pcb) → ℕ → Option ℕ → ℕ → Option ℕ
highest_from s rounds none highest = some highest
highest_from s zero (some temp) highest = none
highest_from s (suc rounds) (some temp) highest =
    let higher = highest_from s rounds (s temp).next temp in
    let same = highest_from s rounds (s temp).next highest in
    if ltb (s highest).static_priority (s temp).static_priority then higher else same

-- Whether a pointer is to the process `p`.
unfoldable pub points_to : Option ℕ → ℕ → Bool
points_to none p = false
points_to (some q) p = q == p

-- The node in front of `p`, from `temp` on; `none` is the use of NULL or a walk of more than `rounds`.
unfoldable pub before : (ℕ → Pcb) → ℕ → ℕ → ℕ → Option ℕ
before s zero p temp = none
before s (suc rounds) p temp =
    let further : Option ℕ = elim (s temp).next [ none ↦ none | some q ↦ before s rounds p q ] in
    if points_to (s temp).next p then some temp else further

-- The last branch of `dequeue_priority_ready` behind the search, for the chosen process `p`.
unfoldable pub unlink : ℕ → ℕ → Os → Option Os
unlink rounds p os =
    let q = os.queue in
    let at_head = record os { queue = record q { head = (os.pcbs p).next; count = q.count - 1 } } in
    let at_tail : Option Os = elim q.head [
      | none ↦ none
      | some h ↦ elim (before os.pcbs rounds p h) [
        | none ↦ none
        | some t ↦ some (record os {
          pcbs = update os.pcbs t (record (os.pcbs t) { next = none });
          queue = record q { tail = some t; count = q.count - 1 };
        })
      ]
    ] in
    let inside : Option Os = elim q.head [
      | none ↦ none
      | some h ↦ elim (before os.pcbs rounds p h) [
        | none ↦ none
        | some t ↦ some (record os {
          pcbs = update os.pcbs t (record (os.pcbs t) { next = (os.pcbs p).next });
          queue = record q { count = q.count - 1 };
        })
      ]
    ] in
    if points_to q.head p then some at_head else if points_to q.tail p then at_tail else inside

unfoldable pub dequeue_priority_ready : ℕ → Os → Option (Option ℕ × Os)
dequeue_priority_ready rounds os =
    let q = os.queue in
    let searched : Option (Option ℕ × Os) = elim q.head [
      | none ↦ none
      | some h ↦ elim (highest_from os.pcbs rounds (some h) h) [
        | none ↦ none
        | some p ↦ elim (unlink rounds p os) [ none ↦ none | some os' ↦ some (some p, os') ]
      ]
    ] in
    if q.count == 0
    then some (none, os)
    else if q.count == 1
    then some
        (q.head, record os { queue = record { head = none; tail = none; count = q.count - 1 } })
    else searched

-- A list of processes that ends with NULL.
abbrev pub Ends : (ℕ → Pcb) → List ℕ → Type 0
Ends s [] = Unit
Ends s (x ∷ []) = (s x).next ≡ none
Ends s (x ∷ y ∷ xs) = ((s x).next ≡ some y) × Ends s (y ∷ xs)

-- The first process with the highest priority, of `h` and then `xs`.
foremost : (ℕ → Pcb) → ℕ → List ℕ → ℕ
foremost s h [] = h
foremost s h (x ∷ xs) =
    foremost s (if ltb (s h).static_priority (s x).static_priority then x else h) xs

highest_from_lem :
    (s : ℕ → Pcb) (n x h : ℕ) (xs : List ℕ)
    → Ends s (x ∷ xs)
    → length xs < n
    → highest_from s n (some x) h ≡ some (foremost s h (x ∷ xs))
unfolding highest_from foremost
highest_from_lem s zero x h xs e l = absurd (omega arith)
highest_from_lem s (suc n) x h [] e l =
    elim (Bool-cases (ltb (s h).static_priority (s x).static_priority)) [
      | inl b ↦ rw (highest_from, e, b) refl
      | inr b ↦ rw (highest_from, e, b) refl
    ]
highest_from_lem s (suc n) x h (y ∷ xs) (e, es) l =
    elim (Bool-cases (ltb (s h).static_priority (s x).static_priority)) [
      | inl b ↦ rw (highest_from, e, b) (highest_from_lem s n y x xs es (omega arith))
      | inr b ↦ rw (highest_from, e, b) (highest_from_lem s n y h xs es (omega arith))
    ]

-- One step of the reference.
foremost_step :
    (s : ℕ → Pcb) (h x : ℕ) (xs : List ℕ) (b : Bool)
    → ltb (s h).static_priority (s x).static_priority ≡ b
    → foremost s h (x ∷ xs) ≡ foremost s (if b then x else h) xs
unfolding foremost
foremost_step s h x xs b e = ap (λ t. foremost s (if t then x else h) xs) e

has-weaken : (a h : ℕ) (l : List ℕ) → has a l ≡ true → has a (h ∷ l) ≡ true
has-weaken a h l e = ground arith

has-insert : (a h x : ℕ) (l : List ℕ) → has a (h ∷ l) ≡ true → has a (h ∷ x ∷ l) ≡ true
has-insert a h x l e = ground arith

foremost-has : (s : ℕ → Pcb) (h : ℕ) (xs : List ℕ) → has (foremost s h xs) (h ∷ xs) ≡ true
unfolding foremost
foremost-has s h [] = ground arith
foremost-has s h (x ∷ xs) = elim (Bool-cases (ltb (s h).static_priority (s x).static_priority)) [
  | inl b ↦
      ap (λ a. has a (h ∷ x ∷ xs)) (foremost_step s h x xs true b)
      ∙ (has-weaken (foremost s x xs) h (x ∷ xs) (foremost-has s x xs))
  | inr b ↦
      ap (λ a. has a (h ∷ x ∷ xs)) (foremost_step s h x xs false b)
      ∙ (has-insert (foremost s h xs) h x xs (foremost-has s h xs))
]

has-split : (r h x : ℕ) (l : List ℕ) → has r (h ∷ x ∷ l) ≡ true → (r ≡ h) ⊎ (has r (x ∷ l) ≡ true)
has-split r h x l e = elim (Bool-cases (r == h)) [
  | inl q ↦ inl ((==_iff r h).0 q)
  | inr q ↦ inr (ground arith)
]

has_head : (h : ℕ) (l : List ℕ) → has h (h ∷ l) ≡ true
has_head h l = ground arith

has-skip : (r h x : ℕ) (l : List ℕ) → has r (h ∷ x ∷ l) ≡ true → (r ≡ x) ⊎ (has r (h ∷ l) ≡ true)
has-skip r h x l e = elim (Bool-cases (r == x)) [
  | inl q ↦ inl ((==_iff r x).0 q)
  | inr q ↦ inr (ground arith)
]

foremost-le :
    (s : ℕ → Pcb) (h : ℕ) (xs : List ℕ) (r : ℕ)
    → has r (h ∷ xs) ≡ true
    → (s r).static_priority ≤ (s (foremost s h xs)).static_priority
unfolding foremost
foremost-le s h [] r e = let q : r ≡ h = ground arith in rw q (omega arith)
foremost-le s h (x ∷ xs) r e = elim (Bool-cases (ltb (s h).static_priority (s x).static_priority)) [
  | inl b ↦ rw (foremost_step s h x xs true b) (elim (has-split r h x xs e) [
    | inl q ↦
        let up = foremost-le s x xs x (has_head x xs) in
        rw q (omega (arith, up, ltb→lt (s h).static_priority (s x).static_priority b))
    | inr q ↦ foremost-le s x xs r q
  ])
  | inr b ↦ rw (foremost_step s h x xs false b) (elim (has-skip r h x xs e) [
    | inl q ↦ let up = foremost-le s h xs h (has_head h xs) in rw q (ground (arith, up, b))
    | inr q ↦ foremost-le s h xs r q
  ])
]

foremost_again : (s : ℕ → Pcb) (x : ℕ) (xs : List ℕ) → foremost s x (x ∷ xs) ≡ foremost s x xs
foremost_again s x xs = foremost_step s x x xs false (ground arith)

-- In a queue that ends with NULL, and with a round for each of its processes, the search of
-- `dequeue_priority_ready` returns a process of the queue whose priority no other one exceeds.
pub highest_from-highest :
    (s : ℕ → Pcb) (n x : ℕ) (xs : List ℕ)
    → Ends s (x ∷ xs)
    → length xs < n
    → (p : ℕ) × (highest_from s n (some x) x ≡ some p)
      × (has p (x ∷ xs) ≡ true)
      × ((r : ℕ) → has r (x ∷ xs) ≡ true → (s r).static_priority ≤ (s p).static_priority)
highest_from-highest s n x xs e l = (
  foremost s x xs,
  highest_from_lem s n x x xs e l ∙ ap some (foremost_again s x xs),
  foremost-has s x xs,
  foremost-le s x xs,
)
