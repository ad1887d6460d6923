-- ===== src/Scheduler/Queue.antt =====
-- The ready queue of project-6/prj6/student.c as a linked list of control blocks: what
-- `enqueue_ready` and `dequeue_ready` do to the list of processes it stands for.
use mathlib.Core.Option.{some_inj}
use da_bus.Base.{
  ℕ, ◌+◌, ◌-◌, ◌<◌, ◌≡◌, ◌≢◌, refl, sym, ap, ◌∙◌, Option, none, some, List, [], ◌∷◌, ◌++◌, arith,
  length, length-append, has, IsNodup, ◌==◌, true, false, Bool-cases, inl, inr, ==_iff,
}
use da_bus.Scheduler.{Pcb, ReadyQueue, Os, update, enqueue_ready, dequeue_ready}

abbrev pub first_of : List ℕ → Option ℕ
first_of [] = none
first_of (x ∷ xs) = some x

abbrev pub last_of : List ℕ → Option ℕ
last_of [] = none
last_of (x ∷ []) = some x
last_of (x ∷ y ∷ xs) = last_of (y ∷ xs)

-- Each process points to the next one. What the last one points to is left open.
abbrev pub Linked : (ℕ → Pcb) → List ℕ → Type 0
Linked s [] = Unit
Linked s (x ∷ []) = Unit
Linked s (x ∷ y ∷ xs) = ((s x).next ≡ some y) × Linked s (y ∷ xs)

-- The queue stands for the list `xs`, the next process to run first.
pub record IsQueue (s : ℕ → Pcb) (q : ReadyQueue) (xs : List ℕ) : Type 0 where
  pub counted : q.count ≡ length xs
  pub headed : 0 < length xs → q.head ≡ first_of xs
  pub tailed : 0 < length xs → q.tail ≡ last_of xs
  pub linked : Linked s xs

pub Linked-cong :
    (s s' : ℕ → Pcb) (xs : List ℕ)
    → ((i : ℕ) → (s' i).next ≡ (s i).next)
    → Linked s xs
    → Linked s' xs
Linked-cong s s' [] e h = tt
Linked-cong s s' (x ∷ []) e h = tt
Linked-cong s s' (x ∷ y ∷ xs) e (h, k) = (e x ∙ h, Linked-cong s s' (y ∷ xs) e k)

has-last : (xs : List ℕ) (t : ℕ) → last_of xs ≡ some t → has t xs ≡ true
has-last [] t h = absurd (ground arith)
has-last (x ∷ []) t h = ground arith
has-last (x ∷ y ∷ xs) t h = ground (arith, has-last (y ∷ xs) t h)

last_of-append : (xs : List ℕ) (p : ℕ) → last_of (xs ++ p ∷ []) ≡ some p
last_of-append [] p = refl
last_of-append (x ∷ []) p = refl
last_of-append (x ∷ y ∷ xs) p = last_of-append (y ∷ xs) p

last_IsSome : (x : ℕ) (xs : List ℕ) → (t : ℕ) × (last_of (x ∷ xs) ≡ some t)
last_IsSome x [] = (x, refl)
last_IsSome x (y ∷ xs) = last_IsSome y xs

first_of-append : (x : ℕ) (xs : List ℕ) (p : ℕ) → first_of ((x ∷ xs) ++ p ∷ []) ≡ some x
first_of-append x xs p = refl

pub update_self : {A : Type 0} (f : ℕ → A) (k : ℕ) (v : A) → update f k v k ≡ v
unfolding update
update_self f k v = let e : (k == k) ≡ true = ground arith in rw e refl

pub update_ne : {A : Type 0} (f : ℕ → A) (k i : ℕ) (v : A) → i ≢ k → update f k v i ≡ f i
unfolding update
update_ne f k i v h = let e : (i == k) ≡ false = ground (arith, h) in rw e refl

-- The old last process is made to point to the new one.
Linked-append :
    (s : ℕ → Pcb) (xs : List ℕ) (t p : ℕ)
    → IsNodup xs
    → last_of xs ≡ some t
    → Linked s xs
    → Linked (update s t (record (s t) { next = some p })) (xs ++ p ∷ [])
Linked-append s [] t p d e h = tt
Linked-append s (x ∷ []) t p d e h =
    let q : x ≡ t = some_inj.0 e in
    (rw q (ap (λ (c : Pcb). c.next) (update_self s t (record (s t) { next = some p }))), tt)
Linked-append s (x ∷ y ∷ xs) t p (d, ds) e (h, k) =
    let ne : x ≢ t = λ q. ground (arith, has-last (y ∷ xs) t e) in
    (
      ap (λ (c : Pcb). c.next) (update_ne s t x (record (s t) { next = some p }) ne) ∙ h,
      Linked-append s (y ∷ xs) t p ds e k,
    )

-- What `enqueue_ready` leaves alone.
pub record Kept (os os' : Os) : Type 0 where
  pub frame : os' ≡ record os { pcbs = os'.pcbs; queue = os'.queue }
  pub state : (i : ℕ) → (os'.pcbs i).state ≡ (os.pcbs i).state
  pub priority : (i : ℕ) → (os'.pcbs i).static_priority ≡ (os.pcbs i).static_priority

relinked :
    (s : ℕ → Pcb) (t : ℕ) (n : Option ℕ) (i : ℕ)
    → ((update s t (record (s t) { next = n }) i).state ≡ (s i).state)
      × ((update s t (record (s t) { next = n }) i).static_priority ≡ (s i).static_priority)
unfolding update
relinked s t n i = elim (Bool-cases (i == t)) [
  | inl e ↦
      let q : t ≡ i = sym ((==_iff i t).0 e) in
      rw e (ap (λ k. (s k).state) q, ap (λ k. (s k).static_priority) q)
  | inr e ↦ rw e (refl, refl)
]

-- For a queue that stands for a list of different processes, `enqueue_ready` returns, puts the
-- process at the end of the list, and changes no state, no priority and nothing else.
pub enqueue_ready-IsQueue :
    (os : Os) (xs : List ℕ) (p : ℕ)
    → IsQueue os.pcbs os.queue xs
    → IsNodup xs
    → (os' : Os) × (enqueue_ready p os ≡ some os')
      × IsQueue os'.pcbs os'.queue (xs ++ p ∷ [])
      × Kept os os'
unfolding enqueue_ready
enqueue_ready-IsQueue os [] p v d =
    let e : (os.queue.count == 0) ≡ true = ground (arith, v.counted) in
    (
      record os { queue = record { head = some p; tail = some p; count = os.queue.count + 1 } },
      rw (enqueue_ready, e) refl,
      record {
        counted = omega (arith, v.counted);
        headed = λ _. refl;
        tailed = λ _. refl;
        linked = tt;
      },
      record { frame = refl; state = λ i. refl; priority = λ i. refl },
    )
enqueue_ready-IsQueue os (x ∷ xs) p v d =
    let e : (os.queue.count == 0) ≡ false = ground (arith, v.counted) in
    let (t, l) = last_IsSome x xs in
    let h = v.tailed (omega arith) ∙ l in
    (
      record os {
        pcbs = update os.pcbs t (record (os.pcbs t) { next = some p });
        queue = record os.queue { tail = some p; count = os.queue.count + 1 };
      },
      rw (enqueue_ready, e, h) refl,
      record {
        counted = omega (arith, v.counted, length-append xs (p ∷ []));
        headed = λ _. v.headed (omega arith);
        tailed = λ _. sym (last_of-append (x ∷ xs) p);
        linked = Linked-append os.pcbs (x ∷ xs) t p d l v.linked;
      },
      record {
        frame = refl;
        state = λ i. (relinked os.pcbs t (some p) i).0;
        priority = λ i. (relinked os.pcbs t (some p) i).1;
      },
    )

-- From an empty queue `dequeue_ready` returns NULL and changes nothing.
pub dequeue_ready_empty :
    (os : Os) → IsQueue os.pcbs os.queue [] → dequeue_ready os ≡ some (none, os)
unfolding dequeue_ready
dequeue_ready_empty os v =
    let e : (os.queue.count == 0) ≡ true = ground (arith, v.counted) in rw (dequeue_ready, e) refl

-- From any other queue `dequeue_ready` returns the first process, and the queue then stands for the
-- rest; the control blocks stay as they are.
pub dequeue_ready-IsQueue :
    (os : Os) (x : ℕ) (xs : List ℕ)
    → IsQueue os.pcbs os.queue (x ∷ xs)
    → (q : ReadyQueue) × (dequeue_ready os ≡ some (some x, record os { queue = q }))
      × IsQueue os.pcbs q xs
unfolding dequeue_ready
dequeue_ready-IsQueue os x [] v =
    let e : (os.queue.count == 0) ≡ false = ground (arith, v.counted) in
    let f : (os.queue.count == 1) ≡ true = ground (arith, v.counted) in
    (
      record { head = none; tail = none; count = os.queue.count - 1 },
      rw (dequeue_ready, e, f, v.headed (omega arith)) refl,
      record {
        counted = omega (arith, v.counted);
        headed = λ h. absurd (omega arith);
        tailed = λ h. absurd (omega arith);
        linked = tt;
      },
    )
dequeue_ready-IsQueue os x (y ∷ xs) v =
    let e : (os.queue.count == 0) ≡ false = ground (arith, v.counted) in
    let f : (os.queue.count == 1) ≡ false = ground (arith, v.counted) in
    (
      record os.queue { head = (os.pcbs x).next; count = os.queue.count - 1 },
      rw (dequeue_ready, e, f, v.headed (omega arith)) refl,
      record {
        counted = omega (arith, v.counted);
        headed = λ h. v.linked.0;
        tailed = λ h. v.tailed (omega arith);
        linked = v.linked.1;
      },
    )
