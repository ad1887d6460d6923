-- ===== src/Scheduler/Handlers.antt =====
-- The handlers of project-6/prj6/student.c on the ready list and the running processes.
use mathlib.Core.Option.{some_inj}
use da_bus.Base.{
  ℕ, ◌≡◌, ◌≢◌, refl, sym, ap, ◌∙◌, Option, none, some, List, [], ◌∷◌, arith, has, IsNodup, ◌==◌,
  true, false, Bool-cases, inl, inr, ◌⊎◌, ==_iff, ne_of_==, drop,
}
use da_bus.Scheduler.{
  Pcb, ProcessState, process_ready, process_running, ReadyQueue, Os, CpuData, update, set_state,
  context_switch, dispatch, schedule,
}
use da_bus.Scheduler.Queue.{
  IsQueue, Linked-cong, first_of, update_self, update_ne, dequeue_ready_empty,
  dequeue_ready-IsQueue,
}

-- The invariant, while the CPU `cpu` has no process: the queue stands for `xs`, its processes are
-- different and READY, and every other CPU has a RUNNING process of its own or none.
pub record IsFree (cpu : ℕ) (os : Os) (xs : List ℕ) : Type 0 where
  pub queue : IsQueue os.pcbs os.queue xs
  pub nodup : IsNodup xs
  pub ready : (p : ℕ) → has p xs ≡ true → (os.pcbs p).state ≡ process_ready
  pub running : (c p : ℕ) → c ≢ cpu → os.current c ≡ some p → (os.pcbs p).state ≡ process_running
  pub exclusive :
      (c d p : ℕ) → c ≢ cpu → d ≢ cpu → os.current c ≡ some p → os.current d ≡ some p → c ≡ d

-- The invariant between handlers.
pub record IsOs (os : Os) (xs : List ℕ) : Type 0 where
  pub queue : IsQueue os.pcbs os.queue xs
  pub nodup : IsNodup xs
  pub ready : (p : ℕ) → has p xs ≡ true → (os.pcbs p).state ≡ process_ready
  pub running : (c p : ℕ) → os.current c ≡ some p → (os.pcbs p).state ≡ process_running
  pub exclusive : (c d p : ℕ) → os.current c ≡ some p → os.current d ≡ some p → c ≡ d

pub update_cases :
    {A : Type 0} (f : ℕ → A) (k : ℕ) (v : A) (i : ℕ)
    → ((i ≡ k) × (update f k v i ≡ v)) ⊎ ((i ≢ k) × (update f k v i ≡ f i))
update_cases f k v i = elim (Bool-cases (i == k)) [
  | inl e ↦ let q = (==_iff i k).0 e in inl (q, rw q (update_self f k v))
  | inr e ↦ let q = ne_of_== i k e in inr (q, update_ne f k i v q)
]

-- What holds of each entry after a write at `k`.
pub update_all :
    {A : Type 0} (P : ℕ → A → Type 0) (f : ℕ → A) (k : ℕ) (v : A)
    → P k v
    → ((i : ℕ) → i ≢ k → P i (f i))
    → (i : ℕ) → P i (update f k v i)
update_all P f k v here there i = elim (update_cases f k v i) [
  | inl (e, u) ↦ rw (u, e) here
  | inr (e, u) ↦ rw u (there i e)
]

-- What an array of pointers holds after a write.
assigned :
    (f : ℕ → Option ℕ) (k : ℕ) (r : Option ℕ) (c p : ℕ)
    → update f k r c ≡ some p
    → ((c ≡ k) × (r ≡ some p)) ⊎ ((c ≢ k) × (f c ≡ some p))
assigned f k r c p h = elim (update_cases f k r c) [
  | inl (e, u) ↦ inl (e, sym u ∙ h)
  | inr (e, u) ↦ inr (e, sym u ∙ h)
]

pub ne_of_has : (p x : ℕ) (xs : List ℕ) → has p xs ≡ true → has x xs ≡ false → p ≢ x
ne_of_has p x xs h k = λ e. ground (arith, ap (λ i. has i xs) e)

pub not_both : {s : ProcessState} → s ≡ process_ready → s ≡ process_running → ⊥
not_both h k = ground (arith, sym h ∙ k)

next_same :
    (f : ℕ → Pcb) (p : ℕ) (s : ProcessState) (i : ℕ)
    → (update f p (record (f p) { state = s }) i).next ≡ (f i).next
next_same f p s i = elim (update_cases f p (record (f p) { state = s }) i) [
  | inl (e, u) ↦ ap (λ (c : Pcb). c.next) u ∙ ap (λ k. (f k).next) (sym e)
  | inr (e, u) ↦ ap (λ (c : Pcb). c.next) u
]

-- A change of state leaves the links alone.
pub set_state-IsQueue :
    (os : Os) (p : ℕ) (s : ProcessState) (q : ReadyQueue) (xs : List ℕ)
    → IsQueue os.pcbs q xs
    → IsQueue (set_state p s os).pcbs q xs
unfolding set_state
set_state-IsQueue os p s q xs v = record {
  counted = v.counted;
  headed = v.headed;
  tailed = v.tailed;
  linked = Linked-cong os.pcbs (set_state p s os).pcbs xs (next_same os.pcbs p s) v.linked;
}

pub set_state_self : (os : Os) (p : ℕ) (s : ProcessState) → ((set_state p s os).pcbs p).state ≡ s
unfolding set_state
set_state_self os p s =
    ap (λ (c : Pcb). c.state) (update_self os.pcbs p (record (os.pcbs p) { state = s }))

pub set_state_ne :
    (os : Os) (p i : ℕ) (s : ProcessState)
    → i ≢ p
    → ((set_state p s os).pcbs i).state ≡ (os.pcbs i).state
unfolding set_state
set_state_ne os p i s h =
    ap (λ (c : Pcb). c.state) (update_ne os.pcbs p i (record (os.pcbs p) { state = s }) h)

-- A process that is set RUNNING joins those that are.
still_running :
    (os : Os) (x p : ℕ)
    → (os.pcbs p).state ≡ process_running
    → ((set_state x process_running os).pcbs p).state ≡ process_running
still_running os x p h = elim (Bool-cases (p == x)) [
  | inl e ↦ let q = (==_iff p x).0 e in rw q (set_state_self os x process_running)
  | inr e ↦ set_state_ne os x p process_running (ne_of_== p x e) ∙ h
]

-- What `schedule` does: the first process of the list gets the CPU.
pub record Scheduled (cpu : ℕ) (os : Os) (xs : List ℕ) (os' : Os) : Type 0 where
  pub valid : IsOs os' (drop 1 xs)
  pub chosen : os'.current cpu ≡ first_of xs
  pub simulated : (os'.cpu_data cpu).current ≡ first_of xs
  pub timer : (os'.cpu_data cpu).preemption_timer ≡ os.time_slice
  pub elsewhere : (c : ℕ) → c ≢ cpu → os'.current c ≡ os.current c
  pub data_elsewhere : (c : ℕ) → c ≢ cpu → os'.cpu_data c ≡ os.cpu_data c
  pub same_state : (os'.cpu_data cpu).state ≡ (os.cpu_data cpu).state
  pub others : (q : ℕ) → first_of xs ≢ some q → (os'.pcbs q).state ≡ (os.pcbs q).state

dispatch-Scheduled :
    (cpu : ℕ) (os : Os) (x : ℕ) (xs : List ℕ) (q : ReadyQueue)
    → IsFree cpu os (x ∷ xs)
    → IsQueue os.pcbs q xs
    → Scheduled cpu os (x ∷ xs) (dispatch cpu (some x, record os { queue = q }))
unfolding dispatch context_switch set_state
dispatch-Scheduled cpu os x xs q v w = record {
  valid = record {
    queue = set_state-IsQueue os x process_running q xs w;
    nodup = v.nodup.1;
    ready = λ p h.
        set_state_ne os x p process_running (ne_of_has p x xs h v.nodup.0)
        ∙ v.ready p (ground (arith, h));
    running = λ c p h. elim (assigned os.current cpu (some x) c p h) [
      | inl (e, k) ↦ rw (sym (some_inj.0 k)) (set_state_self os x process_running)
      | inr (e, k) ↦ still_running os x p (v.running c p e k)
    ];
    exclusive = λ c d p h k. only c d p h k;
  };
  chosen = update_self os.current cpu (some x);
  simulated =
      ap (λ (d : CpuData). d.current)
        (update_self os.cpu_data cpu
          (record (os.cpu_data cpu) { current = some x; preemption_timer = os.time_slice }));
  timer =
      ap (λ (d : CpuData). d.preemption_timer)
        (update_self os.cpu_data cpu
          (record (os.cpu_data cpu) { current = some x; preemption_timer = os.time_slice }));
  elsewhere = λ c h. update_ne os.current cpu c (some x) h;
  data_elsewhere = λ c h.
      update_ne os.cpu_data cpu c
        (record (os.cpu_data cpu) { current = some x; preemption_timer = os.time_slice }) h;
  same_state =
      ap (λ (d : CpuData). d.state)
        (update_self os.cpu_data cpu
          (record (os.cpu_data cpu) { current = some x; preemption_timer = os.time_slice }));
  others = λ q h. set_state_ne os x q process_running (λ e. h (ap some (sym e)));
}
  where
    new : (d p : ℕ) → d ≢ cpu → os.current d ≡ some p → some x ≡ some p → ⊥
    new d p e h k = not_both (v.ready p (ground (arith, some_inj.0 k))) (v.running d p e h)

    only :
        (c d p : ℕ)
        → update os.current cpu (some x) c ≡ some p
        → update os.current cpu (some x) d ≡ some p
        → c ≡ d
    only c d p h k = elim (assigned os.current cpu (some x) c p h) [
      | inl (e, a) ↦ elim (assigned os.current cpu (some x) d p k) [
        | inl (f, b) ↦ e ∙ sym f
        | inr (f, b) ↦ absurd (new d p f b a)
      ]
      | inr (e, a) ↦ elim (assigned os.current cpu (some x) d p k) [
        | inl (f, b) ↦ absurd (new c p e a b)
        | inr (f, b) ↦ v.exclusive c d p e f a b
      ]
    ]

dispatch-Scheduled_idle :
    (cpu : ℕ) (os : Os) → IsFree cpu os [] → Scheduled cpu os [] (dispatch cpu (none, os))
unfolding dispatch context_switch
dispatch-Scheduled_idle cpu os v = record {
  valid = record {
    queue = v.queue;
    nodup = tt;
    ready = v.ready;
    running = λ c p h. elim (assigned os.current cpu none c p h) [
      | inl (e, k) ↦ absurd (ground (arith, k))
      | inr (e, k) ↦ v.running c p e k
    ];
    exclusive = λ c d p h k. elim (assigned os.current cpu none c p h) [
      | inl (e, a) ↦ absurd (ground (arith, a))
      | inr (e, a) ↦ elim (assigned os.current cpu none d p k) [
        | inl (f, b) ↦ absurd (ground (arith, b))
        | inr (f, b) ↦ v.exclusive c d p e f a b
      ]
    ];
  };
  chosen = update_self os.current cpu none;
  simulated =
      ap (λ (d : CpuData). d.current)
        (update_self os.cpu_data cpu
          (record (os.cpu_data cpu) { current = none; preemption_timer = os.time_slice }));
  timer =
      ap (λ (d : CpuData). d.preemption_timer)
        (update_self os.cpu_data cpu
          (record (os.cpu_data cpu) { current = none; preemption_timer = os.time_slice }));
  elsewhere = λ c h. update_ne os.current cpu c none h;
  data_elsewhere = λ c h.
      update_ne os.cpu_data cpu c
        (record (os.cpu_data cpu) { current = none; preemption_timer = os.time_slice }) h;
  same_state =
      ap (λ (d : CpuData). d.state)
        (update_self os.cpu_data cpu
          (record (os.cpu_data cpu) { current = none; preemption_timer = os.time_slice }));
  others = λ q h. refl;
}

-- A CPU without a process gets the first one of the ready list, or the idle process if there is
-- none, and the invariant holds again.
pub schedule-Scheduled :
    (cpu : ℕ) (os : Os) (xs : List ℕ)
    → IsFree cpu os xs
    → (os' : Os) × (schedule cpu os ≡ some os') × Scheduled cpu os xs os'
unfolding schedule
schedule-Scheduled cpu os [] v = (
  dispatch cpu (none, os),
  rw (schedule, dequeue_ready_empty os v.queue) refl,
  dispatch-Scheduled_idle cpu os v,
)
schedule-Scheduled cpu os (x ∷ xs) v =
    let (q, e, w) = dequeue_ready-IsQueue os x xs v.queue in
    (
      dispatch cpu (some x, record os { queue = q }),
      rw (schedule, e) refl,
      dispatch-Scheduled cpu os x xs q v w,
    )
