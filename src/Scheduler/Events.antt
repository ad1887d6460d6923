-- ===== src/Scheduler/Events.antt =====
-- The handlers `preempt`, `yield`, `terminate`, `idle` and `wake_up` of project-6/prj6/student.c, on
-- the invariant and on the ready list.
use mathlib.Core.Option.{some_inj}
use da_bus.Base.{
  ℕ, ◌≡◌, ◌≢◌, refl, sym, ap, ◌∙◌, Option, none, some, List, [], ◌∷◌, ◌++◌, arith, has, has-append,
  IsNodup-snoc, ◌==◌, true, false, Bool-cases, inl, inr, ◌⊎◌, ==_iff, drop,
}
use da_bus.Scheduler.{
  ProcessState, process_ready, process_running, process_waiting, process_terminated, Os, CpuData,
  set_state, enqueue_ready, schedule, idle, preempt, yield, terminate,
}
use da_bus.Scheduler.Queue.{IsQueue, first_of, Kept, enqueue_ready-IsQueue}
use da_bus.Scheduler.Handlers.{
  IsFree, IsOs, Scheduled, schedule-Scheduled, set_state-IsQueue, set_state_self, set_state_ne,
  not_both, ne_of_has,
}

-- A running process is not in the ready list.
pub not-has-current :
    {os : Os} {xs : List ℕ} (v : IsOs os xs) (p : ℕ)
    → (os.pcbs p).state ≢ process_ready
    → has p xs ≡ false
not-has-current {os} {xs} v p h = elim (Bool-cases (has p xs)) [
  | inl e ↦ absurd (h (v.ready p e))
  | inr e ↦ e
]

pub has-snoc : (q p : ℕ) (xs : List ℕ) → has q (xs ++ p ∷ []) ≡ true → (q ≡ p) ⊎ (has q xs ≡ true)
has-snoc q p xs h = elim (Bool-cases (q == p)) [
  | inl e ↦ inl ((==_iff q p).0 e)
  | inr e ↦ inr (ground (arith, has-append q xs (p ∷ [])))
]

module _ (os : Os) (xs : List ℕ) (p : ℕ) (v : IsOs os xs)
    (out : (os.pcbs p).state ≢ process_ready) where
  pub absent : has p xs ≡ false
  absent = not-has-current v p out

  -- A process that is READY joins the list.
  pub enqueued :
      (os' : Os) × (enqueue_ready p (set_state p process_ready os) ≡ some os')
      × IsQueue os'.pcbs os'.queue (xs ++ p ∷ [])
      × Kept (set_state p process_ready os) os'
  unfolding set_state
  enqueued =
      enqueue_ready-IsQueue (set_state p process_ready os) xs p
        (set_state-IsQueue os p process_ready os.queue xs v.queue) v.nodup

  pub ready_after :
      (os' : Os)
      → Kept (set_state p process_ready os) os'
      → (q : ℕ) → has q (xs ++ p ∷ []) ≡ true
      → (os'.pcbs q).state ≡ process_ready
  ready_after os' k q h = k.state q ∙ elim (has-snoc q p xs h) [
    | inl e ↦ rw e (set_state_self os p process_ready)
    | inr e ↦ set_state_ne os p q process_ready (ne_of_has q p xs e absent) ∙ v.ready q e
  ]

  pub same_current : (os' : Os) → Kept (set_state p process_ready os) os' → os'.current ≡ os.current
  unfolding set_state
  same_current os' k = ap (λ (o : Os). o.current) k.frame

  pub was_current :
      (os' : Os)
      → Kept (set_state p process_ready os) os'
      → (c q : ℕ) → os'.current c ≡ some q
      → os.current c ≡ some q
  was_current os' k c q h = sym (ap (λ (f : ℕ → Option ℕ). f c) (same_current os' k)) ∙ h

  pub running_after :
      (os' : Os)
      → Kept (set_state p process_ready os) os'
      → (q : ℕ) → q ≢ p
      → (os.pcbs q).state ≡ process_running
      → (os'.pcbs q).state ≡ process_running
  running_after os' k q ne h = k.state q ∙ set_state_ne os p q process_ready ne ∙ h

  pub enqueue_ready-IsFree :
      (cpu : ℕ) (at : os.current cpu ≡ some p) (os' : Os)
      → IsQueue os'.pcbs os'.queue (xs ++ p ∷ [])
      → Kept (set_state p process_ready os) os'
      → IsFree cpu os' (xs ++ p ∷ [])
  enqueue_ready-IsFree cpu at os' w k = record {
    queue = w;
    nodup = IsNodup-snoc p xs absent v.nodup;
    ready = ready_after os' k;
    running = λ c q ne h.
        let h' = was_current os' k c q h in
        running_after os' k q (λ e. ne (v.exclusive c cpu p (h' ∙ ap some e) at))
          (v.running c q h');
    exclusive =
        λ c d q f g h i. v.exclusive c d q (was_current os' k c q h) (was_current os' k d q i);
  }

-- The CPU has switched to the process `next`, or to the idle process: in the scheduler and in the
-- simulator, with a new time slice, and no other CPU has changed.
pub record Switched (cpu : ℕ) (os : Os) (next : Option ℕ) (os' : Os) : Type 0 where
  pub chosen : os'.current cpu ≡ next
  pub simulated : (os'.cpu_data cpu).current ≡ next
  pub timer : (os'.cpu_data cpu).preemption_timer ≡ os.time_slice
  pub elsewhere : (c : ℕ) → c ≢ cpu → os'.current c ≡ os.current c
  pub data_elsewhere : (c : ℕ) → c ≢ cpu → os'.cpu_data c ≡ os.cpu_data c

Scheduled-Switched :
    {cpu : ℕ} {os o os' : Os} {ys : List ℕ}
    → o.current ≡ os.current
    → o.cpu_data ≡ os.cpu_data
    → o.time_slice ≡ os.time_slice
    → Scheduled cpu o ys os'
    → Switched cpu os (first_of ys) os'
Scheduled-Switched same others slice s = record {
  chosen = s.chosen;
  simulated = s.simulated;
  timer = s.timer ∙ slice;
  elsewhere = λ c ne. s.elsewhere c ne ∙ ap (λ (f : ℕ → Option ℕ). f c) same;
  data_elsewhere = λ c ne. s.data_elsewhere c ne ∙ ap (λ (f : ℕ → CpuData). f c) others;
}

-- Under the invariant, the process of a CPU that is preempted goes to the end of the ready list, the
-- first process of that list leaves it and gets the CPU, by a context switch with a new time slice,
-- no other CPU changes, and the invariant holds again.
pub preempt-Scheduled :
    (cpu : ℕ) (os : Os) (xs : List ℕ) (p : ℕ)
    → IsOs os xs
    → os.current cpu ≡ some p
    → (os' : Os) × (preempt cpu os ≡ some os')
      × IsOs os' (drop 1 (xs ++ p ∷ []))
      × Switched cpu os (first_of (xs ++ p ∷ [])) os'
unfolding preempt set_state
preempt-Scheduled cpu os xs p v at =
    let out : (os.pcbs p).state ≢ process_ready = λ r. not_both r (v.running cpu p at) in
    let (o, e, w, k) = enqueued os xs p v out in
    let (os', f, s) =
      schedule-Scheduled cpu o (xs ++ p ∷ []) (enqueue_ready-IsFree os xs p v out cpu at o w k) in
    (
      os',
      rw (preempt, at, e) f,
      s.valid,
      Scheduled-Switched (ap (λ (z : Os). z.current) k.frame) (ap (λ (z : Os). z.cpu_data) k.frame)
          (ap (λ (z : Os). z.time_slice) k.frame) s,
    )

-- A process that leaves its CPU in another state than READY or RUNNING.
pub leaves-IsFree :
    (cpu : ℕ) (os : Os) (xs : List ℕ) (p : ℕ) (s : ProcessState)
    → IsOs os xs
    → os.current cpu ≡ some p
    → IsFree cpu (set_state p s os) xs
unfolding set_state
leaves-IsFree cpu os xs p s v at =
    let out = not-has-current v p (λ r. not_both r (v.running cpu p at)) in
    record {
      queue = set_state-IsQueue os p s os.queue xs v.queue;
      nodup = v.nodup;
      ready = λ q h. set_state_ne os p q s (ne_of_has q p xs h out) ∙ v.ready q h;
      running = λ c q ne h.
          set_state_ne os p q s (λ e. ne (v.exclusive c cpu p (h ∙ ap some e) at))
          ∙ v.running c q h;
      exclusive = λ c d q f g h i. v.exclusive c d q h i;
    }

-- The process `p` is in state `s`, and the CPU has switched to the first process of the ready list,
-- which leaves the list.
abbrev pub Gives : ℕ → Os → List ℕ → ℕ → ProcessState → Option Os → Type 0
Gives cpu os xs p s r =
    (os' : Os) × (r ≡ some os')
    × IsOs os' (drop 1 xs)
    × Switched cpu os (first_of xs) os'
    × ((os'.pcbs p).state ≡ s)

pub not-first : (xs : List ℕ) (p : ℕ) → has p xs ≡ false → first_of xs ≢ some p
not-first [] p h = λ e. ground (arith, e)
not-first (x ∷ xs) p h = λ e. ground (arith, h, some_inj.0 e)

leaves-Gives :
    (cpu : ℕ) (os : Os) (xs : List ℕ) (p : ℕ) (s : ProcessState)
    → IsOs os xs
    → os.current cpu ≡ some p
    → Gives cpu os xs p s (schedule cpu (set_state p s os))
unfolding set_state
leaves-Gives cpu os xs p s v at =
    let out = not-has-current v p (λ r. not_both r (v.running cpu p at)) in
    let (o, e, r) =
      schedule-Scheduled cpu (set_state p s os) xs (leaves-IsFree cpu os xs p s v at) in
    (
      o,
      e,
      r.valid,
      Scheduled-Switched refl refl refl r,
      r.others p (not-first xs p out) ∙ set_state_self os p s,
    )

-- Under the invariant, the process of a CPU becomes WAITING when it asks for input or output, and
-- TERMINATED when it ends; the first process of the ready list, if there is one, leaves it and gets
-- the CPU, by a context switch with a new time slice, no other CPU changes, and the invariant holds
-- again.
pub yield-terminate :
    (cpu : ℕ) (os : Os) (xs : List ℕ) (p : ℕ)
    → IsOs os xs
    → os.current cpu ≡ some p
    → Gives cpu os xs p process_waiting (yield cpu os)
      × Gives cpu os xs p process_terminated (terminate cpu os)
unfolding yield terminate
yield-terminate cpu os xs p v at = (
  rw (yield, at) (leaves-Gives cpu os xs p process_waiting v at),
  rw (terminate, at) (leaves-Gives cpu os xs p process_terminated v at),
)

-- Under the invariant, an idle CPU waits while the ready list is empty, and else takes the first
-- process of the list; the invariant holds again.
pub idle-IsOs :
    (cpu : ℕ) (os : Os) (xs : List ℕ)
    → IsOs os xs
    → os.current cpu ≡ none
    → (os' : Os) × (idle cpu os ≡ some os') × IsOs os' (drop 1 xs) × (os'.current cpu ≡ first_of xs)
unfolding idle
idle-IsOs cpu os [] v at =
    let e : (os.queue.count == 0) ≡ true = ground (arith, v.queue.counted) in
    (os, rw (idle, e) refl, v, at)
idle-IsOs cpu os (x ∷ xs) v at =
    let e : (os.queue.count == 0) ≡ false = ground (arith, v.queue.counted) in
    let (o, f, s) = schedule-Scheduled cpu os (x ∷ xs) (record {
      queue = v.queue;
      nodup = v.nodup;
      ready = v.ready;
      running = λ c p ne h. v.running c p h;
      exclusive = λ c d p ne nf h k. v.exclusive c d p h k;
    }) in
    (o, rw (idle, e) f, s.valid, s.chosen)
