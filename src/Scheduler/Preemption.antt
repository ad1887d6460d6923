-- ===== src/Scheduler/Preemption.antt =====
-- The CPU that `wake_up` of project-6/prj6/student.c preempts under static priority scheduling.
use da_bus.Base.{
  ℕ, ◌≤◌, ◌<◌, ◌≡◌, ◌≢◌, refl, sym, ap, ◌∙◌, Option, none, some, List, arith, ◌==◌, true, false,
  Bool-cases, inl, inr, ltb, lt→ltb, ==_iff,
}
use da_bus.Scheduler.{
  Pcb, ProcessState, process_ready, Os, CpuData, set_state, wake_up, lowest, preempt_lowest,
  force_preempt, CpuState, cpu_idle, cpu_running, cpu_preempt, cpu_yield, cpu_terminate, update,
}
use da_bus.Scheduler.Queue.{Kept, update_self, update_ne}
use da_bus.Scheduler.Handlers.{IsOs}
use da_bus.Scheduler.Events.{enqueued}
use da_bus.Scheduler.Search.{if_same, AllBusy, IsLowest, find_lowest_idle, find_lowest-IsLowest}

priority_same :
    (f : ℕ → Pcb) (p : ℕ) (s : ProcessState) (i : ℕ)
    → (update f p (record (f p) { state = s }) i).static_priority ≡ (f i).static_priority
unfolding update
priority_same f p s i = elim (Bool-cases (i == p)) [
  | inl e ↦ rw e (ap (λ k. (f k).static_priority) (sym ((==_iff i p).0 e)))
  | inr e ↦ rw e refl
]

module _ (os : Os) (p : ℕ) (o : Os) (kept : Kept (set_state p process_ready os) o) where
  abbrev Same : Type 0
  Same =
      (o.current ≡ os.current)
      × (o.cpu_count ≡ os.cpu_count)
      × (o.static_priority_flag ≡ os.static_priority_flag)
      × (o.cpu_data ≡ os.cpu_data)
      × ((i : ℕ) → (o.pcbs i).static_priority ≡ (os.pcbs i).static_priority)

  same : Same
  unfolding set_state
  same = (
    ap (λ (s : Os). s.current) kept.frame,
    ap (λ (s : Os). s.cpu_count) kept.frame,
    ap (λ (s : Os). s.static_priority_flag) kept.frame,
    ap (λ (s : Os). s.cpu_data) kept.frame,
    λ i. kept.priority i ∙ priority_same os.pcbs p process_ready i,
  )

  current_at : (c : ℕ) → o.current c ≡ os.current c
  current_at c = ap (λ (f : ℕ → Option ℕ). f c) same.0

  AllBusy-kept : AllBusy os → AllBusy o
  AllBusy-kept busy j h e = busy j (omega (arith, same.1)) (sym (current_at j) ∙ e)

  IsLowest-kept : (k q : ℕ) → IsLowest os k q → IsLowest o k q
  IsLowest-kept k q v = record {
    in_range = omega (arith, v.in_range, same.1);
    runs = current_at k ∙ v.runs;
    smallest = λ j r h e. omega (
      arith,
      same.4 q,
      same.4 r,
      v.smallest j r (omega (arith, same.1)) (sym (current_at j) ∙ e),
    );
    first = λ j r h e. omega (arith, same.4 q, same.4 r, v.first j r h (sym (current_at j) ∙ e));
  }

preempt_lowest_hits :
    (pr m k : ℕ) (o : Os)
    → m < pr
    → (o.cpu_data k).state ≡ cpu_running
    → ((preempt_lowest pr (lowest m (some k)) o).cpu_data k).state ≡ cpu_preempt
unfolding preempt_lowest force_preempt
preempt_lowest_hits pr m k o h e =
    let yes : ltb m pr ≡ true = lt→ltb m pr h in
    rw (yes, force_preempt, e)
      (ap (λ (d : CpuData). d.state)
        (update_self o.cpu_data k (record (o.cpu_data k) { state = cpu_preempt })))

force_preempt_elsewhere : (k c : ℕ) (o : Os) → c ≢ k → (force_preempt k o).cpu_data c ≡ o.cpu_data c
unfolding force_preempt
force_preempt_elsewhere k c o ne = go (o.cpu_data k).state refl
  where
    go : (s : CpuState) → (o.cpu_data k).state ≡ s → (force_preempt k o).cpu_data c ≡ o.cpu_data c
    go cpu_running e =
        rw (force_preempt, e)
          (update_ne o.cpu_data k c (record (o.cpu_data k) { state = cpu_preempt }) ne)
    go cpu_idle e = rw (force_preempt, e) refl
    go cpu_preempt e = rw (force_preempt, e) refl
    go cpu_yield e = rw (force_preempt, e) refl
    go cpu_terminate e = rw (force_preempt, e) refl

preempt_lowest_elsewhere :
    (pr m k c : ℕ) (o : Os)
    → c ≢ k
    → (preempt_lowest pr (lowest m (some k)) o).cpu_data c ≡ o.cpu_data c
unfolding preempt_lowest
preempt_lowest_elsewhere pr m k c o ne = elim (Bool-cases (ltb m pr)) [
  | inl e ↦ rw e (force_preempt_elsewhere k c o ne)
  | inr e ↦ rw e refl
]

preempt_lowest_spares : (pr m k : ℕ) (o : Os) → pr ≤ m → preempt_lowest pr (lowest m (some k)) o ≡ o
unfolding preempt_lowest
preempt_lowest_spares pr m k o h = let no : ltb m pr ≡ false = ground arith in rw no refl

-- What `wake_up` of `p` does to the CPUs when `k`, with `q`, is the first with the lowest priority.
abbrev pub Preempts : Os → ℕ → ℕ → ℕ → Os → Type 0
Preempts os p k q os' =
    ((os.pcbs q).static_priority < (os.pcbs p).static_priority
      → (os.cpu_data k).state ≡ cpu_running
      → (os'.cpu_data k).state ≡ cpu_preempt)
    × ((os.pcbs p).static_priority ≤ (os.pcbs q).static_priority → os'.cpu_data ≡ os.cpu_data)
    × ((c : ℕ) → c ≢ k → os'.cpu_data c ≡ os.cpu_data c)

-- Under the invariant and static priority scheduling, when no CPU is idle and the lowest priority
-- that runs is below 10, `wake_up` of a process that is not READY changes no CPU but the first one
-- with that priority; that one it preempts if it is CPU_RUNNING and its priority is below that of
-- the process, and leaves as it is if its priority is not below.
pub wake_up-Preempts :
    (os : Os) (xs : List ℕ) (p k q : ℕ)
    → IsOs os xs
    → (os.pcbs p).state ≢ process_ready
    → os.static_priority_flag ≡ true
    → AllBusy os
    → IsLowest os k q
    → (os.pcbs q).static_priority < 10
    → (os' : Os) × (wake_up p os ≡ some os') × Preempts os p k q os'
unfolding wake_up
wake_up-Preempts os xs p k q v out flag busy low ten =
    let (o, e, w, kept) = enqueued os xs p v out in
    let s = same os p o kept in
    let m = (o.pcbs q).static_priority in
    let n = (o.pcbs p).static_priority in
    let found =
      find_lowest-IsLowest o k q o.cpu_count 0 10 none (AllBusy-kept os p o kept busy)
        (IsLowest-kept os p o kept k q low) (omega arith) (omega arith)
        (omega (arith, s.4 q, ten)) in
    (
      preempt_lowest n (lowest m (some k)) o,
      rw (wake_up, e, s.2, flag, found) refl,
      (
        λ h r.
            preempt_lowest_hits n m k o (omega (arith, s.4 q, s.4 p, h))
              (ap (λ (d : ℕ → CpuData). (d k).state) s.3 ∙ r),
        λ h.
            ap (λ (z : Os). z.cpu_data)
              (preempt_lowest_spares n m k o (omega (arith, s.4 q, s.4 p, h)))
            ∙ s.3,
        λ c ne. preempt_lowest_elsewhere n m k c o ne ∙ ap (λ (d : ℕ → CpuData). d c) s.3,
      ),
    )

-- Under the invariant, `wake_up` of a process that is not READY preempts no CPU while one is idle.
pub wake_up_idle :
    (os : Os) (xs : List ℕ) (p j : ℕ)
    → IsOs os xs
    → (os.pcbs p).state ≢ process_ready
    → j < os.cpu_count
    → os.current j ≡ none
    → (os' : Os) × (wake_up p os ≡ some os') × (os'.cpu_data ≡ os.cpu_data)
unfolding wake_up preempt_lowest
wake_up_idle os xs p j v out h e =
    let (o, f, w, kept) = enqueued os xs p v out in
    let s = same os p o kept in
    let found =
      find_lowest_idle o j o.cpu_count 0 10 none (current_at os p o kept j ∙ e) (omega arith)
        (omega (arith, s.1)) in
    (o, rw (wake_up, f, found) (ap some (if_same o.static_priority_flag o)), s.3)
