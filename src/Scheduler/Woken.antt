-- ===== src/Scheduler/Woken.antt =====
-- What `wake_up` of project-6/prj6/student.c leaves alone.
use mathlib.Core.Option.{some_inj}
use da_bus.Base.{
  Bool, true, false, arith, if◌then◌else◌, ℕ, ◌≡◌, ◌≢◌, refl, sym, ap, ◌∙◌, Option, none, some,
  List, [], ◌∷◌, ◌++◌, Bool-cases, inl, inr, ◌⊎◌, ltb,
}
use da_bus.Scheduler.{
  Pcb, process_ready, process_running, Os, CpuData, CpuState, cpu_idle, cpu_running, cpu_preempt,
  cpu_yield, cpu_terminate, Lowest, idle_cpu, lowest, set_state, find_lowest, preempt_lowest,
  force_preempt, if_running, forces, wake_up_waits, wake_up,
}
use da_bus.Scheduler.Queue.{update_self}
use da_bus.Scheduler.Handlers.{IsOs, set_state_ne, update_all}
use da_bus.Scheduler.Events.{enqueued, same_current}
use da_bus.Scheduler.WakeUp.{enqueued-IsOs, preempt_lowest_keeps}

-- A CPU keeps its process; its state stays, or goes from CPU_RUNNING to CPU_PREEMPT.
abbrev pub Nudged : CpuData → CpuData → Type 0
Nudged d d' =
    (d'.current ≡ d.current)
    × ((d'.state ≡ d.state) ⊎ ((d.state ≡ cpu_running) × (d'.state ≡ cpu_preempt)))

abbrev Forced : Os → Os → Type 0
Forced os os' = (os'.pcbs ≡ os.pcbs) × ((c : ℕ) → Nudged (os.cpu_data c) (os'.cpu_data c))

unforced : (os : Os) → Forced os os
unforced os = (refl, λ c. (refl, inl refl))

force_preempt-Forced : (i : ℕ) (os : Os) → Forced os (force_preempt i os)
unfolding force_preempt
force_preempt-Forced i os = go (os.cpu_data i).state refl
  where
    go : (s : CpuState) → (os.cpu_data i).state ≡ s → Forced os (force_preempt i os)
    go cpu_running e =
        rw (force_preempt, e)
          (
            refl,
            update_all (λ c d. Nudged (os.cpu_data c) d) os.cpu_data i
                (record (os.cpu_data i) { state = cpu_preempt }) (refl, inr (e, refl))
                (λ c ne. (refl, inl refl)),
          )
    go cpu_idle e = rw (force_preempt, e) (unforced os)
    go cpu_preempt e = rw (force_preempt, e) (unforced os)
    go cpu_yield e = rw (force_preempt, e) (unforced os)
    go cpu_terminate e = rw (force_preempt, e) (unforced os)

preempt_lowest-Forced : (pr : ℕ) (l : Lowest) (os : Os) → Forced os (preempt_lowest pr l os)
unfolding preempt_lowest
preempt_lowest-Forced pr idle_cpu os = unforced os
preempt_lowest-Forced pr (lowest m none) os = unforced os
preempt_lowest-Forced pr (lowest m (some i)) os = elim (Bool-cases (ltb m pr)) [
  | inl e ↦ rw e (force_preempt-Forced i os)
  | inr e ↦ rw e (unforced os)
]

pub record Woke (p : ℕ) (os os' : Os) : Type 0 where
  pub current : os'.current ≡ os.current
  pub nudged : (c : ℕ) → Nudged (os.cpu_data c) (os'.cpu_data c)
  pub states : (q : ℕ) → q ≢ p → (os'.pcbs q).state ≡ (os.pcbs q).state

-- Under the invariant, `wake_up` of a process that is neither READY nor RUNNING keeps the process of
-- each CPU and the state of each other process; a CPU can only be told to preempt its process.
pub wake_up-Woke :
    (os : Os) (xs : List ℕ) (p : ℕ)
    → IsOs os xs
    → (os.pcbs p).state ≢ process_ready
    → (os.pcbs p).state ≢ process_running
    → (os' : Os) × (wake_up p os ≡ some os') × IsOs os' (xs ++ p ∷ []) × Woke p os os'
unfolding wake_up set_state
wake_up-Woke os xs p v out stopped =
    let (o, e, w, k) = enqueued os xs p v out in
    let u = enqueued-IsOs os xs p v out stopped o w k in
    let found = find_lowest o o.cpu_count 0 10 none in
    let pr = (o.pcbs p).static_priority in
    let (d, c) = preempt_lowest_keeps pr found o (xs ++ p ∷ []) u in
    let (pcbs, data_) = preempt_lowest-Forced pr found o in
    let same = same_current os xs p v out o k in
    let frame : o.cpu_data ≡ os.cpu_data = ap (λ (z : Os). z.cpu_data) k.frame in
    let states : (q : ℕ) → q ≢ p → (o.pcbs q).state ≡ (os.pcbs q).state =
      λ q ne. k.state q ∙ set_state_ne os p q process_ready ne in
    elim (Bool-cases o.static_priority_flag) [
      | inl f ↦ (
        preempt_lowest pr found o,
        rw (wake_up, e, f) refl,
        d,
        record {
          current = c ∙ same;
          nudged = λ i. rw (sym frame) (data_ i);
          states = λ q ne. ap (λ (g : ℕ → Pcb). (g q).state) pcbs ∙ states q ne;
        },
      )
      | inr f ↦ (
        o,
        rw (wake_up, e, f) refl,
        u,
        record {
          current = same;
          nudged = λ i. (
            ap (λ (g : ℕ → CpuData). (g i).current) frame,
            inl (ap (λ (g : ℕ → CpuData). (g i).state) frame),
          );
          states = states;
        },
      )
    ]

if_some :
    {A : Type 0} (b : Bool) (x : Option A) (y : A)
    → (if b then x else none) ≡ some y
    → (b ≡ true) × (x ≡ some y)
if_some true x y h = (refl, h)
if_some false x y h = absurd (ground (arith, h))

if_running-some :
    (st : CpuState) (i k : ℕ) → if_running st i ≡ some k → (i ≡ k) × (st ≡ cpu_running)
unfolding if_running
if_running-some cpu_running i k f = (some_inj.0 f, refl)
if_running-some cpu_idle i k f = absurd (ground (arith, f))
if_running-some cpu_preempt i k f = absurd (ground (arith, f))
if_running-some cpu_yield i k f = absurd (ground (arith, f))
if_running-some cpu_terminate i k f = absurd (ground (arith, f))

-- The CPU `k` goes from CPU_RUNNING to CPU_PREEMPT.
abbrev pub Hits : ℕ → Os → Os → Type 0
Hits k os os' = ((os.cpu_data k).state ≡ cpu_running) × ((os'.cpu_data k).state ≡ cpu_preempt)

forces-Hits :
    (os : Os) (pr : ℕ) (l : Lowest) (k : ℕ)
    → forces os pr l ≡ some k
    → Hits k os (preempt_lowest pr l os)
unfolding forces preempt_lowest force_preempt
forces-Hits os pr idle_cpu k h = absurd (ground (arith, h))
forces-Hits os pr (lowest m none) k h = absurd (ground (arith, h))
forces-Hits os pr (lowest m (some i)) k h =
    let (set, f) = if_some (ltb m pr) (if_running (os.cpu_data i).state i) k h in
    let (at, e) = if_running-some (os.cpu_data i).state i k f in
    (
      rw (sym at) e,
      rw (set, force_preempt, e, sym at)
          (ap (λ (d : CpuData). d.state)
            (update_self os.cpu_data i (record (os.cpu_data i) { state = cpu_preempt }))),
    )

-- The CPU whose thread `wake_up` waits for has been CPU_RUNNING, and is told to preempt.
pub wake_up_waits-Hits :
    (os : Os) (xs : List ℕ) (p k : ℕ) (os' : Os)
    → IsOs os xs
    → (os.pcbs p).state ≢ process_ready
    → wake_up p os ≡ some os'
    → wake_up_waits p os ≡ some k
    → Hits k os os'
unfolding wake_up wake_up_waits set_state
wake_up_waits-Hits os xs p k os' v out f g =
    let (o, e, w, kept) = enqueued os xs p v out in
    let frame : o.cpu_data ≡ os.cpu_data = ap (λ (z : Os). z.cpu_data) kept.frame in
    let pr = (o.pcbs p).static_priority in
    let found = find_lowest o o.cpu_count 0 10 none in
    let stops : (if o.static_priority_flag then forces o pr found else none) ≡ some k =
      rw (wake_up_waits, e) at g in
    let (set, hit) = if_some o.static_priority_flag (forces o pr found) k stops in
    let same : some (preempt_lowest pr found o) ≡ some os' = rw (wake_up, e, set) at f in
    let (before, after) = forces-Hits o pr found k hit in
    (
      sym (ap (λ (d : ℕ → CpuData). (d k).state) frame) ∙ before,
      ap (λ (z : Os). (z.cpu_data k).state) (sym (some_inj.0 same)) ∙ after,
    )
