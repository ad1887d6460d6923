-- ===== src/Scheduler/WakeUp.antt =====
-- `wake_up` of project-6/prj6/student.c: the ready list and the invariant.
use da_bus.Base.{
  ℕ, ◌≡◌, ◌≢◌, refl, sym, ◌∙◌, none, some, List, [], ◌∷◌, ◌++◌, IsNodup-snoc, Bool-cases, inl, inr,
  ltb,
}
use da_bus.Scheduler.{
  process_ready, process_running, Os, set_state, wake_up, Lowest, idle_cpu, lowest, preempt_lowest,
  find_lowest, force_preempt, CpuState, cpu_idle, cpu_running, cpu_preempt, cpu_yield,
  cpu_terminate,
}
use da_bus.Scheduler.Queue.{IsQueue, Kept}
use da_bus.Scheduler.Handlers.{IsOs}
use da_bus.Scheduler.Events.{
  absent, enqueued, ready_after, same_current, was_current, running_after,
}

-- What `wake_up` leaves alone.
force_preempt_keeps :
    (i : ℕ) (os : Os) (xs : List ℕ)
    → IsOs os xs
    → IsOs (force_preempt i os) xs × ((force_preempt i os).current ≡ os.current)
unfolding force_preempt
force_preempt_keeps i os xs v = go (os.cpu_data i).state refl
  where
    go :
        (s : CpuState)
        → (os.cpu_data i).state ≡ s
        → IsOs (force_preempt i os) xs × ((force_preempt i os).current ≡ os.current)
    go cpu_running e =
        rw (force_preempt, e)
          (
            record {
              queue = v.queue;
              nodup = v.nodup;
              ready = v.ready;
              running = v.running;
              exclusive = v.exclusive;
            },
            refl,
          )
    go cpu_idle e = rw (force_preempt, e) (v, refl)
    go cpu_preempt e = rw (force_preempt, e) (v, refl)
    go cpu_yield e = rw (force_preempt, e) (v, refl)
    go cpu_terminate e = rw (force_preempt, e) (v, refl)

pub preempt_lowest_keeps :
    (pr : ℕ) (l : Lowest) (os : Os) (xs : List ℕ)
    → IsOs os xs
    → IsOs (preempt_lowest pr l os) xs × ((preempt_lowest pr l os).current ≡ os.current)
unfolding preempt_lowest
preempt_lowest_keeps pr idle_cpu os xs v = (v, refl)
preempt_lowest_keeps pr (lowest m none) os xs v = (v, refl)
preempt_lowest_keeps pr (lowest m (some i)) os xs v = elim (Bool-cases (ltb m pr)) [
  | inl e ↦ rw e (force_preempt_keeps i os xs v)
  | inr e ↦ rw e (v, refl)
]

pub enqueued-IsOs :
    (os : Os) (xs : List ℕ) (p : ℕ) (v : IsOs os xs) (out : (os.pcbs p).state ≢ process_ready)
    (stopped : (os.pcbs p).state ≢ process_running) (os' : Os)
    → IsQueue os'.pcbs os'.queue (xs ++ p ∷ [])
    → Kept (set_state p process_ready os) os'
    → IsOs os' (xs ++ p ∷ [])
enqueued-IsOs os xs p v out stopped os' w k = record {
  queue = w;
  nodup = IsNodup-snoc p xs (absent os xs p v out) v.nodup;
  ready = ready_after os xs p v out os' k;
  running = λ c q h.
      let r = v.running c q (was_current os xs p v out os' k c q h) in
      running_after os xs p v out os' k q (λ e. stopped (rw (sym e) r)) r;
  exclusive = λ c d q h i.
      v.exclusive c d q (was_current os xs p v out os' k c q h)
        (was_current os xs p v out os' k d q i);
}

-- Under the invariant, `wake_up` puts a process that is neither READY nor RUNNING at the end of the
-- ready list; no CPU gets another process, and the invariant holds again.
pub wake_up-IsOs :
    (os : Os) (xs : List ℕ) (p : ℕ)
    → IsOs os xs
    → (os.pcbs p).state ≢ process_ready
    → (os.pcbs p).state ≢ process_running
    → (os' : Os) × (wake_up p os ≡ some os') × IsOs os' (xs ++ p ∷ []) × (os'.current ≡ os.current)
unfolding wake_up
wake_up-IsOs os xs p v out stopped =
    let (o, e, w, k) = enqueued os xs p v out in
    let u = enqueued-IsOs os xs p v out stopped o w k in
    let found = find_lowest o o.cpu_count 0 10 none in
    let (d, c) = preempt_lowest_keeps (o.pcbs p).static_priority found o (xs ++ p ∷ []) u in
    elim (Bool-cases o.static_priority_flag) [
      | inl f ↦ (
        preempt_lowest (o.pcbs p).static_priority found o,
        rw (wake_up, e, f) refl,
        d,
        c ∙ same_current os xs p v out o k,
      )
      | inr f ↦ (o, rw (wake_up, e, f) refl, u, same_current os xs p v out o k)
    ]
