-- ===== src/Threads/Overlap.antt =====
-- Two handlers of project-6/prj6/student.c that overlap: `preempt` of one CPU, between its two halves,
-- and `idle` of another one.
use da_bus.Base.{ℕ, ◌+◌, ◌-◌, ◌≡◌, ◌≢◌, refl, ap, ◌∙◌, Option, none, some, arith, ◌==◌, true, false}
use da_bus.Scheduler.{
  Os, CpuData, ReadyQueue, process_ready, set_state, enqueue_ready, dequeue_ready, context_switch,
  dispatch, preempt, schedule, idle,
}
use da_bus.Scheduler.Queue.{update_self, update_ne}

-- `preempt` up to its call of `schedule`.
unfoldable pub preempt_begin : ℕ → Os → Option Os
preempt_begin cpu os = elim (os.current cpu) [
  | none ↦ none
  | some p ↦ enqueue_ready p (set_state p process_ready os)
]

-- The two CPUs have the process, in the scheduler and in the simulator.
pub record Shares (c d p : ℕ) (os : Os) : Type 0 where
  pub first : os.current c ≡ some p
  pub second : os.current d ≡ some p
  pub first_simulated : (os.cpu_data c).current ≡ some p
  pub second_simulated : (os.cpu_data d).current ≡ some p

module _ (c d p : ℕ) (os : Os) (ne : c ≢ d) (at : os.current c ≡ some p)
    (agrees : (os.cpu_data c).current ≡ some p) (empty : os.queue.count ≡ 0) where
  -- Behind `preempt_begin`.
  queued : Os
  queued = record (set_state p process_ready os) {
    queue = record { head = some p; tail = some p; count = os.queue.count + 1 };
  }

  begins : preempt_begin c os ≡ some queued
  unfolding preempt_begin enqueue_ready set_state queued
  begins =
      let e : (os.queue.count == 0) ≡ true = ground (arith, empty) in
      rw (preempt_begin, at, enqueue_ready, e) refl

  -- When a CPU preempts its process while the ready queue is empty, and before its `schedule` another
  -- CPU runs `idle`, both CPUs have the process.
  pub preempt-Shares :
      (o : Os) × (u : Os) × (preempt_begin c os ≡ some o)
      × (preempt c os ≡ schedule c o)
      × (idle d o ≡ some u)
      × Shares c d p u
  unfolding preempt preempt_begin queued begins set_state idle schedule dequeue_ready dispatch
      context_switch
  preempt-Shares =
      let zero_now : (os.queue.count + 1 == 0) ≡ false = ground (arith, empty) in
      let one_now : (os.queue.count + 1 == 1) ≡ true = ground (arith, empty) in
      let half : enqueue_ready p (set_state p process_ready os) ≡ some queued =
        rw (preempt_begin, at) at begins in
      let d_data : CpuData = record (os.cpu_data d) {
        current = some p;
        preemption_timer = os.time_slice;
      } in
      let q : ReadyQueue = record { head = none; tail = none; count = os.queue.count + 1 - 1 } in
      (
        queued,
        dispatch d (some p, record queued { queue = q }),
        begins,
        rw (preempt, at, half) refl,
        rw (idle, schedule, dequeue_ready, zero_now, one_now) refl,
        record {
          first = update_ne os.current d c (some p) ne ∙ at;
          second = update_self os.current d (some p);
          first_simulated =
              ap (λ (x : CpuData). x.current) (update_ne os.cpu_data d c d_data ne) ∙ agrees;
          second_simulated = ap (λ (x : CpuData). x.current) (update_self os.cpu_data d d_data);
        },
      )
