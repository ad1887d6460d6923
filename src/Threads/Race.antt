-- ===== src/Threads/Race.antt =====
-- A CPU thread of project-6/prj6/os-sim.c that is late: it comes to the head of its loop only when
-- the supervisor has already simulated the process that `schedule` has put on its CPU.
use da_bus.Base.{
  ℕ, ◌≡◌, refl, ap, ◌∙◌, Option, some, List, [], ◌∷◌, ◌++◌, arith, true, ltb, ◌==◌, ◌<◌, lt→ltb,
}
use da_bus.Scheduler.{CpuData, cpu_running, cpu_yield, cpu_thread_select, selected_state, update}
use da_bus.Scheduler.Queue.{update_self}
use da_bus.Simulator.{Op, yields, simulate_process, next_operation, submit_io_request}
use da_bus.Simulator.Processes.{cpu, io}
use da_bus.Simulator.Requests.{waiting_for}
use da_bus.Threads.{
  Sim, simulating, awaiting, signalled, looping, waiting, supervise, supervise_at, simulate_cpus,
  simulate_cpu, dispatch_event, interrupt, advance, cpu_thread, cpu_thread_at, notify, selected,
}
use da_bus.Threads.Ticks.{timed, waiting_for-append}

-- The supervisor goes on, the CPU runs `p`, which asks for input or output, and the thread waits for
-- a state other than CPU_RUNNING; nothing has called `yield`.
abbrev pub Lost : ℕ → ℕ → Sim → Sim → Type 0
Lost n p s u =
    (u.supervisor ≡ signalled n)
    × (u.threads n ≡ waiting)
    × ((u.os.cpu_data n).state ≡ cpu_running)
    × (u.os.current ≡ s.os.current)
    × (u.os.pcbs ≡ s.os.pcbs)
    × (waiting_for u.io_queue ≡ waiting_for s.io_queue ++ p ∷ [])

burst_ends :
    (time timer : ℕ) (ops : List Op)
    → simulate_process (cpu 0 ∷ io time ∷ ops) timer ≡ some (yields time, io time ∷ ops, timer)
unfolding simulate_process next_operation
burst_ends time timer ops = refl

notify_self : (n : ℕ) → notify n (awaiting n) ≡ signalled n
unfolding notify
notify_self n = let e : (n == n) ≡ true = ground arith in rw (notify, e) refl

waits : (r : Option ℕ) (p : ℕ) → r ≡ some p → selected r ≡ waiting
unfolding selected
waits r p e = rw e refl

runs : (r : Option ℕ) (p : ℕ) → r ≡ some p → selected_state r ≡ cpu_running
unfolding selected_state
runs r p e = rw e refl

simulates :
    (s : Sim) (n p time : ℕ) (ops : List Op)
    → s.supervisor ≡ simulating n
    → ltb n s.os.cpu_count ≡ true
    → (s.os.cpu_data n).current ≡ some p
    → s.ops p ≡ cpu 0 ∷ io time ∷ ops
    → supervise s
      ≡ some (
          dispatch_event n p
            (yields time)
            (advance n p (io time ∷ ops) (s.os.cpu_data n).preemption_timer s))
unfolding supervise supervise_at simulate_cpus simulate_cpu
simulates s n p time ops pos low at burst =
    ap (λ q. supervise_at q s) pos
    ∙ rw
        (
          simulate_cpus,
          low,
          simulate_cpu,
          at,
          burst,
          burst_ends time (s.os.cpu_data n).preemption_timer ops,
        )
        refl

-- When the supervisor simulates a CPU whose thread is still at the head of its loop, and the CPU
-- burst of the process there is over and an I/O operation follows, the yield is lost: the thread
-- sets CPU_RUNNING over CPU_YIELD, the supervisor goes on, and the request of the process is in the
-- queue while the process keeps its state and its CPU.
pub supervise-Lost :
    (s : Sim) (n p time : ℕ) (ops : List Op)
    → s.supervisor ≡ simulating n
    → n < s.os.cpu_count
    → (s.os.cpu_data n).current ≡ some p
    → s.threads n ≡ looping
    → s.ops p ≡ cpu 0 ∷ io time ∷ ops
    → (t : Sim) × (u : Sim) × (supervise s ≡ some t) × (cpu_thread n t ≡ some u) × Lost n p s u
unfolding dispatch_event interrupt advance cpu_thread cpu_thread_at cpu_thread_select
    submit_io_request
supervise-Lost s n p time ops pos low at head burst =
    let timer = (s.os.cpu_data n).preemption_timer in
    let t = dispatch_event n p (yields time) (advance n p (io time ∷ ops) timer s) in
    let d = t.os.cpu_data in
    let u : Sim = record t {
      os = cpu_thread_select n t.os;
      supervisor = notify n t.supervisor;
      threads = update t.threads n (selected (d n).current);
    } in
    let is_low : ltb n s.os.cpu_count ≡ true = lt→ltb n s.os.cpu_count low in
    let x : CpuData = record (timed n timer s.os.cpu_data n) { state = cpu_yield } in
    let same : (d n).current ≡ some p =
      ap (λ (y : CpuData). y.current)
        (update_self (timed n timer s.os.cpu_data) n x
          ∙ ap (λ (y : CpuData). record y { state = cpu_yield })
              (update_self s.os.cpu_data n (record (s.os.cpu_data n) { preemption_timer = timer })))
      ∙ at in
    (
      t,
      u,
      simulates s n p time ops pos is_low at burst,
      rw (cpu_thread, head) refl,
      (
        notify_self n,
        update_self s.threads n (selected (d n).current) ∙ waits (d n).current p same,
        ap (λ (y : CpuData). y.state)
              (update_self d n (record (d n) { state = selected_state (d n).current }))
            ∙ runs (d n).current p same,
        refl,
        refl,
        waiting_for-append s.io_queue (record { pcb = p; execution_time = time }),
      ),
    )
