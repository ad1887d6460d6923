-- ===== src/Threads/Signals.antt =====
-- The signals between the supervisor and the CPU threads of project-6/prj6/os-sim.c: none is lost.
use mathlib.Core.Path.{subst}
use da_bus.Base.{
  ℕ, ◌+◌, ◌≡◌, ◌≢◌, refl, sym, ap, ◌∙◌, Option, none, some, List, inl, inr, arith, Option-cases,
}
use da_bus.Scheduler.{
  process_ready, process_running, CpuData, CpuState, cpu_idle, cpu_running, cpu_preempt, cpu_yield,
  cpu_terminate,
}
use da_bus.Scheduler.Queue.{update_ne, update_self}
use da_bus.Scheduler.Handlers.{update_all}
use da_bus.Simulator.{
  Op, IoRequest, Event, runs, preempts, yields, terminates, scheduled_blocked, scheduled_terminated,
  simulate_process,
}
use da_bus.Threads.{
  Sim, Supervisor, simulating, awaiting, waking, forcing, Caller, by_io, by_creat, CpuThread,
  looping, waiting, calling, Prompt, simulate_cpu, dispatch_event, interrupt, advance,
}
use da_bus.Threads.Invariant.{IsSim, Waking, uncounted}
use da_bus.Threads.Ticks.{timed}

-- A thread that the supervisor waits for is on its way to the head of its loop.
abbrev pub Coming : CpuThread → CpuState → Type 0
Coming looping st = Unit
Coming waiting st = st ≢ cpu_running
Coming (calling st') st = st' ≢ cpu_idle

abbrev pub Awaits : Supervisor → Sim → Type 0
Awaits (awaiting n) s = Coming (s.threads n) (s.os.cpu_data n).state
Awaits (forcing caller n) s = Coming (s.threads n) (s.os.cpu_data n).state
Awaits q s = Unit

-- The thread of a CPU that is CPU_RUNNING is in its wait, and a thread that the supervisor waits for
-- comes.
pub record IsSignalled (s : Sim) : Type 0 where
  pub running : (c : ℕ) → (s.os.cpu_data c).state ≡ cpu_running → s.threads c ≡ waiting
  pub awaited : Awaits s.supervisor s

abbrev pub Signals : Option Sim → Type 0
Signals none = Unit
Signals (some t) = IsSignalled t

-- The process that is to be woken up is neither READY nor RUNNING.
pub waking_stopped :
    (s : Sim) (caller : Caller) (p : ℕ)
    → IsSim s
    → s.supervisor ≡ waking caller p
    → ((s.os.pcbs p).state ≢ process_ready) × ((s.os.pcbs p).state ≢ process_running)
waking_stopped s by_io p v pos =
    let w : Waking (waking by_io p) s = subst (λ q. Waking q s) pos v.woken in
    ((λ e. ground (arith, sym w.0 ∙ e)), (λ e. ground (arith, sym w.0 ∙ e)))
waking_stopped s by_creat p v pos =
    let w : Waking (waking by_creat p) s = subst (λ q. Waking q s) pos v.woken in
    let now : uncounted s.supervisor ≡ 0 = rw pos refl in
    let new = v.fresh p (omega (arith, now, w.0)) in
    ((λ e. ground (arith, sym new ∙ e)), (λ e. ground (arith, sym new ∙ e)))

module _ (s : Sim) (w : IsSignalled s) where
  -- A tick of CPU `n` whose state stays.
  ticks_on :
      (q : Supervisor) (n p timer : ℕ) (ops : List Op)
      → ((t : Sim) → Awaits q t)
      → IsSignalled (record (advance n p ops timer s) { supervisor = q })
  unfolding advance
  ticks_on q n p timer ops h = record {
    running =
        update_all (λ c d. d.state ≡ cpu_running → s.threads c ≡ waiting) s.os.cpu_data n
          (record (s.os.cpu_data n) { preemption_timer = timer }) (w.running n)
          (λ c ne. w.running c);
    awaited = h (record (advance n p ops timer s) { supervisor = q });
  }

  -- A CPU whose thread is in its wait is told to leave it.
  tells :
      (n p timer : ℕ) (ops : List Op) (io : List IoRequest) (st : CpuState)
      → s.threads n ≡ waiting
      → st ≢ cpu_running
      → IsSignalled (interrupt n st (record (advance n p ops timer s) { io_queue = io }))
  unfolding advance interrupt
  tells n p timer ops io st stands ne =
      let f = timed n timer s.os.cpu_data in
      let x : CpuData = record (f n) { state = st } in
      record {
        running =
            update_all (λ c d. d.state ≡ cpu_running → s.threads c ≡ waiting) f n x
              (λ e. absurd (ne e))
              (λ c other e. w.running c (
                ap (λ (d : CpuData). d.state)
                  (sym (
                    update_ne s.os.cpu_data n c
                      (record (s.os.cpu_data n) { preemption_timer = timer }) other))
                ∙ e));
        awaited = rw (stands, update_self f n x) ne;
      }

  dispatch_event-Signals :
      (n p : ℕ) (e : Event) (ops : List Op) (timer : ℕ)
      → s.threads n ≡ waiting
      → IsSignalled (dispatch_event n p e (advance n p ops timer s))
  unfolding dispatch_event advance
  dispatch_event-Signals n p runs ops timer at =
      ticks_on (simulating (n + 1)) n p timer ops (λ t. tt)
  dispatch_event-Signals n p preempts ops timer at =
      tells n p timer ops s.io_queue cpu_preempt at (λ e. ground (arith, e))
  dispatch_event-Signals n p (yields time) ops timer at =
      tells n p timer ops _ cpu_yield at (λ e. ground (arith, e))
  dispatch_event-Signals n p terminates ops timer at =
      tells n p timer ops s.io_queue cpu_terminate at (λ e. ground (arith, e))
  dispatch_event-Signals n p scheduled_blocked ops timer at =
      ticks_on (simulating (n + 1)) n p timer ops (λ t. tt)
  dispatch_event-Signals n p scheduled_terminated ops timer at =
      ticks_on (simulating (n + 1)) n p timer ops (λ t. tt)

  pub simulate_cpu-Signals : (n : ℕ) → Prompt (simulating n) s → Signals (simulate_cpu n s)
  unfolding simulate_cpu
  simulate_cpu-Signals n prompt = elim (Option-cases (s.os.cpu_data n).current) [
    | inl e ↦ rw (simulate_cpu, e) (record { running = w.running; awaited = tt })
    | inr (p, e) ↦
        let timer = (s.os.cpu_data n).preemption_timer in
        elim (Option-cases (simulate_process (s.ops p) timer)) [
          | inl f ↦ rw (simulate_cpu, e, f) tt
          | inr ((ev, ops, t), f) ↦
              let stands = prompt p e in
              rw (simulate_cpu, e, f) (dispatch_event-Signals n p ev ops t stands)
        ]
  ]
