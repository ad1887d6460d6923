-- ===== src/Threads/Tests.antt =====
-- Runs of the threads from `start_simulator` on, and the theorems at states of such runs.
use mathlib.Core.Path.{subst}
use da_bus.Base.{
  ℕ, zero, suc, sym, ◌∙◌, ltb, ◌≡◌, refl, Option, none, some, List, [], ◌∷◌, arith, Bool, true,
  false, ◌≤◌, inl, inr,
}
use da_bus.Scheduler.{
  Os, CpuData, ReadyQueue, ProcessState, process_running, CpuState, cpu_idle, cpu_running, update,
  set_state, enqueue_ready, dequeue_ready, context_switch, force_preempt, dispatch, schedule, idle,
  preempt, yield, terminate, find_lowest, preempt_lowest, wake_up, forces, if_running,
  wake_up_waits, selected_state, cpu_thread_select, call_handler,
}
use da_bus.Simulator.Bursts.{Works}
use da_bus.Simulator.{Op, Event, simulate_process, next_operation, submit_io_request, simulate_io}
use da_bus.Simulator.Processes.{cpu, io}
use da_bus.Simulator.Requests.{waiting_for}
use da_bus.Threads.{
  Sim, Supervisor, rounding, simulating, awaiting, signalled, doing_io, waking, creating, exited,
  unlocked, forcing, woken, CpuThread, waiting, count_state, print_gantt_line, supervisor_round,
  interrupt, dispatch_event, advance, simulate_cpu, simulate_cpus, complete_io, end_round,
  simulate_creat, after_wake_up, call_wake_up, return_to, supervise_at, supervise, notify, selected,
  leave_wait, after_call, cpu_thread_at, cpu_thread, Prompt, by_supervisor, by_cpu, SerialReach,
  start, later,
}
use da_bus.Threads.Start.{started, start_simulator, initial_pcbs, process_at}
use da_bus.Threads.Initial.{start_simulator-IsSim, start_simulator_refuses}
use da_bus.Threads.Invariant.{IsSim}
use da_bus.Threads.Safety.{Consistent, SerialReach-Consistent, SerialReach-steps}
use da_bus.Threads.Liveness.{turns, started-IsSignalled, GoesOn, SerialReach-GoesOn}
use da_bus.Threads.Messages.{started-IsBursting, SerialReach-Works}
use da_bus.Threads.Overlap.{preempt_begin, Shares, preempt-Shares}
use da_bus.Threads.Race.{Lost, supervise-Lost}

program : Unit {0}
unfolding update set_state enqueue_ready dequeue_ready context_switch force_preempt dispatch
    schedule idle preempt yield terminate find_lowest preempt_lowest wake_up forces if_running
    wake_up_waits selected_state cpu_thread_select call_handler simulate_process next_operation
    submit_io_request simulate_io count_state print_gantt_line supervisor_round interrupt
    dispatch_event advance simulate_cpu simulate_cpus complete_io end_round simulate_creat
    after_wake_up call_wake_up return_to supervise_at supervise notify selected leave_wait
    after_call cpu_thread_at cpu_thread started start_simulator initial_pcbs process_at
program = tt

abbrev no_processes : ℕ → Option ℕ
no_processes c = none

abbrev empty_queue : ReadyQueue
empty_queue = record { head = none; tail = none; count = 0 }

-- One CPU, first in, first out.
abbrev begun : Sim
begun = started 1 false 4294967295 no_processes empty_queue

-- `none` is a step of the supervisor, `some c` one of the thread of CPU `c`.
play : List (Option ℕ) → Sim → Option Sim
play [] s = some s
play (none ∷ actors) s = elim (supervise s) [ none ↦ none | some t ↦ play actors t ]
play (some c ∷ actors) s = elim (cpu_thread c s) [ none ↦ none | some t ↦ play actors t ]

record Seen : Type 0 where
  supervisor : Supervisor
  thread : CpuThread
  cpu : CpuState
  process : ProcessState
  queue : List ℕ

seen : Option Sim → Option Seen
seen none = none
seen (some s) = some (record {
  supervisor = s.supervisor;
  thread = s.threads 0;
  cpu = (s.os.cpu_data 0).state;
  process = (s.os.pcbs 0).state;
  queue = waiting_for s.io_queue;
})

-- The first round creates process 0, the thread of CPU 0 takes it from `idle`, and comes to the head
-- of its loop only when the supervisor has simulated the whole burst: the yield is lost.
play-late :
    seen (
      play
        (none
          ∷ none
          ∷ none
          ∷ none
          ∷ none
          ∷ none
          ∷ none
          ∷ some 0
          ∷ some 0
          ∷ none
          ∷ none
          ∷ none
          ∷ none
          ∷ none
          ∷ none
          ∷ none
          ∷ none
          ∷ none
          ∷ none
          ∷ none
          ∷ none
          ∷ some 0
          ∷ [])
        begun)
    ≡ some (record {
      supervisor = signalled 0;
      thread = waiting;
      cpu = cpu_running;
      process = process_running;
      queue = 0 ∷ [];
    })
unfolding program play seen
play-late = refl

start_simulator-seventeen : start_simulator 17 false 4294967295 no_processes empty_queue ≡ none
start_simulator-seventeen =
    start_simulator_refuses 17 false 4294967295 no_processes empty_queue (inr (omega arith))

begun-IsSim : IsSim begun
begun-IsSim =
    (start_simulator-IsSim 1 false 4294967295 no_processes empty_queue (λ c. refl) refl
      (omega arith) (omega arith)).1

-- A state with the prompt steps that reach it.
record Run : Type 0 where
  last : Sim
  reach : SerialReach begun last

prompt : (q : Supervisor) (s : Sim) → Option (Prompt q s)
prompt (simulating n) s = go (s.os.cpu_data n).current (s.threads n) refl refl
  where
    go :
        (o : Option ℕ) (h : CpuThread)
        → (s.os.cpu_data n).current ≡ o
        → s.threads n ≡ h
        → Option (Prompt (simulating n) s)
    go none h f e = some (λ p g. absurd (ground (arith, sym f ∙ g)))
    go (some p) waiting f e = some (λ p f. e)
    go o h f e = none
prompt rounding s = some tt
prompt (awaiting n) s = some tt
prompt (signalled n) s = some tt
prompt doing_io s = some tt
prompt (waking caller p) s = some tt
prompt (forcing caller c) s = some tt
prompt (woken caller) s = some tt
prompt creating s = some tt
prompt exited s = some tt

supervised : (r : Run) → Prompt r.last.supervisor r.last → Run
supervised r h = go (supervise r.last) refl
  where
    go : (o : Option Sim) → supervise r.last ≡ o → Run
    go none e = r
    go (some t) e = record { last = t; reach = later r.reach (by_supervisor h e) }

threaded : (r : Run) (c : ℕ) → Run
threaded r c =
    go (cpu_thread c r.last) (ltb c r.last.os.cpu_count) (unlocked r.last.supervisor) refl refl refl
  where
    go :
        (o : Option Sim) (low free : Bool)
        → cpu_thread c r.last ≡ o
        → ltb c r.last.os.cpu_count ≡ low
        → unlocked r.last.supervisor ≡ free
        → Run
    go (some t) true true e l f = record { last = t; reach = later r.reach (by_cpu c l f e) }
    go o low free e l f = r

turn : Run → Option ℕ → Run
turn r none = elim (prompt r.last.supervisor r.last) [ none ↦ r | some h ↦ supervised r h ]
turn r (some c) = threaded r c

run : List (Option ℕ) → Run → Run
run [] r = r
run (a ∷ actors) r = run actors (turn r a)

abbrev simulation : List (Option ℕ)
simulation =
    none
    ∷ none
    ∷ none
    ∷ none
    ∷ none
    ∷ none
    ∷ none
    ∷ some 0
    ∷ some 0
    ∷ some 0
    ∷ none
    ∷ none
    ∷ none
    ∷ none
    ∷ none
    ∷ none
    ∷ none
    ∷ none
    ∷ none
    ∷ none
    ∷ none
    ∷ none
    ∷ []

-- Process 0 has run its first burst of two ticks.
yields_at : Run
yields_at = run simulation (record { last = begun; reach = start })

yields_at_lem :
    (yields_at.last.supervisor ≡ awaiting 0)
    × (yields_at.last.simulator_time ≡ 3)
    × (waiting_for yields_at.last.io_queue ≡ 0 ∷ [])
unfolding program yields_at run turn threaded supervised prompt unlocked
yields_at_lem = (refl, refl, refl)

SerialReach-Consistent_example : Consistent yields_at.last
SerialReach-Consistent_example = SerialReach-Consistent begun-IsSim yields_at.reach

SerialReach-steps_example :
    ((u : Sim) × (supervise yields_at.last ≡ some u))
    × ((c : ℕ) → (u : Sim) × (cpu_thread c yields_at.last ≡ some u))
SerialReach-steps_example =
    SerialReach-steps begun-IsSim yields_at.reach
      (subst (λ q. Prompt q yields_at.last) (sym yields_at_lem.0) tt)

SerialReach-GoesOn_example :
    (j : ℕ) × (u : Sim) × (j ≤ 3)
    × (turns j 0 yields_at.last ≡ some u)
    × GoesOn 0 yields_at.last.supervisor u.supervisor
SerialReach-GoesOn_example =
    SerialReach-GoesOn begun-IsSim (started-IsSignalled 1 false 4294967295 no_processes empty_queue)
      yields_at.reach 0 (inl yields_at_lem.0)

-- The second round, before the first tick of process 0.
runs_at : Run
runs_at =
    run (none ∷ none ∷ none ∷ none ∷ none ∷ none ∷ none ∷ some 0 ∷ some 0 ∷ some 0 ∷ none ∷ [])
      (record { last = begun; reach = start })

runs_at_lem :
    (runs_at.last.supervisor ≡ simulating 0)
    × ((runs_at.last.os.cpu_data 0).current ≡ some 0)
    × (runs_at.last.threads 0 ≡ waiting)
unfolding program runs_at run turn threaded supervised prompt unlocked
runs_at_lem = (refl, refl, refl)

SerialReach-Works_example :
    (e : Event) × (ops : List Op) × (timer : ℕ) × (simulate_process
        (runs_at.last.ops 0)
        (runs_at.last.os.cpu_data 0).preemption_timer
      ≡ some (e, ops, timer))
    × Works e ops
SerialReach-Works_example =
    SerialReach-Works begun-IsSim
      (started-IsBursting 1 false 4294967295 no_processes empty_queue (λ c. refl)) runs_at.reach 0 0
      runs_at_lem.0 runs_at_lem.1 (λ p h. runs_at_lem.2)

-- A thread that is late.
abbrev late : Sim
late = record begun {
  os = record begun.os {
    cpu_data = λ c. record { current = some 0; state = cpu_idle; preemption_timer = 4 };
  };
  ops = λ p. cpu 0 ∷ io 5 ∷ cpu 1 ∷ [];
  supervisor = simulating 0;
}

supervise-Lost_example :
    (t : Sim) × (u : Sim) × (supervise late ≡ some t) × (cpu_thread 0 t ≡ some u) × Lost 0 0 late u
unfolding program
supervise-Lost_example = supervise-Lost late 0 0 5 (cpu 1 ∷ []) refl (omega arith) refl refl refl

-- CPU 0 has process 0, CPU 1 none.
abbrev one_current : ℕ → Option ℕ
one_current zero = some 0
one_current (suc c) = none

abbrev one_simulated : ℕ → CpuData
one_simulated c = record (begun.os.cpu_data c) { current = one_current c }

abbrev lone : Os
lone = record begun.os { cpu_count = 2; current = one_current; cpu_data = one_simulated }

preempt-Shares_example :
    (o : Os) × (u : Os) × (preempt_begin 0 lone ≡ some o)
    × (preempt 0 lone ≡ schedule 0 o)
    × (idle 1 o ≡ some u)
    × Shares 0 1 0 u
unfolding started
preempt-Shares_example = preempt-Shares 0 1 0 lone (λ e. ground (arith, e)) refl refl refl
