-- ===== src/Threads/Delivery.antt =====
-- The steps of `simulator_supervisor_thread` of project-6/prj6/os-sim.c, and what it waits for.
use da_bus.Base.{
  ℕ, ◌%◌, ◌≡◌, refl, sym, ap, ◌∙◌, Option, none, some, List, inl, inr, arith, ◌==◌, ◌&&◌, ltb,
  Bool-cases,
}
use da_bus.Scheduler.{CpuData, cpu_running, wake_up_waits}
use da_bus.Scheduler.Woken.{Nudged, wake_up-Woke, wake_up_waits-Hits}
use da_bus.Simulator.{IoRequest, simulate_io}
use da_bus.Threads.{
  Sim, Supervisor, rounding, simulating, awaiting, signalled, doing_io, waking, forcing, woken,
  creating, exited, Caller, by_io, by_creat, CpuThread, Prompt, supervise_at, supervisor_round,
  simulate_cpus, complete_io, call_wake_up, after_wake_up, return_to, end_round, simulate_creat,
  process_count,
}
use da_bus.Threads.Invariant.{IsSim}
use da_bus.Threads.Signals.{
  Coming, Awaits, IsSignalled, Signals, waking_stopped, simulate_cpu-Signals,
}

-- The supervisor goes to a place where it does not wait.
moved :
    (s t : Sim)
    → IsSignalled s
    → t.threads ≡ s.threads
    → t.os.cpu_data ≡ s.os.cpu_data
    → Awaits t.supervisor t
    → IsSignalled t
moved s t w threads data_ h = record {
  running = λ c e.
      ap (λ (f : ℕ → CpuThread). f c) threads
      ∙ w.running c (ap (λ (f : ℕ → CpuData). (f c).state) (sym data_) ∙ e);
  awaited = h;
}

simulate_cpus-Signals :
    (s : Sim) (n : ℕ) → IsSignalled s → Prompt (simulating n) s → Signals (simulate_cpus n s)
unfolding simulate_cpus
simulate_cpus-Signals s n w prompt = elim (Bool-cases (ltb n s.os.cpu_count)) [
  | inl e ↦ rw (simulate_cpus, e) (simulate_cpu-Signals s w n prompt)
  | inr e ↦ rw (simulate_cpus, e) (moved s (record s { supervisor = doing_io }) w refl refl tt)
]

complete_io-Signals :
    (s : Sim) (r : Option ℕ × List IoRequest) → IsSignalled s → IsSignalled (complete_io r s)
unfolding complete_io
complete_io-Signals s (none, io) w = record { running = w.running; awaited = tt }
complete_io-Signals s (some p, io) w = record { running = w.running; awaited = tt }

Awaits-after_wake_up :
    (caller : Caller) (r : Option ℕ) (t : Sim)
    → ((k : ℕ) → r ≡ some k → Coming (t.threads k) (t.os.cpu_data k).state)
    → Awaits (after_wake_up caller r) t
unfolding after_wake_up
Awaits-after_wake_up caller none t h = tt
Awaits-after_wake_up caller (some k) t h = h k refl

Nudged-running : (d d' : CpuData) → Nudged d d' → d'.state ≡ cpu_running → d.state ≡ cpu_running
Nudged-running d d' (_, inl e) h = sym e ∙ h
Nudged-running d d' (_, inr (e, f)) h = e

call_wake_up-Signals :
    (s : Sim) (caller : Caller) (p : ℕ)
    → IsSim s
    → IsSignalled s
    → s.supervisor ≡ waking caller p
    → Signals (call_wake_up caller p s)
unfolding call_wake_up
call_wake_up-Signals s caller p v w pos =
    let (out, stopped) = waking_stopped s caller p v pos in
    let (os, e, u, k) = wake_up-Woke s.os v.queued p v.os out stopped in
    let r = wake_up_waits p s.os in
    let t : Sim = record s { os = os; supervisor = after_wake_up caller r } in
    let signals : IsSignalled t = record {
      running =
          λ c h. w.running c (Nudged-running (s.os.cpu_data c) (os.cpu_data c) (k.nudged c) h);
      awaited = Awaits-after_wake_up caller r t (λ i f.
          let (before, after) = wake_up_waits-Hits s.os v.queued p i os v.os out e f in
          rw (w.running i before) (λ g. ground (arith, sym after ∙ g)));
    } in
    rw (call_wake_up, e) signals

simulate_creat-Signals : (s : Sim) → IsSignalled s → IsSignalled (simulate_creat s)
unfolding simulate_creat end_round
simulate_creat-Signals s w =
    elim (Bool-cases ((s.simulator_time % 10 == 0) && ltb s.processes_created process_count)) [
      | inl e ↦ rw (simulate_creat, e) (record { running = w.running; awaited = tt })
      | inr e ↦ rw (simulate_creat, e) (record { running = w.running; awaited = tt })
    ]

supervisor_round-Signals : (s : Sim) → IsSignalled s → IsSignalled (supervisor_round s)
unfolding supervisor_round
supervisor_round-Signals s w = elim (Bool-cases (ltb s.os.processes_terminated process_count)) [
  | inl e ↦ rw (supervisor_round, e) (record { running = w.running; awaited = tt })
  | inr e ↦ rw (supervisor_round, e) (record { running = w.running; awaited = tt })
]

return_to-Signals : (s : Sim) (caller : Caller) → IsSignalled s → IsSignalled (return_to caller s)
unfolding return_to end_round
return_to-Signals s by_io w = record { running = w.running; awaited = tt }
return_to-Signals s by_creat w = record { running = w.running; awaited = tt }

pub supervise_at-Signals :
    (q : Supervisor) (s : Sim)
    → IsSim s
    → IsSignalled s
    → s.supervisor ≡ q
    → Prompt q s
    → Signals (supervise_at q s)
unfolding supervise_at
supervise_at-Signals rounding s v w pos h = supervisor_round-Signals s w
supervise_at-Signals (simulating n) s v w pos h = simulate_cpus-Signals s n w h
supervise_at-Signals (awaiting n) s v w pos h = w
supervise_at-Signals (signalled n) s v w pos h = record { running = w.running; awaited = tt }
supervise_at-Signals doing_io s v w pos h = complete_io-Signals s (simulate_io s.io_queue) w
supervise_at-Signals (waking caller p) s v w pos h = call_wake_up-Signals s caller p v w pos
supervise_at-Signals (forcing caller c) s v w pos h = w
supervise_at-Signals (woken caller) s v w pos h = return_to-Signals s caller w
supervise_at-Signals creating s v w pos h = simulate_creat-Signals s w
supervise_at-Signals exited s v w pos h = w
