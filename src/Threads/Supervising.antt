-- ===== src/Threads/Supervising.antt =====
-- The steps of `simulator_supervisor_thread` of project-6/prj6/os-sim.c on the invariant.
use da_bus.Base.{
  ℕ, ◌+◌, ◌%◌, ◌^◌, ◌≡◌, refl, sym, ◌∙◌, some, List, inl, inr, arith, ltb, ◌==◌, ◌&&◌, Bool-cases,
  Option-cases, ltb→lt,
}
use da_bus.Scheduler.{cpu_preempt, cpu_terminate}
use da_bus.Simulator.{
  Op, Event, runs, preempts, yields, terminates, scheduled_blocked, scheduled_terminated,
  simulate_io,
}
use da_bus.Simulator.Programs.{Ticked, simulate_process-Ticks, simulate_io-Serves}
use da_bus.Threads.{
  Sim, Supervisor, rounding, simulating, awaiting, signalled, doing_io, waking, forcing, woken,
  creating, exited, Caller, by_io, by_creat, waiting, Prompt, supervise, supervise_at,
  supervisor_round, simulate_cpus, simulate_cpu, dispatch_event, interrupt, advance, complete_io,
  return_to, end_round, simulate_creat, print_gantt_line, process_count,
}
use da_bus.Threads.Invariant.{uncounted, IsSim, Quiet, relocate, Keeps, goes_to}
use da_bus.Threads.Waking.{complete_io-IsSim, call_wake_up-Keeps}
use da_bus.Threads.Ticks.{after, goes_on, interrupted, submitted, told_to, running_in}

module _ (s : Sim) (v : IsSim s) (n p : ℕ) (pos : s.supervisor ≡ simulating n)
    (at : s.os.current n ≡ some p) (stands : s.threads n ≡ waiting) where
  dispatch_event-IsSim :
      (e : Event) (ops : List Op) (timer : ℕ)
      → Ticked e ops
      → IsSim (dispatch_event n p e (advance n p ops timer s))
  unfolding dispatch_event interrupt advance after told_to
  dispatch_event-IsSim runs ops timer h = goes_on s v n p pos at stands ops timer h
  dispatch_event-IsSim preempts ops timer h =
      interrupted s v n p pos at stands cpu_preempt ops timer (λ e. ground (arith, e)) h
  dispatch_event-IsSim (yields time) ops timer (h, b) =
      submitted s v n p pos at stands time ops timer h b
  dispatch_event-IsSim terminates ops timer h =
      interrupted s v n p pos at stands cpu_terminate ops timer (λ e. ground (arith, e)) h
  dispatch_event-IsSim scheduled_blocked ops timer h = goes_on s v n p pos at stands ops timer h
  dispatch_event-IsSim scheduled_terminated ops timer h = goes_on s v n p pos at stands ops timer h

simulate_cpu-Keeps :
    (s : Sim) (n : ℕ)
    → IsSim s
    → s.supervisor ≡ simulating n
    → Prompt (simulating n) s
    → Keeps (simulate_cpu n s)
unfolding simulate_cpu
simulate_cpu-Keeps s n v pos prompt = elim (Option-cases (s.os.cpu_data n).current) [
  | inl e ↦ (
    record s { supervisor = simulating (n + 1) },
    rw (simulate_cpu, e) refl,
    goes_to s (simulating (n + 1)) v (λ c f. ground (arith, sym pos ∙ f)) (rw pos refl) tt,
  )
  | inr (p, e) ↦
      let at = sym (v.agree n) ∙ e in
      let stands = prompt p e in
      let fits = running_in s v (λ c f. ground (arith, sym pos ∙ f)) n p at stands in
      let timer = (s.os.cpu_data n).preemption_timer in
      let (ev, ops, t, f, h) = simulate_process-Ticks (s.ops p) timer (v.programs p fits) in
      (
        dispatch_event n p ev (advance n p ops t s),
        rw (simulate_cpu, e, f) refl,
        dispatch_event-IsSim s v n p pos at stands ev ops t h,
      )
]

simulate_cpus-Keeps :
    (s : Sim) (n : ℕ)
    → IsSim s
    → s.supervisor ≡ simulating n
    → Prompt (simulating n) s
    → Keeps (simulate_cpus n s)
unfolding simulate_cpus
simulate_cpus-Keeps s n v pos prompt = elim (Bool-cases (ltb n s.os.cpu_count)) [
  | inl e ↦ rw (simulate_cpus, e) (simulate_cpu-Keeps s n v pos prompt)
  | inr e ↦ (
    record s { supervisor = doing_io },
    rw (simulate_cpus, e) refl,
    goes_to s doing_io v (λ c f. ground (arith, sym pos ∙ f)) (rw pos refl) tt,
  )
]

simulate_creat-IsSim : (s : Sim) → IsSim s → s.supervisor ≡ creating → IsSim (simulate_creat s)
unfolding simulate_creat end_round
simulate_creat-IsSim s v pos =
    let calm_ : Quiet s.supervisor = λ c f. ground (arith, sym pos ∙ f) in
    elim (Bool-cases ((s.simulator_time % 10 == 0) && ltb s.processes_created process_count)) [
      | inl e ↦
          rw (simulate_creat, e)
            (goes_to s (waking by_creat s.processes_created) v calm_ (rw pos refl)
              (refl, ltb→lt s.processes_created process_count (ground (arith, e))))
      | inr e ↦
          rw (simulate_creat, e)
            (relocate s rounding s.processes_created ((s.simulator_time + 1) % 2 ^ 32) s.counters
              s.io_queue v calm_ (rw pos refl) refl tt)
    ]

supervisor_round-IsSim : (s : Sim) → IsSim s → s.supervisor ≡ rounding → IsSim (supervisor_round s)
unfolding supervisor_round
supervisor_round-IsSim s v pos =
    let calm_ : Quiet s.supervisor = λ c f. ground (arith, sym pos ∙ f) in
    elim (Bool-cases (ltb s.os.processes_terminated process_count)) [
      | inl e ↦
          rw (supervisor_round, e)
            (relocate s (simulating 0) s.processes_created s.simulator_time
              (print_gantt_line s.os.pcbs process_count 0 s.counters) s.io_queue v calm_
              (rw pos refl) refl tt)
      | inr e ↦ rw (supervisor_round, e) (goes_to s exited v calm_ (rw pos refl) tt)
    ]

return_to-IsSim :
    (s : Sim) (caller : Caller) → IsSim s → s.supervisor ≡ woken caller → IsSim (return_to caller s)
unfolding return_to end_round
return_to-IsSim s by_io v pos =
    goes_to s creating v (λ c f. ground (arith, sym pos ∙ f)) (rw pos refl) tt
return_to-IsSim s by_creat v pos =
    let one : uncounted s.supervisor ≡ 1 = rw pos refl in
    relocate s rounding (s.processes_created + 1) ((s.simulator_time + 1) % 2 ^ 32) s.counters
      s.io_queue v (λ c f. ground (arith, sym pos ∙ f)) (omega (arith, one)) refl tt

supervise_at-Keeps :
    (q : Supervisor) (s : Sim) → IsSim s → s.supervisor ≡ q → Prompt q s → Keeps (supervise_at q s)
unfolding supervise_at
supervise_at-Keeps rounding s v pos h = (supervisor_round s, refl, supervisor_round-IsSim s v pos)
supervise_at-Keeps (simulating n) s v pos h = simulate_cpus-Keeps s n v pos h
supervise_at-Keeps (awaiting n) s v pos h = (s, refl, v)
supervise_at-Keeps (signalled n) s v pos h = (
  record s { supervisor = simulating (n + 1) },
  refl,
  goes_to s (simulating (n + 1)) v (λ c f. ground (arith, sym pos ∙ f)) (rw pos refl) tt,
)
supervise_at-Keeps doing_io s v pos h = (
  complete_io (simulate_io s.io_queue) s,
  refl,
  complete_io-IsSim s (simulate_io s.io_queue) v pos (simulate_io-Serves s.io_queue),
)
supervise_at-Keeps (waking caller p) s v pos h = call_wake_up-Keeps s caller p v pos
supervise_at-Keeps (forcing caller c) s v pos h = (s, refl, v)
supervise_at-Keeps (woken caller) s v pos h =
    (return_to caller s, refl, return_to-IsSim s caller v pos)
supervise_at-Keeps creating s v pos h = (simulate_creat s, refl, simulate_creat-IsSim s v pos)
supervise_at-Keeps exited s v pos h = (s, refl, v)

-- Under the invariant, when the thread of the CPU that is simulated is in its wait, a step of the
-- supervisor does not fail, and keeps the invariant.
pub supervise-Keeps : (s : Sim) → IsSim s → Prompt s.supervisor s → Keeps (supervise s)
unfolding supervise
supervise-Keeps s v h = supervise_at-Keeps s.supervisor s v refl h
