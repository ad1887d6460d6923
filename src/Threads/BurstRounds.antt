-- ===== src/Threads/BurstRounds.antt =====
-- The steps of the supervisor of project-6/prj6/os-sim.c, and the operations of the processes.
use mathlib.Core.Path.{subst}
use da_bus.Base.{
  ℕ, ◌+◌, ◌%◌, ◌^◌, ◌<◌, ◌≡◌, ◌≢◌, refl, sym, ap, ◌∙◌, Option, none, some, List, inl, inr, ◌⊎◌,
  arith, has, ltb, ◌==◌, ◌&&◌, Bool-cases, Option-cases, drop, ==_iff, ne_of_==,
}
use da_bus.Scheduler.{
  ProcessState, process_new, process_ready, process_waiting, CpuData, wake_up_waits,
}
use da_bus.Scheduler.Queue.{update_ne, update_self}
use da_bus.Scheduler.Handlers.{update_all}
use da_bus.Scheduler.Woken.{Nudged, wake_up-Woke}
use da_bus.Simulator.{IoRequest, simulate_io}
use da_bus.Simulator.Programs.{Blocked, Serves, simulate_io-Serves}
use da_bus.Simulator.Bursts.{Bursts, Alternates, simulate_process-Worked, drop-Bursts}
use da_bus.Threads.{
  Sim, Supervisor, rounding, simulating, awaiting, signalled, doing_io, waking, forcing, woken,
  creating, exited, Caller, by_io, by_creat, CpuThread, looping, waiting, calling, Prompt,
  supervise_at, supervisor_round, simulate_cpus, simulate_cpu, complete_io, call_wake_up,
  after_wake_up, return_to, end_round, simulate_creat, print_gantt_line, process_count,
}
use da_bus.Threads.Invariant.{Waking, uncounted, IsSim, Quiet, calm, made_lem}
use da_bus.Threads.Signals.{waking_stopped}
use da_bus.Threads.Bursting.{
  Leaves, Ends, Resumes, IsBursting, goes, dispatch_event-IsBursting, bursts,
}

-- The state behind a step, if there is one.
abbrev pub Continues : Option Sim → Type 0
Continues none = Unit
Continues (some t) = IsBursting t

moves_to :
    (s : Sim) (q : Supervisor)
    → IsBursting s
    → Quiet s.supervisor
    → Resumes q s
    → IsBursting (record s { supervisor = q })
moves_to s q w quiet h =
    goes s q s.processes_created s.simulator_time s.counters s.io_queue w quiet h

simulate_cpu-Continues :
    (s : Sim) (n : ℕ)
    → IsSim s
    → IsBursting s
    → s.supervisor ≡ simulating n
    → Prompt (simulating n) s
    → Continues (simulate_cpu n s)
unfolding simulate_cpu
simulate_cpu-Continues s n v w pos prompt =
    let quiet : Quiet s.supervisor = λ c f. ground (arith, sym pos ∙ f) in
    elim (Option-cases (s.os.cpu_data n).current) [
      | inl e ↦ rw (simulate_cpu, e) (moves_to s (simulating (n + 1)) w quiet tt)
      | inr (p, e) ↦
          let at = sym (v.agree n) ∙ e in
          let stands = prompt p e in
          let fits = made_lem s v p (λ i. ground (arith, sym (v.os.running n p at) ∙ i)) in
          let timer = (s.os.cpu_data n).preemption_timer in
          let (ev, ops, t, f, b, a) =
            simulate_process-Worked (s.ops p) timer (bursts s v w n p pos at stands)
              (w.alternate p fits) in
          rw (simulate_cpu, e, f) (dispatch_event-IsBursting s v w n p pos at stands ev ops t b a)
    ]

simulate_cpus-Continues :
    (s : Sim) (n : ℕ)
    → IsSim s
    → IsBursting s
    → s.supervisor ≡ simulating n
    → Prompt (simulating n) s
    → Continues (simulate_cpus n s)
unfolding simulate_cpus
simulate_cpus-Continues s n v w pos prompt = elim (Bool-cases (ltb n s.os.cpu_count)) [
  | inl e ↦ rw (simulate_cpus, e) (simulate_cpu-Continues s n v w pos prompt)
  | inr e ↦ rw (simulate_cpus, e) (moves_to s doing_io w (λ c f. ground (arith, sym pos ∙ f)) tt)
]

complete_io-IsBursting :
    (s : Sim) (r : Option ℕ × List IoRequest)
    → IsSim s
    → IsBursting s
    → s.supervisor ≡ doing_io
    → Serves s.io_queue r
    → IsBursting (complete_io r s)
unfolding complete_io
complete_io-IsBursting s (none, io) v w pos same =
    goes s creating s.processes_created s.simulator_time s.counters io w
      (λ c f. ground (arith, sym pos ∙ f)) tt
complete_io-IsBursting s (some p, io) v w pos same = record {
  alternate =
      update_all (λ r o. r < process_count → Alternates o) s.ops p (drop 1 (s.ops p)) (λ _. rest.1)
        (λ r ne. w.alternate r);
  ready = λ r l e.
      let ne : r ≢ p =
        λ i. not_waiting (s.os.pcbs r).state e (ap (λ j. (s.os.pcbs j).state) i ∙ own.1) in
      rw (update_ne s.ops p r (drop 1 (s.ops p)) ne) (w.ready r l e);
  on = λ c r e.
      let ne : r ≢ p = λ i.
        ground (arith, sym own.1 ∙ (ap (λ j. (s.os.pcbs j).state) (sym i) ∙ v.os.running c r e)) in
      rw (update_ne s.ops p r (drop 1 (s.ops p)) ne) (w.on c r e);
  pending = λ c e. absurd (quiet c (w.pending c e));
  resumes = rw (update_self s.ops p (drop 1 (s.ops p))) rest.0;
}
  where
    quiet : Quiet s.supervisor
    quiet c f = ground (arith, sym pos ∙ f)

    own : Blocked (s.ops p) × ((s.os.pcbs p).state ≡ process_waiting)
    own = calm s v quiet p (ap (has p) same ∙ ground arith)

    fits : p < process_count
    fits = made_lem s v p (λ e. ground (arith, sym own.1 ∙ e))

    rest : Bursts (drop 1 (s.ops p)) × Alternates (drop 1 (s.ops p))
    rest = drop-Bursts (s.ops p) own.0 (w.alternate p fits)

    not_waiting :
        (x : ProcessState) → (x ≡ process_ready) ⊎ (x ≡ process_new) → x ≡ process_waiting → ⊥
    not_waiting x (inl e) f = ground (arith, sym e ∙ f)
    not_waiting x (inr e) f = ground (arith, sym e ∙ f)

-- `wake_up` tells no CPU to yield or to terminate.
Ends-Nudged :
    (t : CpuThread) (d d' : CpuData)
    → Nudged d d'
    → (Ends t d.state → Ends t d'.state) × (Ends t d'.state → Ends t d.state)
Ends-Nudged looping d d' h = ((λ e. e), (λ e. e))
Ends-Nudged (calling st) d d' h = ((λ e. e), (λ e. e))
Ends-Nudged waiting d d' (_, inl e) = ((λ h. subst Leaves (sym e) h), (λ h. subst Leaves e h))
Ends-Nudged waiting d d' (_, inr (e, f)) = (
  (λ h. elim h [
    | inl g ↦ absurd (ground (arith, sym e ∙ g))
    | inr g ↦ absurd (ground (arith, sym e ∙ g))
  ]),
  (λ h. elim h [
    | inl g ↦ absurd (ground (arith, sym f ∙ g))
    | inr g ↦ absurd (ground (arith, sym f ∙ g))
  ]),
)

-- The process to wake up is at a CPU operation.
waking-Bursts :
    (s : Sim) (caller : Caller) (p : ℕ)
    → IsSim s
    → IsBursting s
    → s.supervisor ≡ waking caller p
    → Bursts (s.ops p)
waking-Bursts s by_io p v w pos =
    let r : Resumes (waking by_io p) s = subst (λ q. Resumes q s) pos w.resumes in r
waking-Bursts s by_creat p v w pos =
    let k : Waking (waking by_creat p) s = subst (λ q. Waking q s) pos v.woken in
    let now : uncounted s.supervisor ≡ 0 = rw pos refl in
    w.ready p k.1 (inr (v.fresh p (omega (arith, now, k.0))))

Resumes-after : (caller : Caller) (r : Option ℕ) (t : Sim) → Resumes (after_wake_up caller r) t
unfolding after_wake_up
Resumes-after caller none t = tt
Resumes-after caller (some k) t = tt

call_wake_up-Continues :
    (s : Sim) (caller : Caller) (p : ℕ)
    → IsSim s
    → IsBursting s
    → s.supervisor ≡ waking caller p
    → Continues (call_wake_up caller p s)
unfolding call_wake_up
call_wake_up-Continues s caller p v w pos =
    let (out, stopped) = waking_stopped s caller p v pos in
    let (os, e, u, k) = wake_up-Woke s.os v.queued p v.os out stopped in
    let q = after_wake_up caller (wake_up_waits p s.os) in
    let t : Sim = record s { os = os; supervisor = q } in
    let next : IsBursting t = record {
      alternate = w.alternate;
      ready = λ r l h. elim (Bool-cases (r == p)) [
        | inl i ↦ rw ((==_iff r p).0 i) (waking-Bursts s caller p v w pos)
        | inr i ↦
            w.ready r l
              (subst (λ x. (x ≡ process_ready) ⊎ (x ≡ process_new)) (k.states r (ne_of_== r p i)) h)
      ];
      on = λ c r h. elim (w.on c r (ap (λ (f : ℕ → Option ℕ). f c) (sym k.current) ∙ h)) [
        | inl b ↦ inl b
        | inr x ↦
            inr ((Ends-Nudged (s.threads c) (s.os.cpu_data c) (os.cpu_data c) (k.nudged c)).0 x)
      ];
      pending = λ c x.
          let old =
            (Ends-Nudged (s.threads c) (s.os.cpu_data c) (os.cpu_data c) (k.nudged c)).1 x in
          absurd (ground (arith, sym pos ∙ w.pending c old));
      resumes = Resumes-after caller (wake_up_waits p s.os) t;
    } in
    rw (call_wake_up, e) next

simulate_creat-IsBursting :
    (s : Sim) → IsBursting s → s.supervisor ≡ creating → IsBursting (simulate_creat s)
unfolding simulate_creat end_round
simulate_creat-IsBursting s w pos =
    let quiet : Quiet s.supervisor = λ c f. ground (arith, sym pos ∙ f) in
    elim (Bool-cases ((s.simulator_time % 10 == 0) && ltb s.processes_created process_count)) [
      | inl e ↦ rw (simulate_creat, e) (moves_to s (waking by_creat s.processes_created) w quiet tt)
      | inr e ↦
          rw (simulate_creat, e)
            (goes s rounding s.processes_created ((s.simulator_time + 1) % 2 ^ 32) s.counters
              s.io_queue w quiet tt)
    ]

supervisor_round-IsBursting :
    (s : Sim) → IsBursting s → s.supervisor ≡ rounding → IsBursting (supervisor_round s)
unfolding supervisor_round
supervisor_round-IsBursting s w pos =
    let quiet : Quiet s.supervisor = λ c f. ground (arith, sym pos ∙ f) in
    elim (Bool-cases (ltb s.os.processes_terminated process_count)) [
      | inl e ↦
          rw (supervisor_round, e)
            (goes s (simulating 0) s.processes_created s.simulator_time
              (print_gantt_line s.os.pcbs process_count 0 s.counters) s.io_queue w quiet tt)
      | inr e ↦ rw (supervisor_round, e) (moves_to s exited w quiet tt)
    ]

return_to-IsBursting :
    (s : Sim) (caller : Caller)
    → IsBursting s
    → s.supervisor ≡ woken caller
    → IsBursting (return_to caller s)
unfolding return_to end_round
return_to-IsBursting s by_io w pos = moves_to s creating w (λ c f. ground (arith, sym pos ∙ f)) tt
return_to-IsBursting s by_creat w pos =
    goes s rounding (s.processes_created + 1) ((s.simulator_time + 1) % 2 ^ 32) s.counters
      s.io_queue w (λ c f. ground (arith, sym pos ∙ f)) tt

pub supervise_at-Continues :
    (q : Supervisor) (s : Sim)
    → IsSim s
    → IsBursting s
    → s.supervisor ≡ q
    → Prompt q s
    → Continues (supervise_at q s)
unfolding supervise_at
supervise_at-Continues rounding s v w pos h = supervisor_round-IsBursting s w pos
supervise_at-Continues (simulating n) s v w pos h = simulate_cpus-Continues s n v w pos h
supervise_at-Continues (awaiting n) s v w pos h = w
supervise_at-Continues (signalled n) s v w pos h =
    moves_to s (simulating (n + 1)) w (λ c f. ground (arith, sym pos ∙ f)) tt
supervise_at-Continues doing_io s v w pos h =
    complete_io-IsBursting s (simulate_io s.io_queue) v w pos (simulate_io-Serves s.io_queue)
supervise_at-Continues (waking caller p) s v w pos h = call_wake_up-Continues s caller p v w pos
supervise_at-Continues (forcing caller c) s v w pos h = w
supervise_at-Continues (woken caller) s v w pos h = return_to-IsBursting s caller w pos
supervise_at-Continues creating s v w pos h = simulate_creat-IsBursting s w pos
supervise_at-Continues exited s v w pos h = w
