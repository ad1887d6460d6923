-- ===== src/Threads/Bursting.antt =====
-- A CPU of project-6/prj6/os-sim.c only ever has a process whose pc is at a CPU operation: the steps
-- of the supervisor.
use mathlib.Core.Path.{subst}
use da_bus.Base.{
  ℕ, ◌+◌, ◌<◌, ◌≡◌, ◌≢◌, refl, sym, ap, ◌∙◌, some, List, inl, inr, ◌⊎◌, arith, ◌==◌, Bool-cases,
  ==_iff, ne_of_==,
}
use mathlib.Core.Option.{some_inj}
use da_bus.Scheduler.{
  ProcessState, process_new, process_ready, process_running, cpu_preempt, cpu_yield, cpu_terminate,
  update, CpuData, CpuState,
}
use da_bus.Scheduler.Queue.{update_ne, update_self}
use da_bus.Scheduler.Handlers.{update_all}
use da_bus.Simulator.{
  Op, IoRequest, Event, runs, preempts, yields, terminates, scheduled_blocked, scheduled_terminated,
  submit_io_request,
}
use da_bus.Simulator.Bursts.{Bursts, Alternates, Works}
use da_bus.Threads.{
  Sim, Supervisor, rounding, simulating, awaiting, signalled, doing_io, waking, forcing, woken,
  creating, exited, by_io, by_creat, Counters, CpuThread, looping, waiting, calling, dispatch_event,
  interrupt, advance, process_count,
}
use da_bus.Threads.Invariant.{IsSim, Quiet}
use da_bus.Threads.Ticks.{timed, told, Changed, timed-Changed, told-Changed}

-- The thread is to call `yield` or `terminate`.
abbrev pub Leaves : CpuState → Type 0
Leaves st = (st ≡ cpu_yield) ⊎ (st ≡ cpu_terminate)

abbrev pub Ends : CpuThread → CpuState → Type 0
Ends looping st = ⊥
Ends waiting st = Leaves st
Ends (calling st') st = Leaves st'

-- The process whose request is complete goes on with a CPU operation.
abbrev pub Resumes : Supervisor → Sim → Type 0
Resumes (waking by_io p) s = Bursts (s.ops p)
Resumes q s = Unit

-- The operations alternate; a process that is NEW or READY is at a CPU operation, and one on a CPU
-- unless the CPU is about to yield or to terminate, for which the supervisor waits.
pub record IsBursting (s : Sim) : Type 0 where
  pub alternate : (p : ℕ) → p < process_count → Alternates (s.ops p)
  pub ready :
      (p : ℕ)
      → p < process_count
      → ((s.os.pcbs p).state ≡ process_ready) ⊎ ((s.os.pcbs p).state ≡ process_new)
      → Bursts (s.ops p)
  pub on :
      (c p : ℕ)
      → s.os.current c ≡ some p
      → Bursts (s.ops p) ⊎ Ends (s.threads c) (s.os.cpu_data c).state
  pub pending : (c : ℕ) → Ends (s.threads c) (s.os.cpu_data c).state → s.supervisor ≡ awaiting c
  pub resumes : Resumes s.supervisor s

pub Resumes-kept : (q : Supervisor) (s t : Sim) → t.ops ≡ s.ops → Resumes q s → Resumes q t
Resumes-kept (waking by_io p) s t e h = subst (λ (o : ℕ → List Op). Bursts (o p)) (sym e) h
Resumes-kept (waking by_creat p) s t e h = tt
Resumes-kept rounding s t e h = tt
Resumes-kept (simulating n) s t e h = tt
Resumes-kept (awaiting n) s t e h = tt
Resumes-kept (signalled n) s t e h = tt
Resumes-kept doing_io s t e h = tt
Resumes-kept (forcing caller n) s t e h = tt
Resumes-kept (woken caller) s t e h = tt
Resumes-kept creating s t e h = tt
Resumes-kept exited s t e h = tt

pub goes :
    (s : Sim) (q : Supervisor) (n time : ℕ) (k : Counters) (io : List IoRequest)
    → IsBursting s
    → Quiet s.supervisor
    → Resumes q s
    → IsBursting (record s {
      supervisor = q;
      processes_created = n;
      simulator_time = time;
      counters = k;
      io_queue = io;
    })
goes s q n time k io w quiet h = record {
  alternate = w.alternate;
  ready = w.ready;
  on = w.on;
  pending = λ c e. absurd (quiet c (w.pending c e));
  resumes =
      Resumes-kept q s
        (record s {
          supervisor = q;
          processes_created = n;
          simulator_time = time;
          counters = k;
          io_queue = io;
        })
        refl h;
}

module _ (s : Sim) (v : IsSim s) (w : IsBursting s) (quiet : Quiet s.supervisor) (n p : ℕ)
    (at : s.os.current n ≡ some p) (stands : s.threads n ≡ waiting) where
  after : Supervisor → (ℕ → CpuData) → List Op → List IoRequest → Sim
  after q f ops io = record s {
    os = record s.os { cpu_data = f };
    ops = update s.ops p ops;
    io_queue = io;
    supervisor = q;
  }

  ticked :
      (q : Supervisor) (f : ℕ → CpuData) (ops : List Op) (io : List IoRequest) (st : CpuState)
      → Changed n st s.os.cpu_data f
      → Alternates ops
      → Bursts ops ⊎ Leaves st
      → (Leaves st → q ≡ awaiting n)
      → ((t : Sim) → Resumes q t)
      → IsBursting (after q f ops io)
  unfolding after
  ticked q f ops io st (same, others, here) alternates own waits h = record {
    alternate =
        update_all (λ r o. r < process_count → Alternates o) s.ops p ops (λ _. alternates)
          (λ r ne. w.alternate r);
    ready = λ r l e.
        let ne : r ≢ p = λ i.
          not_running (s.os.pcbs r).state e
            (ap (λ j. (s.os.pcbs j).state) i ∙ v.os.running n p at) in
        rw (update_ne s.ops p r ops ne) (w.ready r l e);
    on = λ c r e. elim (Bool-cases (r == p)) [
      | inl i ↦
          let r_p = (==_iff r p).0 i in
          let c_n = v.os.exclusive c n p (e ∙ ap some r_p) at in
          rw (r_p, c_n, update_self s.ops p ops, stands, here) own
      | inr i ↦
          let ne = ne_of_== r p i in
          let c_n : c ≢ n = λ j. ne (some_inj.0 (sym e ∙ (ap s.os.current j ∙ at))) in
          rw (update_ne s.ops p r ops ne, others c c_n) (w.on c r e)
    ];
    pending = λ c e. elim (Bool-cases (c == n)) [
      | inl i ↦
          let c_n = (==_iff c n).0 i in
          let ends : Ends (s.threads n) (f n).state =
            subst (λ j. Ends (s.threads j) (f j).state) c_n e in
          let ends' : Ends waiting st =
            subst (λ x. Ends waiting x) here (subst (λ t. Ends t (f n).state) stands ends) in
          waits ends' ∙ ap awaiting (sym c_n)
      | inr i ↦
          let ne = ne_of_== c n i in
          absurd (quiet c (w.pending c (subst (λ x. Ends (s.threads c) x) (others c ne) e)))
    ];
    resumes = h (after q f ops io);
  }
    where
      not_running :
          (x : ProcessState) → (x ≡ process_ready) ⊎ (x ≡ process_new) → x ≡ process_running → ⊥
      not_running x (inl e) f = ground (arith, sym e ∙ f)
      not_running x (inr e) f = ground (arith, sym e ∙ f)

module _ (s : Sim) (v : IsSim s) (w : IsBursting s) (n p : ℕ) (pos : s.supervisor ≡ simulating n)
    (at : s.os.current n ≡ some p) (stands : s.threads n ≡ waiting) where
  quiet : Quiet s.supervisor
  quiet c e = ground (arith, sym pos ∙ e)

  -- The state of the CPU is not one for which the supervisor would wait.
  goes_on : Leaves (s.os.cpu_data n).state → ⊥
  goes_on e = quiet n (w.pending n (subst (λ t. Ends t (s.os.cpu_data n).state) (sym stands) e))

  pub bursts : Bursts (s.ops p)
  bursts = elim (w.on n p at) [ inl b ↦ b | inr e ↦ absurd (quiet n (w.pending n e)) ]

  tells :
      (st : CpuState) (ops : List Op) (timer : ℕ) (io : List IoRequest)
      → Alternates ops
      → Bursts ops ⊎ Leaves st
      → IsBursting (record s {
        os = record s.os { cpu_data = told n st (timed n timer s.os.cpu_data) };
        ops = update s.ops p ops;
        io_queue = io;
        supervisor = awaiting n;
      })
  unfolding after
  tells st ops timer io a own =
      ticked s v w quiet n p at stands (awaiting n) (told n st (timed n timer s.os.cpu_data)) ops io
        st
        (told-Changed n st (s.os.cpu_data n).state s.os.cpu_data (timed n timer s.os.cpu_data)
          (timed-Changed n timer s.os.cpu_data))
        a own (λ _. refl) (λ t. tt)

  pub dispatch_event-IsBursting :
      (e : Event) (ops : List Op) (timer : ℕ)
      → Works e ops
      → Alternates ops
      → IsBursting (dispatch_event n p e (advance n p ops timer s))
  unfolding dispatch_event interrupt advance after
  dispatch_event-IsBursting runs ops timer b a =
      ticked s v w quiet n p at stands (simulating (n + 1)) (timed n timer s.os.cpu_data) ops
        s.io_queue (s.os.cpu_data n).state (timed-Changed n timer s.os.cpu_data) a (inl b)
        (λ e. absurd (goes_on e)) (λ t. tt)
  dispatch_event-IsBursting preempts ops timer b a =
      tells cpu_preempt ops timer s.io_queue a (inl b)
  dispatch_event-IsBursting (yields time) ops timer b a =
      tells cpu_yield ops timer (submit_io_request p time s.io_queue) a (inr (inl refl))
  dispatch_event-IsBursting terminates ops timer b a =
      tells cpu_terminate ops timer s.io_queue a (inr (inr refl))
  dispatch_event-IsBursting scheduled_blocked ops timer b a = elim b [ ]
  dispatch_event-IsBursting scheduled_terminated ops timer b a = elim b [ ]
