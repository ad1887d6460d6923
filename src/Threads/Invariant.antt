-- ===== src/Threads/Invariant.antt =====
-- The invariant of the threads of project-6/prj6/os-sim.c and the scheduler of
-- project-6/prj6/student.c together.
use native.Mathlib.Decide.{dec_lt}
use da_bus.Base.{
  ℕ, ◌+◌, ◌≤◌, ◌<◌, ◌≡◌, ◌≢◌, refl, sym, ap, ◌∙◌, Option, some, List, ◌⊎◌, inl, inr, arith, has,
  IsNodup, true, false,
}
use da_bus.Scheduler.{process_new, process_waiting, CpuState, cpu_idle, cpu_yield}
use da_bus.Scheduler.Handlers.{IsOs}
use da_bus.Scheduler.Thread.{Matches}
use da_bus.Simulator.{IoRequest}
use da_bus.Simulator.Programs.{IsProgram, Blocked}
use da_bus.Simulator.Requests.{waiting_for}
use da_bus.Threads.{
  Sim, Supervisor, rounding, simulating, awaiting, signalled, doing_io, waking, forcing, woken,
  creating, exited, by_io, by_creat, Counters, CpuThread, looping, waiting, calling, process_count,
}

-- What a CPU thread at its place knows of its CPU: the state, and the process of the scheduler.
abbrev pub Stands : CpuThread → CpuState → Option ℕ → Type 0
Stands looping st r = Unit
Stands waiting st r = (st ≢ cpu_idle) × ((p : ℕ) × (r ≡ some p))
Stands (calling st') st r = Matches st' r

-- The thread is to call `yield`.
abbrev pub Yields : CpuThread → CpuState → Type 0
Yields looping st = ⊥
Yields waiting st = st ≡ cpu_yield
Yields (calling st') st = st' ≡ cpu_yield

-- The supervisor waits for the thread of the CPU of `p` to call `yield`.
abbrev pub Leaving : Sim → ℕ → Type 0
Leaving s p =
    (c : ℕ) × (s.supervisor ≡ awaiting c)
    × (s.os.current c ≡ some p)
    × Yields (s.threads c) (s.os.cpu_data c).state

abbrev pub Requested : Sim → ℕ → Type 0
Requested s p = Blocked (s.ops p) × (((s.os.pcbs p).state ≡ process_waiting) ⊎ Leaving s p)

-- `simulate_creat` counts a process only behind `wake_up`.
abbrev pub uncounted : Supervisor → ℕ
uncounted (forcing by_creat c) = 1
uncounted (woken by_creat) = 1
uncounted q = 0

abbrev pub made : Sim → ℕ
made s = s.processes_created + uncounted s.supervisor

-- The process that is about to be woken up.
abbrev pub Waking : Supervisor → Sim → Type 0
Waking (waking by_io p) s =
    ((s.os.pcbs p).state ≡ process_waiting) × (has p (waiting_for s.io_queue) ≡ false)
Waking (waking by_creat p) s = (p ≡ s.processes_created) × (p < process_count)
Waking q s = Unit

-- The invariant: that of the scheduler; scheduler and simulator have the same process on each CPU;
-- each thread stands where that allows; the requests are of different processes, whose pc is at an
-- I/O operation and which are WAITING or about to; the processes that are not created are NEW.
pub record IsSim (s : Sim) : Type 0 where
  pub queued : List ℕ
  pub os : IsOs s.os queued
  pub agree : (c : ℕ) → (s.os.cpu_data c).current ≡ s.os.current c
  pub stands : (c : ℕ) → Stands (s.threads c) (s.os.cpu_data c).state (s.os.current c)
  pub programs : (p : ℕ) → p < process_count → IsProgram (s.ops p)
  pub requests : (p : ℕ) → has p (waiting_for s.io_queue) ≡ true → Requested s p
  pub distinct : IsNodup (waiting_for s.io_queue)
  pub fresh : (p : ℕ) → made s ≤ p → (s.os.pcbs p).state ≡ process_new
  pub few : made s ≤ process_count
  pub woken : Waking s.supervisor s

-- The supervisor does not wait in `simulate_process`.
abbrev pub Quiet : Supervisor → Type 0
Quiet q = (c : ℕ) → q ≢ awaiting c

-- Then each process with a request is WAITING.
pub calm :
    (s : Sim)
    → IsSim s
    → Quiet s.supervisor
    → (p : ℕ) → has p (waiting_for s.io_queue) ≡ true
    → Blocked (s.ops p) × ((s.os.pcbs p).state ≡ process_waiting)
calm s v quiet p h =
    let (b, w) = v.requests p h in elim w [ inl e ↦ (b, e) | inr (c, e, _, _) ↦ absurd (quiet c e) ]

-- A process that is not NEW has been made.
pub made_lem : (s : Sim) → IsSim s → (p : ℕ) → (s.os.pcbs p).state ≢ process_new → p < process_count
made_lem s v p h = elim (dec_lt p (made s)) [
  | yes l ↦ omega (arith, v.few)
  | no g ↦ absurd (h (v.fresh p (omega arith)))
]

-- The supervisor goes on, with other counts.
pub relocate :
    (s : Sim) (q : Supervisor) (n time : ℕ) (k : Counters) (io : List IoRequest)
    → IsSim s
    → Quiet s.supervisor
    → n + uncounted q ≡ made s
    → waiting_for io ≡ waiting_for s.io_queue
    → Waking q (record s { processes_created = n; io_queue = io })
    → IsSim (record s {
      supervisor = q;
      processes_created = n;
      simulator_time = time;
      counters = k;
      io_queue = io;
    })
relocate s q n time k io v quiet same same_io w = record {
  queued = v.queued;
  os = v.os;
  agree = v.agree;
  stands = v.stands;
  programs = v.programs;
  requests = λ p h. let (b, e) = calm s v quiet p (rw (sym same_io) h) in (b, inl e);
  distinct = rw same_io v.distinct;
  fresh = λ p h. v.fresh p (omega (arith, same));
  few = omega (arith, same, v.few);
  woken = go q w;
}
  where
    t : Sim
    t = record s {
      supervisor = q;
      processes_created = n;
      simulator_time = time;
      counters = k;
      io_queue = io;
    }

    go :
        (r : Supervisor) → Waking r (record s { processes_created = n; io_queue = io }) → Waking r t
    go (waking by_io p) h = h
    go (waking by_creat p) h = h
    go r h = tt

-- The step does not fail, and keeps the invariant.
abbrev pub Keeps : Option Sim → Type 0
Keeps r = (t : Sim) × (r ≡ some t) × IsSim t

-- The supervisor goes on and changes nothing else.
pub goes_to :
    (s : Sim) (q : Supervisor)
    → IsSim s
    → Quiet s.supervisor
    → uncounted q ≡ uncounted s.supervisor
    → Waking q s
    → IsSim (record s { supervisor = q })
goes_to s q v calm_ same w =
    relocate s q s.processes_created s.simulator_time s.counters s.io_queue v calm_ (rw same refl)
      refl w

-- The process to wake up is as it was, if no WAITING process moves.
pub Waking-kept :
    (q : Supervisor) (s t : Sim)
    → ((p : ℕ) → (s.os.pcbs p).state ≡ process_waiting → (t.os.pcbs p).state ≡ process_waiting)
    → t.io_queue ≡ s.io_queue
    → t.processes_created ≡ s.processes_created
    → Waking q s
    → Waking q t
Waking-kept (waking by_io p) s t h io n (w, out) = (h p w, ap (λ l. has p (waiting_for l)) io ∙ out)
Waking-kept (waking by_creat p) s t h io n (e, l) = (e ∙ sym n, l)
Waking-kept rounding s t h io n w = tt
Waking-kept (simulating c) s t h io n w = tt
Waking-kept (awaiting c) s t h io n w = tt
Waking-kept (signalled c) s t h io n w = tt
Waking-kept doing_io s t h io n w = tt
Waking-kept (forcing by_io c) s t h io n w = tt
Waking-kept (forcing by_creat c) s t h io n w = tt
Waking-kept (woken by_io) s t h io n w = tt
Waking-kept (woken by_creat) s t h io n w = tt
Waking-kept creating s t h io n w = tt
Waking-kept exited s t h io n w = tt
