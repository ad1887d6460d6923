-- ===== src/Threads/Liveness.antt =====
-- The supervisor of project-6/prj6/os-sim.c never waits in vain for a CPU thread: no signal is lost.
use mathlib.Core.Path.{subst}
use mathlib.Core.Option.{some_inj}
use da_bus.Base.{
  Bool, ℕ, zero, suc, ◌≤◌, ◌≡◌, ◌≢◌, refl, sym, ap, ◌∙◌, Option, none, some, inl, inr, ◌⊎◌, arith,
  true, ◌==◌,
}
use da_bus.Scheduler.{ReadyQueue, CpuState, cpu_idle, cpu_running, update, cpu_thread_select}
use da_bus.Scheduler.Queue.{update_self}
use da_bus.Scheduler.Effects.{call_handler-Calls}
use da_bus.Threads.{
  Sim, Supervisor, awaiting, signalled, forcing, woken, Caller, by_io, CpuThread, looping, waiting,
  calling, notify, selected, leave_wait, after_call, cpu_thread_at, supervise, cpu_thread,
  SerialStep, by_supervisor, by_cpu, SerialReach, start, later,
}
use da_bus.Threads.Invariant.{IsSim, Stands}
use da_bus.Threads.Signals.{Coming, Awaits, IsSignalled, Signals}
use da_bus.Threads.Safety.{SerialReach-IsSim}
use da_bus.Threads.Calls.{cpu_thread-Keeps}
use da_bus.Threads.Delivery.{supervise_at-Signals}
use da_bus.Threads.Comings.{
  selects-Signals, leaves-Signals, called-Signals, leave_wait-calling, after_call-looping,
}
use da_bus.Threads.Start.{started}
use da_bus.Threads.Safety.{SerialReach-IsSim}

cpu_thread_at-Signals :
    (t : CpuThread) (c : ℕ) (s : Sim)
    → IsSim s
    → IsSignalled s
    → s.threads c ≡ t
    → Signals (cpu_thread_at t c s)
unfolding cpu_thread_at cpu_thread_select
cpu_thread_at-Signals looping c s v w here = selects-Signals s w c
cpu_thread_at-Signals waiting c s v w here =
    let k : Stands waiting (s.os.cpu_data c).state (s.os.current c) =
      subst (λ t. Stands t (s.os.cpu_data c).state (s.os.current c)) here (v.stands c) in
    leaves-Signals s w c here k.0
cpu_thread_at-Signals (calling st) c s v w here =
    let k : Stands (calling st) (s.os.cpu_data c).state (s.os.current c) =
      subst (λ t. Stands t (s.os.cpu_data c).state (s.os.current c)) here (v.stands c) in
    let (os, ys, e, u, h, _) = call_handler-Calls st c s.os v.queued v.os k (v.agree c) in
    rw (cpu_thread_at, e) (called-Signals s w c st os here h)

SerialStep-IsSignalled : {s t : Sim} → SerialStep s t → IsSim s → IsSignalled s → IsSignalled t
unfolding supervise cpu_thread
SerialStep-IsSignalled {s} {t} (by_supervisor h e) v w =
    subst Signals e (supervise_at-Signals s.supervisor s v w refl h)
SerialStep-IsSignalled {s} {t} (by_cpu c l h e) v w =
    subst Signals e (cpu_thread_at-Signals (s.threads c) c s v w refl)

pub SerialReach-IsSignalled :
    {s t : Sim} → IsSim s → IsSignalled s → SerialReach s t → IsSignalled t
SerialReach-IsSignalled v w start = w
SerialReach-IsSignalled v w (later r st) =
    SerialStep-IsSignalled st (SerialReach-IsSim v r) (SerialReach-IsSignalled v w r)

-- Steps of one CPU thread.
pub turns : ℕ → ℕ → Sim → Option Sim
turns zero c s = some s
turns (suc k) c s = elim (cpu_thread c s) [ none ↦ none | some t ↦ turns k c t ]

-- The supervisor gets the signal of the thread within that many steps of it.
abbrev pub Within : ℕ → ℕ → Sim → Type 0
Within k c s =
    (j : ℕ) × (t : Sim) × (j ≤ k) × (turns j c s ≡ some t) × (t.supervisor ≡ notify c s.supervisor)

after_step :
    (k c : ℕ) (s t : Sim)
    → cpu_thread c s ≡ some t
    → t.supervisor ≡ s.supervisor
    → Within k c t
    → Within (suc k) c s
unfolding turns
after_step k c s t e same (j, u, l, f, g) =
    (suc j, u, omega arith, rw (turns, e) f, g ∙ ap (notify c) same)

from_looping : (c : ℕ) (s : Sim) → s.threads c ≡ looping → Within 1 c s
unfolding turns cpu_thread cpu_thread_at
from_looping c s here = (
  1,
  record s {
    os = cpu_thread_select c s.os;
    supervisor = notify c s.supervisor;
    threads = update s.threads c (selected (s.os.cpu_data c).current);
  },
  omega arith,
  rw (turns, cpu_thread, here) refl,
  refl,
)

from_calling :
    (c : ℕ) (s : Sim) (st : CpuState)
    → IsSim s
    → s.threads c ≡ calling st
    → st ≢ cpu_idle
    → Within 2 c s
unfolding cpu_thread cpu_thread_at
from_calling c s st v here busy =
    let k : Stands (calling st) (s.os.cpu_data c).state (s.os.current c) =
      subst (λ t. Stands t (s.os.cpu_data c).state (s.os.current c)) here (v.stands c) in
    let (os, ys, e, u, h, _) = call_handler-Calls st c s.os v.queued v.os k (v.agree c) in
    let t : Sim = record s { os = os; threads = update s.threads c (after_call st s.os) } in
    after_step 1 c s t (rw (cpu_thread, here, cpu_thread_at, e) refl) refl (
      from_looping c t
        (update_self s.threads c (after_call st s.os) ∙ after_call-looping st s.os busy))

from_waiting :
    (c : ℕ) (s : Sim)
    → IsSim s
    → s.threads c ≡ waiting
    → (s.os.cpu_data c).state ≢ cpu_running
    → Within 3 c s
unfolding cpu_thread cpu_thread_at
from_waiting c s v here ne =
    let st = (s.os.cpu_data c).state in
    let k : Stands waiting st (s.os.current c) =
      subst (λ t. Stands t st (s.os.current c)) here (v.stands c) in
    let t : Sim = record s { threads = update s.threads c (leave_wait st) } in
    let (t', e, v') = cpu_thread-Keeps c s v in
    let step : cpu_thread c s ≡ some t = rw (cpu_thread, here) refl in
    let same : t' ≡ t = some_inj.0 (sym e ∙ step) in
    after_step 2 c s t step refl (
      from_calling c t st (subst IsSim same v')
        (update_self s.threads c (leave_wait st) ∙ leave_wait-calling st ne) k.0)

comes-Within :
    (c : ℕ) (s : Sim) (t : CpuThread)
    → IsSim s
    → s.threads c ≡ t
    → Coming t (s.os.cpu_data c).state
    → Within 3 c s
comes-Within c s looping v here h =
    let (j, t, l, e, f) = from_looping c s here in (j, t, omega arith, e, f)
comes-Within c s waiting v here h = from_waiting c s v here h
comes-Within c s (calling st) v here h =
    let (j, t, l, e, f) = from_calling c s st v here h in (j, t, omega arith, e, f)

notify_self :
    (c : ℕ) (caller : Caller)
    → (notify c (awaiting c) ≡ signalled c) × (notify c (forcing caller c) ≡ woken caller)
unfolding notify
notify_self c caller =
    let e : (c == c) ≡ true = ground arith in (rw (notify, e) refl, rw (notify, e) refl)

-- `start_simulator` leaves a state in which no CPU is CPU_RUNNING and the supervisor does not wait.
pub started-IsSignalled :
    (cpus : ℕ) (flag : Bool) (slice : ℕ) (current : ℕ → Option ℕ) (queue : ReadyQueue)
    → IsSignalled (started cpus flag slice current queue)
unfolding started
started-IsSignalled cpus flag slice current queue = record {
  running = λ c h. absurd (ground (arith, h));
  awaited = tt;
}

-- The supervisor waits for the thread of the CPU `c`, in `simulate_process` or in `force_preempt`.
abbrev pub WaitsFor : ℕ → Supervisor → Type 0
WaitsFor c q = (q ≡ awaiting c) ⊎ ((caller : Caller) × (q ≡ forcing caller c))

-- The supervisor `q`, which waits for the CPU `c`, has gone on behind its wait.
abbrev pub GoesOn : ℕ → Supervisor → Supervisor → Type 0
GoesOn c q r =
    ((q ≡ awaiting c) × (r ≡ signalled c))
    ⊎ ((caller : Caller) × (q ≡ forcing caller c) × (r ≡ woken caller))

-- In every serial run, one in which each handler runs to its end while no other thread moves, and in
-- which the supervisor simulates a process only when the thread of its CPU is in its wait,
-- from a state on that satisfies the invariant, in which the thread of a CPU that is CPU_RUNNING is in
-- its wait, and a thread that the supervisor waits for is on its way to the head of its loop:
-- whenever the supervisor waits for the thread of a CPU, in `simulate_process` or in `force_preempt`,
-- at most three steps of that thread end the wait, and each of them has a result.
pub SerialReach-GoesOn :
    {s t : Sim}
    → IsSim s
    → IsSignalled s
    → SerialReach s t
    → (c : ℕ) → WaitsFor c t.supervisor
    → (j : ℕ) × (u : Sim) × (j ≤ 3) × (turns j c t ≡ some u) × GoesOn c t.supervisor u.supervisor
SerialReach-GoesOn {s} {t} v w r c q =
    let y = SerialReach-IsSim v r in
    let z = SerialReach-IsSignalled v w r in
    elim q [
      | inl e ↦
          let h : Awaits (awaiting c) t = subst (λ q. Awaits q t) e z.awaited in
          let (j, u, l, f, g) = comes-Within c t (t.threads c) y refl h in
          (j, u, l, f, inl (e, g ∙ (ap (notify c) e ∙ (notify_self c by_io).0)))
      | inr (caller, e) ↦
          let h : Awaits (forcing caller c) t = subst (λ q. Awaits q t) e z.awaited in
          let (j, u, l, f, g) = comes-Within c t (t.threads c) y refl h in
          (j, u, l, f, inr (caller, e, g ∙ (ap (notify c) e ∙ (notify_self c caller).1)))
    ]
