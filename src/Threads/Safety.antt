-- ===== src/Threads/Safety.antt =====
-- Every run of the simulation of project-6/prj6/os-sim.c with the scheduler of
-- project-6/prj6/student.c, from `start_simulator` on.
use mathlib.Core.Option.{some_inj}
use da_bus.Base.{ℕ, ◌≤◌, ◌≡◌, sym, ◌∙◌, some, ◌⊎◌, has, true}
use da_bus.Scheduler.{process_new, process_running, process_waiting}
use da_bus.Simulator.Requests.{waiting_for}
use da_bus.Threads.{
  Sim, Prompt, supervise, cpu_thread, SerialStep, by_supervisor, by_cpu, SerialReach, start, later,
  process_count,
}
use da_bus.Threads.Invariant.{IsSim, Leaving, made}
use da_bus.Threads.Supervising.{supervise-Keeps}
use da_bus.Threads.Calls.{cpu_thread-Keeps}

SerialStep-IsSim : {s t : Sim} → SerialStep s t → IsSim s → IsSim t
SerialStep-IsSim {s} {t} (by_supervisor h e) v =
    let (u, f, w) = supervise-Keeps s v h in
    let same : u ≡ t = some_inj.0 (sym f ∙ e) in rw (sym same) w
SerialStep-IsSim {s} {t} (by_cpu c l h e) v =
    let (u, f, w) = cpu_thread-Keeps c s v in
    let same : u ≡ t = some_inj.0 (sym f ∙ e) in rw (sym same) w

-- Every state that prompt steps reach from one that satisfies the invariant satisfies it.
pub SerialReach-IsSim : {s t : Sim} → IsSim s → SerialReach s t → IsSim t
SerialReach-IsSim v start = v
SerialReach-IsSim v (later r st) = SerialStep-IsSim st (SerialReach-IsSim v r)

-- What holds of the simulator in a state: no two CPUs have the same process, a process on a CPU is
-- RUNNING, the requests are of different processes, and each of them is WAITING, unless the
-- supervisor waits for its CPU to call `yield`.
abbrev pub Consistent : Sim → Type 0
Consistent t =
    ((c d p : ℕ) → (t.os.cpu_data c).current ≡ some p → (t.os.cpu_data d).current ≡ some p → c ≡ d)
    × ((c p : ℕ) → (t.os.cpu_data c).current ≡ some p → (t.os.pcbs p).state ≡ process_running)
    × ((p : ℕ)
        → has p (waiting_for t.io_queue) ≡ true
        → ((t.os.pcbs p).state ≡ process_waiting) ⊎ Leaving t p)
    × (made t ≤ process_count)
    × ((p : ℕ) → made t ≤ p → (t.os.pcbs p).state ≡ process_new)

-- In every serial run, one in which each handler runs to its end while no other thread moves, and in
-- which the supervisor simulates a process only when the thread of its CPU is in its wait,
-- from a state on that satisfies the invariant: no two CPUs have the same process, the process of a
-- CPU is RUNNING, a process with an I/O request is WAITING or on a CPU that is about to yield, and a
-- process that is not created is NEW; at most eight are created.
pub SerialReach-Consistent : {s t : Sim} → IsSim s → SerialReach s t → Consistent t
SerialReach-Consistent {s} {t} v r =
    let w = SerialReach-IsSim v r in
    (
      λ c d p h k. w.os.exclusive c d p (sym (w.agree c) ∙ h) (sym (w.agree d) ∙ k),
      λ c p h. w.os.running c p (sym (w.agree c) ∙ h),
      λ p h. (w.requests p h).1,
      w.few,
      w.fresh,
    )

-- In every serial run, one in which each handler runs to its end while no other thread moves, and in
-- which the supervisor simulates a process only when the thread of its CPU is in its wait,
-- from a state on that satisfies the invariant, no thread uses a NULL pointer and no process runs
-- behind its operations: the step of the supervisor, if it is prompt, and that of each CPU thread has
-- a result.
pub SerialReach-steps :
    {s t : Sim}
    → IsSim s
    → SerialReach s t
    → Prompt t.supervisor t
    → ((u : Sim) × (supervise t ≡ some u)) × ((c : ℕ) → (u : Sim) × (cpu_thread c t ≡ some u))
SerialReach-steps {s} {t} v r h =
    let w = SerialReach-IsSim v r in
    let (u, e, _) = supervise-Keeps t w h in
    ((u, e), λ c. (let (u, e, _) = cpu_thread-Keeps c t w in (u, e)))
