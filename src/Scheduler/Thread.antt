-- ===== src/Scheduler/Thread.antt =====
-- The CPU thread of project-6/prj6/os-sim.c, which calls the handlers of project-6/prj6/student.c.
use da_bus.Base.{◌+◌, ℕ, ◌≡◌, refl, sym, Option, none, some, List, [], ◌∷◌, ◌++◌, drop}
use da_bus.Scheduler.{
  Os, CpuData, CpuState, cpu_idle, cpu_running, cpu_preempt, cpu_yield, cpu_terminate,
  selected_state, cpu_thread_select, call_handler, cpu_thread_call, update,
}
use da_bus.Scheduler.Queue.{update_self}
use da_bus.Scheduler.Handlers.{IsOs}
use da_bus.Scheduler.Events.{preempt-Scheduled, yield-terminate, idle-IsOs}

-- The thread idles exactly when the scheduler has no process on its CPU.
abbrev pub Matches : CpuState → Option ℕ → Type 0
Matches cpu_idle r = r ≡ none
Matches cpu_running r = Unit
Matches cpu_preempt r = (p : ℕ) × (r ≡ some p)
Matches cpu_yield r = (p : ℕ) × (r ≡ some p)
Matches cpu_terminate r = (p : ℕ) × (r ≡ some p)

abbrev pub Agrees : ℕ → Os → Type 0
Agrees cpu os = Matches (os.cpu_data cpu).state (os.current cpu)

abbrev pub Continues : Option Os → Type 0
Continues r = (os' : Os) × (ys : List ℕ) × (r ≡ some os') × IsOs os' ys

abbrev pub counted : Os → Os
counted os = record os { processes_terminated = os.processes_terminated + 1 }

pub IsOs-counted : (os : Os) (xs : List ℕ) → IsOs os xs → IsOs (counted os) xs
IsOs-counted os xs v = record {
  queue = v.queue;
  nodup = v.nodup;
  ready = v.ready;
  running = v.running;
  exclusive = v.exclusive;
}

call_handler-Continues :
    (s : CpuState) (cpu : ℕ) (os : Os) (xs : List ℕ)
    → IsOs os xs
    → Matches s (os.current cpu)
    → Continues (call_handler s cpu os)
unfolding call_handler
call_handler-Continues cpu_idle cpu os xs v m =
    let (o, f, w, _) = idle-IsOs cpu os xs v m in (o, drop 1 xs, f, w)
call_handler-Continues cpu_running cpu os xs v m = (os, xs, refl, v)
call_handler-Continues cpu_preempt cpu os xs v (p, at) =
    let (o, f, w, _) = preempt-Scheduled cpu os xs p v at in (o, drop 1 (xs ++ p ∷ []), f, w)
call_handler-Continues cpu_yield cpu os xs v (p, at) =
    let (o, f, w, _, _) = (yield-terminate cpu os xs p v at).0 in (o, drop 1 xs, f, w)
call_handler-Continues cpu_terminate cpu os xs v (p, at) =
    let (o, f, w, _, _) = (yield-terminate cpu (counted os) xs p (IsOs-counted os xs v) at).1 in
    (o, drop 1 xs, f, w)

-- Under the invariant, whatever state a CPU thread is in, if it agrees with the scheduler, the
-- handler that it calls uses no NULL pointer, returns, and keeps the invariant.
pub cpu_thread_call-Continues :
    (cpu : ℕ) (os : Os) (xs : List ℕ)
    → IsOs os xs
    → Agrees cpu os
    → Continues (cpu_thread_call cpu os)
unfolding cpu_thread_call
cpu_thread_call-Continues cpu os xs v m =
    call_handler-Continues (os.cpu_data cpu).state cpu os xs v m

pub IsOs-cpu_data :
    (os : Os) (xs : List ℕ) (f : ℕ → CpuData) → IsOs os xs → IsOs (record os { cpu_data = f }) xs
IsOs-cpu_data os xs f v = record {
  queue = v.queue;
  nodup = v.nodup;
  ready = v.ready;
  running = v.running;
  exclusive = v.exclusive;
}

Matches-self :
    (f : ℕ → CpuData) (cpu : ℕ) (d : CpuData) (r : Option ℕ)
    → Matches d.state r
    → Matches (update f cpu d cpu).state r
Matches-self f cpu d r h = rw (update_self f cpu d) h

Matches-selected_state : (r : Option ℕ) → Matches (selected_state r) r
unfolding selected_state
Matches-selected_state none = refl
Matches-selected_state (some p) = tt

-- After the choice of a CPU thread, if the simulator and the scheduler have the same process on the
-- CPU, the thread agrees with the scheduler, and the invariant still holds.
pub cpu_thread_select-Agrees :
    (cpu : ℕ) (os : Os) (xs : List ℕ)
    → IsOs os xs
    → (os.cpu_data cpu).current ≡ os.current cpu
    → Agrees cpu (cpu_thread_select cpu os) × IsOs (cpu_thread_select cpu os) xs
unfolding cpu_thread_select
cpu_thread_select-Agrees cpu os xs v h =
    let d = record (os.cpu_data cpu) { state = selected_state (os.cpu_data cpu).current } in
    (
      Matches-self os.cpu_data cpu d (os.current cpu)
          (rw (sym h) (Matches-selected_state (os.cpu_data cpu).current)),
      IsOs-cpu_data os xs (update os.cpu_data cpu d) v,
    )
