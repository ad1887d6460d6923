-- ===== src/Threads.antt =====
-- The supervisor and the CPU threads of project-6/prj6/os-sim.c as a state machine: each step of a
-- thread is what it does while it has `simulator_mutex`, or one call of a handler of
-- project-6/prj6/student.c while no other thread has it. `none` is the use of a NULL pointer or a
-- read behind the operations of a process.
mod Start
mod Invariant
mod Ticks
mod Waking
mod Supervising
mod CpuThreads
mod Initial
mod Signals
mod Delivery
mod Comings
mod Safety
mod Liveness
mod Bursting
mod BurstRounds
mod BurstCalls
mod Messages
mod Race
mod Overlap
mod Main
mod MainTests
mod Tests
mod Calls
use da_bus.Base.{
  ℕ, zero, suc, ◌+◌, ◌%◌, ◌^◌, Option, none, some, List, [], Bool, true, false, ◌&&◌, ltb, ◌==◌,
  if◌then◌else◌, drop, get_or, map, ◌≡◌,
}
use da_bus.Scheduler.{
  Pcb, ProcessState, process_new, process_ready, process_running, process_waiting,
  process_terminated, ReadyQueue, Os, CpuData, CpuState, cpu_idle, cpu_running, cpu_preempt,
  cpu_yield, cpu_terminate, update, init_ready_queue, wake_up, wake_up_waits, cpu_thread_select,
  call_handler,
}
use da_bus.Simulator.{
  Op, IoRequest, Event, runs, preempts, yields, terminates, scheduled_blocked, scheduled_terminated,
  simulate_process, submit_io_request, simulate_io,
}

abbrev pub process_count : ℕ
process_count = 8

-- Where a CPU thread stands: at the head of its loop, in the wait for a state other than
-- CPU_RUNNING, or before the call of the handler for the state that it has read.
pub data CpuThread : Type 0 where
  looping : CpuThread
  waiting : CpuThread
  calling : CpuState → CpuThread

-- Which function calls `wake_up`.
pub data Caller : Type 0 where
  by_io : Caller
  by_creat : Caller

-- Where the supervisor stands: at the head of its loop, at a CPU in `simulate_cpus`, in the wait of
-- `simulate_process` for the thread of a CPU and behind that wait, before `simulate_io`, before
-- `wake_up`, in the wait of `force_preempt` there, behind `wake_up`, before `simulate_creat`, or
-- after `exit`.
pub data Supervisor : Type 0 where
  rounding : Supervisor
  simulating : ℕ → Supervisor
  awaiting : ℕ → Supervisor
  signalled : ℕ → Supervisor
  doing_io : Supervisor
  waking : Caller → ℕ → Supervisor
  forcing : Caller → ℕ → Supervisor
  woken : Caller → Supervisor
  creating : Supervisor
  exited : Supervisor

-- `ready_counter`, `running_counter` and `waiting_counter`.
pub record Counters : Type 0 where
  pub ready_counter : ℕ
  pub running_counter : ℕ
  pub waiting_counter : ℕ

-- The globals of both files, the operations of each process from its pc on, and the threads.
pub record Sim : Type 0 where
  pub os : Os
  pub ops : ℕ → List Op
  pub io_queue : List IoRequest
  pub simulator_time : ℕ
  pub processes_created : ℕ
  pub counters : Counters
  pub supervisor : Supervisor
  pub threads : ℕ → CpuThread

pub count_state : ProcessState → Counters → Counters
count_state process_ready c = record c { ready_counter = (c.ready_counter + 1) % 2 ^ 32 }
count_state process_running c = record c { running_counter = (c.running_counter + 1) % 2 ^ 32 }
count_state process_waiting c = record c { waiting_counter = (c.waiting_counter + 1) % 2 ^ 32 }
count_state process_new c = c
count_state process_terminated c = c

-- The loop of `print_gantt_line` with `n` rounds left at the process `i`.
pub print_gantt_line : (ℕ → Pcb) → ℕ → ℕ → Counters → Counters
print_gantt_line pcbs zero i c = c
print_gantt_line pcbs (suc n) i c = print_gantt_line pcbs n (i + 1) (count_state (pcbs i).state c)

-- The head of the supervisor's loop.
pub supervisor_round : Sim → Sim
supervisor_round s =
    let c = print_gantt_line s.os.pcbs process_count 0 s.counters in
    if ltb s.os.processes_terminated process_count
    then record s { counters = c; supervisor = simulating 0 }
    else record s { supervisor = exited }

-- The state of a CPU is set, its thread is signalled, and the supervisor waits for it.
pub interrupt : ℕ → CpuState → Sim → Sim
interrupt n st s = record s {
  os = record s.os { cpu_data = update s.os.cpu_data n (record (s.os.cpu_data n) { state = st }) };
  supervisor = awaiting n;
}

-- What `simulate_process` does on CPU `n` with the process `p` once its operations have moved on.
pub dispatch_event : ℕ → ℕ → Event → Sim → Sim
dispatch_event n p runs s = record s { supervisor = simulating (n + 1) }
dispatch_event n p preempts s = interrupt n cpu_preempt s
dispatch_event n p (yields time) s =
    interrupt n cpu_yield (record s { io_queue = submit_io_request p time s.io_queue })
dispatch_event n p terminates s = interrupt n cpu_terminate s
dispatch_event n p scheduled_blocked s = record s { supervisor = simulating (n + 1) }
dispatch_event n p scheduled_terminated s = record s { supervisor = simulating (n + 1) }

-- The operations of `p` and the preemption timer of CPU `n` after a tick.
pub advance : ℕ → ℕ → List Op → ℕ → Sim → Sim
advance n p ops timer s = record s {
  os = record s.os {
    cpu_data = update s.os.cpu_data n (record (s.os.cpu_data n) { preemption_timer = timer });
  };
  ops = update s.ops p ops;
}

pub simulate_cpu : ℕ → Sim → Option Sim
simulate_cpu n s = elim (s.os.cpu_data n).current [
  | none ↦ some (record s { supervisor = simulating (n + 1) })
  | some p ↦ elim (simulate_process (s.ops p) (s.os.cpu_data n).preemption_timer) [
    | none ↦ none
    | some (e, ops, timer) ↦ some (dispatch_event n p e (advance n p ops timer s))
  ]
]

-- `simulate_cpus`, one round of its loop.
pub simulate_cpus : ℕ → Sim → Option Sim
simulate_cpus n s =
    let done : Option Sim = some (record s { supervisor = doing_io }) in
    if ltb n s.os.cpu_count then simulate_cpu n s else done

-- The pc of the process whose request is complete moves on, and it is woken up.
pub complete_io : Option ℕ × List IoRequest → Sim → Sim
complete_io (none, queue) s = record s { io_queue = queue; supervisor = creating }
complete_io (some p, queue) s = record s {
  ops = update s.ops p (drop 1 (s.ops p));
  io_queue = queue;
  supervisor = waking by_io p;
}

-- The end of a round: the time moves on.
pub end_round : Sim → Sim
end_round s = record s { simulator_time = (s.simulator_time + 1) % 2 ^ 32; supervisor = rounding }

pub simulate_creat : Sim → Sim
simulate_creat s =
    let create = record s { supervisor = waking by_creat s.processes_created } in
    if (s.simulator_time % 10 == 0) && ltb s.processes_created process_count
    then create
    else end_round s

pub after_wake_up : Caller → Option ℕ → Supervisor
after_wake_up caller none = woken caller
after_wake_up caller (some c) = forcing caller c

pub call_wake_up : Caller → ℕ → Sim → Option Sim
call_wake_up caller p s = elim (wake_up p s.os) [
  | none ↦ none
  | some os ↦ some (record s { os = os; supervisor = after_wake_up caller (wake_up_waits p s.os) })
]

pub return_to : Caller → Sim → Sim
return_to by_io s = record s { supervisor = creating }
return_to by_creat s = end_round (record s { processes_created = s.processes_created + 1 })

-- A step of the supervisor; one that waits leaves the state as it is.
pub supervise_at : Supervisor → Sim → Option Sim
supervise_at rounding s = some (supervisor_round s)
supervise_at (simulating n) s = simulate_cpus n s
supervise_at (awaiting n) s = some s
supervise_at (signalled n) s = some (record s { supervisor = simulating (n + 1) })
supervise_at doing_io s = some (complete_io (simulate_io s.io_queue) s)
supervise_at (waking caller p) s = call_wake_up caller p s
supervise_at (forcing caller c) s = some s
supervise_at (woken caller) s = some (return_to caller s)
supervise_at creating s = some (simulate_creat s)
supervise_at exited s = some s

pub supervise : Sim → Option Sim
supervise s = supervise_at s.supervisor s

-- The signal of a CPU thread at the head of its loop, to the supervisor if that waits for it.
pub notify : ℕ → Supervisor → Supervisor
notify c (awaiting n) = if n == c then signalled n else awaiting n
notify c (forcing caller n) = if n == c then woken caller else forcing caller n
notify c s = s

pub selected : Option ℕ → CpuThread
selected none = calling cpu_idle
selected (some p) = waiting

-- A thread that leaves its wait, with the state that it reads there.
pub leave_wait : CpuState → CpuThread
leave_wait cpu_running = waiting
leave_wait st = calling st

-- `idle` waits while the ready queue is empty; every other handler returns.
pub after_call : CpuState → Os → CpuThread
after_call cpu_idle os = if os.queue.count == 0 then calling cpu_idle else looping
after_call st os = looping

pub cpu_thread_at : CpuThread → ℕ → Sim → Option Sim
cpu_thread_at looping c s = some (record s {
  os = cpu_thread_select c s.os;
  supervisor = notify c s.supervisor;
  threads = update s.threads c (selected (s.os.cpu_data c).current);
})
cpu_thread_at waiting c s =
    some (record s { threads = update s.threads c (leave_wait (s.os.cpu_data c).state) })
cpu_thread_at (calling st) c s = elim (call_handler st c s.os) [
  | none ↦ none
  | some os ↦ some (record s { os = os; threads = update s.threads c (after_call st s.os) })
]

pub cpu_thread : ℕ → Sim → Option Sim
cpu_thread c s = cpu_thread_at (s.threads c) c s

-- Whether another thread can have `simulator_mutex`.
pub unlocked : Supervisor → Bool
unlocked (simulating n) = false
unlocked doing_io = false
unlocked creating = false
unlocked exited = false
unlocked s = true

-- The supervisor simulates a process only when the thread of its CPU is in its wait.
abbrev pub Prompt : Supervisor → Sim → Type 0
Prompt (simulating n) s = (p : ℕ) → ((s.os.cpu_data n).current ≡ some p) → s.threads n ≡ waiting
Prompt q s = Unit

-- A step of a serial run, in which each call of a handler runs to its end while no other thread moves.
-- The program does not make the handlers of different CPUs exclude each other; Threads.Overlap has a
-- run in which two of them overlap.
pub data SerialStep (s t : Sim) : Type 0 where
  by_supervisor : Prompt s.supervisor s → supervise s ≡ some t → SerialStep s t
  by_cpu :
      (c : ℕ)
      → ltb c s.os.cpu_count ≡ true
      → unlocked s.supervisor ≡ true
      → cpu_thread c s ≡ some t
      → SerialStep s t

pub data SerialReach (s : Sim) : Sim → Type 0 where
  start : SerialReach s s
  later : {t u : Sim} → SerialReach s t → SerialStep t u → SerialReach s u
