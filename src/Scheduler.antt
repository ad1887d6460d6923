-- ===== src/Scheduler.antt =====
-- The scheduler of project-6/prj6/student.c, over the process control blocks and the two calls
-- `context_switch` and `force_preempt` of project-6/prj6/os-sim.c. A process is its index in
-- `processes`; a result `none` is the use of a NULL pointer. Each handler runs as one step.
pub mod Queue
pub mod Handlers
pub mod Events
mod Search
pub mod WakeUp
mod Preemption
pub mod Thread
pub mod Effects
pub mod Woken
pub mod Moves
mod Priority
mod Tests
use da_bus.Base.{
  ℕ, zero, suc, ◌+◌, ◌-◌, Bool, true, false, ◌&&◌, Option, none, some, ltb, ◌==◌, if◌then◌else◌,
}

pub data ProcessState : Type 0 where
  process_new : ProcessState
  process_ready : ProcessState
  process_running : ProcessState
  process_waiting : ProcessState
  process_terminated : ProcessState

-- `pcb_t` without the fields that no function here reads: pid, name and pc.
pub record Pcb : Type 0 where
  pub static_priority : ℕ
  pub state : ProcessState
  pub next : Option ℕ

pub record ReadyQueue : Type 0 where
  pub head : Option ℕ
  pub tail : Option ℕ
  pub count : ℕ

pub data CpuState : Type 0 where
  cpu_idle : CpuState
  cpu_running : CpuState
  cpu_preempt : CpuState
  cpu_yield : CpuState
  cpu_terminate : CpuState

-- `simulator_cpu_data_t` without its condition variable.
pub record CpuData : Type 0 where
  pub current : Option ℕ
  pub state : CpuState
  pub preemption_timer : ℕ

-- The globals of both files: `time_slice` is a 32-bit pattern.
pub record Os : Type 0 where
  pub pcbs : ℕ → Pcb
  pub queue : ReadyQueue
  pub current : ℕ → Option ℕ
  pub cpu_count : ℕ
  pub static_priority_flag : Bool
  pub time_slice : ℕ
  pub cpu_data : ℕ → CpuData
  pub context_switches : ℕ
  pub processes_terminated : ℕ

-- An array or a store after a write at `k`.
unfoldable pub update : {A : Type 0} → (ℕ → A) → ℕ → A → ℕ → A
update f k v i = if i == k then v else f i

unfoldable pub init_ready_queue : ReadyQueue → ReadyQueue
init_ready_queue q = record q { count = 0 }

unfoldable pub set_state : ℕ → ProcessState → Os → Os
set_state p s os = record os { pcbs = update os.pcbs p (record (os.pcbs p) { state = s }) }

unfoldable pub enqueue_ready : ℕ → Os → Option Os
enqueue_ready p os =
    let q = os.queue in
    if q.count == 0
    then some (record os { queue = record { head = some p; tail = some p; count = q.count + 1 } })
    else elim q.tail [
      | none ↦ none
      | some t ↦ some (record os {
        pcbs = update os.pcbs t (record (os.pcbs t) { next = some p });
        queue = record q { tail = some p; count = q.count + 1 };
      })
    ]

-- The process that is taken off, or NULL.
unfoldable pub dequeue_ready : Os → Option (Option ℕ × Os)
dequeue_ready os =
    let q = os.queue in
    if q.count == 0
    then some (none, os)
    else if q.count == 1
    then some
        (q.head, record os { queue = record { head = none; tail = none; count = q.count - 1 } })
    else elim q.head [
      | none ↦ none
      | some h ↦
          some (
            some h,
            record os { queue = record q { head = (os.pcbs h).next; count = q.count - 1 } },
          )
    ]

unfoldable pub context_switch : ℕ → Option ℕ → ℕ → Os → Os
context_switch cpu p time os = record os {
  context_switches = os.context_switches + 1;
  cpu_data =
      update os.cpu_data cpu (record (os.cpu_data cpu) { current = p; preemption_timer = time });
}

-- The CPU thread is woken up, and runs `preempt` as a step of its own.
unfoldable pub force_preempt : ℕ → Os → Os
force_preempt cpu os = elim (os.cpu_data cpu).state [
  | cpu_running ↦ record os {
    cpu_data = update os.cpu_data cpu (record (os.cpu_data cpu) { state = cpu_preempt });
  }
  | _ ↦ os
]

-- `schedule` once it has what `dequeue_ready` returns.
unfoldable pub dispatch : ℕ → Option ℕ × Os → Os
dispatch cpu (none, os) =
    context_switch cpu none os.time_slice (record os { current = update os.current cpu none })
dispatch cpu (some p, os) =
    let os' = set_state p process_running os in
    context_switch cpu (some p) os'.time_slice
      (record os' { current = update os'.current cpu (some p) })

unfoldable pub schedule : ℕ → Os → Option Os
schedule cpu os = elim (dequeue_ready os) [ none ↦ none | some r ↦ some (dispatch cpu r) ]

-- One round of the wait: a thread that goes on waiting leaves the state alone.
unfoldable pub idle : ℕ → Os → Option Os
idle cpu os = let run = schedule cpu os in if os.queue.count == 0 then some os else run

unfoldable pub preempt : ℕ → Os → Option Os
preempt cpu os = elim (os.current cpu) [
  | none ↦ none
  | some p ↦ elim (enqueue_ready p (set_state p process_ready os)) [
    | none ↦ none
    | some os' ↦ schedule cpu os'
  ]
]

unfoldable pub yield : ℕ → Os → Option Os
yield cpu os = elim (os.current cpu) [
  | none ↦ none
  | some p ↦ schedule cpu (set_state p process_waiting os)
]

unfoldable pub terminate : ℕ → Os → Option Os
terminate cpu os = elim (os.current cpu) [
  | none ↦ none
  | some p ↦ schedule cpu (set_state p process_terminated os)
]

-- What the loop of `wake_up` over the CPUs finds: an idle CPU, or the lowest priority and the CPU
-- that has it, `none` for the index -1.
pub data Lowest : Type 0 where
  idle_cpu : Lowest
  lowest : ℕ → Option ℕ → Lowest

-- The loop with `n` rounds left at CPU `i`.
unfoldable pub find_lowest : Os → ℕ → ℕ → ℕ → Option ℕ → Lowest
find_lowest os zero i lowest_priority lowest_index = lowest lowest_priority lowest_index
find_lowest os (suc n) i lowest_priority lowest_index = elim (os.current i) [
  | none ↦ idle_cpu
  | some p ↦
      let priority = (os.pcbs p).static_priority in
      let lower = find_lowest os n (i + 1) priority (some i) in
      let same = find_lowest os n (i + 1) lowest_priority lowest_index in
      if ltb priority lowest_priority then lower else same
]

-- What `wake_up` does after the loop.
unfoldable pub preempt_lowest : ℕ → Lowest → Os → Os
preempt_lowest priority idle_cpu os = os
preempt_lowest priority (lowest p none) os = os
preempt_lowest priority (lowest p (some i)) os = if ltb p priority then force_preempt i os else os

unfoldable pub wake_up : ℕ → Os → Option Os
wake_up p os = elim (enqueue_ready p (set_state p process_ready os)) [
  | none ↦ none
  | some os' ↦
      let found = find_lowest os' os'.cpu_count 0 10 none in
      let done = preempt_lowest (os'.pcbs p).static_priority found os' in
      some (if os'.static_priority_flag then done else os')
]

-- The state that a CPU thread sets for the process that the last `context_switch` selected.
unfoldable pub selected_state : Option ℕ → CpuState
selected_state none = cpu_idle
selected_state (some p) = cpu_running

-- The choice that a CPU thread makes at the head of its loop.
unfoldable pub cpu_thread_select : ℕ → Os → Os
cpu_thread_select cpu os =
    let d = os.cpu_data cpu in
    record os { cpu_data = update os.cpu_data cpu (record d { state = selected_state d.current }) }

-- The handler that a CPU thread calls for the state that it has read.
unfoldable pub call_handler : CpuState → ℕ → Os → Option Os
call_handler cpu_idle cpu os = idle cpu os
call_handler cpu_running cpu os = some os
call_handler cpu_preempt cpu os = preempt cpu os
call_handler cpu_yield cpu os = yield cpu os
call_handler cpu_terminate cpu os =
    terminate cpu (record os { processes_terminated = os.processes_terminated + 1 })

-- The handler that a CPU thread calls, once it does not run a process any more.
unfoldable pub cpu_thread_call : ℕ → Os → Option Os
cpu_thread_call cpu os = call_handler (os.cpu_data cpu).state cpu os

-- `force_preempt` waits only for a CPU that is CPU_RUNNING.
unfoldable pub if_running : CpuState → ℕ → Option ℕ
if_running cpu_running i = some i
if_running st i = none

-- The CPU on which `force_preempt` waits in `wake_up`, after the loop.
unfoldable pub forces : Os → ℕ → Lowest → Option ℕ
forces os priority idle_cpu = none
forces os priority (lowest p none) = none
forces os priority (lowest p (some i)) =
    if ltb p priority then if_running (os.cpu_data i).state i else none

-- The CPU whose thread `wake_up` waits for, if it preempts one.
unfoldable pub wake_up_waits : ℕ → Os → Option ℕ
wake_up_waits p os = elim (enqueue_ready p (set_state p process_ready os)) [
  | none ↦ none
  | some os' ↦
      let found = find_lowest os' os'.cpu_count 0 10 none in
      let waits = forces os' (os'.pcbs p).static_priority found in
      if os'.static_priority_flag then waits else none
]
