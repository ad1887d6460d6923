-- ===== src/Simulator.antt =====
-- How project-6/prj6/os-sim.c runs the operations of a process, and its queue of I/O requests. A
-- process is the list of its operations from its pc on; `none` is a read behind the array.
pub mod Processes
mod Life
pub mod Programs
pub mod Bursts
pub mod Requests
mod Tests
use da_bus.Base.{
  ℕ, zero, suc, ◌+◌, ◌-◌, ◌%◌, ◌^◌, Option, none, some, List, [], ◌∷◌, ◌++◌, ltb, ◌==◌,
  if◌then◌else◌, drop,
}

pub data OpType : Type 0 where
  op_cpu : OpType
  op_io : OpType
  op_terminate : OpType

pub record Op : Type 0 where
  pub type : OpType
  pub time : ℕ

-- What `simulate_process` signals: nothing while the process runs on, the end of its time slice, a
-- yield with the time of the I/O request it submits, the end of the process, or one of its two
-- error messages.
pub data Event : Type 0 where
  runs : Event
  preempts : Event
  yields : ℕ → Event
  terminates : Event
  scheduled_blocked : Event
  scheduled_terminated : Event

-- The part after the end of a CPU burst, with the pc at the next operation.
unfoldable pub next_operation : List Op → ℕ → Option (Event × List Op × ℕ)
next_operation [] timer = none
next_operation (op ∷ ops) timer = elim op.type [
  | op_io ↦ some (yields op.time, op ∷ ops, timer)
  | op_terminate ↦ some (terminates, op ∷ ops, timer)
  | op_cpu ↦ some (runs, op ∷ ops, timer)
]

-- One round for a process that is on a CPU with the preemption timer `timer`, a 32-bit pattern.
unfoldable pub simulate_process : List Op → ℕ → Option (Event × List Op × ℕ)
simulate_process [] timer = none
simulate_process (op ∷ ops) timer = elim op.type [
  | op_cpu ↦
      let timer' = (timer + 2 ^ 32 - 1) % 2 ^ 32 in
      let ops' = record op { time = op.time - 1 } ∷ ops in
      let ticked =
        if timer' == 0 then some (preempts, ops', timer') else some (runs, ops', timer') in
      let moved = next_operation ops timer in if ltb 0 op.time then ticked else moved
  | op_io ↦ some (scheduled_blocked, op ∷ ops, timer)
  | op_terminate ↦ some (scheduled_terminated, op ∷ ops, timer)
]

-- `io_request`, with the process as the index `pcb`.
pub record IoRequest : Type 0 where
  pub pcb : ℕ
  pub execution_time : ℕ

-- The queue between `io_queue_head` and `io_queue_tail`.
unfoldable pub submit_io_request : ℕ → ℕ → List IoRequest → List IoRequest
submit_io_request p time queue = queue ++ record { pcb = p; execution_time = time } ∷ []

-- The process whose request is complete, if there is one, for which the pc moves on and `wake_up` is
-- called, and the queue. The comparison `<= 0` is on an unsigned number.
unfoldable pub simulate_io : List IoRequest → Option ℕ × List IoRequest
simulate_io [] = (none, [])
simulate_io (r ∷ queue) =
    if r.execution_time == 0
    then (some r.pcb, queue)
    else (none, record r { execution_time = r.execution_time - 1 } ∷ queue)

-- A process that always gets a CPU at once, with a time slice of `slice`, and whose I/O requests
-- complete at once: its requests, each as its time and the rounds that are left behind it, and the
-- rounds that are left when it has terminated. `none` is a process that does not terminate in
-- `rounds` rounds of the simulator, or one that gives an error message.
unfoldable pub run_alone : ℕ → ℕ → List Op → ℕ → Option (List (ℕ × ℕ) × ℕ)
run_alone slice zero ops timer = none
run_alone slice (suc rounds) ops timer = elim (simulate_process ops timer) [
  | none ↦ none
  | some (event, ops', timer') ↦ elim event [
    | runs ↦ run_alone slice rounds ops' timer'
    | preempts ↦ run_alone slice rounds ops' slice
    | yields time ↦ elim (run_alone slice rounds (drop 1 ops') slice) [
      | none ↦ none
      | some (requests, left) ↦ some ((time, rounds) ∷ requests, left)
    ]
    | terminates ↦ some ([], rounds)
    | scheduled_blocked ↦ none
    | scheduled_terminated ↦ none
  ]
]
