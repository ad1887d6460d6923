-- ===== src/Simulator/Programs.antt =====
-- Programs, the operations of a process that end with OP_TERMINATE, in `simulate_process` and
-- `simulate_io` of project-6/prj6/os-sim.c.
use da_bus.Base.{
  ℕ, ◌+◌, ◌-◌, ◌%◌, ◌^◌, ◌≡◌, ◌≢◌, refl, sym, ◌∙◌, Option, none, some, List, [], ◌∷◌, inl, inr,
  arith, ltb, ◌==◌, Bool-cases, drop,
}
use da_bus.Simulator.{
  Op, OpType, op_cpu, op_io, op_terminate, IoRequest, Event, runs, preempts, yields, terminates,
  scheduled_blocked, scheduled_terminated, simulate_process, next_operation, simulate_io,
}
use da_bus.Simulator.Requests.{waiting_for}

-- The operations end with OP_TERMINATE, and only there.
abbrev pub IsProgram : List Op → Type 0
IsProgram [] = ⊥
IsProgram (op ∷ []) = op.type ≡ op_terminate
IsProgram (op ∷ next ∷ ops) = (op.type ≢ op_terminate) × IsProgram (next ∷ ops)

-- The pc is at an I/O operation.
abbrev pub Blocked : List Op → Type 0
Blocked [] = ⊥
Blocked (op ∷ ops) = op.type ≡ op_io

-- What `simulate_process` leaves of a program.
abbrev pub Ticked : Event → List Op → Type 0
Ticked (yields t) ops = IsProgram ops × Blocked ops
Ticked e ops = IsProgram ops

abbrev pub Ticks : Option (Event × List Op × ℕ) → Type 0
Ticks r = (e : Event) × (ops : List Op) × (t : ℕ) × (r ≡ some (e, ops, t)) × Ticked e ops

abbrev op_of : OpType → ℕ → Op
op_of k time = record { type = k; time = time }

next_operation-Ticks :
    (k : OpType) (time : ℕ) (ops : List Op) (timer : ℕ)
    → IsProgram (op_of k time ∷ ops)
    → Ticks (next_operation (op_of k time ∷ ops) timer)
unfolding next_operation
next_operation-Ticks op_cpu time ops timer h = (runs, op_of op_cpu time ∷ ops, timer, refl, h)
next_operation-Ticks op_io time ops timer h =
    (yields time, op_of op_io time ∷ ops, timer, refl, (h, refl))
next_operation-Ticks op_terminate time ops timer h =
    (terminates, op_of op_terminate time ∷ ops, timer, refl, h)

starting-Ticks :
    (k : OpType) (time : ℕ) (ops : List Op) (timer : ℕ)
    → IsProgram (op_of k time ∷ ops)
    → Ticks (simulate_process (op_of k time ∷ ops) timer)
unfolding simulate_process
starting-Ticks op_io time ops timer h = (scheduled_blocked, op_of op_io time ∷ ops, timer, refl, h)
starting-Ticks op_terminate time ops timer h =
    (scheduled_terminated, op_of op_terminate time ∷ ops, timer, refl, h)
starting-Ticks op_cpu time [] timer h = absurd (ground (arith, h))
starting-Ticks op_cpu time (next ∷ ops) timer h = elim (Bool-cases (ltb 0 time)) [
  | inl b ↦ elim (Bool-cases ((timer + 2 ^ 32 - 1) % 2 ^ 32 == 0)) [
    | inl z ↦ (
      preempts,
      op_of op_cpu (time - 1) ∷ next ∷ ops,
      (timer + 2 ^ 32 - 1) % 2 ^ 32,
      rw (simulate_process, b, z) refl,
      h,
    )
    | inr z ↦ (
      runs,
      op_of op_cpu (time - 1) ∷ next ∷ ops,
      (timer + 2 ^ 32 - 1) % 2 ^ 32,
      rw (simulate_process, b, z) refl,
      h,
    )
  ]
  | inr b ↦
      let (e, ops', t, f, w) = next_operation-Ticks next.type next.time ops timer h.1 in
      (e, ops', t, rw (simulate_process, b) f, w)
]

-- From a program `simulate_process` reads no operation behind the array; what is left is a program,
-- whose pc is at an I/O operation if the process yields.
pub simulate_process-Ticks :
    (ops : List Op) (timer : ℕ) → IsProgram ops → Ticks (simulate_process ops timer)
simulate_process-Ticks [] timer h = elim h [ ]
simulate_process-Ticks (op ∷ ops) timer h = starting-Ticks op.type op.time ops timer h

-- Behind an I/O operation a program goes on.
pub drop-IsProgram : (ops : List Op) → IsProgram ops → Blocked ops → IsProgram (drop 1 ops)
drop-IsProgram [] h b = h
drop-IsProgram (op ∷ []) h b = absurd (ground (arith, sym h ∙ b))
drop-IsProgram (op ∷ next ∷ ops) h b = h.1

-- Either the first request is complete and leaves the queue, or the queue keeps its processes.
abbrev pub Serves : List IoRequest → Option ℕ × List IoRequest → Type 0
Serves queue (none, queue') = waiting_for queue' ≡ waiting_for queue
Serves queue (some p, queue') = waiting_for queue ≡ p ∷ waiting_for queue'

pub simulate_io-Serves : (queue : List IoRequest) → Serves queue (simulate_io queue)
unfolding simulate_io
simulate_io-Serves [] = refl
simulate_io-Serves (r ∷ queue) = elim (Bool-cases (r.execution_time == 0)) [
  | inl e ↦ rw (simulate_io, e) refl
  | inr e ↦ rw (simulate_io, e) refl
]
