-- ===== src/Simulator/Bursts.antt =====
-- Operations that alternate, in `simulate_process` of project-6/prj6/os-sim.c.
use da_bus.Base.{
  ℕ, ◌+◌, ◌-◌, ◌%◌, ◌^◌, ◌≡◌, refl, sym, ◌∙◌, Option, some, List, [], ◌∷◌, inl, inr, ◌⊎◌, arith,
  ltb, ◌==◌, Bool-cases, drop,
}
use da_bus.Simulator.{
  Op, OpType, op_cpu, op_io, op_terminate, Event, runs, preempts, yields, terminates,
  scheduled_blocked, scheduled_terminated, simulate_process, next_operation,
}
use da_bus.Simulator.Programs.{Blocked}

-- The pc is at a CPU operation.
abbrev pub Bursts : List Op → Type 0
Bursts [] = ⊥
Bursts (op ∷ ops) = op.type ≡ op_cpu

-- A CPU operation follows each I/O operation, and OP_TERMINATE is the last one.
abbrev pub Alternates : List Op → Type 0
Alternates [] = ⊥
Alternates (op ∷ []) = op.type ≡ op_terminate
Alternates (op ∷ next ∷ ops) =
    ((op.type ≡ op_cpu) ⊎ ((op.type ≡ op_io) × (next.type ≡ op_cpu))) × Alternates (next ∷ ops)

-- The event is none of the two messages, and a process that goes on is at a CPU operation.
abbrev pub Works : Event → List Op → Type 0
Works runs ops = Bursts ops
Works preempts ops = Bursts ops
Works (yields t) ops = Unit
Works terminates ops = Unit
Works scheduled_blocked ops = ⊥
Works scheduled_terminated ops = ⊥

abbrev pub Worked : Option (Event × List Op × ℕ) → Type 0
Worked r =
    (e : Event) × (ops : List Op) × (t : ℕ) × (r ≡ some (e, ops, t)) × Works e ops × Alternates ops

next_operation-Worked :
    (k : OpType) (time : ℕ) (ops : List Op) (timer : ℕ)
    → Alternates (record { type = k; time = time } ∷ ops)
    → Worked (next_operation (record { type = k; time = time } ∷ ops) timer)
unfolding next_operation
next_operation-Worked op_cpu time ops timer h =
    (runs, record { type = op_cpu; time = time } ∷ ops, timer, refl, refl, h)
next_operation-Worked op_io time ops timer h =
    (yields time, record { type = op_io; time = time } ∷ ops, timer, refl, tt, h)
next_operation-Worked op_terminate time ops timer h =
    (terminates, record { type = op_terminate; time = time } ∷ ops, timer, refl, tt, h)

starting-Worked :
    (k : OpType) (time : ℕ) (ops : List Op) (timer : ℕ)
    → k ≡ op_cpu
    → Alternates (record { type = k; time = time } ∷ ops)
    → Worked (simulate_process (record { type = k; time = time } ∷ ops) timer)
unfolding simulate_process
starting-Worked op_io time ops timer b h = absurd (ground (arith, b))
starting-Worked op_terminate time ops timer b h = absurd (ground (arith, b))
starting-Worked op_cpu time [] timer b h = absurd (ground (arith, h))
starting-Worked op_cpu time (next ∷ ops) timer b h =
    let less : List Op = record { type = op_cpu; time = time - 1 } ∷ next ∷ ops in
    let timer' = (timer + 2 ^ 32 - 1) % 2 ^ 32 in
    elim (Bool-cases (ltb 0 time)) [
      | inl l ↦ elim (Bool-cases ((timer + 2 ^ 32 - 1) % 2 ^ 32 == 0)) [
        | inl z ↦ (preempts, less, timer', rw (simulate_process, l, z) refl, refl, h)
        | inr z ↦ (runs, less, timer', rw (simulate_process, l, z) refl, refl, h)
      ]
      | inr l ↦
          let (e, ops', t, f, w, a) = next_operation-Worked next.type next.time ops timer h.1 in
          (e, ops', t, rw (simulate_process, l) f, w, a)
    ]

-- A process that is at a CPU operation gets none of the two messages.
pub simulate_process-Worked :
    (ops : List Op) (timer : ℕ) → Bursts ops → Alternates ops → Worked (simulate_process ops timer)
simulate_process-Worked [] timer b h = elim b [ ]
simulate_process-Worked (op ∷ ops) timer b h = starting-Worked op.type op.time ops timer b h

-- Behind an I/O operation the pc is at a CPU operation.
pub drop-Bursts :
    (ops : List Op) → Blocked ops → Alternates ops → Bursts (drop 1 ops) × Alternates (drop 1 ops)
drop-Bursts [] b h = elim b [ ]
drop-Bursts (op ∷ []) b h = absurd (ground (arith, sym b ∙ h))
drop-Bursts (op ∷ next ∷ ops) b (k, h) = elim k [
  | inl e ↦ absurd (ground (arith, sym b ∙ e))
  | inr (_, e) ↦ (e, h)
]
