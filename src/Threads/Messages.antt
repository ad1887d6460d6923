-- ===== src/Threads/Messages.antt =====
-- The two error messages of `simulate_process` in project-6/prj6/os-sim.c, a process that is
-- scheduled while it is blocked and one that is scheduled after it has terminated.
use mathlib.Core.Path.{subst}
use mathlib.Core.Option.{some_inj}
use da_bus.Base.{
  ℕ, zero, suc, ◌<◌, ◌≡◌, refl, sym, ◌∙◌, Option, none, some, List, [], ◌∷◌, inl, inr, ◌⊎◌, arith,
  Bool, true, false,
}
use da_bus.Scheduler.{ReadyQueue, cpu_thread_select}
use da_bus.Scheduler.Effects.{call_handler-Calls}
use da_bus.Scheduler.Moves.{Moves, call_handler-Moved}
use da_bus.Simulator.{Op, OpType, op_cpu, op_io, op_terminate, Event, simulate_process}
use da_bus.Simulator.Bursts.{Bursts, Alternates, Works, simulate_process-Worked}
use da_bus.Threads.{
  Sim, simulating, CpuThread, looping, waiting, calling, Prompt, cpu_thread_at, supervise,
  cpu_thread, SerialStep, by_supervisor, by_cpu, SerialReach, start, later, process_count,
}
use da_bus.Threads.Invariant.{IsSim, Stands, made_lem}
use da_bus.Threads.Start.{started, process_at, initial_pcbs}
use da_bus.Threads.Safety.{SerialReach-IsSim}
use da_bus.Threads.Bursting.{IsBursting, bursts}
use da_bus.Threads.BurstRounds.{Continues, supervise_at-Continues}
use da_bus.Threads.BurstCalls.{selects-IsBursting, leaves-IsBursting, called-IsBursting}

cpu_thread_at-Continues :
    (t : CpuThread) (c : ℕ) (s : Sim)
    → IsSim s
    → IsBursting s
    → s.threads c ≡ t
    → Continues (cpu_thread_at t c s)
unfolding cpu_thread_at cpu_thread_select
cpu_thread_at-Continues looping c s v w here = selects-IsBursting s v w c here
cpu_thread_at-Continues waiting c s v w here = leaves-IsBursting s v w c here
cpu_thread_at-Continues (calling st) c s v w here =
    let k : Stands (calling st) (s.os.cpu_data c).state (s.os.current c) =
      subst (λ t. Stands t (s.os.cpu_data c).state (s.os.current c)) here (v.stands c) in
    let (os, ys, e, u, h, _) = call_handler-Calls st c s.os v.queued v.os k (v.agree c) in
    let (os', f, m) = call_handler-Moved st c s.os v.queued v.os k in
    let same = some_inj.0 (sym f ∙ e) in
    rw (cpu_thread_at, e)
      (called-IsBursting s v w c st os here h (subst (λ o. Moves st c s.os o) same m))

SerialStep-IsBursting : {s t : Sim} → SerialStep s t → IsSim s → IsBursting s → IsBursting t
unfolding supervise cpu_thread
SerialStep-IsBursting {s} {t} (by_supervisor h e) v w =
    subst Continues e (supervise_at-Continues s.supervisor s v w refl h)
SerialStep-IsBursting {s} {t} (by_cpu c l h e) v w =
    subst Continues e (cpu_thread_at-Continues (s.threads c) c s v w refl)

SerialReach-IsBursting : {s t : Sim} → IsSim s → IsBursting s → SerialReach s t → IsBursting t
SerialReach-IsBursting v w start = w
SerialReach-IsBursting v w (later r st) =
    SerialStep-IsBursting st (SerialReach-IsSim v r) (SerialReach-IsBursting v w r)

-- In every serial run, one in which each handler runs to its end while no other thread moves, and in
-- which the supervisor simulates a process only when the thread of its CPU is in its wait,
-- from a state on that satisfies the invariant and in which the processes are at the operations that
-- fit their states: when the supervisor simulates a process of a CPU, `simulate_process` has a
-- result, and its event is none of the two error messages; a process that goes on or is preempted is
-- at a CPU operation.
pub SerialReach-Works :
    {s t : Sim}
    → IsSim s
    → IsBursting s
    → SerialReach s t
    → (n p : ℕ) → t.supervisor ≡ simulating n
    → (t.os.cpu_data n).current ≡ some p
    → Prompt (simulating n) t
    → (e : Event) × (ops : List Op) × (timer : ℕ) × (simulate_process
          (t.ops p)
          (t.os.cpu_data n).preemption_timer
        ≡ some (e, ops, timer))
      × Works e ops
SerialReach-Works {s} {t} v w r n p pos on prompt =
    let y = SerialReach-IsSim v r in
    let z = SerialReach-IsBursting v w r in
    let at = sym (y.agree n) ∙ on in
    let fits = made_lem t y p (λ i. ground (arith, sym (y.os.running n p at) ∙ i)) in
    let (e, ops, timer, f, b, _) =
      simulate_process-Worked (t.ops p) (t.os.cpu_data n).preemption_timer
        (bursts t y z n p pos at (prompt p on)) (z.alternate p fits) in
    (e, ops, timer, f, b)

alternates : List Op → Bool
alternates [] = false
alternates (op ∷ []) = elim op.type [ op_cpu ↦ false | op_io ↦ false | op_terminate ↦ true ]
alternates (op ∷ next ∷ ops) = elim op.type [
  | op_cpu ↦ alternates (next ∷ ops)
  | op_io ↦ elim next.type [
    | op_cpu ↦ alternates (next ∷ ops)
    | op_io ↦ false
    | op_terminate ↦ false
  ]
  | op_terminate ↦ false
]

alternates-Alternates : (ops : List Op) → alternates ops ≡ true → Alternates ops
unfolding alternates
alternates-Alternates [] h = absurd (ground (arith, h))
alternates-Alternates (op ∷ []) h = last op.type op.time h
  where
    last :
        (k : OpType) (t : ℕ)
        → alternates (record { type = k; time = t } ∷ []) ≡ true
        → k ≡ op_terminate
    last op_cpu t h = absurd (ground (arith, h))
    last op_io t h = absurd (ground (arith, h))
    last op_terminate t h = refl
alternates-Alternates (op ∷ next ∷ ops) h =
    let (k, l) = go op.type op.time next.type next.time h in
    (k, alternates-Alternates (next ∷ ops) l)
  where
    go :
        (k : OpType) (t : ℕ) (k' : OpType) (t' : ℕ)
        → alternates (record { type = k; time = t } ∷ record { type = k'; time = t' } ∷ ops) ≡ true
        → ((k ≡ op_cpu) ⊎ ((k ≡ op_io) × (k' ≡ op_cpu)))
          × (alternates (record { type = k'; time = t' } ∷ ops) ≡ true)
    go op_cpu t k' t' h = (inl refl, h)
    go op_io t op_cpu t' h = (inr (refl, refl), h)
    go op_io t op_io t' h = absurd (ground (arith, h))
    go op_io t op_terminate t' h = absurd (ground (arith, h))
    go op_terminate t k' t' h = absurd (ground (arith, h))

processes-alternate :
    (p : ℕ) → p < process_count → Bursts (process_at p).ops × (alternates (process_at p).ops ≡ true)
unfolding alternates process_at
processes-alternate zero h = (refl, refl)
processes-alternate (suc zero) h = (refl, refl)
processes-alternate (suc (suc zero)) h = (refl, refl)
processes-alternate (suc (suc (suc zero))) h = (refl, refl)
processes-alternate (suc (suc (suc (suc zero)))) h = (refl, refl)
processes-alternate (suc (suc (suc (suc (suc zero))))) h = (refl, refl)
processes-alternate (suc (suc (suc (suc (suc (suc zero)))))) h = (refl, refl)
processes-alternate (suc (suc (suc (suc (suc (suc (suc zero))))))) h = (refl, refl)
processes-alternate (suc (suc (suc (suc (suc (suc (suc (suc p)))))))) h = absurd (omega arith)

-- `start_simulator` leaves the processes at operations that fit their states.
pub started-IsBursting :
    (cpus : ℕ) (flag : Bool) (slice : ℕ) (current : ℕ → Option ℕ) (queue : ReadyQueue)
    → ((c : ℕ) → current c ≡ none)
    → IsBursting (started cpus flag slice current queue)
unfolding started initial_pcbs
started-IsBursting cpus flag slice current queue idle = record {
  alternate = λ p h. alternates-Alternates (process_at p).ops (processes-alternate p h).1;
  ready = λ p h _. (processes-alternate p h).0;
  on = λ c p h. absurd (ground (arith, sym (idle c) ∙ h));
  pending = λ c e. absurd e;
  resumes = tt;
}
