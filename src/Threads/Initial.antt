-- ===== src/Threads/Initial.antt =====
-- The state in which `start_simulator` of project-6/prj6/os-sim.c leaves the program.
use da_bus.Base.{
  ℕ, zero, suc, ◌≤◌, ◌<◌, ◌≡◌, ◌≢◌, refl, sym, ◌∙◌, Option, none, some, List, [], ◌∷◌, inl, inr,
  ◌⊎◌, arith, Bool, true, false, ltb,
}
use da_bus.Scheduler.{ReadyQueue}
use da_bus.Simulator.{Op, OpType, op_cpu, op_io, op_terminate}
use da_bus.Simulator.Programs.{IsProgram}
use da_bus.Threads.{process_count}
use da_bus.Threads.Start.{started, start_simulator, initial_pcbs, process_at}
use da_bus.Threads.Invariant.{IsSim}

is_program : List Op → Bool
is_program [] = false
is_program (op ∷ []) = elim op.type [ op_cpu ↦ false | op_io ↦ false | op_terminate ↦ true ]
is_program (op ∷ next ∷ ops) = elim op.type [
  | op_cpu ↦ is_program (next ∷ ops)
  | op_io ↦ is_program (next ∷ ops)
  | op_terminate ↦ false
]

is_program-IsProgram : (ops : List Op) → is_program ops ≡ true → IsProgram ops
unfolding is_program
is_program-IsProgram [] h = absurd (ground (arith, h))
is_program-IsProgram (op ∷ []) h = last op.type op.time h
  where
    last :
        (k : OpType) (t : ℕ)
        → is_program (record { type = k; time = t } ∷ []) ≡ true
        → k ≡ op_terminate
    last op_cpu t h = absurd (ground (arith, h))
    last op_io t h = absurd (ground (arith, h))
    last op_terminate t h = refl
is_program-IsProgram (op ∷ next ∷ ops) h =
    let (k, l) = go op.type op.time h in (k, is_program-IsProgram (next ∷ ops) l)
  where
    go :
        (k : OpType) (t : ℕ)
        → is_program (record { type = k; time = t } ∷ next ∷ ops) ≡ true
        → (k ≢ op_terminate) × (is_program (next ∷ ops) ≡ true)
    go op_cpu t h = ((λ e. ground (arith, e)), h)
    go op_io t h = ((λ e. ground (arith, e)), h)
    go op_terminate t h = absurd (ground (arith, h))

processes-are_programs : (p : ℕ) → p < process_count → is_program (process_at p).ops ≡ true
unfolding is_program process_at
processes-are_programs zero h = refl
processes-are_programs (suc zero) h = refl
processes-are_programs (suc (suc zero)) h = refl
processes-are_programs (suc (suc (suc zero))) h = refl
processes-are_programs (suc (suc (suc (suc zero)))) h = refl
processes-are_programs (suc (suc (suc (suc (suc zero))))) h = refl
processes-are_programs (suc (suc (suc (suc (suc (suc zero)))))) h = refl
processes-are_programs (suc (suc (suc (suc (suc (suc (suc zero))))))) h = refl
processes-are_programs (suc (suc (suc (suc (suc (suc (suc (suc p)))))))) h = absurd (omega arith)

-- For a count of CPUs from 1 to 16, with an empty ready queue and no process in `current`,
-- `start_simulator` starts in a state that satisfies the invariant.
pub start_simulator-IsSim :
    (cpus : ℕ) (flag : Bool) (slice : ℕ) (current : ℕ → Option ℕ) (queue : ReadyQueue)
    → ((c : ℕ) → current c ≡ none)
    → queue.count ≡ 0
    → 1 ≤ cpus
    → cpus ≤ 16
    → (start_simulator cpus flag slice current queue ≡ some (started cpus flag slice current queue))
      × IsSim (started cpus flag slice current queue)
unfolding start_simulator started initial_pcbs
start_simulator-IsSim cpus flag slice current queue idle empty low high =
    let e : ltb cpus 1 ≡ false = ground arith in
    let f : ltb 16 cpus ≡ false = ground arith in
    (
      rw (start_simulator, e, f) refl,
      record {
        queued = [];
        os = record {
          queue = record {
            counted = empty;
            headed = λ h. absurd (omega arith);
            tailed = λ h. absurd (omega arith);
            linked = tt;
          };
          nodup = tt;
          ready = λ p h. absurd (ground (arith, h));
          running = λ c p h. absurd (ground (arith, sym (idle c) ∙ h));
          exclusive = λ c d p h k. absurd (ground (arith, sym (idle c) ∙ h));
        };
        agree = λ c. sym (idle c);
        stands = λ c. tt;
        programs = λ p h. is_program-IsProgram (process_at p).ops (processes-are_programs p h);
        requests = λ p h. absurd (ground (arith, h));
        distinct = tt;
        fresh = λ p h. refl;
        few = omega arith;
        woken = tt;
      },
    )

-- For any other count of CPUs `start_simulator` exits.
pub start_simulator_refuses :
    (cpus : ℕ) (flag : Bool) (slice : ℕ) (current : ℕ → Option ℕ) (queue : ReadyQueue)
    → (cpus < 1) ⊎ (16 < cpus)
    → start_simulator cpus flag slice current queue ≡ none
unfolding start_simulator
start_simulator_refuses cpus flag slice current queue (inl l) =
    let e : ltb cpus 1 ≡ true = ground arith in rw (start_simulator, e) refl
start_simulator_refuses cpus flag slice current queue (inr l) =
    let e : ltb cpus 1 ≡ false = ground arith in
    let f : ltb 16 cpus ≡ true = ground arith in rw (start_simulator, e, f) refl
