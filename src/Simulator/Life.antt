-- ===== src/Simulator/Life.antt =====
-- The life of a process whose operations alternate, as project-6/prj6/process.c requires.
use da_bus.Base.{
  ℕ, zero, suc, ◌+◌, ◌-◌, ◌%◌, ◌^◌, ◌≡◌, refl, Option, some, List, [], ◌∷◌, arith, ltb, ◌==◌, true,
  Bool-cases, inl, inr,
}
use da_bus.Simulator.{Op, run_alone, simulate_process, next_operation}
use da_bus.Simulator.Processes.{cpu, io, ends}

-- The operations with the given CPU and I/O bursts, and a last CPU burst.
abbrev pub alternating : List (ℕ × ℕ) → ℕ → List Op
alternating [] last = cpu last ∷ ends ∷ []
alternating ((t, u) ∷ bursts) last = cpu t ∷ io u ∷ alternating bursts last

-- One round for each tick and one for each end of a CPU burst.
abbrev pub work : List (ℕ × ℕ) → ℕ → ℕ
work [] last = last + 1
work ((t, u) ∷ bursts) last = t + 1 + work bursts last

-- The I/O bursts, each with the rounds behind it, of which `k` are more than the process needs.
abbrev pub io_requests : List (ℕ × ℕ) → ℕ → ℕ → List (ℕ × ℕ)
io_requests [] last k = []
io_requests ((t, u) ∷ bursts) last k = (u, work bursts last + k) ∷ io_requests bursts last k

-- One tick of a CPU burst, with or without the end of the time slice.
tick :
    (slice t n : ℕ) (ops : List Op) (r : Option (List (ℕ × ℕ) × ℕ))
    → ((timer : ℕ) → run_alone slice n (cpu t ∷ ops) timer ≡ r)
    → (timer : ℕ) → run_alone slice (suc n) (cpu (suc t) ∷ ops) timer ≡ r
unfolding run_alone simulate_process
tick slice t n ops r h timer =
    let less : suc t - 1 ≡ t = omega arith in
    let pos : ltb 0 (suc t) ≡ true = ground arith in
    elim (Bool-cases ((timer + 2 ^ 32 - 1) % 2 ^ 32 == 0)) [
      | inl e ↦ rw (run_alone, simulate_process, e, pos, less) (h slice)
      | inr e ↦ rw (run_alone, simulate_process, e, pos, less) (h ((timer + 2 ^ 32 - 1) % 2 ^ 32))
    ]

burst :
    (slice t n : ℕ) (ops : List Op) (r : Option (List (ℕ × ℕ) × ℕ))
    → ((timer : ℕ) → run_alone slice n (cpu 0 ∷ ops) timer ≡ r)
    → (timer : ℕ) → run_alone slice (t + n) (cpu t ∷ ops) timer ≡ r
burst slice zero n ops r h timer = let e : 0 + n ≡ n = omega arith in rw e (h timer)
burst slice (suc t) n ops r h timer =
    let e : suc t + n ≡ suc (t + n) = omega arith in
    rw e (tick slice t (t + n) ops r (burst slice t n ops r h) timer)

yield_step :
    (slice n u timer : ℕ) (ops : List Op) (requests : List (ℕ × ℕ)) (left : ℕ)
    → run_alone slice n ops slice ≡ some (requests, left)
    → run_alone slice (suc n) (cpu 0 ∷ io u ∷ ops) timer ≡ some ((u, n) ∷ requests, left)
unfolding run_alone simulate_process next_operation
yield_step slice n u timer ops requests left h = rw h refl

-- A process whose operations alternate between CPU and I/O bursts, and that begins and ends with a
-- CPU burst, makes its I/O requests in order and terminates, with any time slice and any state of
-- the timer; up to each request, and to its end, it takes exactly one round for each tick and one for
-- each end of a CPU burst; the simulator's two error messages never appear.
pub run_alone-alternating :
    (bursts : List (ℕ × ℕ)) (last slice timer k : ℕ)
    → run_alone slice (work bursts last + k) (alternating bursts last) timer
      ≡ some (io_requests bursts last k, k)
unfolding run_alone simulate_process next_operation
run_alone-alternating [] last slice timer k =
    let e : last + 1 + k ≡ last + suc k = omega arith in
    rw e (burst slice last (suc k) (ends ∷ []) (some ([], k)) (λ n. refl) timer)
run_alone-alternating ((t, u) ∷ bursts) last slice timer k =
    let w = work bursts last + k in
    let e : t + 1 + work bursts last + k ≡ t + suc w = omega arith in
    rw e (
      burst slice t (suc w) (io u ∷ alternating bursts last)
        (some ((u, w) ∷ io_requests bursts last k, k))
        (λ n.
          yield_step slice w u n (alternating bursts last) (io_requests bursts last k) k
            (run_alone-alternating bursts last slice slice k))
        timer)
