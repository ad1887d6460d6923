-- ===== src/Simulator/Requests.antt =====
-- The queue of I/O requests of project-6/prj6/os-sim.c over many rounds of the supervisor.
use da_bus.Base.{ℕ, zero, suc, ◌+◌, none, some, List, [], ◌∷◌}
use da_bus.Simulator.{IoRequest, simulate_io}

-- The processes whose requests complete in `n` rounds, in order, each with the rounds that are left
-- then, and the requests that are left.
unfoldable pub io_rounds : ℕ → List IoRequest → List (ℕ × ℕ) × List IoRequest
io_rounds zero queue = ([], queue)
io_rounds (suc n) queue =
    let (done, queue') = simulate_io queue in
    let (rest, left) = io_rounds n queue' in
    elim done [ none ↦ (rest, left) | some p ↦ ((p, n) ∷ rest, left) ]

-- One round for each tick of each request, and one more for its end.
abbrev pub io_work : List IoRequest → ℕ
io_work [] = 0
io_work (r ∷ queue) = r.execution_time + 1 + io_work queue

-- The processes of the requests, each with the rounds behind its own, of which `k` are more than the
-- queue needs.
abbrev pub completions : List IoRequest → ℕ → List (ℕ × ℕ)
completions [] k = []
completions (r ∷ queue) k = (r.pcb, io_work queue + k) ∷ completions queue k

abbrev pub waiting_for : List IoRequest → List ℕ
waiting_for [] = []
waiting_for (r ∷ queue) = r.pcb ∷ waiting_for queue

request : ℕ → ℕ → IoRequest
request p t = record { pcb = p; execution_time = t }
