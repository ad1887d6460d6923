-- ===== src/Simulator/Tests.antt =====
-- The simulated processes, and the theorems at one of them.
use da_bus.Base.{ℕ, ◌+◌, ◌≡◌, refl, some, List, [], ◌∷◌}
use da_bus.Simulator.{IoRequest, run_alone}
use da_bus.Simulator.Processes.{pid6_ops}
use da_bus.Simulator.Life.{alternating, io_requests, work, run_alone-alternating}

-- The bursts of the process Cmysql.
abbrev cmysql : List (ℕ × ℕ)
cmysql = (6, 3) ∷ (9, 1) ∷ (14, 1) ∷ (11, 3) ∷ (9, 1) ∷ (14, 1) ∷ (11, 3) ∷ (9, 1) ∷ (14, 1) ∷ []

-- Its operations alternate.
cmysql_ops : pid6_ops ≡ alternating cmysql 11
cmysql_ops = refl

-- It terminates with a time slice of two ticks.
run_alone-alternating_example :
    run_alone 2 (work cmysql 11 + 5) (alternating cmysql 11) 2 ≡ some (io_requests cmysql 11 5, 5)
run_alone-alternating_example = run_alone-alternating cmysql 11 2 2 5

abbrev requests : List IoRequest
requests = record { pcb = 3; execution_time = 1 } ∷ record { pcb = 0; execution_time = 4 } ∷ []
