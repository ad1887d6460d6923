-- ===== src/Simulator/Processes.antt =====
-- The simulated processes of project-6/prj6/process.c: their operations and their priorities.
use da_bus.Base.{ℕ, List, [], ◌∷◌}
use da_bus.Simulator.{Op, op_cpu, op_io, op_terminate}

abbrev pub cpu : ℕ → Op
cpu t = record { type = op_cpu; time = t }

abbrev pub io : ℕ → Op
io t = record { type = op_io; time = t }

abbrev pub ends : Op
ends = record { type = op_terminate; time = 0 }

abbrev pub pid0_ops : List Op
pid0_ops =
    cpu 2
    ∷ io 2
    ∷ cpu 3
    ∷ io 5
    ∷ cpu 1
    ∷ io 4
    ∷ cpu 2
    ∷ io 2
    ∷ cpu 3
    ∷ io 5
    ∷ cpu 1
    ∷ io 4
    ∷ cpu 2
    ∷ io 2
    ∷ cpu 3
    ∷ io 5
    ∷ cpu 1
    ∷ io 4
    ∷ cpu 2
    ∷ io 5
    ∷ cpu 1
    ∷ io 4
    ∷ cpu 2
    ∷ io 2
    ∷ cpu 3
    ∷ io 5
    ∷ cpu 1
    ∷ io 4
    ∷ cpu 2
    ∷ ends
    ∷ []

abbrev pub pid1_ops : List Op
pid1_ops =
    cpu 3
    ∷ io 4
    ∷ cpu 2
    ∷ io 6
    ∷ cpu 1
    ∷ io 3
    ∷ cpu 4
    ∷ io 4
    ∷ cpu 2
    ∷ io 6
    ∷ cpu 1
    ∷ io 3
    ∷ cpu 4
    ∷ io 4
    ∷ cpu 2
    ∷ io 6
    ∷ cpu 1
    ∷ io 3
    ∷ cpu 4
    ∷ io 3
    ∷ cpu 4
    ∷ io 4
    ∷ cpu 2
    ∷ io 6
    ∷ cpu 1
    ∷ io 3
    ∷ cpu 4
    ∷ ends
    ∷ []

abbrev pub pid2_ops : List Op
pid2_ops =
    cpu 1
    ∷ io 4
    ∷ cpu 2
    ∷ io 5
    ∷ cpu 1
    ∷ io 3
    ∷ cpu 3
    ∷ io 4
    ∷ cpu 2
    ∷ io 5
    ∷ cpu 1
    ∷ io 3
    ∷ cpu 3
    ∷ io 4
    ∷ cpu 2
    ∷ io 5
    ∷ cpu 1
    ∷ io 3
    ∷ cpu 3
    ∷ io 4
    ∷ cpu 2
    ∷ io 5
    ∷ cpu 1
    ∷ io 3
    ∷ cpu 3
    ∷ ends
    ∷ []

abbrev pub pid3_ops : List Op
pid3_ops =
    cpu 9
    ∷ io 1
    ∷ cpu 6
    ∷ io 1
    ∷ cpu 8
    ∷ io 1
    ∷ cpu 7
    ∷ io 1
    ∷ cpu 6
    ∷ io 1
    ∷ cpu 8
    ∷ io 1
    ∷ cpu 7
    ∷ io 1
    ∷ cpu 6
    ∷ io 1
    ∷ cpu 8
    ∷ io 1
    ∷ cpu 8
    ∷ ends
    ∷ []

abbrev pub pid4_ops : List Op
pid4_ops =
    cpu 10
    ∷ io 1
    ∷ cpu 14
    ∷ io 1
    ∷ cpu 7
    ∷ io 2
    ∷ cpu 11
    ∷ io 1
    ∷ cpu 14
    ∷ io 1
    ∷ cpu 7
    ∷ io 2
    ∷ cpu 11
    ∷ io 1
    ∷ cpu 14
    ∷ io 1
    ∷ cpu 7
    ∷ io 2
    ∷ cpu 11
    ∷ ends
    ∷ []

abbrev pub pid5_ops : List Op
pid5_ops =
    cpu 9
    ∷ io 1
    ∷ cpu 10
    ∷ io 2
    ∷ cpu 15
    ∷ io 1
    ∷ cpu 8
    ∷ io 1
    ∷ cpu 10
    ∷ io 2
    ∷ cpu 15
    ∷ io 1
    ∷ cpu 8
    ∷ io 1
    ∷ cpu 10
    ∷ io 2
    ∷ cpu 15
    ∷ io 1
    ∷ cpu 8
    ∷ ends
    ∷ []

abbrev pub pid6_ops : List Op
pid6_ops =
    cpu 6
    ∷ io 3
    ∷ cpu 9
    ∷ io 1
    ∷ cpu 14
    ∷ io 1
    ∷ cpu 11
    ∷ io 3
    ∷ cpu 9
    ∷ io 1
    ∷ cpu 14
    ∷ io 1
    ∷ cpu 11
    ∷ io 3
    ∷ cpu 9
    ∷ io 1
    ∷ cpu 14
    ∷ io 1
    ∷ cpu 11
    ∷ ends
    ∷ []

abbrev pub pid7_ops : List Op
pid7_ops =
    cpu 6
    ∷ io 3
    ∷ cpu 12
    ∷ io 3
    ∷ cpu 7
    ∷ io 1
    ∷ cpu 9
    ∷ io 3
    ∷ cpu 12
    ∷ io 3
    ∷ cpu 7
    ∷ io 1
    ∷ cpu 9
    ∷ io 3
    ∷ cpu 12
    ∷ io 3
    ∷ cpu 7
    ∷ io 1
    ∷ cpu 9
    ∷ ends
    ∷ []

-- One entry of `processes`: its static priority and its operations.
pub record Process : Type 0 where
  pub static_priority : ℕ
  pub ops : List Op

abbrev pub processes : List Process
processes =
    record { static_priority = 8; ops = pid0_ops }
    ∷ record { static_priority = 7; ops = pid1_ops }
    ∷ record { static_priority = 7; ops = pid2_ops }
    ∷ record { static_priority = 5; ops = pid3_ops }
    ∷ record { static_priority = 1; ops = pid4_ops }
    ∷ record { static_priority = 2; ops = pid5_ops }
    ∷ record { static_priority = 4; ops = pid6_ops }
    ∷ record { static_priority = 3; ops = pid7_ops }
    ∷ []
