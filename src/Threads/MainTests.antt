-- ===== src/Threads/MainTests.antt =====
-- `main` of project-6/prj6/student.c on arguments.
use da_bus.Base.{ℕ, ◌≡◌, ◌↔◌, refl, true, false, Option, none, List, [], ◌∷◌, arith}
use da_bus.Assembler.Numbers.{atoi}
use da_bus.Scheduler.{ReadyQueue, init_ready_queue}
use da_bus.Threads.Start.{started}
use da_bus.Threads.Invariant.{IsSim}
use da_bus.Threads.Main.{
  strcmp, time_option, priority_option, parse_options, dash_r, crashes, simulates, main, main-IsSim,
  main-crashes,
}

abbrev program_name : List ℕ
program_name = b'o' ∷ b's' ∷ []

abbrev four : List ℕ
four = b'4' ∷ []

abbrev no_processes : ℕ → Option ℕ
no_processes c = none

abbrev empty_queue : ReadyQueue
empty_queue = record { head = none; tail = none; count = 0 }

-- Four CPUs and round-robin scheduling with a slice of four ticks.
abbrev round_robin : List (List ℕ)
round_robin = program_name ∷ four ∷ dash_r ∷ four ∷ []

main-IsSim_example :
    (main (λ n. true) no_processes empty_queue round_robin
      ≡ simulates (started 4 false 4 no_processes empty_queue))
    × (IsSim (started 4 false 4 no_processes empty_queue) ↔ ((c : ℕ) → no_processes c ≡ none))
unfolding strcmp time_option priority_option parse_options atoi init_ready_queue
main-IsSim_example =
    main-IsSim (λ n. true) no_processes empty_queue round_robin
      (record { round_robin_flag = true; static_priority_flag = false; time_slice = 4 })
      (omega arith) (omega arith) refl (omega arith) (omega arith) refl

main-crashes_example :
    main (λ n. true) no_processes empty_queue (program_name ∷ four ∷ dash_r ∷ []) ≡ crashes
main-crashes_example =
    main-crashes (λ n. true) no_processes empty_queue (program_name ∷ four ∷ []) (omega arith)
      (omega arith)
