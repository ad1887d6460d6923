-- ===== src/Memory/ProgramTests.antt =====
-- A run of project-4/prj4/simulator-src/sim.c from its options and the lines of its file.
use da_bus.Base.{ℕ, ◌≡◌, refl, Option, some, List, [], ◌∷◌, arith}
use da_bus.Assembler.Numbers.{atoi}
use da_bus.Memory.{Config, Machine}
use da_bus.Memory.Commands.{Command, fork, load, store}
use da_bus.Memory.Invariant.{IsMachine}
use da_bus.Memory.Options.{
  number_option, with_number, set_option, set_options, sim_setoptions, IsSized,
}
use da_bus.Memory.Program.{
  is_white, flush, strtok_from, fork_command, load_command, store_command, words_command, read_line,
  Reads, finishes, main, main-IsMachine,
}

abbrev defaults : Config
defaults = record { page_size = 2; mem_size = 16; tlb_size = 4; max_jobs = 8 }

defaults-IsSized : IsSized defaults
defaults-IsSized = record {
  page = (omega arith, omega arith);
  memory = (omega arith, omega arith);
  tlb = omega arith;
  jobs = omega arith;
}

-- -p 3 -m 6
abbrev options : List (ℕ × Option (List ℕ))
options = (b'p', some (b'3' ∷ [])) ∷ (b'm', some (b'6' ∷ [])) ∷ []

abbrev name : List ℕ
name = b'f' ∷ []

abbrev larger : Config
larger = record { page_size = 8; mem_size = 64; tlb_size = 4; max_jobs = 8 }

setoptions-larger : sim_setoptions options (name ∷ []) defaults ≡ some (larger, name)
unfolding sim_setoptions set_options set_option with_number number_option atoi
setoptions-larger = refl

-- @ 1 a
-- s 1 5 7
-- l 1 5 7
abbrev lines : List (List ℕ)
lines =
    (b'@' ∷ b' ' ∷ b'1' ∷ b' ' ∷ b'a' ∷ 10 ∷ [])
    ∷ (b's' ∷ b' ' ∷ b'1' ∷ b' ' ∷ b'5' ∷ b' ' ∷ b'7' ∷ 10 ∷ [])
    ∷ (b'l' ∷ b' ' ∷ b'1' ∷ b' ' ∷ b'5' ∷ b' ' ∷ b'7' ∷ 10 ∷ [])
    ∷ []

abbrev commands : List Command
commands = fork 1 ∷ store 1 5 7 ∷ load 1 5 ∷ []

lines-commands : Reads larger lines commands
unfolding read_line words_command strtok_from flush is_white fork_command load_command store_command
    atoi
lines-commands = (refl, (refl, (refl, tt)))

abbrev one_file : List ℕ → Option (List (List ℕ))
one_file n = some lines

main-IsMachine_example :
    (m : Machine) × (main one_file options (name ∷ []) defaults ≡ finishes m) × IsMachine larger m
main-IsMachine_example =
    main-IsMachine one_file options (name ∷ []) defaults larger name lines commands defaults-IsSized
      setoptions-larger (omega arith) refl lines-commands refl
