-- ===== src/Memory/Program.antt =====
-- The lines of the references file and `main` in project-4/prj4/simulator-src/sim.c: what `strtok`
-- cuts out of a line, the command that it is, and the whole run.
use da_bus.Base.{
  ℕ, ◌%◌, ◌<◌, ◌≡◌, refl, Bool, true, ◌||◌, Option, none, some, List, [], ◌∷◌, ◌++◌, ltb, ◌==◌,
  if◌then◌else◌, get_or, Option-cases, inl, inr,
}
use da_bus.Assembler.Numbers.{atoi}
use da_bus.Memory.{Config, Machine}
use da_bus.Memory.Commands.{
  Command, fork, load, store, ignored, run_command, sim_init, sim_readdata,
}
use da_bus.Memory.Invariant.{IsMachine}
use da_bus.Memory.Options.{sim_setoptions, IsSized, sim_setoptions-IsConfig}
use da_bus.Memory.Runs.{is_served, sim_readdata-IsMachine}

-- A char of WHITESPACE.
unfoldable pub is_white : ℕ → Bool
is_white c = (c == 32) || (c == 9) || (c == 10) || (c == 13)

-- A word that `strtok` has come to the end of; there are no empty ones.
unfoldable pub flush : List ℕ → List (List ℕ) → List (List ℕ)
flush [] rest = rest
flush (c ∷ word) rest = (c ∷ word) ∷ rest

-- The results of `strtok`, behind the word that is read.
unfoldable pub strtok_from : List ℕ → List ℕ → List (List ℕ)
strtok_from word [] = flush word []
strtok_from word (c ∷ rest) =
    let ends = flush word (strtok_from [] rest) in
    let goes_on = strtok_from (word ++ c ∷ []) rest in if is_white c then ends else goes_on

-- A fork reads its name, behind the number, when the number is below `max_jobs`.
unfoldable pub fork_command : Config → List (List ℕ) → Option Command
fork_command c [] = none
fork_command c (pid ∷ []) = if ltb (atoi pid) c.max_jobs then none else some (fork (atoi pid))
fork_command c (pid ∷ name ∷ rest) = some (fork (atoi pid))

unfoldable pub load_command : List (List ℕ) → Option Command
load_command (pid ∷ addr ∷ val ∷ rest) = some (load (atoi pid) (atoi addr))
load_command args = none

unfoldable pub store_command : List (List ℕ) → Option Command
store_command (pid ∷ addr ∷ val ∷ rest) = some (store (atoi pid) (atoi addr) (atoi val % 256))
store_command args = none

-- The command of a line's words; `none` is the use of a NULL pointer.
unfoldable pub words_command : Config → List (List ℕ) → Option Command
words_command c [] = none
words_command c (cmd ∷ args) =
    let k = get_or cmd 0 0 in
    if k == b'@'
    then fork_command c args
    else if k == b'l'
    then load_command args
    else if k == b's'
    then store_command args
    else some ignored

unfoldable pub read_line : Config → List ℕ → Option Command
read_line c line = words_command c (strtok_from [] line)

-- The loop of `sim_readdata` over the lines as fgets gives them.
unfoldable pub run_lines : Config → List (List ℕ) → Machine → Option Machine
run_lines c [] m = some m
run_lines c (line ∷ rest) m = elim (read_line c line) [
  | none ↦ none
  | some command ↦ elim (run_command c command m) [ none ↦ none | some m' ↦ run_lines c rest m' ]
]

-- The exit of `sim_setoptions`, the exit of `sim_readdata` on a file that does not open, a NULL
-- pointer or a failed assert, or the end of the run.
pub data Ending : Type 0 where
  rejects : Ending
  unopened : Ending
  crashes : Ending
  finishes : Machine → Ending

unfoldable pub run_file : Config → Option (List (List ℕ)) → Ending
run_file c none = unopened
run_file c (some lines) = elim (run_lines c lines (sim_init c)) [
  | none ↦ crashes
  | some m ↦ finishes m
]

-- `file` gives the lines of the file of that name.
unfoldable pub main :
    (List ℕ → Option (List (List ℕ))) → List (ℕ × Option (List ℕ)) → List (List ℕ) → Config → Ending
main file opts operands c = elim (sim_setoptions opts operands c) [
  | none ↦ rejects
  | some (c', filename) ↦ run_file c' (file filename)
]

-- Each line is one of the commands.
abbrev pub Reads : Config → List (List ℕ) → List Command → Type 0
Reads c [] [] = Unit
Reads c [] (command ∷ commands) = ⊥
Reads c (line ∷ lines) [] = ⊥
Reads c (line ∷ lines) (command ∷ commands) =
    (read_line c line ≡ some command) × Reads c lines commands

run_lines-sim_readdata :
    (c : Config) (lines : List (List ℕ)) (commands : List Command) (m : Machine)
    → Reads c lines commands
    → run_lines c lines m ≡ sim_readdata c commands m
unfolding run_lines sim_readdata
run_lines-sim_readdata c [] [] m h = refl
run_lines-sim_readdata c [] (command ∷ commands) m h = elim h [ ]
run_lines-sim_readdata c (line ∷ lines) [] m h = elim h [ ]
run_lines-sim_readdata c (line ∷ lines) (command ∷ commands) m (e, h) =
    elim (Option-cases (run_command c command m)) [
      | inl f ↦ rw (run_lines, e, sim_readdata, f) refl
      | inr (m', f) ↦
          rw (run_lines, e, sim_readdata, f) (run_lines-sim_readdata c lines commands m' h)
    ]

-- When the options are accepted, with a TLB entry at least, the file opens, and its lines are
-- commands that use only processes forked before, the program runs to its end, with no NULL pointer
-- used and no failed assert; then the memory, the TLB and the reverse lookup table have their sizes,
-- every frame number in the TLB and in a page table is one of the memory, and the swap file has whole
-- pages. The write behind a full TLB (`overrun`) is not excluded.
pub main-IsMachine :
    (file : List ℕ → Option (List (List ℕ))) (opts : List (ℕ × Option (List ℕ)))
    (operands : List (List ℕ)) (c c' : Config) (name : List ℕ) (lines : List (List ℕ))
    (commands : List Command)
    → IsSized c
    → sim_setoptions opts operands c ≡ some (c', name)
    → 0 < c'.tlb_size
    → file name ≡ some lines
    → Reads c' lines commands
    → is_served c' [] commands ≡ true
    → (m : Machine) × (main file opts operands c ≡ finishes m) × IsMachine c' m
unfolding main run_file
main-IsMachine file opts operands c c' name lines commands v set tlb opens reads served =
    let (k, _) = sim_setoptions-IsConfig opts operands c c' name v set tlb in
    let (m, e, w) = sim_readdata-IsMachine c' k commands served in
    let same = run_lines-sim_readdata c' lines commands (sim_init c') reads in
    (m, rw (main, set, run_file, opens, same, e) refl, w)
