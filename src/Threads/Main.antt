-- ===== src/Threads/Main.antt =====
-- `main` of project-6/prj6/student.c: the arguments, and the start of the simulator. A string is the
-- list of its bytes, and an int its 32-bit pattern.
use da_bus.Base.{
  ◌↔◌, ℕ, ◌-◌, ◌^◌, ◌≤◌, ◌≡◌, refl, Bool, true, false, ◌&&◌, ◌||◌, Option, none, some, List, [],
  ◌∷◌, ◌++◌, arith, ltb, ◌==◌, if◌then◌else◌, length, length-append, get_or, inl, inr, Option-cases,
}
use da_bus.Assembler.Numbers.{atoi}
use da_bus.Scheduler.{ReadyQueue, init_ready_queue}
use da_bus.Threads.{Sim}
use da_bus.Threads.Start.{started, start_simulator, initial_pcbs}
use da_bus.Threads.Initial.{start_simulator-IsSim}
use da_bus.Threads.Invariant.{IsSim}

-- `strcmp(a, b) == 0`.
unfoldable pub strcmp : List ℕ → List ℕ → Bool
strcmp [] [] = true
strcmp [] (y ∷ ys) = false
strcmp (x ∷ xs) [] = false
strcmp (x ∷ xs) (y ∷ ys) = (x == y) && strcmp xs ys

-- The globals that the loop over the arguments sets; `round_robin_flag` is never read.
pub record Options : Type 0 where
  pub round_robin_flag : Bool
  pub static_priority_flag : Bool
  pub time_slice : ℕ

abbrev pub defaults : Options
defaults = record {
  round_robin_flag = false;
  static_priority_flag = false;
  time_slice = 2 ^ 32 - 1;
}

abbrev pub dash_r : List ℕ
dash_r = b'-' ∷ b'r' ∷ []

abbrev pub dash_p : List ℕ
dash_p = b'-' ∷ b'p' ∷ []

-- `argv[i + 1]` is NULL behind the last argument, where `atoi` fails.
unfoldable pub time_option : List (List ℕ) → Options → Option Options
time_option [] o = none
time_option (arg ∷ rest) o = some (record o { round_robin_flag = true; time_slice = atoi arg })

unfoldable pub priority_option : List ℕ → Options → Options
priority_option arg o = if strcmp arg dash_p then record o { static_priority_flag = true } else o

-- The loop over the arguments.
unfoldable pub parse_options : List (List ℕ) → Options → Option Options
parse_options [] o = some o
parse_options (arg ∷ rest) o = elim (if strcmp arg dash_r then time_option rest o else some o) [
  | none ↦ none
  | some o' ↦ parse_options rest (priority_option arg o')
]

-- The usage text, the use of a NULL pointer, a failed assert, exit(-1) in `start_simulator`, or the
-- start of the threads.
pub data Launched : Type 0 where
  usage : Launched
  crashes : Launched
  aborts : Launched
  exits : Launched
  simulates : Sim → Launched

-- `allocated` says that `malloc` gives `current` for that many CPUs, and `current` and `queue` are
-- what the fresh memory holds.
module _ (allocated : ℕ → Bool) (current : ℕ → Option ℕ) (queue : ReadyQueue) where
  unfoldable pub launch : ℕ → Options → Launched
  launch cpu_count o =
      let begun : Launched =
        elim (start_simulator cpu_count o.static_priority_flag o.time_slice current
          (init_ready_queue queue)) [ none ↦ exits | some s ↦ simulates s ] in
      if allocated cpu_count then begun else aborts

  unfoldable pub main : List (List ℕ) → Launched
  main argv =
      let parsed : Launched = elim (parse_options argv defaults) [
        | none ↦ crashes
        | some o ↦ launch (atoi (get_or argv 1 [])) o
      ] in
      if ltb (length argv) 2 || ltb 5 (length argv) then usage else parsed

  -- With two to five arguments, the program's name among them, that the loop reads without NULL, a
  -- number of CPUs from 1 to 16 as the first one, and memory for `current`, `main` starts the
  -- threads; that state satisfies the invariant exactly when the memory of `current`, which nothing
  -- initializes, holds NULL everywhere.
  pub main-IsSim :
      (argv : List (List ℕ)) (o : Options)
      → 2 ≤ length argv
      → length argv ≤ 5
      → parse_options argv defaults ≡ some o
      → 1 ≤ atoi (get_or argv 1 [])
      → atoi (get_or argv 1 []) ≤ 16
      → allocated (atoi (get_or argv 1 [])) ≡ true
      → let s =
          started
            (atoi (get_or argv 1 []))
            o.static_priority_flag
            o.time_slice
            current
            (init_ready_queue queue) in
        (main argv ≡ simulates s) × (IsSim s ↔ ((c : ℕ) → current c ≡ none))
  unfolding main launch init_ready_queue started initial_pcbs start_simulator
  main-IsSim argv o few many parsed low high got =
      let n = atoi (get_or argv 1 []) in
      let one : ltb n 1 ≡ false = ground arith in
      let sixteen : ltb 16 n ≡ false = ground arith in
      let f : ltb (length argv) 2 ≡ false = ground arith in
      let g : ltb 5 (length argv) ≡ false = ground arith in
      (
        rw (main, f, g, parsed, launch, got, start_simulator, one, sixteen) refl,
        (
          (λ v c. elim (Option-cases (current c)) [
            | inl e ↦ e
            | inr (p, e) ↦ absurd (ground (arith, v.os.running c p e))
          ]),
          (λ idle.
              (start_simulator-IsSim n o.static_priority_flag o.time_slice current
                (init_ready_queue queue) idle refl low high).1),
        ),
      )

strcmp_same : (xs : List ℕ) → strcmp xs xs ≡ true
unfolding strcmp
strcmp_same [] = refl
strcmp_same (x ∷ xs) = ground (arith, strcmp_same xs)

parse_options-last :
    (args : List (List ℕ)) (o : Options) → parse_options (args ++ dash_r ∷ []) o ≡ none
unfolding parse_options time_option
parse_options-last [] o = rw (parse_options, strcmp_same dash_r) refl
parse_options-last (arg ∷ rest) o =
    elim (Option-cases
      (if strcmp arg dash_r then time_option (rest ++ dash_r ∷ []) o else some o)) [
        | inl e ↦ rw (parse_options, e) refl
        | inr (o', e) ↦ rw (parse_options, e) (parse_options-last rest (priority_option arg o'))
      ]

-- With a last argument -r, behind one to four others, `main` uses a NULL pointer.
pub main-crashes :
    (allocated : ℕ → Bool) (current : ℕ → Option ℕ) (queue : ReadyQueue) (args : List (List ℕ))
    → 1 ≤ length args
    → length args ≤ 4
    → main allocated current queue (args ++ dash_r ∷ []) ≡ crashes
unfolding main
main-crashes allocated current queue args few many =
    let n = length-append args (dash_r ∷ []) in
    let f : ltb (length (args ++ dash_r ∷ [])) 2 ≡ false = ground (arith, n) in
    let g : ltb 5 (length (args ++ dash_r ∷ [])) ≡ false = ground (arith, n) in
    rw (main, f, g, parse_options-last args defaults) refl
