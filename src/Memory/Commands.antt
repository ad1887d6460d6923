-- ===== src/Memory/Commands.antt =====
-- memory.c, process.c and the commands of sim.c in project-4/prj4/simulator-src.
use da_bus.Base.{
  ℕ, ◌+◌, ◌-◌, ◌*◌, ◌%◌, ◌^◌, Bool, true, false, not, Option, none, some, List, [], ◌∷◌, ◌++◌, ltb,
  ◌==◌, if◌then◌else◌, length, get_or, set, replicate,
}
use da_bus.Memory.{
  Config, Machine, Counts, null_pte, null_tlbe, null_pcb, null_rlt, count_up, vaddr_pagenum,
  vaddr_offset, num_pte, num_frames, frame_byte, pcb_at, tlb_clearall,
}
use da_bus.Memory.Paging.{tlb_lookup}

abbrev pub count_read : Machine → Machine
count_read m = record m { counts = record m.counts { reads = count_up m.counts.reads } }

-- The byte loaded, and the state after it.
unfoldable pub mem_load : Config → ℕ → Machine → ℕ × Machine
mem_load c va m =
    let (pfn, m') = tlb_lookup c (vaddr_pagenum c va) false m in
    (get_or m'.memory (frame_byte c pfn (vaddr_offset c va)) 0, count_read m')

unfoldable pub mem_store : Config → ℕ → ℕ → Machine → Machine
mem_store c va value m =
    let (pfn, m') = tlb_lookup c (vaddr_pagenum c va) true m in
    record m' {
      memory = set m'.memory (frame_byte c pfn (vaddr_offset c va)) value;
      counts = record m'.counts { writes = count_up m'.counts.writes };
    }

-- The assert on `pid` holds where this is called. The name is left out.
unfoldable pub proc_fork : Config → ℕ → Machine → Machine
proc_fork c pid m = record m {
  tables = m.tables ++ (replicate (num_pte c) null_pte ∷ []);
  proc_list = set m.proc_list pid (record { pid = pid; pagetable = some (length m.tables) });
}

-- `none` is a failed assert: the process has no page table.
unfoldable pub proc_switch : ℕ → Machine → Option Machine
proc_switch pid m = elim (pcb_at pid m).pagetable [
  | none ↦ none
  | some t ↦ some (tlb_clearall (record m { current = some pid; current_pagetable = some t }))
]

-- What `mem_init`, `proc_init` and `tlb_init` allocate.
unfoldable pub sim_init : Config → Machine
sim_init c = record {
  memory = replicate c.mem_size 0;
  tlb = replicate c.tlb_size null_tlbe;
  rlt = replicate (num_frames c) null_rlt;
  proc_list = replicate c.max_jobs null_pcb;
  tables = [];
  current = none;
  current_pagetable = none;
  swapfile = [];
  counts = record { pagefaults = 0; tlbhits = 0; writes = 0; reads = 0; diskaccesses = 0 };
  overrun = false;
  faulted = false;
}

-- A line of the references file, its numbers read; the value of a load is only compared.
pub data Command : Type 0 where
  fork : ℕ → Command
  load : ℕ → ℕ → Command
  store : ℕ → ℕ → ℕ → Command
  ignored : Command

-- `current == NULL || current->pid != pid`
abbrev pub must_switch : ℕ → Machine → Bool
must_switch pid m = elim m.current [ none ↦ true | some p ↦ not ((pcb_at p m).pid == pid) ]

abbrev pub switched : ℕ → Machine → Option Machine
switched pid m = if must_switch pid m then proc_switch pid m else some m

-- The state behind an access; `none` is a failed assert, or the use of a NULL pointer.
abbrev pub unfaulted : Machine → Option Machine
unfaulted m = if m.faulted then none else some m

-- Addresses are cut to 16 bits and values to a byte; `none` as for `unfaulted`.
unfoldable pub run_command : Config → Command → Machine → Option Machine
run_command c (fork pid) m = some (if ltb pid c.max_jobs then proc_fork c pid m else m)
run_command c (load pid addr) m =
    if ltb pid c.max_jobs
    then elim (switched pid m) [
      | none ↦ none
      | some m' ↦ unfaulted (mem_load c (addr % 2 ^ 16) m').1
    ]
    else some m
run_command c (store pid addr val) m =
    if ltb pid c.max_jobs
    then elim (switched pid m) [
      | none ↦ none
      | some m' ↦ unfaulted (mem_store c (addr % 2 ^ 16) (val % 256) m')
    ]
    else some m
run_command c ignored m = some m

unfoldable pub sim_readdata : Config → List Command → Machine → Option Machine
sim_readdata c [] m = some m
sim_readdata c (command ∷ rest) m = elim (run_command c command m) [
  | none ↦ none
  | some m' ↦ sim_readdata c rest m'
]

-- The sum that `compute_emat` converts to a double, as a long.
unfoldable pub compute_emat : Counts → ℕ
compute_emat n =
    let total_accesses = (n.writes + n.reads) % 2 ^ 64 in
    let tlb_misses = (total_accesses + 2 ^ 64 - n.tlbhits) % 2 ^ 64 in
    let tlbhits_time = n.tlbhits * 100 % 2 ^ 64 in
    let tlbmisses_time = tlb_misses * 2 * 100 % 2 ^ 64 in
    let pagefaults_time = (n.pagefaults * 100 + 10000000) % 2 ^ 64 in
    (tlbhits_time + tlbmisses_time + pagefaults_time) % 2 ^ 64
