-- ===== src/Memory/Tests.antt =====
-- Runs of the virtual memory simulator and the witnesses.
use mathlib.Core.Option.{some_inj}
use da_bus.Base.{sym, ◌∙◌, ◌≡◌, refl, true, Option, none, some, List, [], ◌∷◌, ◌++◌, arith}
use da_bus.Memory.{
  Config, Machine, vaddr_pagenum, vaddr_offset, frame_byte, read_page, page_to_disk, page_from_disk,
  find_page, clear_entry, clear_if, tlb_clearall, tlb_clearone,
}
use da_bus.Memory.Paging.{
  clock_sweep, get_free_frame, tlb_lookup, last_match, matches, touch, tlb_hit, count_matches,
  replace_entry, find_slot, pagetable_lookup, pagefault_handler, free_from, sweep, clear_valid,
  clear_used, evict_frame, evict, map_frame, frame_table, frame_vpn,
}
use da_bus.Memory.Commands.{
  Command, fork, store, mem_load, mem_store, proc_fork, proc_switch, sim_init, run_command,
  sim_readdata, compute_emat,
}
use da_bus.Memory.Invariant.{IsConfig, IsMachine}
use da_bus.Memory.Swap.{page_from_disk-page_to_disk}
use da_bus.Memory.Accesses.{mem_load-mem_store}
use da_bus.Memory.Runs.{sim_readdata-IsMachine}

-- The globals of global.c and process.c.
abbrev defaults : Config
defaults = record { page_size = 2; mem_size = 16; tlb_size = 4; max_jobs = 8 }

abbrev defaults-IsConfig : IsConfig defaults
defaults-IsConfig = record {
  page_pos = omega arith;
  frames_pos = omega arith;
  tlb_pos = omega arith;
  small = omega arith;
}

abbrev start : Machine
start = sim_init defaults

or_start : Option Machine → Machine
or_start none = start
or_start (some m) = m

run : List Command → Machine
unfolding or_start sim_init sim_readdata run_command mem_store mem_load proc_fork proc_switch
    tlb_clearall clear_entry tlb_lookup last_match matches touch tlb_hit count_matches replace_entry
    find_slot pagetable_lookup pagefault_handler get_free_frame free_from clock_sweep sweep
    clear_valid clear_used evict_frame evict map_frame frame_table frame_vpn clear_if tlb_clearone
    page_to_disk page_from_disk find_page vaddr_pagenum vaddr_offset frame_byte
run commands = or_start (sim_readdata defaults commands start)

-- Two stores to pages 2 and 3 of process 0.
abbrev stores : List Command
stores = fork 0 ∷ store 0 5 42 ∷ store 0 6 43 ∷ []

-- All frames in use.
abbrev full : List Command
full =
    fork 0
    ∷ store 0 0 10
    ∷ store 0 2 11
    ∷ store 0 4 12
    ∷ store 0 6 13
    ∷ store 0 8 14
    ∷ store 0 10 15
    ∷ store 0 12 16
    ∷ store 0 14 17
    ∷ []

load_again : (mem_load defaults 5 (run stores)).0 ≡ 42
unfolding run
load_again = refl

-- A ninth page makes the sweep mark every page invalid. The TLB still has the old page of the
-- frame, and gives the byte of the new one for it; of a page that is not in the TLB the byte is lost.
after_sweep : (mem_load defaults 2 (run (full ++ store 0 16 18 ∷ []))).0 ≡ 18
unfolding run
after_sweep = refl

lost_byte : (mem_load defaults 8 (run (full ++ store 0 16 18 ∷ []))).0 ≡ 0
unfolding run
lost_byte = refl

-- The fifth page overruns the TLB.
overruns : (run full).overrun ≡ true
unfolding run
overruns = refl

-- A machine of two frames with large pages, and so with small tables.
abbrev small_pages : Config
small_pages = record { page_size = 512; mem_size = 1024; tlb_size = 1; max_jobs = 1 }

abbrev small_pages-IsConfig : IsConfig small_pages
small_pages-IsConfig = record {
  page_pos = omega arith;
  frames_pos = omega arith;
  tlb_pos = omega arith;
  small = omega arith;
}

abbrev pages : List Command
pages = fork 0 ∷ store 0 5 42 ∷ []

two_pages : Machine
unfolding run
two_pages = or_start (sim_readdata small_pages pages (sim_init small_pages))

pages_run : sim_readdata small_pages pages (sim_init small_pages) ≡ some two_pages
unfolding two_pages
pages_run = refl

two_pages-IsMachine : IsMachine small_pages two_pages
two_pages-IsMachine =
    let (m, ran, kept) = sim_readdata-IsMachine small_pages small_pages-IsConfig pages refl in
    let same_machine : some m ≡ some two_pages = sym ran ∙ pages_run in
    rw (← some_inj.0 same_machine) kept

mem_load-mem_store_example :
    let (loaded, m') = mem_load small_pages 600 (mem_store small_pages 600 99 two_pages) in
    (loaded ≡ 99)
    × (m'.counts.pagefaults ≡ (mem_store small_pages 600 99 two_pages).counts.pagefaults)
mem_load-mem_store_example =
    mem_load-mem_store small_pages small_pages-IsConfig 600 99 two_pages two_pages-IsMachine

page_from_disk-page_to_disk_example :
    let back = page_from_disk small_pages 1 3 0 (page_to_disk small_pages 0 3 0 two_pages) in
    (read_page small_pages 1 back.memory ≡ read_page small_pages 0 two_pages.memory)
    × (back.swapfile ≡ two_pages.swapfile)
page_from_disk-page_to_disk_example =
    page_from_disk-page_to_disk small_pages small_pages-IsConfig 0 1 3 0 two_pages (omega arith)
      (omega arith) two_pages-IsMachine

-- A second page fault and read add 300 ns: the time of the disk is counted once.
emat_of_faults :
    (compute_emat (record { pagefaults = 1; tlbhits = 0; writes = 0; reads = 1; diskaccesses = 0 })
      ≡ 10000300)
    × (compute_emat
          (record { pagefaults = 2; tlbhits = 0; writes = 0; reads = 2; diskaccesses = 0 })
        ≡ 10000600)
unfolding compute_emat
emat_of_faults = (refl, refl)
