-- ===== src/Memory.antt =====
-- The virtual memory simulator of project-4/prj4: its state, the swap file of
-- simulator-src/swapfile.c and the TLB of simulator-src/tlb.c. A page table is on a heap of page
-- tables, and a pointer to one its place there; a pointer to a process is its place in `proc_list`.
-- Allocation succeeds.
mod Paging
mod Commands
mod Invariant
mod Swap
mod Sweep
mod Matches
mod Kept
mod Loads
mod Accesses
mod Pointers
mod Runs
mod Options
mod Program
mod ProgramTests
mod Tests
use da_bus.Base.{
  ◌||◌, ℕ, zero, suc, ◌+◌, ◌*◌, ◌/◌, ◌%◌, ◌^◌, Bool, true, false, ◌&&◌, not, Option, none, some,
  List, [], ◌∷◌, ◌++◌, ltb, ◌==◌, if◌then◌else◌, get_or, set, take, drop, replicate, map,
}

pub record Pte : Type 0 where
  pub pfn : ℕ
  pub valid : Bool
  pub dirty : Bool
  pub used : Bool

pub record Tlbe : Type 0 where
  pub vpn : ℕ
  pub pfn : ℕ
  pub valid : Bool
  pub dirty : Bool
  pub used : ℕ

-- `pagetable` is NULL before the process is forked.
pub record Pcb : Type 0 where
  pub pid : ℕ
  pub pagetable : Option ℕ

pub record Rlt : Type 0 where
  pub pcb : Option ℕ
  pub vpn : ℕ

pub record SwapPage : Type 0 where
  pub pid : ℕ
  pub vpn : ℕ
  pub page_data : List ℕ

pub record Counts : Type 0 where
  pub pagefaults : ℕ
  pub tlbhits : ℕ
  pub writes : ℕ
  pub reads : ℕ
  pub diskaccesses : ℕ

-- The globals that the options set.
pub record Config : Type 0 where
  pub page_size : ℕ
  pub mem_size : ℕ
  pub tlb_size : ℕ
  pub max_jobs : ℕ

-- `overrun` says that `tlb_lookup` has written outside the TLB, and `faulted` that a NULL pointer has
-- been used or an assert of `pagefault_handler` has failed.
pub record Machine : Type 0 where
  pub memory : List ℕ
  pub tlb : List Tlbe
  pub rlt : List Rlt
  pub proc_list : List Pcb
  pub tables : List (List Pte)
  pub current : Option ℕ
  pub current_pagetable : Option ℕ
  pub swapfile : List SwapPage
  pub counts : Counts
  pub overrun : Bool
  pub faulted : Bool

abbrev pub null_pte : Pte
null_pte = record { pfn = 0; valid = false; dirty = false; used = false }

abbrev pub null_tlbe : Tlbe
null_tlbe = record { vpn = 0; pfn = 0; valid = false; dirty = false; used = 0 }

abbrev pub null_pcb : Pcb
null_pcb = record { pid = 0; pagetable = none }

abbrev pub null_rlt : Rlt
null_rlt = record { pcb = none; vpn = 0 }

-- `n++` on an unsigned long.
abbrev pub count_up : ℕ → ℕ
count_up n = (n + 1) % 2 ^ 64

unfoldable pub vaddr_pagenum : Config → ℕ → ℕ
vaddr_pagenum c addr = addr / c.page_size

unfoldable pub vaddr_offset : Config → ℕ → ℕ
vaddr_offset c addr = addr % c.page_size

abbrev pub num_pte : Config → ℕ
num_pte c = 2 ^ 16 / c.page_size

abbrev pub num_frames : Config → ℕ
num_frames c = c.mem_size / c.page_size

-- The place of a byte of a frame in `memory`.
unfoldable pub frame_byte : Config → ℕ → ℕ → ℕ
frame_byte c pfn offset = (pfn * c.page_size + offset) % 2 ^ 32

abbrev pub pte_at : Option ℕ → ℕ → Machine → Pte
pte_at none vpn m = null_pte
pte_at (some t) vpn m = get_or (get_or m.tables t []) vpn null_pte

abbrev pub set_pte : Option ℕ → ℕ → Pte → Machine → Machine
set_pte none vpn pte m = record m { faulted = true }
set_pte (some t) vpn pte m = record m {
  tables = set m.tables t (set (get_or m.tables t []) vpn pte);
}

abbrev pub is_null : Option ℕ → Bool
is_null none = true
is_null (some p) = false

abbrev pub fault_if : Bool → Machine → Machine
fault_if b m = record m { faulted = m.faulted || b }

abbrev pub pcb_at : ℕ → Machine → Pcb
pcb_at p m = get_or m.proc_list p null_pcb

unfoldable pub clear_entry : Tlbe → Tlbe
clear_entry e = record e { valid = false; dirty = false; used = 0 }

unfoldable pub tlb_clearall : Machine → Machine
tlb_clearall m = record m { tlb = map clear_entry m.tlb }

unfoldable pub clear_if : ℕ → Tlbe → Tlbe
clear_if vpn e = if e.vpn == vpn then clear_entry e else e

unfoldable pub tlb_clearone : ℕ → Machine → Machine
tlb_clearone vpn m = record m { tlb = map (clear_if vpn) m.tlb }

-- `memcpy` to and from a frame.
abbrev pub read_page : Config → ℕ → List ℕ → List ℕ
read_page c pfn memory = take c.page_size (drop (frame_byte c pfn 0) memory)

abbrev pub write_page : Config → ℕ → List ℕ → List ℕ → List ℕ
write_page c pfn page_data memory =
    let at = frame_byte c pfn 0 in take at memory ++ (page_data ++ drop (at + c.page_size) memory)

unfoldable pub page_to_disk : Config → ℕ → ℕ → ℕ → Machine → Machine
page_to_disk c pfn vpn pid m = record m {
  swapfile = record { pid = pid; vpn = vpn; page_data = read_page c pfn m.memory } ∷ m.swapfile;
  counts = record m.counts { diskaccesses = count_up m.counts.diskaccesses };
}

-- The first page of the process in the swap file, and the swap file without it.
unfoldable pub find_page : ℕ → ℕ → List SwapPage → Option (SwapPage × List SwapPage)
find_page vpn pid [] = none
find_page vpn pid (curr ∷ next) =
    if (curr.pid == pid) && (curr.vpn == vpn)
    then some (curr, next)
    else elim (find_page vpn pid next) [
      | none ↦ none
      | some (found, rest) ↦ some (found, curr ∷ rest)
    ]

unfoldable pub page_from_disk : Config → ℕ → ℕ → ℕ → Machine → Machine
page_from_disk c pfn vpn pid m = elim (find_page vpn pid m.swapfile) [
  | none ↦ record m { memory = write_page c pfn (replicate c.page_size 0) m.memory }
  | some (found, rest) ↦ record m {
    memory = write_page c pfn found.page_data m.memory;
    swapfile = rest;
    counts = record m.counts { diskaccesses = count_up m.counts.diskaccesses };
  }
]
