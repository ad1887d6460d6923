-- ===== src/Memory/Accesses.antt =====
-- Loads and stores of project-4/prj4/simulator-src/memory.c.
use native.Mathlib.Nat.{div-add-mod}
use da_bus.Base.{
  ℕ, ◌+◌, ◌*◌, ◌<◌, ◌≡◌, refl, ◌∙◌, true, false, arith, length, get_or, set, length-set,
  get_or-set_self,
}
use da_bus.Memory.{Config, Machine, vaddr_pagenum, vaddr_offset, frame_byte}
use da_bus.Memory.Paging.{tlb_hit, tlb_lookup}
use da_bus.Memory.Commands.{mem_load, mem_store}
use da_bus.Memory.Invariant.{IsConfig, IsMachine, with_memory, frame_byte-lt}
use da_bus.Memory.Loads.{Finds, tlb_lookup-Finds}

module _ (c : Config) (k : IsConfig c) where
  vaddr_offset-lt : (va : ℕ) → vaddr_offset c va < c.page_size
  unfolding vaddr_offset
  vaddr_offset-lt va = omega (arith, k.page_pos)

  -- The page number and the offset of an address make it up.
  vaddr_parts : (va : ℕ) → vaddr_pagenum c va * c.page_size + vaddr_offset c va ≡ va
  unfolding vaddr_pagenum vaddr_offset
  vaddr_parts va = grind (arith, div-add-mod va c.page_size)

  -- After a store to an address the machine is in order, and the TLB has the frame of the page, in
  -- which the byte of the address has the value.
  mem_store-Finds :
      (va value : ℕ) (m : Machine)
      → IsMachine c m
      → (pfn : ℕ) × Finds c k (vaddr_pagenum c va) m.proc_list pfn (mem_store c va value m)
        × (get_or (mem_store c va value m).memory (frame_byte c pfn (vaddr_offset c va)) 0 ≡ value)
  unfolding mem_store
  mem_store-Finds va value m h =
      let v = vaddr_pagenum c va in
      let (pfn, m') = tlb_lookup c v true m in
      let (inside, kept, found) = tlb_lookup-Finds c k v m.proc_list true m h refl in
      let byte = frame_byte c pfn (vaddr_offset c va) in
      let below : byte < length m'.memory = omega (
        arith,
        kept.memory_length,
        frame_byte-lt c k pfn (vaddr_offset c va) inside (vaddr_offset-lt va),
      ) in
      (
        pfn,
        (
          inside,
          with_memory c k m' (set m'.memory byte value) m'.swapfile kept
              (length-set m'.memory byte value ∙ kept.memory_length) kept.swap_lengths,
          found,
        ),
        get_or-set_self m'.memory byte value 0 below,
      )

  -- On a machine in order, what is stored at an address is loaded from it by the next load, which
  -- makes no page fault.
  pub mem_load-mem_store :
      (va value : ℕ) (m : Machine)
      → IsMachine c m
      → let (loaded, m') = mem_load c va (mem_store c va value m) in
        (loaded ≡ value) × (m'.counts.pagefaults ≡ (mem_store c va value m).counts.pagefaults)
  unfolding mem_load tlb_lookup tlb_hit
  mem_load-mem_store va value m h =
      let (pfn, finds, byte) = mem_store-Finds va value m h in
      rw (mem_load, tlb_lookup, finds.2.present) (byte, refl)

  -- A load and a store keep the machine in order and the processes as they are.
  pub mem_load-IsMachine :
      (va : ℕ) (m : Machine)
      → IsMachine c m
      → IsMachine c (mem_load c va m).1 × ((mem_load c va m).1.proc_list ≡ m.proc_list)
  unfolding mem_load
  mem_load-IsMachine va m h =
      let (_, kept, found) = tlb_lookup-Finds c k (vaddr_pagenum c va) m.proc_list false m h refl in
      (kept, found.processes)

  pub mem_store-IsMachine :
      (va value : ℕ) (m : Machine)
      → IsMachine c m
      → IsMachine c (mem_store c va value m) × ((mem_store c va value m).proc_list ≡ m.proc_list)
  mem_store-IsMachine va value m h =
      let (pfn, finds, byte) = mem_store-Finds va value m h in (finds.1, finds.2.processes)
