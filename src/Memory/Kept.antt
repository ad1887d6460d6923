-- ===== src/Memory/Kept.antt =====
-- The page table reader and the page fault handler of project-4/prj4/student-src keep the machine's
-- sizes and frame numbers, return a frame of the memory, and put no page into the TLB.
use mathlib.Core.Option.{some_inj}
use da_bus.Base.{
  All-map, length-map, ℕ, zero, suc, ◌+◌, ◌%◌, ◌<◌, ◌≡◌, ◌∙◌, Bool, true, false, Option, none, some,
  List, [], ◌∷◌, arith, if◌then◌else◌, ◌==◌, length, get_or, set, map, replicate, length-set,
  length-replicate, Bool-cases, Option-cases, inl, inr,
}
use da_bus.Memory.{
  Pcb, Pte, Tlbe, Rlt, Config, Machine, null_rlt, num_frames, fault_if, is_null, pte_at, set_pte,
  pcb_at, clear_entry, clear_if, tlb_clearone, page_to_disk, find_page, page_from_disk,
}
use da_bus.Memory.Paging.{
  free_from, frame_table, frame_vpn, frame_pte, clear_valid, clear_used, sweep, clock_sweep,
  get_free_frame, evict, evict_frame, map_frame, checked, pagefault_handler, pagetable_lookup,
  mark_used, count_fault, last_match,
}
use da_bus.Memory.Invariant.{
  IsConfig, IsMachine, IsTlbe, IsPage, pte_at-frame, set_pte-IsMachine, with_tlb, with_rlt,
  with_memory, length-write_page,
}
use da_bus.Memory.Matches.{last_match-clear_if, find_page-All}
use da_bus.Memory.Swap.{page_to_disk-IsMachine}

-- Page `v` is not in the TLB, and the processes are those of a list.
pub record Idle (v : ℕ) (l : List Pcb) (tlb : List Tlbe) (proc_list : List Pcb) : Type 0 where
  pub absent : last_match v tlb ≡ none
  pub processes : proc_list ≡ l

module _ (c : Config) (k : IsConfig c) (v : ℕ) (l : List Pcb) where
  -- The machine has its sizes, page `v` is not in the TLB, and the processes are `l`.
  abbrev pub Ready : Machine → Type 0
  Ready m = IsMachine c m × Idle v l m.tlb m.proc_list

  pub set_pte-Ready :
      (t : Option ℕ) (vpn : ℕ) (pte : Pte) (m : Machine)
      → Ready m
      → pte.pfn < num_frames c
      → Ready (set_pte t vpn pte m)
  set_pte-Ready none vpn pte m r h = r
  set_pte-Ready (some t) vpn pte m r h = (set_pte-IsMachine c k (some t) vpn pte m r.0 h, r.1)

  if-Ready : (b : Bool) (x y : Machine) → Ready x → Ready y → Ready (if b then x else y)
  if-Ready true x y p q = p
  if-Ready false x y p q = q

  sweep-Ready :
      (n i : ℕ) (m : Machine)
      → i < num_frames c
      → Ready m
      → ((sweep c n i m).0 < num_frames c) × Ready (sweep c n i m).1
  unfolding sweep clear_valid
  sweep-Ready zero i m h r = (h, r)
  sweep-Ready (suc n) i m h r = elim (Bool-cases (frame_pte i m).valid) [
    | inl live ↦
        let pte : Pte = record (frame_pte i m) { valid = false } in
        let cleared =
          set_pte-Ready (frame_table i m) (frame_vpn i m) pte m r
            (pte_at-frame c k (frame_table i m) (frame_vpn i m) m r.0) in
        rw (sweep, live)
          (sweep-Ready n ((i + 1) % num_frames c) (clear_valid i m) (omega arith) cleared)
    | inr dead ↦ rw (sweep, dead) (h, r)
  ]

  clock_sweep-Ready :
      (m : Machine) → Ready m → ((clock_sweep c m).0 < num_frames c) × Ready (clock_sweep c m).1
  unfolding clock_sweep clear_used
  clock_sweep-Ready m r = elim (Bool-cases (frame_pte 0 m).used) [
    | inl used ↦
        let pte : Pte = record (frame_pte 0 m) { used = false } in
        let cleared =
          set_pte-Ready (frame_table 0 m) (frame_vpn 0 m) pte m r
            (pte_at-frame c k (frame_table 0 m) (frame_vpn 0 m) m r.0) in
        rw (clock_sweep, used)
          (sweep-Ready (num_frames c) (1 % num_frames c) (clear_used 0 m)
            (omega (arith, k.frames_pos)) cleared)
    | inr unused ↦ rw (clock_sweep, unused) (k.frames_pos, r)
  ]

  free_from-lt : (i j : ℕ) (rlt : List Rlt) → free_from i rlt ≡ some j → j < i + length rlt
  unfolding free_from
  free_from-lt i j [] h = cc
  free_from-lt i j (r ∷ rest) h = elim (Option-cases r.pcb) [
    | inl free ↦
        let found : some i ≡ some j = rw (free_from, free) at h in omega (arith, some_inj.0 found)
    | inr (p, taken) ↦
        let later : free_from (suc i) rest ≡ some j = rw (free_from, taken) at h in
        omega (arith, free_from-lt (suc i) j rest later)
  ]

  pub get_free_frame-Ready :
      (m : Machine)
      → Ready m
      → ((get_free_frame c m).0 < num_frames c) × Ready (get_free_frame c m).1
  unfolding get_free_frame
  get_free_frame-Ready m r = elim (Option-cases (free_from 0 m.rlt)) [
    | inl full ↦
        let (inside, kept) = clock_sweep-Ready m r in
        rw (get_free_frame, full) (omega (arith, inside), kept)
    | inr (i, free) ↦
        let inside = free_from-lt 0 i m.rlt free in
        rw (get_free_frame, free) (omega (arith, inside, r.0.rlt_length), r)
  ]

  clear_if-IsTlbe : (vpn : ℕ) (e : Tlbe) → IsTlbe c e → IsTlbe c (clear_if vpn e)
  unfolding clear_if clear_entry
  clear_if-IsTlbe vpn e h = elim (Bool-cases (e.vpn == vpn)) [
    | inl here ↦ rw (clear_if, here) h
    | inr other ↦ rw (clear_if, other) h
  ]

  tlb_clearone-Ready : (vpn : ℕ) (m : Machine) → Ready m → Ready (tlb_clearone vpn m)
  unfolding tlb_clearone
  tlb_clearone-Ready vpn m r = (
    with_tlb c k m (map (clear_if vpn) m.tlb) r.0 (length-map (clear_if vpn) m.tlb ∙ r.0.tlb_length)
        (All-map (IsTlbe c) (clear_if vpn) m.tlb (clear_if-IsTlbe vpn) r.0.tlb_frames),
    record { absent = last_match-clear_if v vpn m.tlb r.1.absent; processes = r.1.processes },
  )

  page_to_disk-Ready :
      (pfn vpn pid : ℕ) (m : Machine)
      → pfn < num_frames c
      → Ready m
      → Ready (page_to_disk c pfn vpn pid m)
  unfolding page_to_disk
  page_to_disk-Ready pfn vpn pid m h r = (page_to_disk-IsMachine c k pfn vpn pid m h r.0, r.1)

  evict-Ready :
      (pfn p vpn : ℕ) (m : Machine) → pfn < num_frames c → Ready m → Ready (evict c pfn p vpn m)
  unfolding evict
  evict-Ready pfn p vpn m h r =
      let table = (pcb_at p m).pagetable in
      let pte = pte_at table vpn m in
      let saved : Machine = if pte.dirty then page_to_disk c pfn vpn (pcb_at p m).pid m else m in
      let saved_ready : Ready saved =
        if-Ready pte.dirty _ m (page_to_disk-Ready pfn vpn (pcb_at p m).pid m h r) r in
      if-Ready pte.valid _ m
        (tlb_clearone-Ready vpn _ (
          set_pte-Ready table vpn (record pte { valid = false }) saved saved_ready
            (pte_at-frame c k table vpn m r.0)))
        r

  evict_frame-Ready :
      (pfn : ℕ) (m : Machine) → pfn < num_frames c → Ready m → Ready (evict_frame c pfn m)
  unfolding evict_frame
  evict_frame-Ready pfn m h r = elim (Option-cases (get_or m.rlt pfn null_rlt).pcb) [
    | inl free ↦ rw (evict_frame, free) r
    | inr (p, taken) ↦
        rw (evict_frame, taken)
          (evict-Ready pfn p (frame_vpn pfn m) (fault_if (is_null (pcb_at p m).pagetable) m) h r)
  ]

  map_frame-Ready :
      (pfn vpn : ℕ) (m : Machine) → pfn < num_frames c → Ready m → Ready (map_frame pfn vpn m)
  unfolding map_frame
  map_frame-Ready pfn vpn m h r =
      let rlt = set m.rlt pfn (record { pcb = m.current; vpn = vpn }) in
      let m' : Machine = record m { rlt = rlt } in
      let r' : Ready m' = (with_rlt c k m rlt r.0 (length-set m.rlt pfn _ ∙ r.0.rlt_length), r.1) in
      set_pte-Ready m'.current_pagetable vpn _ m' r' h

  page_from_disk-Ready :
      (pfn vpn pid : ℕ) (m : Machine)
      → pfn < num_frames c
      → Ready m
      → Ready (page_from_disk c pfn vpn pid m)
  unfolding page_from_disk
  page_from_disk-Ready pfn vpn pid m h r = elim (Option-cases (find_page vpn pid m.swapfile)) [
    | inl missing ↦
        rw (page_from_disk, missing)
          (
            with_memory c k m _ m.swapfile r.0
                (length-write_page c k pfn (replicate c.page_size 0) m.memory h
                  (length-replicate c.page_size 0) r.0.memory_length)
                r.0.swap_lengths,
            r.1,
          )
    | inr (found, there) ↦
        let pages =
          find_page-All (IsPage c) vpn pid m.swapfile found.0 found.1 there r.0.swap_lengths in
        rw (page_from_disk, there)
          (
            with_memory c k m _ found.1 r.0
                (length-write_page c k pfn found.0.page_data m.memory h pages.0 r.0.memory_length)
                pages.1,
            r.1,
          )
  ]

  pagefault_handler-Ready :
      (vpn : ℕ) (m : Machine)
      → Ready m
      → ((pagefault_handler c vpn m).0 < num_frames c) × Ready (pagefault_handler c vpn m).1
  unfolding pagefault_handler
  pagefault_handler-Ready vpn m r =
      let (pfn, m1) = get_free_frame c m in
      let (inside, r1) = get_free_frame-Ready m r in
      let r2 =
        map_frame-Ready pfn vpn (evict_frame c pfn (checked c pfn m1)) inside
          (evict_frame-Ready pfn (checked c pfn m1) inside r1) in
      (inside, page_from_disk-Ready pfn vpn _ _ inside r2)

  -- A lookup in the page table returns a frame of the memory and keeps the machine; what was not in
  -- the TLB is still not in it.
  pub pagetable_lookup-Ready :
      (vpn : ℕ) (m : Machine)
      → Ready m
      → ((pagetable_lookup c vpn m).0 < num_frames c) × Ready (pagetable_lookup c vpn m).1
  unfolding pagetable_lookup
  pagetable_lookup-Ready vpn m r =
      let frame = pte_at-frame c k m.current_pagetable vpn m r.0 in
      let r' : Ready (mark_used vpn m) = set_pte-Ready m.current_pagetable vpn _ m r frame in
      elim (Bool-cases (pte_at m.current_pagetable vpn (mark_used vpn m)).valid) [
        | inl valid ↦
            rw (pagetable_lookup, valid)
              (pte_at-frame c k m.current_pagetable vpn (mark_used vpn m) r'.0, r')
        | inr fault ↦
            rw (pagetable_lookup, fault)
              (pagefault_handler-Ready vpn (count_fault (mark_used vpn m)) r')
      ]
