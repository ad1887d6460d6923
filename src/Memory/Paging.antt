-- ===== src/Memory/Paging.antt =====
-- The lookups of project-4/prj4/student-src: page-replacement.c, page-fault.c, page-lookup.c and
-- tlb-lookup.c.
use da_bus.Base.{
  ◌||◌, not, ℕ, zero, suc, ◌+◌, ◌%◌, ◌^◌, Bool, true, false, ◌&&◌, Option, none, some, List, [],
  ◌∷◌, ltb, ◌==◌, if◌then◌else◌, get_or, set, map,
}
use da_bus.Memory.{
  Pte, Tlbe, Rlt, Config, Machine, null_rlt, null_tlbe, count_up, num_frames, pte_at, set_pte,
  pcb_at, is_null, fault_if, tlb_clearone, page_to_disk, page_from_disk,
}

-- The first frame from number `i` on that belongs to no process.
unfoldable pub free_from : ℕ → List Rlt → Option ℕ
free_from i [] = none
free_from i (r ∷ rest) = elim r.pcb [ none ↦ some i | some p ↦ free_from (suc i) rest ]

-- The page table that frame `i` is in, and the page it holds.
unfoldable pub frame_table : ℕ → Machine → Option ℕ
frame_table i m = elim (get_or m.rlt i null_rlt).pcb [
  | none ↦ none
  | some p ↦ (pcb_at p m).pagetable
]

unfoldable pub frame_vpn : ℕ → Machine → ℕ
frame_vpn i m = (get_or m.rlt i null_rlt).vpn

abbrev pub frame_pte : ℕ → Machine → Pte
frame_pte i m = pte_at (frame_table i m) (frame_vpn i m) m

unfoldable pub clear_valid : ℕ → Machine → Machine
clear_valid i m =
    set_pte (frame_table i m) (frame_vpn i m) (record (frame_pte i m) { valid = false }) m

unfoldable pub clear_used : ℕ → Machine → Machine
clear_used i m =
    set_pte (frame_table i m) (frame_vpn i m) (record (frame_pte i m) { used = false }) m

-- The rounds of the clock sweep behind its first one, where `is_used` points to a valid bit.
unfoldable pub sweep : Config → ℕ → ℕ → Machine → ℕ × Machine
sweep c zero i m = (i, m)
sweep c (suc n) i m =
    let more = sweep c n ((i + 1) % num_frames c) (clear_valid i m) in
    if (frame_pte i m).valid then more else (i, m)

-- A round for each frame is enough for the sweep.
unfoldable pub clock_sweep : Config → Machine → ℕ × Machine
clock_sweep c m =
    if (frame_pte 0 m).used
    then sweep c (num_frames c) (1 % num_frames c) (clear_used 0 m)
    else (0, m)

unfoldable pub get_free_frame : Config → Machine → ℕ × Machine
get_free_frame c m = elim (free_from 0 m.rlt) [
  | some i ↦ (i % 2 ^ 16, m)
  | none ↦ let (i, m') = clock_sweep c m in (i % 2 ^ 16, m')
]

-- The victim's page leaves its frame.
unfoldable pub evict : Config → ℕ → ℕ → ℕ → Machine → Machine
evict c pfn p vpn m =
    let table = (pcb_at p m).pagetable in
    let pte = pte_at table vpn m in
    let saved = if pte.dirty then page_to_disk c pfn vpn (pcb_at p m).pid m else m in
    if pte.valid
    then tlb_clearone vpn (set_pte table vpn (record pte { valid = false }) saved)
    else m

unfoldable pub evict_frame : Config → ℕ → Machine → Machine
evict_frame c pfn m = elim (get_or m.rlt pfn null_rlt).pcb [
  | none ↦ m
  | some p ↦ evict c pfn p (frame_vpn pfn m) (fault_if (is_null (pcb_at p m).pagetable) m)
]

-- The requested page gets the frame, in both tables.
unfoldable pub map_frame : ℕ → ℕ → Machine → Machine
map_frame pfn vpn m =
    let m' = record m { rlt = set m.rlt pfn (record { pcb = m.current; vpn = vpn }) } in
    let pte = pte_at m'.current_pagetable vpn m' in
    set_pte m'.current_pagetable vpn (record pte { pfn = pfn; valid = true; dirty = false }) m'

abbrev pub current_pid : Machine → ℕ
current_pid m = elim m.current [ none ↦ 0 | some p ↦ (pcb_at p m).pid ]

-- The assert on the frame, and the use of `current`.
abbrev pub checked : Config → ℕ → Machine → Machine
checked c pfn m = fault_if (not (ltb pfn (num_frames c)) || is_null m.current) m

-- The assert on the page table is also its use in `pagetable_lookup`.
unfoldable pub pagefault_handler : Config → ℕ → Machine → ℕ × Machine
pagefault_handler c vpn m =
    let (pfn, m1) = get_free_frame c m in
    let m2 = map_frame pfn vpn (evict_frame c pfn (checked c pfn m1)) in
    (pfn, page_from_disk c pfn vpn (current_pid m2) m2)

abbrev pub mark_used : ℕ → Machine → Machine
mark_used vpn m =
    set_pte m.current_pagetable vpn (record (pte_at m.current_pagetable vpn m) { used = true }) m

abbrev pub count_fault : Machine → Machine
count_fault m = record m { counts = record m.counts { pagefaults = count_up m.counts.pagefaults } }

unfoldable pub pagetable_lookup : Config → ℕ → Machine → ℕ × Machine
pagetable_lookup c vpn m =
    let m' = mark_used vpn m in
    let pte = pte_at m.current_pagetable vpn m' in
    if pte.valid then (pte.pfn, m') else pagefault_handler c vpn (count_fault m')

unfoldable pub matches : ℕ → Tlbe → Bool
matches vpn e = e.valid && (e.vpn == vpn)

-- The search of the TLB: what it does to an entry, the frame of the last match, and the matches.
unfoldable pub touch : ℕ → Bool → Tlbe → Tlbe
touch vpn write e =
    if matches vpn e
    then record e { used = (e.used + 1) % 256; dirty = if write then true else e.dirty }
    else e

unfoldable pub last_match : ℕ → List Tlbe → Option ℕ
last_match vpn [] = none
last_match vpn (e ∷ rest) = elim (last_match vpn rest) [
  | some pfn ↦ some pfn
  | none ↦ if matches vpn e then some e.pfn else none
]

unfoldable pub count_matches : ℕ → List Tlbe → ℕ
count_matches vpn [] = 0
count_matches vpn (e ∷ rest) = (if matches vpn e then 1 else 0) + count_matches vpn rest

-- The entry to replace from number `i` on, and whether it is an invalid one.
unfoldable pub find_slot : ℕ → ℕ → ℕ → List Tlbe → ℕ × Bool
find_slot i lru value [] = (lru, false)
find_slot i lru value (e ∷ rest) =
    let less = ltb e.used value in
    let more = find_slot (suc i) (if less then i else lru) (if less then e.used else value) rest in
    if e.valid then more else (i, true)

-- For the least used entry the code clears the counter of `tlb[tlb_size]`, which is outside.
unfoldable pub replace_entry : ℕ → ℕ → Bool → Machine → Machine
replace_entry vpn pfn write m =
    let (i, invalid) = find_slot 0 0 (get_or m.tlb 0 null_tlbe).used m.tlb in
    let e : Tlbe = record {
      vpn = vpn;
      pfn = pfn;
      valid = true;
      dirty = write;
      used = if invalid then 0 else (get_or m.tlb i null_tlbe).used;
    } in
    record m { tlb = set m.tlb i e; overrun = if invalid then m.overrun else true }

abbrev pub mark_dirty : ℕ → Bool → Machine → Machine
mark_dirty vpn write m =
    if write
    then set_pte m.current_pagetable vpn
        (record (pte_at m.current_pagetable vpn m) { dirty = true }) m
    else m

unfoldable pub tlb_hit : ℕ → Bool → Machine → Machine
tlb_hit vpn write m = record m {
  tlb = map (touch vpn write) m.tlb;
  counts = record m.counts { tlbhits = (m.counts.tlbhits + count_matches vpn m.tlb) % 2 ^ 64 };
}

unfoldable pub tlb_lookup : Config → ℕ → Bool → Machine → ℕ × Machine
tlb_lookup c vpn write m = elim (last_match vpn m.tlb) [
  | some pfn ↦ (pfn, mark_dirty vpn write (tlb_hit vpn write m))
  | none ↦
      let (pfn, m') = pagetable_lookup c vpn m in
      (pfn, mark_dirty vpn write (replace_entry vpn pfn write m'))
]
