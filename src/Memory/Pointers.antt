-- ===== src/Memory/Pointers.antt =====
-- The pointers that a load or a store of project-4/prj4 uses: the current process, its page table,
-- and the page tables of the processes whose pages are in the frames.
use mathlib.Core.Path.{subst}
use mathlib.Core.Option.{some_inj}
use da_bus.Base.{
  All-get_or, All-set, ℕ, zero, suc, ◌+◌, ◌%◌, ◌<◌, ◌≡◌, refl, sym, ◌∙◌, Bool, true, false, Option,
  none, some, List, [], ◌∷◌, arith, if◌then◌else◌, ltb, length, get_or, set, All, Bool-cases,
  Option-cases, inl, inr,
}
use da_bus.Memory.{
  Pcb, Pte, Rlt, Config, Machine, null_rlt, null_pcb, num_frames, fault_if, is_null, pte_at,
  set_pte, pcb_at, tlb_clearone, page_to_disk, find_page, page_from_disk, vaddr_pagenum,
}
use da_bus.Memory.Paging.{
  free_from, frame_table, frame_vpn, frame_pte, clear_valid, clear_used, sweep, clock_sweep,
  get_free_frame, evict, evict_frame, map_frame, checked, pagefault_handler, pagetable_lookup,
  mark_used, count_fault, last_match, replace_entry, mark_dirty, tlb_hit, tlb_lookup,
}
use da_bus.Memory.Commands.{mem_load, mem_store}
use da_bus.Memory.Invariant.{IsConfig, IsMachine, pte_at-frame}
use da_bus.Memory.Kept.{Ready, set_pte-Ready, get_free_frame-Ready}

-- The process has a page table.
abbrev pub HasTable : List Pcb → ℕ → Type 0
HasTable l p = (t : ℕ) × ((get_or l p null_pcb).pagetable ≡ some t)

abbrev pub Owned : List Pcb → Rlt → Type 0
Owned l r = (p : ℕ) → r.pcb ≡ some p → HasTable l p

pub record Links (l : List Pcb) (rlt : List Rlt) (current pagetable : Option ℕ) (faulted : Bool)
    : Type 0 where
  pub frames : All (Owned l) rlt
  pub owner : (p : ℕ) × (current ≡ some p) × HasTable l p
  pub table : (t : ℕ) × (pagetable ≡ some t)
  pub sound : faulted ≡ false

-- There are a current process and its page table, each page in a frame has a page table, and no NULL
-- pointer has been used.
abbrev pub IsLinked : Machine → Type 0
IsLinked m = Links m.proc_list m.rlt m.current m.current_pagetable m.faulted

-- Every frame belongs to a process.
abbrev Full : Config → List Rlt → Type 0
Full c rlt = (i : ℕ) → i < num_frames c → (p : ℕ) × ((get_or rlt i null_rlt).pcb ≡ some p)

set_pte-IsLinked :
    (t : Option ℕ) (n vpn : ℕ) (pte : Pte) (m : Machine)
    → t ≡ some n
    → IsLinked m
    → IsLinked (set_pte t vpn pte m)
set_pte-IsLinked none n vpn pte m e r = absurd (ground (arith, e))
set_pte-IsLinked (some t) n vpn pte m e r = r

set_pte-Full :
    (c : Config) (t : Option ℕ) (vpn : ℕ) (pte : Pte) (m : Machine)
    → Full c m.rlt
    → Full c (set_pte t vpn pte m).rlt
set_pte-Full c none vpn pte m r = r
set_pte-Full c (some t) vpn pte m r = r

free_from-none :
    (i : ℕ) (rlt : List Rlt)
    → free_from i rlt ≡ none
    → (j : ℕ) → j < length rlt
    → (p : ℕ) × ((get_or rlt j null_rlt).pcb ≡ some p)
unfolding free_from
free_from-none i [] h j l = absurd (omega arith)
free_from-none i (r ∷ rest) h j l = elim (Option-cases r.pcb) [
  | inl free ↦ let no : some i ≡ none = rw (free_from, free) at h in absurd (ground (arith, no))
  | inr (p, taken) ↦
      let later : free_from (suc i) rest ≡ none = rw (free_from, taken) at h in
      at j l p taken (free_from-none (suc i) rest later)
]
  where
    at :
        (j : ℕ)
        → j < suc (length rest)
        → (p : ℕ) → r.pcb ≡ some p
        → ((j : ℕ) → j < length rest → (p : ℕ) × ((get_or rest j null_rlt).pcb ≡ some p))
        → (p : ℕ) × ((get_or (r ∷ rest) j null_rlt).pcb ≡ some p)
    at zero l p taken f = (p, taken)
    at (suc j) l p taken f = f j (omega arith)

frame_table-some :
    (c : Config) (i : ℕ) (m : Machine)
    → i < num_frames c
    → Full c m.rlt
    → IsLinked m
    → (t : ℕ) × (frame_table i m ≡ some t)
unfolding frame_table
frame_table-some c i m l full r =
    let (p, e) = full i l in
    let (t, f) =
      All-get_or (Owned m.proc_list) m.rlt i null_rlt r.frames (λ p e. absurd (ground (arith, e))) p
        e in
    (t, rw (frame_table, e) f)

module _ (c : Config) (k : IsConfig c) where
  sweep-IsLinked :
      (n i : ℕ) (m : Machine)
      → i < num_frames c
      → Full c m.rlt
      → IsLinked m
      → IsLinked (sweep c n i m).1
  unfolding sweep clear_valid
  sweep-IsLinked zero i m l full r = r
  sweep-IsLinked (suc n) i m l full r = elim (Bool-cases (frame_pte i m).valid) [
    | inl live ↦
        let (t, e) = frame_table-some c i m l full r in
        let pte : Pte = record (frame_pte i m) { valid = false } in
        rw (sweep, live)
          (sweep-IsLinked n ((i + 1) % num_frames c) (clear_valid i m) (omega arith)
            (set_pte-Full c (frame_table i m) (frame_vpn i m) pte m full)
            (set_pte-IsLinked (frame_table i m) t (frame_vpn i m) pte m e r))
    | inr dead ↦ rw (sweep, dead) r
  ]

  clock_sweep-IsLinked : (m : Machine) → Full c m.rlt → IsLinked m → IsLinked (clock_sweep c m).1
  unfolding clock_sweep clear_used
  clock_sweep-IsLinked m full r = elim (Bool-cases (frame_pte 0 m).used) [
    | inl used ↦
        let (t, e) = frame_table-some c 0 m k.frames_pos full r in
        let pte : Pte = record (frame_pte 0 m) { used = false } in
        rw (clock_sweep, used)
          (sweep-IsLinked (num_frames c) (1 % num_frames c) (clear_used 0 m)
            (omega (arith, k.frames_pos))
            (set_pte-Full c (frame_table 0 m) (frame_vpn 0 m) pte m full)
            (set_pte-IsLinked (frame_table 0 m) t (frame_vpn 0 m) pte m e r))
    | inr unused ↦ rw (clock_sweep, unused) r
  ]

  get_free_frame-IsLinked :
      (m : Machine) → IsMachine c m → IsLinked m → IsLinked (get_free_frame c m).1
  unfolding get_free_frame
  get_free_frame-IsLinked m h r = elim (Option-cases (free_from 0 m.rlt)) [
    | inl none_free ↦
        rw (get_free_frame, none_free)
          (clock_sweep-IsLinked m
            (λ i l. free_from-none 0 m.rlt none_free i (omega (arith, h.rlt_length, l))) r)
    | inr (i, free) ↦ rw (get_free_frame, free) r
  ]

  checked-IsLinked :
      (pfn : ℕ) (m : Machine) → pfn < num_frames c → IsLinked m → IsLinked (checked c pfn m)
  checked-IsLinked pfn m l r =
      let inside : ltb pfn (num_frames c) ≡ true = ground (arith, l) in
      let there : is_null m.current ≡ false = rw (r.owner.1) refl in
      record {
        frames = r.frames;
        owner = r.owner;
        table = r.table;
        sound = rw (inside, there, r.sound) refl;
      }

  if-IsLinked : (b : Bool) (x y : Machine) → IsLinked x → IsLinked y → IsLinked (if b then x else y)
  if-IsLinked true x y p q = p
  if-IsLinked false x y p q = q

  evict-IsLinked :
      (pfn p vpn : ℕ) (m : Machine)
      → HasTable m.proc_list p
      → IsLinked m
      → IsLinked (evict c pfn p vpn m)
  unfolding evict page_to_disk tlb_clearone
  evict-IsLinked pfn p vpn m (t, e) r =
      let table = (pcb_at p m).pagetable in
      let pte = pte_at table vpn m in
      let saved : Machine = if pte.dirty then page_to_disk c pfn vpn (pcb_at p m).pid m else m in
      let kept : IsLinked saved = if-IsLinked pte.dirty _ m r r in
      if-IsLinked pte.valid _ m
        (set_pte-IsLinked table t vpn (record pte { valid = false }) saved e kept) r

  evict_frame-IsLinked : (pfn : ℕ) (m : Machine) → IsLinked m → IsLinked (evict_frame c pfn m)
  unfolding evict_frame
  evict_frame-IsLinked pfn m r = elim (Option-cases (get_or m.rlt pfn null_rlt).pcb) [
    | inl free ↦ rw (evict_frame, free) r
    | inr (p, taken) ↦
        let (t, e) =
          All-get_or (Owned m.proc_list) m.rlt pfn null_rlt r.frames
            (λ p e. absurd (ground (arith, e))) p taken in
        let b = is_null (pcb_at p m).pagetable in
        let there : b ≡ false = rw e refl in
        let unharmed : IsLinked (fault_if b m) = record {
          frames = r.frames;
          owner = r.owner;
          table = r.table;
          sound = rw (there, r.sound) refl;
        } in
        rw (evict_frame, taken)
          (evict-IsLinked pfn p (frame_vpn pfn m) (fault_if b m) (t, e) unharmed)
  ]

  map_frame-IsLinked : (pfn vpn : ℕ) (m : Machine) → IsLinked m → IsLinked (map_frame pfn vpn m)
  unfolding map_frame
  map_frame-IsLinked pfn vpn m r =
      let entry : Rlt = record { pcb = m.current; vpn = vpn } in
      let m' : Machine = record m { rlt = set m.rlt pfn entry } in
      let own : Owned m.proc_list entry =
        λ p e. let (q, f, h) = r.owner in subst (HasTable m.proc_list) (some_inj.0 (sym f ∙ e)) h in
      let r' : IsLinked m' = record {
        frames = All-set (Owned m.proc_list) m.rlt pfn entry r.frames own;
        owner = r.owner;
        table = r.table;
        sound = r.sound;
      } in
      set_pte-IsLinked m'.current_pagetable r.table.0 vpn _ m' r.table.1 r'

  page_from_disk-IsLinked :
      (pfn vpn pid : ℕ) (m : Machine) → IsLinked m → IsLinked (page_from_disk c pfn vpn pid m)
  unfolding page_from_disk
  page_from_disk-IsLinked pfn vpn pid m r = elim (Option-cases (find_page vpn pid m.swapfile)) [
    | inl missing ↦ rw (page_from_disk, missing) r
    | inr (found, there) ↦ rw (page_from_disk, there) r
  ]

  pagefault_handler-IsLinked :
      (v vpn : ℕ) (l : List Pcb) (m : Machine)
      → Ready c k v l m
      → IsLinked m
      → IsLinked (pagefault_handler c vpn m).1
  unfolding pagefault_handler
  pagefault_handler-IsLinked v vpn l m h r =
      let (pfn, m1) = get_free_frame c m in
      let inside = (get_free_frame-Ready c k v l m h).0 in
      let r1 = checked-IsLinked pfn m1 inside (get_free_frame-IsLinked m h.0 r) in
      page_from_disk-IsLinked pfn vpn _ _
        (map_frame-IsLinked pfn vpn _ (evict_frame-IsLinked pfn (checked c pfn m1) r1))

  pagetable_lookup-IsLinked :
      (vpn : ℕ) (l : List Pcb) (m : Machine)
      → Ready c k vpn l m
      → IsLinked m
      → IsLinked (pagetable_lookup c vpn m).1
  unfolding pagetable_lookup
  pagetable_lookup-IsLinked vpn l m h r =
      let pte : Pte = record (pte_at m.current_pagetable vpn m) { used = true } in
      let frame = pte_at-frame c k m.current_pagetable vpn m h.0 in
      let h' : Ready c k vpn l (mark_used vpn m) =
        set_pte-Ready c k vpn l m.current_pagetable vpn pte m h frame in
      let r' : IsLinked (mark_used vpn m) =
        set_pte-IsLinked m.current_pagetable r.table.0 vpn pte m r.table.1 r in
      elim (Bool-cases (pte_at m.current_pagetable vpn (mark_used vpn m)).valid) [
        | inl valid ↦ rw (pagetable_lookup, valid) r'
        | inr fault ↦
            rw (pagetable_lookup, fault)
              (pagefault_handler-IsLinked vpn vpn l (count_fault (mark_used vpn m)) h' r')
      ]

  mark_dirty-IsLinked :
      (vpn : ℕ) (w : Bool) (m : Machine) → IsLinked m → IsLinked (mark_dirty vpn w m)
  mark_dirty-IsLinked vpn false m r = r
  mark_dirty-IsLinked vpn true m r =
      set_pte-IsLinked m.current_pagetable r.table.0 vpn _ m r.table.1 r

  tlb_lookup-IsLinked :
      (vpn : ℕ) (w : Bool) (m : Machine)
      → IsMachine c m
      → IsLinked m
      → IsLinked (tlb_lookup c vpn w m).1
  unfolding tlb_lookup replace_entry tlb_hit
  tlb_lookup-IsLinked vpn w m h r = elim (Option-cases (last_match vpn m.tlb)) [
    | inl miss ↦
        let ready : Ready c k vpn m.proc_list m = (h, record { absent = miss; processes = refl }) in
        let r' = pagetable_lookup-IsLinked vpn m.proc_list m ready r in
        let (pfn, m') = pagetable_lookup c vpn m in
        rw (tlb_lookup, miss) (mark_dirty-IsLinked vpn w (replace_entry vpn pfn w m') r')
    | inr (pfn, hit) ↦ rw (tlb_lookup, hit) (mark_dirty-IsLinked vpn w (tlb_hit vpn w m) r)
  ]

  -- A load and a store use no NULL pointer.
  pub mem_load-IsLinked :
      (va : ℕ) (m : Machine) → IsMachine c m → IsLinked m → IsLinked (mem_load c va m).1
  unfolding mem_load
  mem_load-IsLinked va m h r = tlb_lookup-IsLinked (vaddr_pagenum c va) false m h r

  pub mem_store-IsLinked :
      (va value : ℕ) (m : Machine) → IsMachine c m → IsLinked m → IsLinked (mem_store c va value m)
  unfolding mem_store
  mem_store-IsLinked va value m h r = tlb_lookup-IsLinked (vaddr_pagenum c va) true m h r
