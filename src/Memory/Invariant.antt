-- ===== src/Memory/Invariant.antt =====
-- The sizes and frame numbers that all operations of project-4/prj4 keep.
use native.Mathlib.Nat.{div-add-mod}
use da_bus.Base.{
  All-get_or, All-set, ℕ, ◌+◌, ◌*◌, ◌^◌, ◌≤◌, ◌<◌, ◌≡◌, Option, none, some, List, [], ◌++◌, arith,
  length, get_or, set, take, drop, All, length-append, length-take, length-drop,
}
use da_bus.Memory.{
  Pte, Tlbe, Rlt, SwapPage, Config, Machine, null_pte, num_frames, frame_byte, pte_at, set_pte,
  read_page, write_page,
}

-- The options that the program is run with.
pub record IsConfig (c : Config) : Type 0 where
  pub page_pos : 0 < c.page_size
  pub frames_pos : 0 < num_frames c
  pub tlb_pos : 0 < c.tlb_size
  pub small : c.mem_size < 2 ^ 32

abbrev pub IsTlbe : Config → Tlbe → Type 0
IsTlbe c e = e.pfn < num_frames c

abbrev pub IsTable : Config → List Pte → Type 0
IsTable c = All (λ p. p.pfn < num_frames c)

abbrev pub IsPage : Config → SwapPage → Type 0
IsPage c p = length p.page_data ≡ c.page_size

pub record Holds (c : Config) (memory : List ℕ) (tlb : List Tlbe) (rlt : List Rlt)
    (tables : List (List Pte)) (swapfile : List SwapPage) : Type 0 where
  pub memory_length : length memory ≡ c.mem_size
  pub tlb_length : length tlb ≡ c.tlb_size
  pub rlt_length : length rlt ≡ num_frames c
  pub tlb_frames : All (IsTlbe c) tlb
  pub table_frames : All (IsTable c) tables
  pub swap_lengths : All (IsPage c) swapfile

-- The memory, the TLB and the reverse lookup table have their sizes, all frames are in the memory,
-- and the swap file has whole pages.
abbrev pub IsMachine : Config → Machine → Type 0
IsMachine c m = Holds c m.memory m.tlb m.rlt m.tables m.swapfile

module _ (c : Config) (k : IsConfig c) where
  frame_fits : (pfn : ℕ) → pfn < num_frames c → pfn * c.page_size + c.page_size ≤ c.mem_size
  frame_fits pfn h =
      let d = div-add-mod c.mem_size c.page_size in
      let le : (pfn + 1) * c.page_size ≤ num_frames c * c.page_size = grind arith in grind arith

  -- A byte of a frame is in the memory.
  pub frame_byte-lt :
      (pfn offset : ℕ)
      → pfn < num_frames c
      → offset < c.page_size
      → frame_byte c pfn offset < c.mem_size
  unfolding frame_byte
  frame_byte-lt pfn offset h l = omega (arith, frame_fits pfn h, k.small)

  pub frame_byte-fits :
      (pfn : ℕ) → pfn < num_frames c → frame_byte c pfn 0 + c.page_size ≤ c.mem_size
  unfolding frame_byte
  frame_byte-fits pfn h = omega (arith, frame_fits pfn h, k.small, k.page_pos)

  pub length-read_page :
      (pfn : ℕ) (memory : List ℕ)
      → pfn < num_frames c
      → length memory ≡ c.mem_size
      → length (read_page c pfn memory) ≡ c.page_size
  length-read_page pfn memory h e = omega (
    arith,
    length-take c.page_size (drop (frame_byte c pfn 0) memory),
    length-drop (frame_byte c pfn 0) memory,
    frame_byte-fits pfn h,
    e,
  )

  pub length-write_page :
      (pfn : ℕ) (page memory : List ℕ)
      → pfn < num_frames c
      → length page ≡ c.page_size
      → length memory ≡ c.mem_size
      → length (write_page c pfn page memory) ≡ c.mem_size
  length-write_page pfn page memory h p e =
      let at = frame_byte c pfn 0 in
      omega (
        arith,
        length-append (take at memory) (page ++ drop (at + c.page_size) memory),
        length-append page (drop (at + c.page_size) memory),
        length-take at memory,
        length-drop (at + c.page_size) memory,
        frame_byte-fits pfn h,
        p,
        e,
      )

  pub pte_at-frame :
      (t : Option ℕ) (vpn : ℕ) (m : Machine) → IsMachine c m → (pte_at t vpn m).pfn < num_frames c
  pte_at-frame none vpn m v = k.frames_pos
  pte_at-frame (some t) vpn m v =
      All-get_or _ (get_or m.tables t []) vpn null_pte
        (All-get_or (IsTable c) m.tables t [] v.table_frames tt) k.frames_pos

  pub with_tables :
      (m : Machine) (tables : List (List Pte))
      → IsMachine c m
      → All (IsTable c) tables
      → IsMachine c (record m { tables = tables })
  with_tables m tables v h = record {
    memory_length = v.memory_length;
    tlb_length = v.tlb_length;
    rlt_length = v.rlt_length;
    tlb_frames = v.tlb_frames;
    table_frames = h;
    swap_lengths = v.swap_lengths;
  }

  pub with_tlb :
      (m : Machine) (tlb : List Tlbe)
      → IsMachine c m
      → length tlb ≡ c.tlb_size
      → All (IsTlbe c) tlb
      → IsMachine c (record m { tlb = tlb })
  with_tlb m tlb v e h = record {
    memory_length = v.memory_length;
    tlb_length = e;
    rlt_length = v.rlt_length;
    tlb_frames = h;
    table_frames = v.table_frames;
    swap_lengths = v.swap_lengths;
  }

  pub with_rlt :
      (m : Machine) (rlt : List Rlt)
      → IsMachine c m
      → length rlt ≡ num_frames c
      → IsMachine c (record m { rlt = rlt })
  with_rlt m rlt v e = record {
    memory_length = v.memory_length;
    tlb_length = v.tlb_length;
    rlt_length = e;
    tlb_frames = v.tlb_frames;
    table_frames = v.table_frames;
    swap_lengths = v.swap_lengths;
  }

  pub with_memory :
      (m : Machine) (memory : List ℕ) (swapfile : List SwapPage)
      → IsMachine c m
      → length memory ≡ c.mem_size
      → All (IsPage c) swapfile
      → IsMachine c (record m { memory = memory; swapfile = swapfile })
  with_memory m memory swapfile v e h = record {
    memory_length = e;
    tlb_length = v.tlb_length;
    rlt_length = v.rlt_length;
    tlb_frames = v.tlb_frames;
    table_frames = v.table_frames;
    swap_lengths = h;
  }

  pub set_pte-IsMachine :
      (t : Option ℕ) (vpn : ℕ) (pte : Pte) (m : Machine)
      → IsMachine c m
      → pte.pfn < num_frames c
      → IsMachine c (set_pte t vpn pte m)
  set_pte-IsMachine none vpn pte m v h = v
  set_pte-IsMachine (some t) vpn pte m v h =
      let table = get_or m.tables t [] in
      let old : IsTable c table = All-get_or (IsTable c) m.tables t [] v.table_frames tt in
      with_tables m (set m.tables t (set table vpn pte)) v (
        All-set (IsTable c) m.tables t (set table vpn pte) v.table_frames
          (All-set _ table vpn pte old h))
