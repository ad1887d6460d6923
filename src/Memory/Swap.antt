-- ===== src/Memory/Swap.antt =====
-- The swap file of project-4/prj4/simulator-src/swapfile.c: a page comes back as it was saved.
use da_bus.Base.{
  ℕ, zero, suc, ◌+◌, ◌<◌, ◌≡◌, refl, ap, ◌∙◌, true, some, List, [], ◌∷◌, ◌++◌, arith, ◌==◌, ==_iff,
  length, take, drop, length-take,
}
use da_bus.Memory.{
  SwapPage, Config, Machine, num_frames, frame_byte, read_page, write_page, page_to_disk, find_page,
  page_from_disk,
}
use da_bus.Memory.Invariant.{IsConfig, IsMachine, frame_byte-fits, length-read_page, with_memory}

drop_length : (xs ys : List ℕ) (n : ℕ) → length xs ≡ n → drop n (xs ++ ys) ≡ ys
drop_length [] ys zero e = refl
drop_length [] ys (suc n) e = absurd (omega arith)
drop_length (x ∷ xs) ys zero e = absurd (omega arith)
drop_length (x ∷ xs) ys (suc n) e = drop_length xs ys n (omega arith)

take_length : (xs ys : List ℕ) (n : ℕ) → length xs ≡ n → take n (xs ++ ys) ≡ xs
take_length [] ys zero e = refl
take_length [] ys (suc n) e = absurd (omega arith)
take_length (x ∷ xs) ys zero e = absurd (omega arith)
take_length (x ∷ xs) ys (suc n) e = ap (◌∷◌ x) (take_length xs ys n (omega arith))

find_page_head :
    (p : SwapPage) (rest : List SwapPage) → find_page p.vpn p.pid (p ∷ rest) ≡ some (p, rest)
unfolding find_page
find_page_head p rest =
    let same_pid : (p.pid == p.pid) ≡ true = (==_iff p.pid p.pid).1 refl in
    let same_vpn : (p.vpn == p.vpn) ≡ true = (==_iff p.vpn p.vpn).1 refl in
    rw (find_page, same_pid, same_vpn) refl

module _ (c : Config) (k : IsConfig c) where
  -- What is written to a frame is read from it.
  pub read_page-write_page :
      (pfn : ℕ) (page memory : List ℕ)
      → pfn < num_frames c
      → length page ≡ c.page_size
      → length memory ≡ c.mem_size
      → read_page c pfn (write_page c pfn page memory) ≡ page
  read_page-write_page pfn page memory h p e =
      let at = frame_byte c pfn 0 in
      let front : length (take at memory) ≡ at =
        omega (arith, length-take at memory, frame_byte-fits c k pfn h, e) in
      ap (take c.page_size)
        (drop_length (take at memory) (page ++ drop (at + c.page_size) memory) at front)
      ∙ take_length page (drop (at + c.page_size) memory) c.page_size p

  pub page_to_disk-IsMachine :
      (pfn vpn pid : ℕ) (m : Machine)
      → pfn < num_frames c
      → IsMachine c m
      → IsMachine c (page_to_disk c pfn vpn pid m)
  unfolding page_to_disk
  page_to_disk-IsMachine pfn vpn pid m h v =
      with_memory c k m m.memory _ v v.memory_length
        (length-read_page c k pfn m.memory h v.memory_length, v.swap_lengths)

  -- A page that is saved and brought back to a frame, the same or another one, has the bytes that
  -- it had, and the swap file is the one from before.
  pub page_from_disk-page_to_disk :
      (pfn pfn' vpn pid : ℕ) (m : Machine)
      → pfn < num_frames c
      → pfn' < num_frames c
      → IsMachine c m
      → let back = page_from_disk c pfn' vpn pid (page_to_disk c pfn vpn pid m) in
        (read_page c pfn' back.memory ≡ read_page c pfn m.memory) × (back.swapfile ≡ m.swapfile)
  unfolding page_from_disk page_to_disk
  page_from_disk-page_to_disk pfn pfn' vpn pid m h h' v =
      let saved : SwapPage = record {
        pid = pid;
        vpn = vpn;
        page_data = read_page c pfn m.memory;
      } in
      let same_bytes =
        read_page-write_page pfn' (read_page c pfn m.memory) m.memory h'
          (length-read_page c k pfn m.memory h v.memory_length) v.memory_length in
      rw (page_from_disk, find_page_head saved m.swapfile) (same_bytes, refl)
