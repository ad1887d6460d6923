-- ===== src/Memory/Loads.antt =====
-- The TLB of project-4/prj4/student-src/tlb-lookup.c has a page after its lookup.
use mathlib.Core.Option.{some_inj}
use da_bus.Base.{
  All-set, All-map, length-map, ℕ, zero, suc, ◌+◌, ◌<◌, ◌≡◌, refl, ◌∙◌, Bool, true, false, Option,
  none, some, List, [], ◌∷◌, arith, if◌then◌else◌, ==_iff, ltb, length, get_or, set, map, All,
  length-set, Bool-cases, Option-cases, inl, inr,
}
use da_bus.Memory.{Pcb, Pte, Tlbe, Config, Machine, null_tlbe, num_frames, pte_at, set_pte}
use da_bus.Memory.Paging.{
  pagetable_lookup, matches, touch, last_match, find_slot, replace_entry, mark_dirty, tlb_hit,
  tlb_lookup,
}
use da_bus.Memory.Invariant.{IsConfig, IsMachine, IsTlbe, pte_at-frame, set_pte-IsMachine, with_tlb}
use da_bus.Memory.Matches.{none-last_match}
use da_bus.Memory.Kept.{Idle, pagetable_lookup-Ready}

matches-touch :
    (v : ℕ) (w : Bool) (u : ℕ) (e : Tlbe)
    → (matches v (touch u w e) ≡ matches v e) × ((touch u w e).pfn ≡ e.pfn)
unfolding touch matches
matches-touch v w u e = elim (Bool-cases (matches u e)) [
  | inl here ↦ rw (touch, here) (refl, refl)
  | inr other ↦ rw (touch, other) (refl, refl)
]

last_match-touch :
    (v : ℕ) (w : Bool) (tlb : List Tlbe) → last_match v (map (touch v w) tlb) ≡ last_match v tlb
unfolding last_match
last_match-touch v w [] = refl
last_match-touch v w (e ∷ rest) =
    let (same_match, same_frame) = matches-touch v w v e in
    elim (Option-cases (last_match v rest)) [
      | inl none_there ↦
          let after : last_match v (map (touch v w) rest) ≡ none =
            last_match-touch v w rest ∙ none_there in
          rw (last_match, after, none_there, same_match, same_frame) refl
      | inr (pfn, there) ↦
          let after : last_match v (map (touch v w) rest) ≡ some pfn =
            last_match-touch v w rest ∙ there in
          rw (last_match, after, there) refl
    ]

last_match-set :
    (v i : ℕ) (tlb : List Tlbe) (e : Tlbe)
    → last_match v tlb ≡ none
    → i < length tlb
    → matches v e ≡ true
    → last_match v (set tlb i e) ≡ some e.pfn
unfolding last_match
last_match-set v i [] e h l k = absurd (omega arith)
last_match-set v zero (x ∷ rest) e h l k =
    let (_, none_there) = none-last_match v x rest h in rw (last_match, none_there, k) refl
last_match-set v (suc i) (x ∷ rest) e h l k =
    let (_, none_there) = none-last_match v x rest h in
    rw (last_match, last_match-set v i rest e none_there (omega arith) k) refl

last_match-frame :
    (c : Config) (v pfn : ℕ) (tlb : List Tlbe)
    → last_match v tlb ≡ some pfn
    → All (IsTlbe c) tlb
    → pfn < num_frames c
unfolding last_match
last_match-frame c v pfn [] h a = cc
last_match-frame c v pfn (e ∷ rest) h a = elim (Option-cases (last_match v rest)) [
  | inl none_there ↦ elim (Bool-cases (matches v e)) [
    | inl here ↦
        let found : some e.pfn ≡ some pfn = rw (last_match, none_there, here) at h in
        rw (← some_inj.0 found) a.0
    | inr other ↦ let no : none ≡ some pfn = rw (last_match, none_there, other) at h in cc
  ]
  | inr (q, there) ↦
      let found : some q ≡ some pfn = rw (last_match, there) at h in
      last_match-frame c v pfn rest (there ∙ found) a.1
]

find_slot-lt :
    (i lru value : ℕ) (tlb : List Tlbe)
    → lru < i + length tlb
    → (find_slot i lru value tlb).0 < i + length tlb
unfolding find_slot
find_slot-lt i lru value [] l = l
find_slot-lt i lru value (e ∷ rest) l = elim (Bool-cases e.valid) [
  | inl valid ↦
      let next = if-lt (ltb e.used value) i lru (suc i + length rest) (omega arith) (omega arith) in
      rw (find_slot, valid)
        (omega (
          arith,
          find_slot-lt (suc i) (if ltb e.used value then i else lru)
              (if ltb e.used value then e.used else value) rest next,
        ))
  | inr invalid ↦ rw (find_slot, invalid) (omega arith)
]
  where
    if-lt : (b : Bool) (m n top : ℕ) → m < top → n < top → (if b then m else n) < top
    if-lt true m n top h k = h
    if-lt false m n top h k = k

-- The TLB has a frame for page `v`, and the processes are those of a list.
pub record Found (v : ℕ) (l : List Pcb) (pfn : ℕ) (tlb : List Tlbe) (proc_list : List Pcb)
    : Type 0 where
  pub present : last_match v tlb ≡ some pfn
  pub processes : proc_list ≡ l

set_pte-Found :
    (v : ℕ) (l : List Pcb) (pfn : ℕ) (t : Option ℕ) (vpn : ℕ) (pte : Pte) (m : Machine)
    → Found v l pfn m.tlb m.proc_list
    → Found v l pfn (set_pte t vpn pte m).tlb (set_pte t vpn pte m).proc_list
set_pte-Found v l pfn none vpn pte m f = f
set_pte-Found v l pfn (some t) vpn pte m f = record { present = f.present; processes = f.processes }

module _ (c : Config) (k : IsConfig c) (v : ℕ) (l : List Pcb) where
  -- A frame of the memory, which the TLB of a machine in order has for page `v`.
  abbrev pub Finds : ℕ → Machine → Type 0
  Finds pfn m = (pfn < num_frames c) × IsMachine c m × Found v l pfn m.tlb m.proc_list

  mark_dirty-Finds : (pfn : ℕ) (w : Bool) (m : Machine) → Finds pfn m → Finds pfn (mark_dirty v w m)
  mark_dirty-Finds pfn false m f = f
  mark_dirty-Finds pfn true m f =
      let pte : Pte = record (pte_at m.current_pagetable v m) { dirty = true } in
      let kept =
        set_pte-IsMachine c k m.current_pagetable v pte m f.1
          (pte_at-frame c k m.current_pagetable v m f.1) in
      (f.0, kept, set_pte-Found v l pfn m.current_pagetable v pte m f.2)

  tlb_hit-Finds :
      (pfn : ℕ) (w : Bool) (m : Machine)
      → IsMachine c m
      → Found v l pfn m.tlb m.proc_list
      → Finds pfn (tlb_hit v w m)
  unfolding tlb_hit
  tlb_hit-Finds pfn w m h found =
      let frames =
        All-map (IsTlbe c) (touch v w) m.tlb (λ e p. rw ((matches-touch v w v e).1) p)
          h.tlb_frames in
      (
        last_match-frame c v pfn m.tlb found.present h.tlb_frames,
        with_tlb c k m (map (touch v w) m.tlb) h (length-map (touch v w) m.tlb ∙ h.tlb_length)
            frames,
        record {
          present = last_match-touch v w m.tlb ∙ found.present;
          processes = found.processes;
        },
      )

  replace_entry-Finds :
      (pfn : ℕ) (w : Bool) (m : Machine)
      → pfn < num_frames c
      → IsMachine c m
      → Idle v l m.tlb m.proc_list
      → Finds pfn (replace_entry v pfn w m)
  unfolding replace_entry matches
  replace_entry-Finds pfn w m below h idle =
      let (i, invalid) = find_slot 0 0 (get_or m.tlb 0 null_tlbe).used m.tlb in
      let e : Tlbe = record {
        vpn = v;
        pfn = pfn;
        valid = true;
        dirty = w;
        used = if invalid then 0 else (get_or m.tlb i null_tlbe).used;
      } in
      let inside : i < length m.tlb = omega (
        arith,
        find_slot-lt 0 0 (get_or m.tlb 0 null_tlbe).used m.tlb
            (omega (arith, h.tlb_length, k.tlb_pos)),
      ) in
      let here : matches v e ≡ true = (==_iff v v).1 refl in
      (
        below,
        with_tlb c k m (set m.tlb i e) h (length-set m.tlb i e ∙ h.tlb_length)
            (All-set (IsTlbe c) m.tlb i e h.tlb_frames below),
        record {
          present = last_match-set v i m.tlb e idle.absent inside here;
          processes = idle.processes;
        },
      )

  -- After a lookup the TLB has the frame that was returned, and the frame is one of the memory.
  pub tlb_lookup-Finds :
      (w : Bool) (m : Machine)
      → IsMachine c m
      → m.proc_list ≡ l
      → Finds (tlb_lookup c v w m).0 (tlb_lookup c v w m).1
  unfolding tlb_lookup
  tlb_lookup-Finds w m h p = elim (Option-cases (last_match v m.tlb)) [
    | inl miss ↦
        let (pfn, m') = pagetable_lookup c v m in
        let (inside, ready) =
          pagetable_lookup-Ready c k v l v m (h, record { absent = miss; processes = p }) in
        rw (tlb_lookup, miss)
          (mark_dirty-Finds pfn w _ (replace_entry-Finds pfn w m' inside ready.0 ready.1))
    | inr (pfn, hit) ↦
        rw (tlb_lookup, hit)
          (mark_dirty-Finds pfn w _
            (tlb_hit-Finds pfn w m h (record { present = hit; processes = p })))
  ]
