-- ===== src/Memory/Runs.antt =====
-- Whole runs of the simulator of project-4/prj4/simulator-src.
use mathlib.Core.Path.{subst}
use mathlib.Core.Option.{some_inj}
use da_bus.Base.{
  All, Option-cases, All-map, All-replicate, All-snoc, length-map, ℕ, ◌%◌, ◌^◌, ◌<◌, ◌≡◌, ◌≢◌, refl,
  sym, ap, ◌∙◌, Bool, true, false, ◌&&◌, ◌||◌, not, Option, none, some, List, [], ◌∷◌, ◌++◌, arith,
  if◌then◌else◌, ◌==◌, ==_iff, ne_of_==, ltb, ltb→lt, lt→ltb, length, get_or, set, has, map,
  replicate, length-set, length-replicate, get_or-set_self, get_or-set_ne, Bool-cases, inl, inr,
}
use da_bus.Memory.{
  Config, Machine, Pcb, null_pte, null_tlbe, null_rlt, null_pcb, num_pte, num_frames, clear_entry,
  tlb_clearall,
}
use da_bus.Memory.Commands.{
  Command, fork, load, store, ignored, mem_load, mem_store, proc_fork, proc_switch, sim_init,
  run_command, sim_readdata, switched, must_switch, unfaulted,
}
use da_bus.Memory.Invariant.{IsConfig, IsMachine, IsTlbe, IsTable, with_tables, with_tlb}
use da_bus.Memory.Pointers.{HasTable, Owned, IsLinked, mem_load-IsLinked, mem_store-IsLinked}
use da_bus.Memory.Accesses.{mem_load-IsMachine, mem_store-IsMachine}

-- Every load and store, other than of a pid that is too great, is of a process forked before.
abbrev pub is_served : Config → List ℕ → List Command → Bool
is_served c forked [] = true
is_served c forked (fork pid ∷ rest) = is_served c (pid ∷ forked) rest
is_served c forked (load pid addr ∷ rest) =
    (not (ltb pid c.max_jobs) || has pid forked) && is_served c forked rest
is_served c forked (store pid addr val ∷ rest) =
    (not (ltb pid c.max_jobs) || has pid forked) && is_served c forked rest
is_served c forked (ignored ∷ rest) = is_served c forked rest

All-weaken :
    {A : Type 0} (P Q : A → Type 0) (xs : List A) → ((x : A) → P x → Q x) → All P xs → All Q xs
All-weaken P Q [] f h = tt
All-weaken P Q (x ∷ xs) f h = (f x h.0, All-weaken P Q xs f h.1)

module _ (c : Config) (k : IsConfig c) where
  -- A machine in order on which the processes of a list have page tables, and so have the current
  -- one and those whose pages are in the frames.
  record Serves (forked : List ℕ) (m : Machine) : Type 0 where
    machine : IsMachine c m
    jobs : length m.proc_list ≡ c.max_jobs
    tables_of :
        (pid : ℕ)
        → has pid forked ≡ true
        → pid < c.max_jobs
        → (t : ℕ) × ((get_or m.proc_list pid null_pcb).pagetable ≡ some t)
    frames : All (Owned m.proc_list) m.rlt
    current_of :
        (p : ℕ)
        → m.current ≡ some p
        → HasTable m.proc_list p × ((t : ℕ) × (m.current_pagetable ≡ some t))
    sound : m.faulted ≡ false

  abbrev Returns : List ℕ → Option Machine → Type 0
  Returns forked o = (m : Machine) × (o ≡ some m) × Serves forked m

  -- There is a current process.
  abbrev Switches : List ℕ → Option Machine → Type 0
  Switches forked o =
      (m : Machine) × (o ≡ some m) × Serves forked m × ((p : ℕ) × (m.current ≡ some p))

  Serves-IsLinked :
      (forked : List ℕ) (m : Machine) (p : ℕ) → Serves forked m → m.current ≡ some p → IsLinked m
  Serves-IsLinked forked m p s e =
      let (h, table) = s.current_of p e in
      record { frames = s.frames; owner = (p, e, h); table = table; sound = s.sound }

  same_processes :
      (forked : List ℕ) (m m' : Machine)
      → Serves forked m
      → IsMachine c m'
      → IsLinked m'
      → m'.proc_list ≡ m.proc_list
      → Serves forked m'
  same_processes forked m m' s h r e = record {
    machine = h;
    jobs = rw e s.jobs;
    tables_of = λ pid there below. rw e (s.tables_of pid there below);
    frames = r.frames;
    current_of = λ p f.
        let (q, g, owned) = r.owner in
        (subst (HasTable m'.proc_list) (some_inj.0 (sym g ∙ f)) owned, r.table);
    sound = r.sound;
  }

  proc_switch-Serves :
      (pid : ℕ) (forked : List ℕ) (m : Machine)
      → Serves forked m
      → has pid forked ≡ true
      → pid < c.max_jobs
      → Switches forked (proc_switch pid m)
  unfolding proc_switch tlb_clearall clear_entry
  proc_switch-Serves pid forked m s there below =
      let (t, table) = s.tables_of pid there below in
      let m1 : Machine = record m { current = some pid; current_pagetable = some t } in
      let kept =
        with_tlb c k m1 (map clear_entry m.tlb) s.machine
          (length-map clear_entry m.tlb ∙ s.machine.tlb_length)
          (All-map (IsTlbe c) clear_entry m.tlb (λ e p. p) s.machine.tlb_frames) in
      let linked : IsLinked m1 = record {
        frames = s.frames;
        owner = (pid, refl, (t, table));
        table = (t, refl);
        sound = s.sound;
      } in
      (
        tlb_clearall m1,
        rw (proc_switch, table) refl,
        same_processes forked m (tlb_clearall m1) s kept linked refl,
        (pid, refl),
      )

  must_switch-some :
      (pid : ℕ) (m : Machine) → must_switch pid m ≡ false → (p : ℕ) × (m.current ≡ some p)
  must_switch-some pid m h = elim (Option-cases m.current) [
    | inl e ↦ let no : true ≡ false = rw e at h in absurd (ground (arith, no))
    | inr there ↦ there
  ]

  switched-Serves :
      (pid : ℕ) (forked : List ℕ) (m : Machine)
      → Serves forked m
      → has pid forked ≡ true
      → pid < c.max_jobs
      → Switches forked (switched pid m)
  switched-Serves pid forked m s there below = elim (Bool-cases (must_switch pid m)) [
    | inl must ↦ rw must (proc_switch-Serves pid forked m s there below)
    | inr stays ↦ rw stays (m, refl, s, must_switch-some pid m stays)
  ]

  -- The part that loads and stores share: the test of the pid, the switch `o`, and the access `f`.
  access-Serves :
      (forked : List ℕ) (b : Bool) (o : Option Machine) (f : Machine → Machine) (m : Machine)
      → Serves forked m
      → (b ≡ true → Switches forked o)
      → ((m1 : Machine) → IsMachine c m1 → IsMachine c (f m1) × ((f m1).proc_list ≡ m1.proc_list))
      → ((m1 : Machine) → IsMachine c m1 → IsLinked m1 → IsLinked (f m1))
      → Returns forked (if b then elim o [ none ↦ none | some m1 ↦ unfaulted (f m1) ] else some m)
  access-Serves forked false o f m s r q g = (m, refl, s)
  access-Serves forked true o f m s r q g =
      let (m1, is_some, s1, (p, now)) = r refl in
      let (kept, same) = q m1 s1.machine in
      let linked = g m1 s1.machine (Serves-IsLinked forked m1 p s1 now) in
      (f m1, rw (is_some, linked.sound) refl, same_processes forked m1 (f m1) s1 kept linked same)

  -- A process that gets a page table does not lose those of the others.
  forked_tables :
      (l : List Pcb) (pid n : ℕ)
      → pid < length l
      → (p : ℕ) → HasTable l p
      → HasTable (set l pid (record { pid = pid; pagetable = some n })) p
  forked_tables l pid n inside p (t, e) =
      let pcb : Pcb = record { pid = pid; pagetable = some n } in
      elim (Bool-cases (p == pid)) [
        | inl here ↦
            let same = (==_iff p pid).0 here in
            let found : get_or (set l pid pcb) p null_pcb ≡ pcb =
              rw same (get_or-set_self l pid pcb null_pcb inside) in
            (n, ap (λ (p : Pcb). p.pagetable) found)
        | inr other ↦
            let ne : pid ≢ p = λ i. ne_of_== p pid other (sym i) in
            (t, ap (λ (p : Pcb). p.pagetable) (get_or-set_ne l pid p pcb null_pcb ne) ∙ e)
      ]

  proc_fork-Serves :
      (pid : ℕ) (forked : List ℕ) (m : Machine)
      → Serves forked m
      → pid < c.max_jobs
      → Serves (pid ∷ forked) (proc_fork c pid m)
  unfolding proc_fork
  proc_fork-Serves pid forked m s below =
      let pcb : Pcb = record { pid = pid; pagetable = some (length m.tables) } in
      let tables = forked_tables m.proc_list pid (length m.tables) (omega (arith, below, s.jobs)) in
      record {
        machine = with_tables c k m (m.tables ++ (replicate (num_pte c) null_pte ∷ [])) s.machine (
            All-snoc (IsTable c) m.tables (replicate (num_pte c) null_pte) s.machine.table_frames
              (All-replicate _ (num_pte c) null_pte k.frames_pos));
        jobs = length-set m.proc_list pid pcb ∙ s.jobs;
        frames =
            All-weaken (Owned m.proc_list) (Owned (set m.proc_list pid pcb)) m.rlt
              (λ r own p e. tables p (own p e)) s.frames;
        current_of = λ p e. let (h, table) = s.current_of p e in (tables p h, table);
        sound = s.sound;
        tables_of = λ q there l. elim (Bool-cases (q == pid)) [
          | inl here ↦
              let q_is : q ≡ pid = (==_iff q pid).0 here in
              let inside : pid < length m.proc_list = omega (arith, s.jobs) in
              let found : get_or (set m.proc_list pid pcb) q null_pcb ≡ pcb =
                rw q_is (get_or-set_self m.proc_list pid pcb null_pcb inside) in
              (length m.tables, ap (λ (p : Pcb). p.pagetable) found)
          | inr other ↦
              let rest : has q forked ≡ true = rw other at there in
              let ne : pid ≢ q = λ e. ne_of_== q pid other (sym e) in
              let (t, table) = s.tables_of q rest l in
              (
                t,
                ap (λ (p : Pcb). p.pagetable) (get_or-set_ne m.proc_list pid q pcb null_pcb ne)
                    ∙ table,
              )
        ];
      }

  refused-Serves :
      (pid : ℕ) (forked : List ℕ) (m : Machine)
      → Serves forked m
      → ltb pid c.max_jobs ≡ false
      → Serves (pid ∷ forked) m
  refused-Serves pid forked m s above = record {
    machine = s.machine;
    jobs = s.jobs;
    frames = s.frames;
    current_of = s.current_of;
    sound = s.sound;
    tables_of = λ q there l. elim (Bool-cases (q == pid)) [
      | inl here ↦
          let q_is : q ≡ pid = (==_iff q pid).0 here in
          let no : ltb pid c.max_jobs ≡ true = rw (← q_is) (lt→ltb q c.max_jobs l) in cc
      | inr other ↦ let rest : has q forked ≡ true = rw other at there in s.tables_of q rest l
    ];
  }

  split_served : (b h r : Bool) → ((not b || h) && r) ≡ true → (b ≡ true → h ≡ true) × (r ≡ true)
  split_served true true true e = (λ _. refl, refl)
  split_served true true false e = cc
  split_served true false r e = cc
  split_served false h true e = (λ n. cc, refl)
  split_served false h false e = cc

  run_command-Serves :
      (command : Command) (rest : List Command) (forked : List ℕ) (m : Machine)
      → Serves forked m
      → is_served c forked (command ∷ rest) ≡ true
      → (forked' : List ℕ) × Returns forked' (run_command c command m)
        × (is_served c forked' rest ≡ true)
  unfolding run_command
  run_command-Serves (fork pid) rest forked m s h = elim (Bool-cases (ltb pid c.max_jobs)) [
    | inl below ↦
        let s' = proc_fork-Serves pid forked m s (ltb→lt pid c.max_jobs below) in
        (pid ∷ forked, (proc_fork c pid m, rw (run_command, below) refl, s'), h)
    | inr above ↦
        (pid ∷ forked, (m, rw (run_command, above) refl, refused-Serves pid forked m s above), h)
  ]
  run_command-Serves (load pid addr) rest forked m s h =
      let (there, later) =
        split_served (ltb pid c.max_jobs) (has pid forked) (is_served c forked rest) h in
      (
        forked,
        access-Serves forked (ltb pid c.max_jobs) (switched pid m)
            (λ m1. (mem_load c (addr % 2 ^ 16) m1).1) m s
            (λ b. switched-Serves pid forked m s (there b) (ltb→lt pid c.max_jobs b))
            (mem_load-IsMachine c k (addr % 2 ^ 16)) (mem_load-IsLinked c k (addr % 2 ^ 16)),
        later,
      )
  run_command-Serves (store pid addr val) rest forked m s h =
      let (there, later) =
        split_served (ltb pid c.max_jobs) (has pid forked) (is_served c forked rest) h in
      (
        forked,
        access-Serves forked (ltb pid c.max_jobs) (switched pid m)
            (mem_store c (addr % 2 ^ 16) (val % 256)) m s
            (λ b. switched-Serves pid forked m s (there b) (ltb→lt pid c.max_jobs b))
            (mem_store-IsMachine c k (addr % 2 ^ 16) (val % 256))
            (mem_store-IsLinked c k (addr % 2 ^ 16) (val % 256)),
        later,
      )
  run_command-Serves ignored rest forked m s h = (forked, (m, refl, s), h)

  runs-IsMachine :
      (commands : List Command) (forked : List ℕ) (m : Machine)
      → Serves forked m
      → is_served c forked commands ≡ true
      → (m' : Machine) × (sim_readdata c commands m ≡ some m') × IsMachine c m'
  unfolding sim_readdata
  runs-IsMachine [] forked m s h = (m, refl, s.machine)
  runs-IsMachine (command ∷ rest) forked m s h =
      let (forked', returned, later) = run_command-Serves command rest forked m s h in
      let (m', last, kept) = runs-IsMachine rest forked' returned.0 returned.2 later in
      (m', rw (sim_readdata, returned.1) last, kept)

  sim_init-Serves : Serves [] (sim_init c)
  unfolding sim_init
  sim_init-Serves = record {
    machine = record {
      memory_length = length-replicate c.mem_size 0;
      tlb_length = length-replicate c.tlb_size null_tlbe;
      rlt_length = length-replicate (num_frames c) null_rlt;
      tlb_frames = All-replicate (IsTlbe c) c.tlb_size null_tlbe k.frames_pos;
      table_frames = tt;
      swap_lengths = tt;
    };
    jobs = length-replicate c.max_jobs null_pcb;
    tables_of = λ pid there below. cc;
    frames =
        All-replicate (Owned (replicate c.max_jobs null_pcb)) (num_frames c) null_rlt
          (λ p e. absurd (ground (arith, e)));
    current_of = λ p e. absurd (ground (arith, e));
    sound = refl;
  }

  -- Every run from the initial state, in which each process that is used was forked before, ends
  -- with no NULL pointer used and no failed assert, and at its end the memory, the TLB and the reverse lookup table have their
  -- sizes, every frame number in the TLB and in a page table is one of the memory, and the swap file
  -- has whole pages.
  pub sim_readdata-IsMachine :
      (commands : List Command)
      → is_served c [] commands ≡ true
      → (m : Machine) × (sim_readdata c commands (sim_init c) ≡ some m) × IsMachine c m
  sim_readdata-IsMachine commands h = runs-IsMachine commands [] (sim_init c) sim_init-Serves h
