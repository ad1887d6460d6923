-- ===== src/Threads/BurstCalls.antt =====
-- The steps of the CPU threads of project-6/prj6/os-sim.c, and the operations of the processes; the
-- two error messages of `simulate_process`.
use mathlib.Core.Path.{subst}
use da_bus.Base.{
  ℕ, ◌≡◌, ◌≢◌, refl, sym, ap, ◌∙◌, Option, none, some, inl, inr, ◌⊎◌, arith, false, ◌==◌,
  Bool-cases, ==_iff, ne_of_==,
}
use da_bus.Scheduler.{
  ProcessState, process_new, process_ready, process_running, Os, CpuData, CpuState, cpu_idle,
  cpu_running, cpu_preempt, cpu_yield, cpu_terminate, update, selected_state,
}
use da_bus.Scheduler.Queue.{update_ne, update_self}
use da_bus.Scheduler.Effects.{Handled}
use da_bus.Scheduler.Moves.{Target, Moves}
use da_bus.Simulator.Bursts.{Bursts}
use da_bus.Threads.{
  Sim, Supervisor, rounding, simulating, awaiting, signalled, doing_io, waking, forcing, woken,
  creating, exited, looping, waiting, calling, notify, selected, leave_wait, after_call,
}
use da_bus.Threads.Invariant.{IsSim, made_lem}
use da_bus.Threads.Ticks.{told}
use da_bus.Threads.Bursting.{Leaves, Ends, Resumes, IsBursting, Resumes-kept}

Resumes-notify :
    (c : ℕ) (q : Supervisor) (s t : Sim) → t.ops ≡ s.ops → Resumes q s → Resumes (notify c q) t
unfolding notify
Resumes-notify c (awaiting n) s t e h = elim (Bool-cases (n == c)) [
  | inl f ↦ rw (notify, f) tt
  | inr f ↦ rw (notify, f) tt
]
Resumes-notify c (forcing caller n) s t e h = elim (Bool-cases (n == c)) [
  | inl f ↦ rw (notify, f) tt
  | inr f ↦ rw (notify, f) tt
]
Resumes-notify c (waking caller p) s t e h = Resumes-kept (waking caller p) s t e h
Resumes-notify c rounding s t e h = tt
Resumes-notify c (simulating n) s t e h = tt
Resumes-notify c (signalled n) s t e h = tt
Resumes-notify c doing_io s t e h = tt
Resumes-notify c (woken caller) s t e h = tt
Resumes-notify c creating s t e h = tt
Resumes-notify c exited s t e h = tt

-- A thread at its new place is not about to end.
selected_stays : (r : Option ℕ) → Ends (selected r) (selected_state r) → ⊥
unfolding selected selected_state
selected_stays none (inl e) = ground (arith, e)
selected_stays none (inr e) = ground (arith, e)
selected_stays (some p) (inl e) = ground (arith, e)
selected_stays (some p) (inr e) = ground (arith, e)

after_call_stays : (st x : CpuState) (os : Os) → Ends (after_call st os) x → ⊥
unfolding after_call
after_call_stays cpu_idle x os e = elim (Bool-cases (os.queue.count == 0)) [
  | inl f ↦
      let h : Ends (calling cpu_idle) x = rw (after_call, f) at e in
      elim h [ inl g ↦ ground (arith, g) | inr g ↦ ground (arith, g) ]
  | inr f ↦ let h : Ends looping x = rw (after_call, f) at e in h
]
after_call_stays cpu_running x os e = e
after_call_stays cpu_preempt x os e = e
after_call_stays cpu_yield x os e = e
after_call_stays cpu_terminate x os e = e

Ends-leave_wait :
    (st : CpuState)
    → (Ends waiting st → Ends (leave_wait st) st) × (Ends (leave_wait st) st → Ends waiting st)
unfolding leave_wait
Ends-leave_wait cpu_idle = ((λ e. e), (λ e. e))
Ends-leave_wait cpu_running = ((λ e. e), (λ e. e))
Ends-leave_wait cpu_preempt = ((λ e. e), (λ e. e))
Ends-leave_wait cpu_yield = ((λ e. e), (λ e. e))
Ends-leave_wait cpu_terminate = ((λ e. e), (λ e. e))

notify_waits : (c n : ℕ) → n ≢ c → notify c (awaiting n) ≡ awaiting n
unfolding notify
notify_waits c n h = let e : (n == c) ≡ false = ground (arith, h) in rw (notify, e) refl

-- A process that is READY or NEW behind a handler was so before, or has been preempted.
was_ready :
    (st : CpuState) (x y : ProcessState) (on : Type 0)
    → (y ≡ x) ⊎ ((y ≡ process_running) ⊎ (on × Target st y))
    → (y ≡ process_ready) ⊎ (y ≡ process_new)
    → ((x ≡ process_ready) ⊎ (x ≡ process_new)) ⊎ (on × (st ≡ cpu_preempt))
was_ready st x y on (inl e) h = inl (subst (λ z. (z ≡ process_ready) ⊎ (z ≡ process_new)) e h)
was_ready st x y on (inr (inl e)) (inl h) = absurd (ground (arith, sym e ∙ h))
was_ready st x y on (inr (inl e)) (inr h) = absurd (ground (arith, sym e ∙ h))
was_ready cpu_preempt x y on (inr (inr (a, e))) h = inr (a, refl)
was_ready cpu_yield x y on (inr (inr (a, e))) (inl h) = absurd (ground (arith, sym e ∙ h))
was_ready cpu_yield x y on (inr (inr (a, e))) (inr h) = absurd (ground (arith, sym e ∙ h))
was_ready cpu_terminate x y on (inr (inr (a, e))) (inl h) = absurd (ground (arith, sym e ∙ h))
was_ready cpu_terminate x y on (inr (inr (a, e))) (inr h) = absurd (ground (arith, sym e ∙ h))
was_ready cpu_idle x y on (inr (inr (a, e))) h = elim e [ ]
was_ready cpu_running x y on (inr (inr (a, e))) h = elim e [ ]

module _ (s : Sim) (v : IsSim s) (w : IsBursting s) (c : ℕ) where
  pub selects-IsBursting :
      s.threads c ≡ looping
      → let r = (s.os.cpu_data c).current in
        IsBursting (record s {
          os = record s.os { cpu_data = told c (selected_state r) s.os.cpu_data };
          supervisor = notify c s.supervisor;
          threads = update s.threads c (selected r);
        })
  selects-IsBursting head = record {
    alternate = w.alternate;
    ready = w.ready;
    on = λ i p e. elim (Bool-cases (i == c)) [
      | inl f ↦
          let same = (==_iff i c).0 f in
          elim (w.on i p e) [
            | inl b ↦ inl b
            | inr k ↦
                absurd (subst (λ t. Ends t (s.os.cpu_data i).state) (ap s.threads same ∙ head) k)
          ]
      | inr f ↦
          let ne = ne_of_== i c f in
          rw (update_ne s.os.cpu_data c i x ne, update_ne s.threads c i (selected r) ne)
            (w.on i p e)
    ];
    pending = λ i e. elim (Bool-cases (i == c)) [
      | inl f ↦
          let same = (==_iff i c).0 f in
          let k : Ends (update s.threads c (selected r) c)
              (told c (selected_state r) s.os.cpu_data c).state =
            subst
              (λ j.
                Ends (update s.threads c (selected r) j)
                  (told c (selected_state r) s.os.cpu_data j).state)
              same e in
          let l : Ends (selected r) (selected_state r) =
            rw (update_self s.os.cpu_data c x, update_self s.threads c (selected r)) at k in
          absurd (selected_stays r l)
      | inr f ↦
          let ne = ne_of_== i c f in
          let k : Ends (s.threads i) (s.os.cpu_data i).state =
            rw (update_ne s.os.cpu_data c i x ne, update_ne s.threads c i (selected r) ne) at e in
          ap (notify c) (w.pending i k) ∙ notify_waits c i ne
    ];
    resumes = Resumes-notify c s.supervisor s t refl w.resumes;
  }
    where
      r : Option ℕ
      r = (s.os.cpu_data c).current

      x : CpuData
      x = record (s.os.cpu_data c) { state = selected_state r }

      t : Sim
      t = record s {
        os = record s.os { cpu_data = told c (selected_state r) s.os.cpu_data };
        supervisor = notify c s.supervisor;
        threads = update s.threads c (selected r);
      }

  pub leaves-IsBursting :
      s.threads c ≡ waiting
      → IsBursting (record s { threads = update s.threads c (leave_wait (s.os.cpu_data c).state) })
  leaves-IsBursting here = record {
    alternate = w.alternate;
    ready = w.ready;
    on = λ i p e. elim (w.on i p e) [ inl b ↦ inl b | inr k ↦ inr ((turns i).0 k) ];
    pending = λ i e. w.pending i ((turns i).1 e);
    resumes =
        Resumes-kept s.supervisor s (record s { threads = update s.threads c (leave_wait st) }) refl
          w.resumes;
  }
    where
      st : CpuState
      st = (s.os.cpu_data c).state

      turns :
          (i : ℕ)
          → (Ends (s.threads i) (s.os.cpu_data i).state
              → Ends (update s.threads c (leave_wait st) i) (s.os.cpu_data i).state)
            × (Ends (update s.threads c (leave_wait st) i) (s.os.cpu_data i).state
                → Ends (s.threads i) (s.os.cpu_data i).state)
      turns i = elim (Bool-cases (i == c)) [
        | inl f ↦
            rw ((==_iff i c).0 f, update_self s.threads c (leave_wait st), here)
              (Ends-leave_wait st)
        | inr f ↦ rw (update_ne s.threads c i (leave_wait st) (ne_of_== i c f)) ((λ e. e), (λ e. e))
      ]

  pub called-IsBursting :
      (st : CpuState) (os : Os)
      → s.threads c ≡ calling st
      → Handled c s.os os
      → Moves st c s.os os
      → IsBursting (record s { os = os; threads = update s.threads c (after_call st s.os) })
  called-IsBursting st os here h m = record {
    alternate = w.alternate;
    ready = λ q l e.
        elim (was_ready st (s.os.pcbs q).state (os.pcbs q).state (s.os.current c ≡ some q)
          (m.states q) e) [ inl k ↦ w.ready q l k | inr (at, k) ↦ stood q at (inl k) ];
    on = λ i p e. elim (Bool-cases (i == c)) [
      | inl f ↦ elim (m.chosen p (ap os.current (sym ((==_iff i c).0 f)) ∙ e)) [
        | inl k ↦ inl (w.ready p (made_lem s v p (λ z. ground (arith, sym k ∙ z))) (inl k))
        | inr (at, k) ↦ inl (stood p at k)
      ]
      | inr f ↦
          let ne = ne_of_== i c f in
          rw (h.data_elsewhere i ne, update_ne s.threads c i (after_call st s.os) ne)
            (w.on i p (sym (h.elsewhere i ne) ∙ e))
    ];
    pending = λ i e. elim (Bool-cases (i == c)) [
      | inl f ↦
          let same = (==_iff i c).0 f in
          let k : Ends (update s.threads c (after_call st s.os) c) (os.cpu_data c).state =
            subst (λ j. Ends (update s.threads c (after_call st s.os) j) (os.cpu_data j).state) same
              e in
          let l : Ends (after_call st s.os) (os.cpu_data c).state =
            rw (update_self s.threads c (after_call st s.os)) at k in
          absurd (after_call_stays st (os.cpu_data c).state s.os l)
      | inr f ↦
          let ne = ne_of_== i c f in
          let k : Ends (s.threads i) (s.os.cpu_data i).state =
            rw (h.data_elsewhere i ne, update_ne s.threads c i (after_call st s.os) ne) at e in
          w.pending i k
    ];
    resumes =
        Resumes-kept s.supervisor s
          (record s { os = os; threads = update s.threads c (after_call st s.os) }) refl w.resumes;
  }
    where
      stood :
          (q : ℕ)
          → s.os.current c ≡ some q
          → (st ≡ cpu_preempt) ⊎ (st ≡ cpu_running)
          → Bursts (s.ops q)
      stood q at k = elim (w.on c q at) [
        | inl b ↦ b
        | inr e ↦
            let l : Leaves st = subst (λ t. Ends t (s.os.cpu_data c).state) here e in
            absurd (elim k [
              | inl a ↦ elim l [
                | inl b ↦ ground (arith, sym a ∙ b)
                | inr b ↦ ground (arith, sym a ∙ b)
              ]
              | inr a ↦ elim l [
                | inl b ↦ ground (arith, sym a ∙ b)
                | inr b ↦ ground (arith, sym a ∙ b)
              ]
            ])
      ]
