-- ===== src/Threads/Comings.antt =====
-- The supervisor of project-6/prj6/os-sim.c never waits in vain for a CPU thread.
use mathlib.Core.Path.{subst}
use da_bus.Base.{
  ℕ, ◌≡◌, ◌≢◌, refl, sym, ap, ◌∙◌, Option, none, some, inl, inr, arith, ◌==◌, Bool-cases, ==_iff,
  ne_of_==,
}
use da_bus.Scheduler.{
  Os, CpuData, CpuState, cpu_idle, cpu_running, cpu_preempt, cpu_yield, cpu_terminate, update,
  selected_state,
}
use da_bus.Scheduler.Queue.{update_ne, update_self}
use da_bus.Scheduler.Handlers.{update_all}
use da_bus.Scheduler.Effects.{Handled}
use da_bus.Threads.{
  Sim, Supervisor, rounding, simulating, awaiting, signalled, doing_io, waking, forcing, woken,
  creating, exited, looping, waiting, calling, notify, selected, leave_wait, after_call,
}
use da_bus.Threads.Ticks.{told}
use da_bus.Threads.Signals.{Coming, Awaits, IsSignalled}

selected-waiting : (r : Option ℕ) → selected_state r ≡ cpu_running → selected r ≡ waiting
unfolding selected selected_state
selected-waiting none e = absurd (ground (arith, e))
selected-waiting (some p) e = refl

leave_wait-waiting : (st : CpuState) → st ≡ cpu_running → leave_wait st ≡ waiting
unfolding leave_wait
leave_wait-waiting cpu_running e = refl
leave_wait-waiting cpu_idle e = absurd (ground (arith, e))
leave_wait-waiting cpu_preempt e = absurd (ground (arith, e))
leave_wait-waiting cpu_yield e = absurd (ground (arith, e))
leave_wait-waiting cpu_terminate e = absurd (ground (arith, e))

-- A thread that leaves its wait, not for the idle process, calls another handler.
pub leave_wait-calling : (st : CpuState) → st ≢ cpu_running → leave_wait st ≡ calling st
unfolding leave_wait
leave_wait-calling cpu_running ne = absurd (ne refl)
leave_wait-calling cpu_idle ne = refl
leave_wait-calling cpu_preempt ne = refl
leave_wait-calling cpu_yield ne = refl
leave_wait-calling cpu_terminate ne = refl

pub after_call-looping : (st : CpuState) (os : Os) → st ≢ cpu_idle → after_call st os ≡ looping
unfolding after_call
after_call-looping cpu_idle os ne = absurd (ne refl)
after_call-looping cpu_running os ne = refl
after_call-looping cpu_preempt os ne = refl
after_call-looping cpu_yield os ne = refl
after_call-looping cpu_terminate os ne = refl

Awaits-kept :
    (q : Supervisor) (s t : Sim)
    → ((n : ℕ)
        → Coming (s.threads n) (s.os.cpu_data n).state
        → Coming (t.threads n) (t.os.cpu_data n).state)
    → Awaits q s
    → Awaits q t
Awaits-kept (awaiting n) s t h w = h n w
Awaits-kept (forcing caller n) s t h w = h n w
Awaits-kept rounding s t h w = tt
Awaits-kept (simulating n) s t h w = tt
Awaits-kept (signalled n) s t h w = tt
Awaits-kept doing_io s t h w = tt
Awaits-kept (waking caller p) s t h w = tt
Awaits-kept (woken caller) s t h w = tt
Awaits-kept creating s t h w = tt
Awaits-kept exited s t h w = tt

Awaits-notify :
    (c : ℕ) (q : Supervisor) (s t : Sim)
    → ((n : ℕ)
        → n ≢ c
        → Coming (s.threads n) (s.os.cpu_data n).state
        → Coming (t.threads n) (t.os.cpu_data n).state)
    → Awaits q s
    → Awaits (notify c q) t
unfolding notify
Awaits-notify c (awaiting n) s t h w = elim (Bool-cases (n == c)) [
  | inl e ↦ rw (notify, e) tt
  | inr e ↦ rw (notify, e) (h n (ne_of_== n c e) w)
]
Awaits-notify c (forcing caller n) s t h w = elim (Bool-cases (n == c)) [
  | inl e ↦ rw (notify, e) tt
  | inr e ↦ rw (notify, e) (h n (ne_of_== n c e) w)
]
Awaits-notify c rounding s t h w = tt
Awaits-notify c (simulating n) s t h w = tt
Awaits-notify c (signalled n) s t h w = tt
Awaits-notify c doing_io s t h w = tt
Awaits-notify c (waking caller p) s t h w = tt
Awaits-notify c (woken caller) s t h w = tt
Awaits-notify c creating s t h w = tt
Awaits-notify c exited s t h w = tt

module _ (s : Sim) (w : IsSignalled s) (c : ℕ) where
  pub selects-Signals :
      let r = (s.os.cpu_data c).current in
      IsSignalled (record s {
        os = record s.os { cpu_data = told c (selected_state r) s.os.cpu_data };
        supervisor = notify c s.supervisor;
        threads = update s.threads c (selected r);
      })
  selects-Signals = record {
    running = λ i h. elim (Bool-cases (i == c)) [
      | inl e ↦
          let same = (==_iff i c).0 e in
          let state =
            ap (λ (d : CpuData). d.state) (sym (update_self s.os.cpu_data c x) ∙ ap new (sym same))
            ∙ h in
          rw (same, update_self s.threads c (selected r)) (selected-waiting r state)
      | inr e ↦
          let ne = ne_of_== i c e in
          let state = ap (λ (d : CpuData). d.state) (sym (update_ne s.os.cpu_data c i x ne)) ∙ h in
          update_ne s.threads c i (selected r) ne ∙ w.running i state
    ];
    awaited =
        Awaits-notify c s.supervisor s t
          (λ n ne k.
            rw (update_ne s.threads c n (selected r) ne, update_ne s.os.cpu_data c n x ne) k)
          w.awaited;
  }
    where
      r : Option ℕ
      r = (s.os.cpu_data c).current

      x : CpuData
      x = record (s.os.cpu_data c) { state = selected_state r }

      new : ℕ → CpuData
      new = told c (selected_state r) s.os.cpu_data

      t : Sim
      t = record s {
        os = record s.os { cpu_data = told c (selected_state r) s.os.cpu_data };
        supervisor = notify c s.supervisor;
        threads = update s.threads c (selected r);
      }

  pub leaves-Signals :
      s.threads c ≡ waiting
      → (s.os.cpu_data c).state ≢ cpu_idle
      → IsSignalled (record s { threads = update s.threads c (leave_wait (s.os.cpu_data c).state) })
  leaves-Signals here busy = record {
    running =
        update_all (λ i t. (s.os.cpu_data i).state ≡ cpu_running → t ≡ waiting) s.threads c
          (leave_wait st) (leave_wait-waiting st) (λ i ne. w.running i);
    awaited =
        Awaits-kept s.supervisor s (record s { threads = update s.threads c (leave_wait st) })
          (update_all
            (λ i t. Coming (s.threads i) (s.os.cpu_data i).state → Coming t (s.os.cpu_data i).state)
            s.threads c (leave_wait st) comes (λ i ne k. k))
          w.awaited;
  }
    where
      st : CpuState
      st = (s.os.cpu_data c).state

      comes : Coming (s.threads c) st → Coming (leave_wait st) st
      comes k =
          let ne : st ≢ cpu_running = subst (λ t. Coming t st) here k in
          rw (leave_wait-calling st ne) busy

  pub called-Signals :
      (st : CpuState) (os : Os)
      → s.threads c ≡ calling st
      → Handled c s.os os
      → IsSignalled (record s { os = os; threads = update s.threads c (after_call st s.os) })
  called-Signals st os here h = record {
    running = λ i k. elim (Bool-cases (i == c)) [
      | inl e ↦
          let same = (==_iff i c).0 e in
          let state = sym h.same_state ∙ (ap (λ j. (os.cpu_data j).state) (sym same) ∙ k) in
          absurd (ground (arith, sym here ∙ w.running c state))
      | inr e ↦
          let ne = ne_of_== i c e in
          let state = ap (λ (d : CpuData). d.state) (sym (h.data_elsewhere i ne)) ∙ k in
          update_ne s.threads c i (after_call st s.os) ne ∙ w.running i state
    ];
    awaited = Awaits-kept s.supervisor s t comes w.awaited;
  }
    where
      t : Sim
      t = record s { os = os; threads = update s.threads c (after_call st s.os) }

      comes :
          (n : ℕ)
          → Coming (s.threads n) (s.os.cpu_data n).state
          → Coming (t.threads n) (os.cpu_data n).state
      comes n k = elim (Bool-cases (n == c)) [
        | inl e ↦
            let same = (==_iff n c).0 e in
            let ne : st ≢ cpu_idle =
              subst (λ t. Coming t (s.os.cpu_data n).state) (ap s.threads same ∙ here) k in
            rw (same, update_self s.threads c (after_call st s.os), after_call-looping st s.os ne)
              tt
        | inr e ↦
            let ne = ne_of_== n c e in
            rw (update_ne s.threads c n (after_call st s.os) ne, h.data_elsewhere n ne) k
      ]
