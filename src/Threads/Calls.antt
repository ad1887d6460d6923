-- ===== src/Threads/Calls.antt =====
-- The call of a handler by a CPU thread of project-6/prj6/os-sim.c on the invariant.
use mathlib.Core.Path.{subst}
use mathlib.Core.Option.{some_inj}
use da_bus.Base.{
  ℕ, ◌≡◌, refl, sym, ap, ◌∙◌, some, List, inl, inr, arith, ◌==◌, Bool-cases, ==_iff, ne_of_==,
}
use da_bus.Scheduler.{
  ProcessState, process_new, process_waiting, Os, CpuData, CpuState, cpu_idle, cpu_running,
  cpu_preempt, cpu_yield, cpu_terminate, update, cpu_thread_select, call_handler,
}
use da_bus.Scheduler.Queue.{update_ne, update_self}
use da_bus.Scheduler.Handlers.{IsOs}
use da_bus.Scheduler.Thread.{Matches}
use da_bus.Scheduler.Effects.{Parked, Handled, Waits, call_handler-Calls, call_handler_waits}
use da_bus.Threads.{
  Sim, CpuThread, looping, waiting, calling, after_call, cpu_thread_at, cpu_thread,
}
use da_bus.Threads.Invariant.{Stands, Yields, IsSim, Keeps, Waking-kept}
use da_bus.Threads.CpuThreads.{selects, leaves}

-- A thread that goes on in `idle` still has no process.
Stands-after_call :
    (st : CpuState) (c : ℕ) (os os' : Os)
    → call_handler st c os ≡ some os'
    → Matches st (os.current c)
    → Stands (after_call st os) (os'.cpu_data c).state (os'.current c)
unfolding after_call
Stands-after_call cpu_idle c os os' e m = elim (Bool-cases (os.queue.count == 0)) [
  | inl f ↦
      let same : os ≡ os' = some_inj.0 (sym (call_handler_waits c os f) ∙ e) in
      rw (after_call, f) (ap (λ (o : Os). o.current c) (sym same) ∙ m)
  | inr f ↦ rw (after_call, f) tt
]
Stands-after_call cpu_running c os os' e m = tt
Stands-after_call cpu_preempt c os os' e m = tt
Stands-after_call cpu_yield c os os' e m = tt
Stands-after_call cpu_terminate c os os' e m = tt

waiting_Parked : {s : ProcessState} → s ≡ process_waiting → Parked s
waiting_Parked e = ((λ f. ground (arith, sym e ∙ f)), (λ f. ground (arith, sym e ∙ f)))

new_Parked : {s : ProcessState} → s ≡ process_new → Parked s
new_Parked e = ((λ f. ground (arith, sym e ∙ f)), (λ f. ground (arith, sym e ∙ f)))

Waits-yield :
    (st : CpuState) (c : ℕ) (os os' : Os) (p : ℕ)
    → Waits c os st os'
    → st ≡ cpu_yield
    → os.current c ≡ some p
    → (os'.pcbs p).state ≡ process_waiting
Waits-yield cpu_yield c os os' p w e at = w p at
Waits-yield cpu_idle c os os' p w e at = absurd (ground (arith, e))
Waits-yield cpu_running c os os' p w e at = absurd (ground (arith, e))
Waits-yield cpu_preempt c os os' p w e at = absurd (ground (arith, e))
Waits-yield cpu_terminate c os os' p w e at = absurd (ground (arith, e))

module _ (s : Sim) (v : IsSim s) (c : ℕ) (st : CpuState) (here : s.threads c ≡ calling st) where
  matches : Matches st (s.os.current c)
  matches = subst (λ t. Stands t (s.os.cpu_data c).state (s.os.current c)) here (v.stands c)

  after : Os → Sim
  after os = record s { os = os; threads = update s.threads c (after_call st s.os) }

  called-IsSim :
      (os : Os) (ys : List ℕ)
      → call_handler st c s.os ≡ some os
      → IsOs os ys
      → Handled c s.os os
      → Waits c s.os st os
      → IsSim (after os)
  unfolding after
  called-IsSim os ys e w h waits = record {
    queued = ys;
    os = w;
    agree = λ i. elim (Bool-cases (i == c)) [
      | inl f ↦ rw ((==_iff i c).0 f) h.agree
      | inr f ↦
          let ne = ne_of_== i c f in
          ap (λ (d : CpuData). d.current) (h.data_elsewhere i ne)
          ∙ (v.agree i ∙ sym (h.elsewhere i ne))
    ];
    stands = λ i. elim (Bool-cases (i == c)) [
      | inl f ↦
          rw ((==_iff i c).0 f, update_self s.threads c (after_call st s.os))
            (Stands-after_call st c s.os os e matches)
      | inr f ↦
          let ne = ne_of_== i c f in
          rw
            (
              update_ne s.threads c i (after_call st s.os) ne,
              h.data_elsewhere i ne,
              h.elsewhere i ne,
            )
            (v.stands i)
    ];
    programs = v.programs;
    requests = λ p k.
        (let (b, r) = v.requests p k in
          (
            b,
            elim r [
              | inl f ↦ inl (h.parked p (waiting_Parked f) ∙ f)
              | inr (d, f, at, y) ↦ elim (Bool-cases (d == c)) [
                | inl g ↦
                    let same = (==_iff d c).0 g in
                    let told : st ≡ cpu_yield =
                      subst (λ t. Yields t (s.os.cpu_data d).state) (ap s.threads same ∙ here) y in
                    inl (Waits-yield st c s.os os p waits told (ap s.os.current (sym same) ∙ at))
                | inr g ↦
                    let ne = ne_of_== d c g in
                    inr (
                      d,
                      f,
                      h.elsewhere d ne ∙ at,
                      rw (update_ne s.threads c d (after_call st s.os) ne, h.data_elsewhere d ne) y,
                    )
              ]
            ],
          ));
    distinct = v.distinct;
    fresh = λ p k. h.parked p (new_Parked (v.fresh p k)) ∙ v.fresh p k;
    few = v.few;
    woken =
        Waking-kept s.supervisor s (after os) (λ p f. h.parked p (waiting_Parked f) ∙ f) refl refl
          v.woken;
  }

cpu_thread_at-Keeps :
    (t : CpuThread) (c : ℕ) (s : Sim) → IsSim s → s.threads c ≡ t → Keeps (cpu_thread_at t c s)
unfolding cpu_thread_at cpu_thread_select after
cpu_thread_at-Keeps looping c s v here = (_, refl, selects s v c here)
cpu_thread_at-Keeps waiting c s v here = (_, refl, leaves s v c here)
cpu_thread_at-Keeps (calling st) c s v here =
    let (os, ys, e, w, h, k) =
      call_handler-Calls st c s.os v.queued v.os (matches s v c st here) (v.agree c) in
    (after s v c st here os, rw (cpu_thread_at, e) refl, called-IsSim s v c st here os ys e w h k)

-- Under the invariant, a step of any CPU thread does not fail, and keeps the invariant.
pub cpu_thread-Keeps : (c : ℕ) (s : Sim) → IsSim s → Keeps (cpu_thread c s)
unfolding cpu_thread
cpu_thread-Keeps c s v = cpu_thread_at-Keeps (s.threads c) c s v refl
