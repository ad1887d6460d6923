-- ===== src/Threads/CpuThreads.antt =====
-- The steps of `simulator_cpu_thread` of project-6/prj6/os-sim.c on the invariant.
use mathlib.Core.Path.{subst}
use da_bus.Base.{
  ℕ, ◌≡◌, ◌≢◌, refl, sym, ap, ◌∙◌, Option, none, some, inl, inr, arith, false, ◌==◌, Bool-cases,
  ==_iff, ne_of_==,
}
use da_bus.Scheduler.{
  CpuData, CpuState, cpu_idle, cpu_running, cpu_preempt, cpu_yield, cpu_terminate, update,
  selected_state,
}
use da_bus.Scheduler.Queue.{update_ne, update_self}
use da_bus.Scheduler.Handlers.{update_all}
use da_bus.Threads.{
  Sim, Supervisor, rounding, simulating, awaiting, signalled, doing_io, waking, forcing, woken,
  creating, exited, by_io, by_creat, CpuThread, looping, waiting, notify, selected, leave_wait,
}
use da_bus.Threads.Invariant.{Stands, Yields, uncounted, Waking, IsSim, Waking-kept}
use da_bus.Threads.Ticks.{told}

uncounted-notify : (c : ℕ) (q : Supervisor) → uncounted (notify c q) ≡ uncounted q
unfolding notify
uncounted-notify c (awaiting n) = elim (Bool-cases (n == c)) [
  | inl e ↦ rw (notify, e) refl
  | inr e ↦ rw (notify, e) refl
]
uncounted-notify c (forcing by_io n) = elim (Bool-cases (n == c)) [
  | inl e ↦ rw (notify, e) refl
  | inr e ↦ rw (notify, e) refl
]
uncounted-notify c (forcing by_creat n) = elim (Bool-cases (n == c)) [
  | inl e ↦ rw (notify, e) refl
  | inr e ↦ rw (notify, e) refl
]
uncounted-notify c rounding = refl
uncounted-notify c (simulating n) = refl
uncounted-notify c (signalled n) = refl
uncounted-notify c doing_io = refl
uncounted-notify c (waking k p) = refl
uncounted-notify c (woken k) = refl
uncounted-notify c creating = refl
uncounted-notify c exited = refl

-- A supervisor that waits stands at no process to wake up, before and behind the signal.
Waking-notify :
    (c : ℕ) (q : Supervisor) (s t : Sim)
    → (Waking q s → Waking q t)
    → Waking q s
    → Waking (notify c q) t
unfolding notify
Waking-notify c (awaiting n) s t k w = elim (Bool-cases (n == c)) [
  | inl e ↦ rw (notify, e) tt
  | inr e ↦ rw (notify, e) tt
]
Waking-notify c (forcing a n) s t k w = elim (Bool-cases (n == c)) [
  | inl e ↦ rw (notify, e) tt
  | inr e ↦ rw (notify, e) (still a)
]
  where
    still : (a : _) → Waking (forcing a n) t
    still by_io = tt
    still by_creat = tt
Waking-notify c rounding s t k w = tt
Waking-notify c (simulating n) s t k w = tt
Waking-notify c (signalled n) s t k w = tt
Waking-notify c doing_io s t k w = tt
Waking-notify c (waking a p) s t k w = k w
Waking-notify c (woken a) s t k w = tt
Waking-notify c creating s t k w = tt
Waking-notify c exited s t k w = tt

-- What a thread knows of its CPU at its new place.
Stands-selected : (r : Option ℕ) → Stands (selected r) (selected_state r) r
unfolding selected selected_state
Stands-selected none = refl
Stands-selected (some p) = ((λ e. ground (arith, e)), (p, refl))

Stands-leave_wait :
    (st : CpuState) (r : Option ℕ) → Stands waiting st r → Stands (leave_wait st) st r
unfolding leave_wait
Stands-leave_wait cpu_idle r (busy, at) = absurd (busy refl)
Stands-leave_wait cpu_running r h = h
Stands-leave_wait cpu_preempt r (busy, at) = at
Stands-leave_wait cpu_yield r (busy, at) = at
Stands-leave_wait cpu_terminate r (busy, at) = at

Yields-leave_wait : (st : CpuState) → Yields waiting st → Yields (leave_wait st) st
unfolding leave_wait
Yields-leave_wait cpu_idle e = refl ∙ e
Yields-leave_wait cpu_running e = e
Yields-leave_wait cpu_preempt e = e
Yields-leave_wait cpu_yield e = refl
Yields-leave_wait cpu_terminate e = e

notify_ne : (c n : ℕ) → n ≢ c → notify c (awaiting n) ≡ awaiting n
unfolding notify
notify_ne c n h = let e : (n == c) ≡ false = ground (arith, h) in rw (notify, e) refl

module _ (s : Sim) (v : IsSim s) (c : ℕ) where
  -- The head of the loop.
  pub selects :
      s.threads c ≡ looping
      → let r = (s.os.cpu_data c).current in
        IsSim (record s {
          os = record s.os { cpu_data = told c (selected_state r) s.os.cpu_data };
          supervisor = notify c s.supervisor;
          threads = update s.threads c (selected r);
        })
  selects head = record {
    queued = v.queued;
    os = record {
      queue = v.os.queue;
      nodup = v.os.nodup;
      ready = v.os.ready;
      running = v.os.running;
      exclusive = v.os.exclusive;
    };
    agree =
        update_all (λ i d. d.current ≡ s.os.current i) s.os.cpu_data c x (v.agree c)
          (λ i ne. v.agree i);
    stands = λ i. elim (Bool-cases (i == c)) [
      | inl e ↦
          rw
            (
              (==_iff i c).0 e,
              update_self s.os.cpu_data c x,
              update_self s.threads c (selected r),
              sym (v.agree c),
            )
            (Stands-selected r)
      | inr e ↦
          let ne = ne_of_== i c e in
          rw (update_ne s.os.cpu_data c i x ne, update_ne s.threads c i (selected r) ne)
            (v.stands i)
    ];
    programs = v.programs;
    requests = λ p h.
        (let (b, w) = v.requests p h in
          (
            b,
            elim w [
              | inl e ↦ inl e
              | inr (d, e, at, y) ↦
                  let ne : d ≢ c =
                    λ i. subst (λ t. Yields t (s.os.cpu_data d).state) (ap s.threads i ∙ head) y in
                  inr (
                    d,
                    ap (notify c) e ∙ notify_ne c d ne,
                    at,
                    rw (update_ne s.os.cpu_data c d x ne, update_ne s.threads c d (selected r) ne)
                        y,
                  )
            ],
          ));
    distinct = v.distinct;
    fresh = λ p h. v.fresh p (omega (arith, uncounted-notify c s.supervisor));
    few = omega (arith, v.few, uncounted-notify c s.supervisor);
    woken =
        Waking-notify c s.supervisor s t (Waking-kept s.supervisor s t (λ p e. e) refl refl)
          v.woken;
  }
    where
      r : Option ℕ
      r = (s.os.cpu_data c).current

      x : CpuData
      x = record (s.os.cpu_data c) { state = selected_state r }

      t : Sim
      t = record s {
        os = record s.os { cpu_data = told c (selected_state r) s.os.cpu_data };
        supervisor = notify c s.supervisor;
        threads = update s.threads c (selected r);
      }

  -- The end of the wait.
  pub leaves :
      s.threads c ≡ waiting
      → IsSim (record s { threads = update s.threads c (leave_wait (s.os.cpu_data c).state) })
  leaves here = record {
    queued = v.queued;
    os = v.os;
    agree = v.agree;
    stands =
        update_all (λ i t. Stands t (s.os.cpu_data i).state (s.os.current i)) s.threads c
          (leave_wait (s.os.cpu_data c).state)
          (Stands-leave_wait (s.os.cpu_data c).state (s.os.current c)
            (subst (λ t. Stands t (s.os.cpu_data c).state (s.os.current c)) here (v.stands c)))
          (λ i ne. v.stands i);
    programs = v.programs;
    requests = λ p h.
        (let (b, w) = v.requests p h in
          (b, elim w [ inl e ↦ inl e | inr (d, e, at, y) ↦ inr (d, e, at, yields_after d y) ]));
    distinct = v.distinct;
    fresh = v.fresh;
    few = v.few;
    woken = Waking-kept s.supervisor s (record s { threads = after }) (λ p e. e) refl refl v.woken;
  }
    where
      after : ℕ → CpuThread
      after = update s.threads c (leave_wait (s.os.cpu_data c).state)

      yields_after :
          (d : ℕ)
          → Yields (s.threads d) (s.os.cpu_data d).state
          → Yields (after d) (s.os.cpu_data d).state
      yields_after d =
          update_all
            (λ i t. Yields (s.threads i) (s.os.cpu_data i).state → Yields t (s.os.cpu_data i).state)
            s.threads c (leave_wait (s.os.cpu_data c).state)
            (λ y.
              Yields-leave_wait (s.os.cpu_data c).state
                (subst (λ t. Yields t (s.os.cpu_data c).state) here y))
            (λ i ne y. y) d
