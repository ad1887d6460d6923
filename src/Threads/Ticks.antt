-- ===== src/Threads/Ticks.antt =====
-- `simulate_cpus` and `simulate_process` of project-6/prj6/os-sim.c on the invariant.
use mathlib.Core.Path.{subst}
use da_bus.Base.{
  ℕ, ◌+◌, ◌<◌, ◌≡◌, ◌≢◌, refl, sym, ap, ◌∙◌, some, List, [], ◌∷◌, ◌++◌, inl, inr, arith, has,
  IsNodup, IsNodup-snoc, true, false, ◌==◌, Bool-cases, ==_iff, ne_of_==,
}
use da_bus.Scheduler.{CpuData, CpuState, cpu_idle, cpu_yield, update}
use da_bus.Scheduler.Queue.{update_self, update_ne}
use da_bus.Scheduler.Handlers.{update_all}
use da_bus.Simulator.{Op, IoRequest, submit_io_request}
use da_bus.Simulator.Programs.{IsProgram, Blocked}
use da_bus.Simulator.Requests.{waiting_for}
use da_bus.Scheduler.Events.{has-snoc}
use da_bus.Threads.{Sim, Supervisor, simulating, awaiting, waiting, process_count}
use da_bus.Threads.Invariant.{Stands, Requested, uncounted, Waking, IsSim, Quiet, calm, made_lem}

-- The CPU data after a tick on CPU `n` whose state becomes `st`.
abbrev pub Changed : ℕ → CpuState → (ℕ → CpuData) → (ℕ → CpuData) → Type 0
Changed n st d f =
    ((c : ℕ) → (f c).current ≡ (d c).current)
    × ((c : ℕ) → c ≢ n → (f c).state ≡ (d c).state)
    × ((f n).state ≡ st)

module _ (s : Sim) (v : IsSim s) (quiet : Quiet s.supervisor) (n p : ℕ)
    (at : s.os.current n ≡ some p) (stands : s.threads n ≡ waiting) where
  pub running_in : p < process_count
  running_in = made_lem s v p (λ e. ground (arith, sym (v.os.running n p at) ∙ e))

  -- The process that runs has made no request.
  pub requested_ne : (r : ℕ) → has r (waiting_for s.io_queue) ≡ true → r ≢ p
  requested_ne r h e =
      let (_, w) = calm s v quiet r h in
      ground (arith, sym w ∙ ap (λ q. (s.os.pcbs q).state) e ∙ v.os.running n p at)

  unfoldable pub after : Supervisor → (ℕ → CpuData) → List Op → List IoRequest → Sim
  after q f ops io = record s {
    os = record s.os { cpu_data = f };
    ops = update s.ops p ops;
    io_queue = io;
    supervisor = q;
  }

  pub tick-IsSim :
      (q : Supervisor) (f : ℕ → CpuData) (ops : List Op) (io : List IoRequest) (st : CpuState)
      → Changed n st s.os.cpu_data f
      → st ≢ cpu_idle
      → IsProgram ops
      → uncounted q ≡ uncounted s.supervisor
      → Waking q (after q f ops io)
      → ((r : ℕ) → has r (waiting_for io) ≡ true → Requested (after q f ops io) r)
      → IsNodup (waiting_for io)
      → IsSim (after q f ops io)
  unfolding after
  tick-IsSim q f ops io st (same, others, here) busy program counted w requests distinct = record {
    queued = v.queued;
    os = record {
      queue = v.os.queue;
      nodup = v.os.nodup;
      ready = v.os.ready;
      running = v.os.running;
      exclusive = v.os.exclusive;
    };
    agree = λ c. same c ∙ v.agree c;
    stands = standing;
    programs =
        update_all (λ r o. r < process_count → IsProgram o) s.ops p ops (λ _. program)
          (λ r ne. v.programs r);
    requests = requests;
    distinct = distinct;
    fresh = λ r h. v.fresh r (omega (arith, counted));
    few = omega (arith, counted, v.few);
    woken = w;
  }
    where
      standing : (c : ℕ) → Stands (s.threads c) (f c).state (s.os.current c)
      standing c = elim (Bool-cases (c == n)) [
        | inl e ↦ rw ((==_iff c n).0 e, stands) (λ i. busy (sym here ∙ i), (p, at))
        | inr e ↦ rw (others c (ne_of_== c n e)) (v.stands c)
      ]

-- A write of the timer, and one of the state behind it.
abbrev pub timed : ℕ → ℕ → (ℕ → CpuData) → ℕ → CpuData
timed n timer d = update d n (record (d n) { preemption_timer = timer })

abbrev pub told : ℕ → CpuState → (ℕ → CpuData) → ℕ → CpuData
told n st d = update d n (record (d n) { state = st })

pub timed-Changed : (n timer : ℕ) (d : ℕ → CpuData) → Changed n (d n).state d (timed n timer d)
timed-Changed n timer d =
    let x : CpuData = record (d n) { preemption_timer = timer } in
    (
      update_all (λ c y. y.current ≡ (d c).current) d n x refl (λ c ne. refl),
      λ c ne. ap (λ (y : CpuData). y.state) (update_ne d n c x ne),
      ap (λ (y : CpuData). y.state) (update_self d n x),
    )

pub told-Changed :
    (n : ℕ) (st u : CpuState) (d f : ℕ → CpuData) → Changed n u d f → Changed n st d (told n st f)
told-Changed n st u d f (same, others, here) =
    let x : CpuData = record (f n) { state = st } in
    (
      update_all (λ c y. y.current ≡ (d c).current) f n x (same n) (λ c ne. same c),
      λ c ne. ap (λ (y : CpuData). y.state) (update_ne f n c x ne) ∙ others c ne,
      ap (λ (y : CpuData). y.state) (update_self f n x),
    )

pub waiting_for-append :
    (queue : List IoRequest) (r : IoRequest)
    → waiting_for (queue ++ r ∷ []) ≡ waiting_for queue ++ r.pcb ∷ []
waiting_for-append [] r = refl
waiting_for-append (x ∷ queue) r = ap (λ l. x.pcb ∷ l) (waiting_for-append queue r)

module _ (s : Sim) (v : IsSim s) (n p : ℕ) (pos : s.supervisor ≡ simulating n)
    (at : s.os.current n ≡ some p) (stands : s.threads n ≡ waiting) where
  pub quiet : Quiet s.supervisor
  quiet c e = ground (arith, sym pos ∙ e)

  busy : (s.os.cpu_data n).state ≢ cpu_idle
  busy =
      let w : Stands waiting (s.os.cpu_data n).state (s.os.current n) =
        subst (λ t. Stands t (s.os.cpu_data n).state (s.os.current n)) stands (v.stands n) in
      w.0

  counted : uncounted s.supervisor ≡ 0
  counted = rw pos refl

  -- The requests stay, and those of other processes do not see the tick.
  others_requested :
      (q : Supervisor) (f : ℕ → CpuData) (ops : List Op) (io : List IoRequest) (r : ℕ)
      → has r (waiting_for s.io_queue) ≡ true
      → Requested (after s v quiet n p at stands q f ops io) r
  unfolding after
  others_requested q f ops io r h =
      let (b, w) = calm s v quiet r h in
      let ne = requested_ne s v quiet n p at stands r h in
      (rw (update_ne s.ops p r ops ne) b, inl w)

  pub goes_on :
      (ops : List Op) (timer : ℕ)
      → IsProgram ops
      → IsSim (
          after s v quiet n p at stands
            (simulating (n + 1))
            (timed n timer s.os.cpu_data)
            ops
            s.io_queue)
  goes_on ops timer h =
      tick-IsSim s v quiet n p at stands (simulating (n + 1)) (timed n timer s.os.cpu_data) ops
        s.io_queue (s.os.cpu_data n).state (timed-Changed n timer s.os.cpu_data) busy h
        (sym counted) tt
        (others_requested (simulating (n + 1)) (timed n timer s.os.cpu_data) ops s.io_queue)
        v.distinct

  unfoldable pub told_to : ℕ → CpuState → ℕ → CpuData
  told_to timer st = told n st (timed n timer s.os.cpu_data)

  pub interrupted :
      (st : CpuState) (ops : List Op) (timer : ℕ)
      → st ≢ cpu_idle
      → IsProgram ops
      → IsSim (after s v quiet n p at stands (awaiting n) (told_to timer st) ops s.io_queue)
  unfolding told_to
  interrupted st ops timer ne h =
      tick-IsSim s v quiet n p at stands (awaiting n) (told_to timer st) ops s.io_queue st
        (told-Changed n st (s.os.cpu_data n).state s.os.cpu_data (timed n timer s.os.cpu_data)
          (timed-Changed n timer s.os.cpu_data))
        ne h (sym counted) tt (others_requested (awaiting n) (told_to timer st) ops s.io_queue)
        v.distinct

  pub submitted :
      (time : ℕ) (ops : List Op) (timer : ℕ)
      → IsProgram ops
      → Blocked ops
      → IsSim (
          after s v quiet n p at stands
            (awaiting n)
            (told_to timer cpu_yield)
            ops
            (submit_io_request p time s.io_queue))
  unfolding told_to submit_io_request after
  submitted time ops timer h b =
      let req : IoRequest = record { pcb = p; execution_time = time } in
      let io = s.io_queue ++ req ∷ [] in
      let f = told_to timer cpu_yield in
      let same = waiting_for-append s.io_queue req in
      let change =
        told-Changed n cpu_yield (s.os.cpu_data n).state s.os.cpu_data (timed n timer s.os.cpu_data)
          (timed-Changed n timer s.os.cpu_data) in
      let yields_ : (f n).state ≡ cpu_yield = change.2 in
      tick-IsSim s v quiet n p at stands (awaiting n) f ops io cpu_yield change
        (λ e. ground (arith, e)) h (sym counted) tt
        (λ r k. elim (has-snoc r p (waiting_for s.io_queue) (ap (has r) (sym same) ∙ k)) [
          | inl e ↦ rw e (rw (update_self s.ops p ops) b, inr (n, refl, at, rw stands yields_))
          | inr k' ↦ others_requested (awaiting n) f ops io r k'
        ])
        (rw same (IsNodup-snoc p (waiting_for s.io_queue) absent v.distinct))
    where
      absent : has p (waiting_for s.io_queue) ≡ false
      absent = elim (Bool-cases (has p (waiting_for s.io_queue))) [
        | inl e ↦ absurd (requested_ne s v quiet n p at stands p e refl)
        | inr e ↦ e
      ]
