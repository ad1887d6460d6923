-- ===== src/Scheduler/Effects.antt =====
-- What a handler of project-6/prj6/student.c leaves alone: the other CPUs, and the processes that are
-- neither READY nor RUNNING.
use mathlib.Core.Option.{some_inj}
use da_bus.Base.{
  ℕ, ◌≡◌, ◌≢◌, refl, sym, ap, ◌∙◌, Option, none, some, List, [], ◌∷◌, ◌++◌, drop, Bool-cases, inl,
  inr, true, ◌==◌, has,
}
use da_bus.Scheduler.{
  ProcessState, process_ready, process_running, process_waiting, process_terminated, Os, CpuData,
  CpuState, cpu_idle, cpu_running, cpu_preempt, cpu_yield, cpu_terminate, set_state, call_handler,
  schedule, idle, preempt, yield, terminate,
}
use da_bus.Scheduler.Queue.{first_of}
use da_bus.Scheduler.Handlers.{
  IsOs, IsFree, Scheduled, schedule-Scheduled, set_state_ne, set_state_self, not_both,
}
use da_bus.Scheduler.Events.{
  enqueued, enqueue_ready-IsFree, leaves-IsFree, same_current, not-first, not-has-current,
}
use da_bus.Scheduler.Thread.{Matches, counted, IsOs-counted}

-- A process that no handler of another one moves.
abbrev pub Parked : ProcessState → Type 0
Parked s = (s ≢ process_ready) × (s ≢ process_running)

pub record Handled (cpu : ℕ) (os os' : Os) : Type 0 where
  pub agree : (os'.cpu_data cpu).current ≡ os'.current cpu
  pub elsewhere : (c : ℕ) → c ≢ cpu → os'.current c ≡ os.current c
  pub data_elsewhere : (c : ℕ) → c ≢ cpu → os'.cpu_data c ≡ os.cpu_data c
  pub same_state : (os'.cpu_data cpu).state ≡ (os.cpu_data cpu).state
  pub parked : (q : ℕ) → Parked (os.pcbs q).state → (os'.pcbs q).state ≡ (os.pcbs q).state

-- The handler returns, with the invariant.
abbrev pub Returns : ℕ → Os → Option Os → Type 0
Returns cpu os r = (os' : Os) × (ys : List ℕ) × (r ≡ some os') × IsOs os' ys × Handled cpu os os'

-- The first process of a list of READY processes is not parked.
not-first_Parked :
    (os : Os) (xs : List ℕ) (q : ℕ)
    → ((p : ℕ) → has p xs ≡ true → (os.pcbs p).state ≡ process_ready)
    → (os.pcbs q).state ≢ process_ready
    → first_of xs ≢ some q
not-first_Parked os xs q h out =
    not-first xs q (elim (Bool-cases (has q xs)) [ inl e ↦ absurd (out (h q e)) | inr e ↦ e ])

module _ (cpu : ℕ) (os : Os) (xs : List ℕ) (v : IsOs os xs) where
  -- Behind `set_state` of the process `p` of the CPU, `schedule` leaves the rest alone.
  Scheduled-Handled :
      (p : ℕ)
      → os.current cpu ≡ some p
      → (o : Os) (ys : List ℕ) → o.current ≡ os.current
      → o.cpu_data ≡ os.cpu_data
      → ((q : ℕ) → q ≢ p → (o.pcbs q).state ≡ (os.pcbs q).state)
      → IsFree cpu o ys
      → (os' : Os) → Scheduled cpu o ys os'
      → Handled cpu os os'
  Scheduled-Handled p at o ys same data_same states free os' s = record {
    agree = s.simulated ∙ sym s.chosen;
    elsewhere = λ c ne. s.elsewhere c ne ∙ ap (λ (f : ℕ → Option ℕ). f c) same;
    data_elsewhere = λ c ne. s.data_elsewhere c ne ∙ ap (λ f. f c) data_same;
    same_state = s.same_state ∙ ap (λ (f : ℕ → CpuData). (f cpu).state) data_same;
    parked = λ q h.
        let other = states q (λ e. h.1 (v.running cpu q (at ∙ ap some (sym e)))) in
        let out : (o.pcbs q).state ≢ process_ready = λ e. h.0 (sym other ∙ e) in
        s.others q (not-first_Parked o ys q free.ready out) ∙ other;
  }

  preempt-Returns : (p : ℕ) → os.current cpu ≡ some p → Returns cpu os (preempt cpu os)
  unfolding preempt set_state
  preempt-Returns p at =
      let out : (os.pcbs p).state ≢ process_ready = λ r. not_both r (v.running cpu p at) in
      let (o, e, w, k) = enqueued os xs p v out in
      let free = enqueue_ready-IsFree os xs p v out cpu at o w k in
      let (os', f, s) = schedule-Scheduled cpu o (xs ++ p ∷ []) free in
      (
        os',
        drop 1 (xs ++ p ∷ []),
        rw (preempt, at, e) f,
        s.valid,
        Scheduled-Handled p at o (xs ++ p ∷ []) (same_current os xs p v out o k)
            (ap (λ (z : Os). z.cpu_data) k.frame)
            (λ q ne. k.state q ∙ set_state_ne os p q process_ready ne) free os' s,
      )

  leaves-Returns :
      (p : ℕ) (st : ProcessState)
      → os.current cpu ≡ some p
      → Returns cpu os (schedule cpu (set_state p st os))
        × ((os' : Os) → schedule cpu (set_state p st os) ≡ some os' → (os'.pcbs p).state ≡ st)
  unfolding set_state
  leaves-Returns p st at =
      let free = leaves-IsFree cpu os xs p st v at in
      let (o, e, s) = schedule-Scheduled cpu (set_state p st os) xs free in
      let away = not-has-current v p (λ r. not_both r (v.running cpu p at)) in
      (
        (
          o,
          drop 1 xs,
          e,
          s.valid,
          Scheduled-Handled p at (set_state p st os) xs refl refl
              (λ q ne. set_state_ne os p q st ne) free o s,
        ),
        λ os' f.
            let same : o ≡ os' = some_inj.0 (sym e ∙ f) in
            ap (λ (z : Os). (z.pcbs p).state) (sym same)
            ∙ (s.others p (not-first xs p away) ∙ set_state_self os p st),
      )

  idle-Returns :
      (os.cpu_data cpu).current ≡ os.current cpu
      → os.current cpu ≡ none
      → Returns cpu os (idle cpu os)
  unfolding idle
  idle-Returns agree at = elim (Bool-cases (os.queue.count == 0)) [
    | inl e ↦ (
      os,
      xs,
      rw (idle, e) refl,
      v,
      record {
        agree = agree;
        elsewhere = λ c ne. refl;
        data_elsewhere = λ c ne. refl;
        same_state = refl;
        parked = λ q h. refl;
      },
    )
    | inr e ↦
        let free : IsFree cpu os xs = record {
          queue = v.queue;
          nodup = v.nodup;
          ready = v.ready;
          running = λ c p ne h. v.running c p h;
          exclusive = λ c d p ne nf h k. v.exclusive c d p h k;
        } in
        let (o, f, s) = schedule-Scheduled cpu os xs free in
        (
          o,
          drop 1 xs,
          rw (idle, e) f,
          s.valid,
          record {
            agree = s.simulated ∙ sym s.chosen;
            elsewhere = s.elsewhere;
            data_elsewhere = s.data_elsewhere;
            same_state = s.same_state;
            parked = λ q h. s.others q (not-first_Parked os xs q v.ready h.0);
          },
        )
  ]

-- The state of the process of a CPU after the handler that a yield calls.
abbrev pub Waits : ℕ → Os → CpuState → Os → Type 0
Waits cpu os cpu_yield os' =
    (p : ℕ) → os.current cpu ≡ some p → (os'.pcbs p).state ≡ process_waiting
Waits cpu os st os' = Unit

abbrev pub Calls : ℕ → Os → CpuState → Option Os → Type 0
Calls cpu os st r =
    (os' : Os) × (ys : List ℕ) × (r ≡ some os')
    × IsOs os' ys
    × Handled cpu os os'
    × Waits cpu os st os'

-- Under the invariant, a handler that is called for a state that agrees with the scheduler uses no
-- NULL pointer and returns with the invariant; it leaves the other CPUs alone and every process that
-- is neither READY nor RUNNING, and the process of a CPU that yields is WAITING.
pub call_handler-Calls :
    (st : CpuState) (cpu : ℕ) (os : Os) (xs : List ℕ)
    → IsOs os xs
    → Matches st (os.current cpu)
    → (os.cpu_data cpu).current ≡ os.current cpu
    → Calls cpu os st (call_handler st cpu os)
unfolding call_handler yield terminate
call_handler-Calls cpu_idle cpu os xs v m a =
    let (o, ys, e, w, h) = idle-Returns cpu os xs v a m in (o, ys, e, w, h, tt)
call_handler-Calls cpu_running cpu os xs v m a = (
  os,
  xs,
  refl,
  v,
  record {
    agree = a;
    elsewhere = λ c ne. refl;
    data_elsewhere = λ c ne. refl;
    same_state = refl;
    parked = λ q h. refl;
  },
  tt,
)
call_handler-Calls cpu_preempt cpu os xs v (p, at) a =
    let (o, ys, e, w, h) = preempt-Returns cpu os xs v p at in (o, ys, e, w, h, tt)
call_handler-Calls cpu_yield cpu os xs v (p, at) a =
    let r = leaves-Returns cpu os xs v p process_waiting at in
    let (o, ys, e, w, h) = r.0 in
    (
      o,
      ys,
      rw (yield, at) e,
      w,
      h,
      λ q f. let same : p ≡ q = some_inj.0 (sym at ∙ f) in rw (sym same) (r.1 o e),
    )
call_handler-Calls cpu_terminate cpu os xs v (p, at) a =
    let (o, ys, e, w, h) =
      (leaves-Returns cpu (counted os) xs (IsOs-counted os xs v) p process_terminated at).0 in
    (
      o,
      ys,
      rw (terminate, at) e,
      w,
      record {
        agree = h.agree;
        elsewhere = h.elsewhere;
        data_elsewhere = h.data_elsewhere;
        same_state = h.same_state;
        parked = h.parked;
      },
      tt,
    )

-- `idle` waits while the ready queue is empty.
pub call_handler_waits :
    (cpu : ℕ) (os : Os) → (os.queue.count == 0) ≡ true → call_handler cpu_idle cpu os ≡ some os
unfolding call_handler idle
call_handler_waits cpu os e = rw (idle, e) refl
