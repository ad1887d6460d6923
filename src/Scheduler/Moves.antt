-- ===== src/Scheduler/Moves.antt =====
-- Which states the handlers of project-6/prj6/student.c give to the processes.
use mathlib.Core.Option.{some_inj}
use da_bus.Base.{
  ℕ, ◌≡◌, ◌≢◌, refl, sym, ap, ◌∙◌, Option, none, some, List, [], ◌∷◌, ◌++◌, Bool-cases, inl, inr,
  ◌⊎◌, arith, true, ◌==◌, has, ==_iff, ne_of_==,
}
use da_bus.Scheduler.{
  ProcessState, process_ready, process_running, process_waiting, process_terminated, Os, CpuState,
  cpu_idle, cpu_running, cpu_preempt, cpu_yield, cpu_terminate, set_state, call_handler, schedule,
  idle, preempt, yield, terminate,
}
use da_bus.Scheduler.Queue.{first_of}
use da_bus.Scheduler.Handlers.{
  IsOs, IsFree, Scheduled, schedule-Scheduled, set_state_ne, set_state_self, not_both,
}
use da_bus.Scheduler.Events.{enqueued, enqueue_ready-IsFree, leaves-IsFree, has-snoc}
use da_bus.Scheduler.Thread.{Matches, counted, IsOs-counted}

-- The state that a handler gives to the process of its CPU.
abbrev pub Target : CpuState → ProcessState → Type 0
Target cpu_preempt s = s ≡ process_ready
Target cpu_yield s = s ≡ process_waiting
Target cpu_terminate s = s ≡ process_terminated
Target st s = ⊥

-- Each process keeps its state, is RUNNING, or has been on the CPU; a process that gets the CPU was
-- READY, or was there.
pub record Moves (st : CpuState) (cpu : ℕ) (os os' : Os) : Type 0 where
  pub states :
      (q : ℕ)
      → ((os'.pcbs q).state ≡ (os.pcbs q).state)
        ⊎ (((os'.pcbs q).state ≡ process_running)
            ⊎ ((os.current cpu ≡ some q) × Target st (os'.pcbs q).state))
  pub chosen :
      (q : ℕ)
      → os'.current cpu ≡ some q
      → ((os.pcbs q).state ≡ process_ready)
        ⊎ ((os.current cpu ≡ some q) × ((st ≡ cpu_preempt) ⊎ (st ≡ cpu_running)))

abbrev pub Moved : CpuState → ℕ → Os → Option Os → Type 0
Moved st cpu os r = (os' : Os) × (r ≡ some os') × Moves st cpu os os'

stays :
    (st : CpuState) (cpu : ℕ) (os : Os)
    → (os.current cpu ≡ none) ⊎ (st ≡ cpu_running)
    → Moves st cpu os os
stays st cpu os h = record {
  states = λ q. inl refl;
  chosen = λ q e. elim h [ inl n ↦ absurd (ground (arith, sym n ∙ e)) | inr r ↦ inr (e, inr r) ];
}

first-has : (ys : List ℕ) (q : ℕ) → first_of ys ≡ some q → has q ys ≡ true
first-has [] q h = absurd (ground (arith, h))
first-has (y ∷ ys) q h = ground (arith, some_inj.0 h)

-- `schedule` makes the first process of the list RUNNING and leaves the others alone.
schedule-states :
    (cpu : ℕ) (o : Os) (ys : List ℕ) (os' : Os)
    → Scheduled cpu o ys os'
    → (q : ℕ) → ((os'.pcbs q).state ≡ (o.pcbs q).state) ⊎ ((os'.pcbs q).state ≡ process_running)
schedule-states cpu o [] os' s q = inl (s.others q (λ e. ground (arith, e)))
schedule-states cpu o (y ∷ ys) os' s q = elim (Bool-cases (y == q)) [
  | inl e ↦ let same = (==_iff y q).0 e in inr (s.valid.running cpu q (s.chosen ∙ ap some same))
  | inr e ↦ inl (s.others q (λ f. ne_of_== y q e (some_inj.0 f)))
]

module _ (cpu : ℕ) (os : Os) (xs : List ℕ) (v : IsOs os xs) where
  idle-Moved : os.current cpu ≡ none → Moved cpu_idle cpu os (idle cpu os)
  unfolding idle
  idle-Moved at = elim (Bool-cases (os.queue.count == 0)) [
    | inl e ↦ (os, rw (idle, e) refl, stays cpu_idle cpu os (inl at))
    | inr e ↦
        let free : IsFree cpu os xs = record {
          queue = v.queue;
          nodup = v.nodup;
          ready = v.ready;
          running = λ c p ne h. v.running c p h;
          exclusive = λ c d p ne nf h k. v.exclusive c d p h k;
        } in
        let (o, f, s) = schedule-Scheduled cpu os xs free in
        (
          o,
          rw (idle, e) f,
          record {
            states =
                λ q. elim (schedule-states cpu os xs o s q) [ inl g ↦ inl g | inr g ↦ inr (inl g) ];
            chosen = λ q g. inl (v.ready q (first-has xs q (sym s.chosen ∙ g)));
          },
        )
  ]

  preempt-Moved : (p : ℕ) → os.current cpu ≡ some p → Moved cpu_preempt cpu os (preempt cpu os)
  unfolding preempt
  preempt-Moved p at =
      let out : (os.pcbs p).state ≢ process_ready = λ r. not_both r (v.running cpu p at) in
      let (o, e, w, k) = enqueued os xs p v out in
      let free = enqueue_ready-IsFree os xs p v out cpu at o w k in
      let (os', f, s) = schedule-Scheduled cpu o (xs ++ p ∷ []) free in
      (
        os',
        rw (preempt, at, e) f,
        record {
          states = λ q. elim (schedule-states cpu o (xs ++ p ∷ []) os' s q) [
            | inl g ↦ elim (Bool-cases (q == p)) [
              | inl h ↦
                  let same = (==_iff q p).0 h in
                  inr (
                    inr (
                      at ∙ ap some (sym same),
                      g
                          ∙ (k.state q
                              ∙ ap (λ i. ((set_state p process_ready os).pcbs i).state) same)
                          ∙ set_state_self os p process_ready,
                    ))
              | inr h ↦ inl (g ∙ (k.state q ∙ set_state_ne os p q process_ready (ne_of_== q p h)))
            ]
            | inr g ↦ inr (inl g)
          ];
          chosen = λ q g. elim (has-snoc q p xs (first-has (xs ++ p ∷ []) q (sym s.chosen ∙ g))) [
            | inl same ↦ inr (at ∙ ap some (sym same), inl refl)
            | inr h ↦ inl (v.ready q h)
          ];
        },
      )

  leaves-Moved :
      (st : CpuState) (p : ℕ) (new : ProcessState)
      → os.current cpu ≡ some p
      → ((s : ProcessState) → s ≡ new → Target st s)
      → Moved st cpu os (schedule cpu (set_state p new os))
  leaves-Moved st p new at target =
      let free = leaves-IsFree cpu os xs p new v at in
      let (o, e, s) = schedule-Scheduled cpu (set_state p new os) xs free in
      (
        o,
        e,
        record {
          states = λ q. elim (schedule-states cpu (set_state p new os) xs o s q) [
            | inl g ↦ elim (Bool-cases (q == p)) [
              | inl h ↦
                  let same = (==_iff q p).0 h in
                  inr (
                    inr (
                      at ∙ ap some (sym same),
                      target (o.pcbs q).state (
                          g
                          ∙ ap (λ i. ((set_state p new os).pcbs i).state) same
                          ∙ set_state_self os p new),
                    ))
              | inr h ↦ inl (g ∙ set_state_ne os p q new (ne_of_== q p h))
            ]
            | inr g ↦ inr (inl g)
          ];
          chosen = λ q g. inl (v.ready q (first-has xs q (sym s.chosen ∙ g)));
        },
      )

-- Under the invariant, what a handler does to the states of the processes, and which one it chooses.
pub call_handler-Moved :
    (st : CpuState) (cpu : ℕ) (os : Os) (xs : List ℕ)
    → IsOs os xs
    → Matches st (os.current cpu)
    → Moved st cpu os (call_handler st cpu os)
unfolding call_handler yield terminate
call_handler-Moved cpu_idle cpu os xs v m = idle-Moved cpu os xs v m
call_handler-Moved cpu_running cpu os xs v m = (os, refl, stays cpu_running cpu os (inr refl))
call_handler-Moved cpu_preempt cpu os xs v (p, at) = preempt-Moved cpu os xs v p at
call_handler-Moved cpu_yield cpu os xs v (p, at) =
    let (o, e, m) = leaves-Moved cpu os xs v cpu_yield p process_waiting at (λ s h. h) in
    (o, rw (yield, at) e, m)
call_handler-Moved cpu_terminate cpu os xs v (p, at) =
    let (o, e, m) =
      leaves-Moved cpu (counted os) xs (IsOs-counted os xs v) cpu_terminate p process_terminated at
        (λ s h. h) in
    (o, rw (terminate, at) e, record { states = m.states; chosen = m.chosen })
