-- ===== src/Threads/Waking.antt =====
-- `simulate_io`, `simulate_creat` and their calls of `wake_up` in project-6/prj6/os-sim.c on the
-- invariant.
use mathlib.Core.Path.{subst}
use da_bus.Base.{
  ℕ, ◌+◌, ◌<◌, ◌≤◌, ◌≡◌, ◌≢◌, refl, sym, ap, ◌∙◌, Option, none, some, List, [], ◌∷◌, ◌++◌, inl, inr,
  arith, has, IsNodup, true, drop,
}
use da_bus.Scheduler.{
  process_new, process_ready, process_running, process_waiting, CpuData, wake_up_waits,
}
use da_bus.Scheduler.Queue.{update_ne}
use da_bus.Scheduler.Handlers.{update_all}
use da_bus.Scheduler.Woken.{Nudged, wake_up-Woke}
use da_bus.Simulator.{IoRequest}
use da_bus.Simulator.Programs.{IsProgram, Blocked, drop-IsProgram, Serves}
use da_bus.Simulator.Requests.{waiting_for}
use da_bus.Threads.{
  Sim, doing_io, waking, creating, Caller, by_io, by_creat, CpuThread, looping, waiting, calling,
  complete_io, call_wake_up, after_wake_up, process_count,
}
use da_bus.Threads.Invariant.{Stands, uncounted, Waking, IsSim, Quiet, calm, relocate, Keeps}

pub complete_io-IsSim :
    (s : Sim) (r : Option ℕ × List IoRequest)
    → IsSim s
    → s.supervisor ≡ doing_io
    → Serves s.io_queue r
    → IsSim (complete_io r s)
unfolding complete_io
complete_io-IsSim s (none, io) v pos same =
    relocate s creating s.processes_created s.simulator_time s.counters io v
      (λ c f. ground (arith, sym pos ∙ f)) (rw pos refl) same tt
complete_io-IsSim s (some p, io) v pos same = record {
  queued = v.queued;
  os = v.os;
  agree = v.agree;
  stands = v.stands;
  programs =
      update_all (λ r o. r < process_count → IsProgram o) s.ops p (drop 1 (s.ops p))
        (λ l. drop-IsProgram (s.ops p) (v.programs p l) own.0) (λ r ne. v.programs r);
  requests = λ r h.
      let (b, w) = calm s v quiet r (requested r h) in
      let ne : r ≢ p = λ e. ground (arith, nodup.0, ap (λ i. has i (waiting_for io)) e) in
      (rw (update_ne s.ops p r (drop 1 (s.ops p)) ne) b, inl w);
  distinct = nodup.1;
  fresh = λ r h. v.fresh r (rw pos h);
  few = subst (λ q. s.processes_created + uncounted q ≤ process_count) pos v.few;
  woken = (own.1, nodup.0);
}
  where
    quiet : Quiet s.supervisor
    quiet c f = ground (arith, sym pos ∙ f)

    nodup : IsNodup (p ∷ waiting_for io)
    nodup = subst IsNodup same v.distinct

    requested : (r : ℕ) → has r (waiting_for io) ≡ true → has r (waiting_for s.io_queue) ≡ true
    requested r h = ap (has r) same ∙ ground (arith, h)

    own : Blocked (s.ops p) × ((s.os.pcbs p).state ≡ process_waiting)
    own = calm s v quiet p (ap (has p) same ∙ ground arith)

Stands-Nudged :
    (t : CpuThread) (d d' : CpuData) (r : Option ℕ)
    → Nudged d d'
    → Stands t d.state r
    → Stands t d'.state r
Stands-Nudged looping d d' r h k = tt
Stands-Nudged waiting d d' r (_, inl e) (busy, at) = (λ i. busy (sym e ∙ i), at)
Stands-Nudged waiting d d' r (_, inr (_, e)) (busy, at) = (λ i. ground (arith, sym e ∙ i), at)
Stands-Nudged (calling st) d d' r h k = k

module _ (s : Sim) (v : IsSim s) (caller : Caller) (p : ℕ)
    (pos : s.supervisor ≡ waking caller p) where
  quiet : Quiet s.supervisor
  quiet c f = ground (arith, sym pos ∙ f)

  woken-Keeps :
      (s.os.pcbs p).state ≢ process_ready
      → (s.os.pcbs p).state ≢ process_running
      → ((r : ℕ) → has r (waiting_for s.io_queue) ≡ true → r ≢ p)
      → let q = after_wake_up caller (wake_up_waits p s.os) in
        ((r : ℕ)
          → s.processes_created + uncounted q ≤ r
          → (r ≢ p) × ((s.os.pcbs r).state ≡ process_new))
        → s.processes_created + uncounted q ≤ process_count
        → ((t : Sim) → Waking q t)
        → Keeps (call_wake_up caller p s)
  unfolding call_wake_up
  woken-Keeps out stopped apart fresh few rest =
      let (os, e, w, k) = wake_up-Woke s.os v.queued p v.os out stopped in
      let q = after_wake_up caller (wake_up_waits p s.os) in
      (
        record s { os = os; supervisor = q },
        rw (call_wake_up, e) refl,
        record {
          queued = v.queued ++ p ∷ [];
          os = w;
          agree = λ c. (k.nudged c).0 ∙ v.agree c ∙ ap (λ (f : ℕ → Option ℕ). f c) (sym k.current);
          stands = λ c. rw (ap (λ (f : ℕ → Option ℕ). f c) k.current) (
              Stands-Nudged (s.threads c) (s.os.cpu_data c) (os.cpu_data c) (s.os.current c)
                (k.nudged c) (v.stands c));
          programs = v.programs;
          requests =
              λ r h. let (b, e) = calm s v quiet r h in (b, inl (k.states r (apart r h) ∙ e));
          distinct = v.distinct;
          fresh = λ r h. k.states r (fresh r h).0 ∙ (fresh r h).1;
          few = few;
          woken = rest (record s { os = os; supervisor = q });
        },
      )

uncounted_io : (w : Option ℕ) → uncounted (after_wake_up by_io w) ≡ 0
unfolding after_wake_up
uncounted_io none = refl
uncounted_io (some c) = refl

uncounted_creat : (w : Option ℕ) → uncounted (after_wake_up by_creat w) ≡ 1
unfolding after_wake_up
uncounted_creat none = refl
uncounted_creat (some c) = refl

Waking-after : (caller : Caller) (w : Option ℕ) (t : Sim) → Waking (after_wake_up caller w) t
unfolding after_wake_up
Waking-after by_io none t = tt
Waking-after by_io (some c) t = tt
Waking-after by_creat none t = tt
Waking-after by_creat (some c) t = tt

pub call_wake_up-Keeps :
    (s : Sim) (caller : Caller) (p : ℕ)
    → IsSim s
    → s.supervisor ≡ waking caller p
    → Keeps (call_wake_up caller p s)
call_wake_up-Keeps s by_io p v pos =
    let w : Waking (waking by_io p) s = subst (λ q. Waking q s) pos v.woken in
    let none_more = uncounted_io (wake_up_waits p s.os) in
    let now : uncounted s.supervisor ≡ 0 = rw pos refl in
    woken-Keeps s v by_io p pos (λ e. ground (arith, sym w.0 ∙ e))
      (λ e. ground (arith, sym w.0 ∙ e))
      (λ r h e. ground (arith, w.1, ap (λ i. has i (waiting_for s.io_queue)) e))
      (λ r h.
        let n = v.fresh r (omega (arith, none_more, now)) in
        (λ e. ground (arith, sym w.0 ∙ ap (λ i. (s.os.pcbs i).state) (sym e) ∙ n), n))
      (omega (arith, none_more, now, v.few)) (Waking-after by_io (wake_up_waits p s.os))
call_wake_up-Keeps s by_creat p v pos =
    let w : Waking (waking by_creat p) s = subst (λ q. Waking q s) pos v.woken in
    let one_more = uncounted_creat (wake_up_waits p s.os) in
    let now : uncounted s.supervisor ≡ 0 = rw pos refl in
    let new : (s.os.pcbs p).state ≡ process_new = v.fresh p (omega (arith, now, w.0)) in
    woken-Keeps s v by_creat p pos (λ e. ground (arith, sym new ∙ e))
      (λ e. ground (arith, sym new ∙ e))
      (λ r h e.
        let (_, k) = calm s v (λ c f. ground (arith, sym pos ∙ f)) r h in
        ground (arith, sym k ∙ ap (λ i. (s.os.pcbs i).state) e ∙ new))
      (λ r h. (omega (arith, one_more, w.0), v.fresh r (omega (arith, one_more, now))))
      (omega (arith, one_more, w.0, w.1)) (Waking-after by_creat (wake_up_waits p s.os))
